-- ===== src/Device/Processor/Reset.antt =====
-- device/processor/processor.cpp: the reset and the access to single registers from outside.
use ferry_os.Prelude.{ℕ}
use ferry_os.Prelude.Words.{add32}
use ferry_os.Machine.{Cpu}
use ferry_os.Device.Processor.Decode.{instr_len}

-- The instruction register keeps its value.
unfoldable pub reset : Cpu → Cpu
reset c = record c {
  flag = 0;
  pc = 0;
  ss = 0;
  sp = 0;
  cs = 0;
  ds = 0;
  fs = 0;
  as_ = 0;
  bp = 0;
  reg0 = 0;
  reg1 = 0;
  reg2 = 0;
  reg3 = 0;
}

unfoldable pub inc_pc : Cpu → Cpu
inc_pc c = record c { pc = add32 c.pc instr_len }

unfoldable pub set_ss : ℕ → Cpu → Cpu
set_ss ss c = record c { ss = ss }

unfoldable pub set_sp : ℕ → Cpu → Cpu
set_sp sp c = record c { sp = sp }

unfoldable pub set_cs : ℕ → Cpu → Cpu
set_cs cs c = record c { cs = cs }

unfoldable pub set_ds : ℕ → Cpu → Cpu
set_ds ds c = record c { ds = ds }

unfoldable pub set_fs : ℕ → Cpu → Cpu
set_fs fs c = record c { fs = fs }

unfoldable pub set_as : ℕ → Cpu → Cpu
set_as as_ c = record c { as_ = as_ }

unfoldable pub set_bp : ℕ → Cpu → Cpu
set_bp bp c = record c { bp = bp }
