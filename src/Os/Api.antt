-- ===== src/Os/Api.antt =====
-- os/oscore/OSCore.cpp: the system calls, by which programs reach the kernel. Arguments are popped
-- from the stack of the caller, results go to register 1.
use ferry_os.Prelude.{ℕ, ◌+◌, ◌-◌, ◌^◌, none, some, ltb, if◌then◌else◌}
use ferry_os.Prelude.Words.{u16}
use ferry_os.Config.{Config}
use ferry_os.Device.Mmu.State.{Mmu}
use ferry_os.Machine.{M, Core, pure, ◌>>=◌, change_cpu}
use ferry_os.Device.Processor.Stack.{pop}
use ferry_os.Os.PcbManager.{Err}
use ferry_os.Os.Core.{sem_accept, sem_create, sem_delete, sem_post}
use ferry_os.Os.Calls.{process_delete, sem_pend}

-- The numbers of the error codes.
abbrev pub err_code : Err → ℕ
err_code Err.no_err = 0x00
err_code Err.no_free_pcb = 0x05
err_code Err.del_invalid = 0x06
err_code Err.del_idle = 0x07
err_code Err.no_free_sem = 0x08
err_code Err.sem_invalid = 0x09
err_code Err.sem_del_pending = 0x0a
err_code Err.sem_post_no_pend = 0x0b

-- An INT16 as an int.
abbrev pub sext16 : ℕ → ℕ
sext16 w = if ltb w (2 ^ 15) then w else w + (2 ^ 32 - 2 ^ 16)

abbrev set_result : {S : Type 0} → ℕ → M S (Unit {0})
set_result v = change_cpu (λ c. record c { reg1 = v })

-- An operation of the kernel that leaves the processor alone.
abbrev on_core : {S A : Type 0} → (Core → Core × A) → M S A
on_core f m = let (c, a) = f m.core in some (a, record m { core = c })

module _ (cfg : Config) where
  unfoldable pub api_process_delete : M Mmu (Unit {0})
  api_process_delete = do pid ← pop; err ← process_delete cfg (u16 pid); set_result (err_code err)

  unfoldable pub api_sem_accept : M Mmu (Unit {0})
  api_sem_accept = do
    sem_id ← pop
    res ← on_core (sem_accept cfg (u16 sem_id))
    set_result (if res then 1 else 0)

  unfoldable pub api_sem_pend : M Mmu (Unit {0})
  api_sem_pend = do sem_id ← pop; delay ← pop; err ← sem_pend cfg (u16 sem_id) (u16 delay); pure tt

  unfoldable pub api_sem_post : M Mmu (Unit {0})
  api_sem_post = do
    sem_id ← pop
    err ← on_core (sem_post cfg (u16 sem_id))
    set_result (err_code err)

  unfoldable pub api_sem_delete : M Mmu (Unit {0})
  api_sem_delete = do
    sem_id ← pop
    err ← on_core (sem_delete cfg (u16 sem_id))
    set_result (err_code err)

  unfoldable pub api_sem_create : M Mmu (Unit {0})
  api_sem_create = do
    init_ctr ← pop
    largest_ctr ← pop
    λ m. elim (sem_create init_ctr largest_ctr m.core) [
      | none ↦ none
      | some (c, sem_id, err) ↦ set_result (sext16 sem_id) (record m { core = c })
    ]
