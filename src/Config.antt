-- ===== src/Config.antt =====
-- config/config.cpp, include/config/config.h, include/config/macro.h: the configuration.
-- `Config` flattens the nested structs; `load_default` stands for `Config::loadDefault` with the
-- macros put in. Sizes are unsigned; the fields keep the source's units.
use ferry_os.Prelude.{ℕ, ◌*◌, ◌/◌, ◌^◌}
use Prim.Native.String.{String}

pub record Config : Type 0 where
  pub core_num : ℕ
  pub cpu_rate : ℕ
  pub root_path : String
  pub block_size : ℕ
  pub block_count : ℕ
  pub default_block : ℕ
  pub max_block : ℕ
  pub min_block : ℕ
  pub default_blocks_per_file : ℕ
  pub default_capacity : ℕ
  pub default_process_page : ℕ
  pub default_stack_page : ℕ
  pub default_page_bit : ℕ
  pub default_page_size : ℕ
  pub default_os_used_page : ℕ
  pub swap_page : ℕ
  pub swap_block : ℕ
  pub swap_size : ℕ
  pub boot_memory_kb : ℕ
  pub maximum_tasks : ℕ
  pub maximum_task_page : ℕ
  pub exec_file_ext : String
  pub ticks_per_sec : ℕ
  pub ticks_per_sched : ℕ
  pub max_sem : ℕ

abbrev pub load_default : Config
load_default = record {
  core_num = 2;
  cpu_rate = 5;
  root_path = "./fs";
  block_size = 512;
  block_count = 8388608;
  default_block = 2;
  max_block = 16;
  min_block = 0;
  default_blocks_per_file = 4;
  default_capacity = 1024;
  default_process_page = 16;
  default_stack_page = 1;
  default_page_bit = 20;
  default_page_size = 2 ^ 20;
  default_os_used_page = 1024 / 2 ^ 3;
  swap_page = 1024;
  swap_block = 1024 * (2 ^ 20 / 512);
  swap_size = 1024 * 2 ^ 20;
  boot_memory_kb = 512;
  maximum_tasks = 64;
  maximum_task_page = 1024 * 2;
  exec_file_ext = ".FSE";
  ticks_per_sec = 2;
  ticks_per_sched = 5;
  max_sem = 64;
}
