-- ===== src/Device/Mmu/SystemMemory.antt =====
-- device/memory/mmu.cpp: setting up the unit, and the memory of the system itself.
use ferry_os.Prelude.{
  ℕ, zero, suc, ◌+◌, ◌-◌, ◌*◌, ◌/◌, ◌^◌, Bool, false, ◌&&◌, Option, none, some, [], ltb, leb,
  if◌then◌else◌, replicate, length,
}
use ferry_os.Config.{Config}
use ferry_os.Device.SwapSpace.{SwapSpace}
use ferry_os.Device.PageTableItem.{FrameTableItem, Physical, update_frame, new_frame}
use ferry_os.Device.Mmu.Frames.{get_need_alloc_frame, change_frame}
use ferry_os.Device.Mmu.ProcessTable.{page_up}
use ferry_os.Device.Mmu.PageTable.{Slot, new_page_table}
use ferry_os.Device.Mmu.State.{Mmu, Step, ◌>>=◌, with_frames}
use ferry_os.Device.Mmu.Schedule.{insert_page_at}

-- What the compiler gives as `sizeof` of the classes.
pub record Sizes : Type 0 where
  pub mmu_size : ℕ
  pub page_table_size : ℕ
  pub item_size : ℕ
  pub frame_size : ℕ
  pub process_size : ℕ

-- The pages of the system that the page table and the tables of the processes take.
unfoldable pub page_table_page : Sizes → Config → ℕ
page_table_page s cfg = page_up cfg.default_page_bit (cfg.default_capacity * s.item_size)

unfoldable pub process_table_page : Sizes → Config → ℕ
process_table_page s cfg =
    page_up cfg.default_page_bit
      ((cfg.maximum_task_page * s.item_size + s.process_size) * cfg.maximum_tasks)

-- `check`: the boot memory holds the unit and the frame table, and the pages of the system hold the two
-- tables. Its estimate of the pages counts one more than is needed for a whole number of pages.
unfoldable pub check : Sizes → Config → Bool
check s cfg =
    let page_size = 2 ^ cfg.default_page_bit in
    leb (s.mmu_size + cfg.default_capacity * s.frame_size) (cfg.boot_memory_kb * 1024)
    && leb
        ((cfg.default_capacity * s.item_size + s.page_table_size) / page_size
          + 1
          + ((cfg.maximum_task_page * s.item_size + s.process_size) * cfg.maximum_tasks / page_size
              + 1))
        cfg.default_os_used_page

-- The loops of `init`, which enter the page `i` of the system at its address into both tables.
unfoldable pub enter_pages : ℕ → ℕ → Step (Unit {0})
enter_pages zero i m = some (tt, m)
enter_pages (suc count) i m =
    let address = m.system_address + i * 2 ^ m.page_bit in
    (insert_page_at i 0 address >>= λ (_ : Bool). λ n.
        let rest =
          enter_pages count (i + 1) (with_frames (change_frame (update_frame address i 0) i) n) in
        if ltb i (length n.frame_table) then rest else none)
      m

-- The unit before the loops. The host gives the memory of the system at `system_address`, and the next
-- memory behind it; frames and entries are in memory that is as it is found.
unfoldable pub fresh_mmu :
    Sizes → Config → ℕ → ℕ → FrameTableItem → (ℕ → Slot) → Physical → SwapSpace → Mmu
fresh_mmu s cfg capacity system_address frame slots memory swap =
    let system_pages = page_table_page s cfg + process_table_page s cfg in
    record {
      page_bit = cfg.default_page_bit;
      maximum_tasks = cfg.maximum_tasks;
      os_used_page = cfg.default_os_used_page;
      page_table = new_page_table capacity slots;
      frame_table = replicate cfg.default_capacity (new_frame 0 frame);
      process_table = [];
      process_table_used = replicate cfg.maximum_tasks false;
      system_address = system_address;
      system_used_size = system_pages * 2 ^ cfg.default_page_bit;
      hosted_size = system_pages * 2 ^ cfg.default_page_bit;
      swap = swap;
      memory = memory;
      space_address = system_address + cfg.default_os_used_page * 2 ^ cfg.default_page_bit;
    }

unfoldable pub init :
    Sizes → Config → ℕ → ℕ → FrameTableItem → (ℕ → Slot) → Physical → SwapSpace → Option Mmu
init s cfg capacity system_address frame slots memory swap =
    elim (enter_pages (page_table_page s cfg + process_table_page s cfg) 0
      (fresh_mmu s cfg capacity system_address frame slots memory swap)) [
        | none ↦ none
        | some (_, m) ↦ some m
      ]

-- The loop of `allocSystemMemory`; it follows the frame that needs memory without a test.
unfoldable pub add_system_pages : ℕ → ℕ → ℕ → Step (Unit {0})
add_system_pages zero page address m = some (tt, m)
add_system_pages (suc count) page address m =
    (insert_page_at page 0 address >>= λ (_ : Bool). λ n.
        elim (get_need_alloc_frame n.frame_table) [
          | none ↦ none
          | some i ↦
              add_system_pages count (page + 1) (address + 2 ^ n.page_bit)
                (with_frames (change_frame (update_frame address page 0) i) n)
        ])
      m

-- The pages that `allocSystemMemory` enters: their number, and the first.
unfoldable pub system_pages_needed : ℕ → ℕ → ℕ → ℕ
system_pages_needed page_bit used size = page_up page_bit (used + size) - used / 2 ^ page_bit

unfoldable pub alloc_system_memory : ℕ → Step ℕ
alloc_system_memory size m =
    let used = m.system_used_size in
    let first = page_up m.page_bit used in
    if ltb (m.os_used_page * 2 ^ m.page_bit) (used + size)
    then some (0, m)
    else (add_system_pages (system_pages_needed m.page_bit used size) first
            (m.system_address + first * 2 ^ m.page_bit)
          >>= λ (_ : Unit {0}). λ n. some (used, record n { system_used_size = used + size }))
        m
