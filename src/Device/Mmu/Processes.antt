-- ===== src/Device/Mmu/Processes.antt =====
-- device/memory/mmu.cpp: the memory of a process when it begins and ends.
-- A file of the host is the list of its bytes, or none where it does not exist.
pub mod Ends
use ferry_os.Prelude.{
  ℕ, zero, suc, ◌+◌, ◌-◌, ◌*◌, ◌/◌, ◌%◌, ◌^◌, Bool, true, false, not, Option, none, some, List, [],
  ◌∷◌, ltb, leb, ◌==◌, if◌then◌else◌, set, length,
}
use ferry_os.Device.SwapSpace.{SwapSpace, clear_swap_page}
use ferry_os.Device.PageTableItem.{PageTableItem, FrameTableItem, new, clear_frame}
use ferry_os.Device.Mmu.Frames.{get_frame, change_frame}
use ferry_os.Device.Mmu.ProcessTable.{ProcessTableItem, new_table, insert_item, put_item, page_up}
use ferry_os.Device.Mmu.PageTable.{clear_page_for_pid}
use ferry_os.Device.Mmu.State.{
  Mmu, Step, return, ◌>>=◌, ◌>>◌, get_process, get_process_page_table_item, change_process,
  use_page_table, with_frames,
}
use ferry_os.Device.Mmu.Access.{get_physical_pointer, store, first_bytes, rest_bytes}
use ferry_os.Device.Mmu.UserMemory.{alloc_user_memory, clear_used}

-- The first number that is not in use.
unfoldable pub free_number : List Bool → Option ℕ
free_number [] = none
free_number (true ∷ used) = elim (free_number used) [ none ↦ none | some i ↦ some (suc i) ]
free_number (false ∷ used) = some zero

-- The loop that fills the table of a process, from the page `i` on.
unfoldable pub fill_table : ℕ → ℕ → ℕ → SwapSpace → ProcessTableItem → ProcessTableItem
fill_table zero i pid s p = p
fill_table (suc count) i pid s p = fill_table count (i + 1) pid s (insert_item (new i pid 0 s) p)

-- The loop that copies the code, page by page; it writes to the pointer that it gets without a test.
unfoldable pub copy_code : ℕ → ℕ → ℕ → List ℕ → Step (Unit {0})
copy_code zero page pid code m = some (tt, m)
copy_code (suc count) page pid code m =
    (get_physical_pointer page pid >>= λ (dst : Option ℕ). λ n. elim dst [
      | none ↦ none
      | some base ↦
          copy_code count (page + 1) pid (rest_bytes (2 ^ n.page_bit) code)
            (record n { memory = store base 0 (first_bytes (2 ^ n.page_bit) code) n.memory })
    ])
      m

abbrev pub set_heap_used_size : ℕ → ProcessTableItem → ProcessTableItem
set_heap_used_size size p = record p { heap_used_size = size }

abbrev pub set_heap_address : ℕ → ProcessTableItem → ProcessTableItem
set_heap_address address p = record p { heap_address = address }

-- A change of the new table, which is that of the process only if the pid was new.
abbrev change_new : Bool → (ProcessTableItem → ProcessTableItem) → ℕ → Mmu → Mmu
change_new is_new change pid m = if is_new then change_process change pid m else m

-- The part of `allocProcess` behind the table of the process: the stack, the code and the heap.
unfoldable pub load_process : Bool → ℕ → ℕ → ℕ → List ℕ → Step Bool
load_process is_new pid page_count stack_page_count code m =
    (alloc_user_memory pid (stack_page_count * 2 ^ m.page_bit)
          ((page_count + 2 ^ 64 - stack_page_count) * 2 ^ m.page_bit % 2 ^ 64)
        >>= λ (_ : ℕ). alloc_user_memory pid (length code) 0 >>= λ (_ : ℕ). λ n.
          (copy_code (page_up n.page_bit (length code)) 0 pid code >>= λ (_ : Unit {0}).
          λ o. some (true, change_new is_new (set_heap_address (length code)) pid o))
            (change_new is_new (set_heap_used_size 0) pid n))
      m

-- The new table goes into the map unless the pid is there already; then the map keeps the old one,
-- and the new one is not found any more.
abbrev add_process : ℕ → ProcessTableItem → Option ProcessTableItem → Mmu → Mmu
add_process pid p (some old) m = m
add_process pid p none m = record m { process_table = (pid, p) ∷ m.process_table }

abbrev is_none : Option ProcessTableItem → Bool
is_none none = true
is_none (some p) = false

-- The result is none where no number is free, for then the source writes over the table of the
-- process with the number 0.
unfoldable pub alloc_process : ℕ → Option (List ℕ) → ℕ → ℕ → Step Bool
alloc_process pid exe page_count stack_page_count m =
    if length m.process_table == m.maximum_tasks then some (false, m) else elim exe [
      | none ↦ some (false, m)
      | some code ↦ elim (free_number m.process_table_used) [
        | none ↦ none
        | some number ↦
            let p =
              fill_table page_count 0 pid m.swap
                (new_table pid page_count stack_page_count number) in
            load_process (is_none (get_process pid m)) pid page_count stack_page_count code (
              add_process pid p (get_process pid m)
                (record m { process_table_used = set m.process_table_used number true }))
      ]
    ]

-- The page of an entry in memory: the entry is not in use any more, and its frame is released.
abbrev pub leave_memory : ℕ → ℕ → PageTableItem → Mmu → Mmu
leave_memory pid page i m = change_process (put_item page (clear_used i)) pid (
    with_frames
      (λ frames. elim (get_frame i.physical_address frames) [
        | none ↦ frames
        | some k ↦ change_frame clear_frame k frames
      ])
      m)

abbrev pub leave_swap : PageTableItem → Mmu → Mmu
leave_swap i m = record m { swap = clear_swap_page i.swap_page m.swap }

-- What the loop of `freeProcess` does with a page.
abbrev pub free_item : ℕ → ℕ → Mmu → Option PageTableItem → Mmu
free_item pid page m none = m
free_item pid page m (some i) =
    let n = (if i.in_memory then leave_memory pid page i m else m) in
    if i.have_swapped then leave_swap i n else n

unfoldable pub free_page : ℕ → ℕ → Mmu → Mmu
free_page pid page m = free_item pid page m (get_process_page_table_item pid page m)

unfoldable pub free_pages : ℕ → ℕ → ℕ → Mmu → Mmu
free_pages zero page pid m = m
free_pages (suc count) page pid m = free_pages count (page + 1) pid (free_page pid page m)

unfoldable pub erase_process : ℕ → List (ℕ × ProcessTableItem) → List (ℕ × ProcessTableItem)
erase_process pid [] = []
erase_process pid ((q, p) ∷ table) = if q == pid then table else (q, p) ∷ erase_process pid table

-- The part of `freeProcess` behind its tests.
abbrev pub end_process : ℕ → Mmu → ProcessTableItem → Mmu
end_process pid m p =
    let n =
      free_pages p.page_count 0 pid
        (record m { process_table_used = set m.process_table_used p.process_table_number false }) in
    let o = use_page_table (clear_page_for_pid pid) n in
    record o { process_table = erase_process pid o.process_table }

abbrev pub end_if_found : ℕ → Mmu → Option ProcessTableItem → Mmu × Bool
end_if_found pid m none = (m, false)
end_if_found pid m (some p) =
    if leb m.maximum_tasks p.process_table_number then (m, false) else (end_process pid m p, true)

unfoldable pub free_process : ℕ → Mmu → Mmu × Bool
free_process pid m = end_if_found pid m (get_process pid m)
