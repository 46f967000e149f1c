-- ===== src/Device/Mmu/Schedule.antt =====
-- device/memory/page_table.cpp, device/memory/mmu.cpp: pages get a frame, a new one or that of a
-- page that is replaced.
pub mod Faults
pub mod Served
pub mod Clean
pub mod FirstEviction
use ferry_os.Prelude.{
  ℕ, ◌+◌, ◌^◌, Bool, true, false, not, ◌||◌, Option, none, some, List, [], ◌∷◌, ltb, leb, ◌==◌,
  if◌then◌else◌,
}
use ferry_os.Prelude.Words.{u32}
use ferry_os.Device.PageTableItem.{
  PageTableItem, FrameTableItem, new, reset, set_logical_page, set_item_pid, swap_out_memory,
  set_frame_address,
}
use ferry_os.Device.Mmu.Frames.{
  get_available_frame, get_need_alloc_frame, frame_address_at, change_frame,
}
use ferry_os.Device.Mmu.ProcessTable.{ProcessTableItem, put_item}
use ferry_os.Device.Mmu.PageTable.{
  Slot, Key, PageTable, erase_key, insert_key, assign_key, change_slot, change_item, follow,
  used_item, used_page, find_victim, is_full,
}
use ferry_os.Device.Mmu.State.{
  Mmu, Step, return, get_process, get_process_page_table_item, put_process, update_all, new_space,
  use_page_table,
}

abbrev pub set_used : PageTableItem → PageTableItem
set_used i = record i { used = true }

-- `setSystem` and `setHosted` for the pages of the system, whose pid is 0.
abbrev pub host : ℕ → PageTableItem → PageTableItem
host pid i = if pid == 0 then record i { system = true; hosted = true } else i

abbrev pub swap_out_item : ℕ → ℕ → Mmu → ProcessTableItem → PageTableItem → Mmu
swap_out_item pid page m p i =
    let (swap, j, memory, _) = swap_out_memory (2 ^ m.page_bit) m.swap i m.memory in
    record m {
      swap = swap;
      memory = memory;
      process_table = put_process pid (put_item page j p) m.process_table;
    }

-- The entry of the process for a page that loses its frame: it is swapped out if it is marked as
-- changed or never was swapped out.
abbrev pub evict_from : ℕ → ℕ → Mmu → ProcessTableItem → Mmu
evict_from pid page m p = elim (p.pages page) [
  | none ↦ m
  | some i ↦ if i.changed || not i.have_swapped then swap_out_item pid page m p i else m
]

unfoldable pub evict : ℕ → ℕ → Mmu → Mmu
evict pid page m = elim (get_process pid m) [ none ↦ m | some p ↦ evict_from pid page m p ]

abbrev relabel : ℕ → ℕ → PageTableItem → PageTableItem
relabel page pid i = host pid (set_used (reset (set_item_pid pid (set_logical_page page i))))

-- The entry of a page that is no more in the map.
abbrev pub erase : PageTableItem → Mmu → Mmu
erase old =
    use_page_table (λ t. record t { page_map = erase_key old.logical_page old.pid t.page_map })

-- The entry `v` gets another page, comes to the head of the list and into the map.
abbrev pub relink : ℕ → ℕ → ℕ → Mmu → Mmu
relink v page pid m =
    let linked =
      use_page_table
        (λ t. used_item v (record t { slots = change_item (relabel page pid) v t.slots })) m in
    use_page_table (λ t. record t { page_map = insert_key page pid v t.page_map }) linked

-- The part of `schedule` behind its loop.
unfoldable pub replace_page : ℕ → ℕ → ℕ → Mmu → Mmu
replace_page v page pid m =
    let old = (m.page_table.slots v).item in
    update_all page pid old.physical_address
      (relink v page pid (evict old.pid old.logical_page (erase old m)))

-- A walk over the links that is longer than the number of entries that were ever made meets an
-- entry for the second time, and does not end.
unfoldable pub schedule : ℕ → ℕ → Step Bool
schedule page pid m =
    elim (find_victim (m.page_table.alloced_count + 1) m.page_table m.page_table.lru_tail) [
      | none ↦ none
      | some none ↦ some (false, m)
      | some (some v) ↦ some (true, replace_page v page pid m)
    ]

-- The first key in the order of the map whose entry is in use.
unfoldable pub first_used : (ℕ → Slot) → List Key → Option Key
first_used slots [] = none
first_used slots (k ∷ keys) = if (slots k.slot).item.used then some k else first_used slots keys

-- The entry for a new page, with the map and the counter of the entries made.
unfoldable pub choose_slot : PageTable → ℕ × List Key × ℕ
choose_slot t =
    if ltb t.used_count t.alloced_count
    then elim (first_used t.slots t.page_map) [
      | none ↦ (t.used_count, t.page_map, t.alloced_count)
      | some k ↦ (k.slot, erase_key k.key_page k.key_pid t.page_map, t.alloced_count)
    ]
    else (t.used_count, t.page_map, u32 (t.alloced_count + 1))

-- The new entry at the head of the list.
unfoldable pub push_slot : ℕ → PageTableItem → PageTable → PageTable
push_slot k i t =
    let fresh = change_slot (λ _. record { item = i; pre = none; next = t.lru_head }) k t.slots in
    record t {
      slots = follow (λ s. record s { pre = some k }) t.lru_head fresh;
      lru_head = some k;
      lru_tail = elim t.lru_tail [ none ↦ some k | some tail ↦ some tail ];
    }

-- `clearChanged` of the source sets the mark.
abbrev pub mark_new : ℕ → PageTableItem → PageTableItem
mark_new pid i = host pid (record i { used = true; changed = true })

-- `insertPage` with an address, where the table is not full.
unfoldable pub add_page : ℕ → ℕ → ℕ → Mmu → Mmu
add_page page pid address m =
    let (k, keys, alloced) = choose_slot m.page_table in
    let added =
      use_page_table
        (λ t.
          push_slot k (new page pid address m.swap)
            (record t { page_map = assign_key page pid k keys; alloced_count = alloced }))
        m in
    use_page_table
      (λ t. record t {
        used_count = u32 (t.used_count + 1);
        slots = change_item (mark_new pid) k t.slots;
      })
      (update_all page pid address added)

unfoldable pub insert_page_at : ℕ → ℕ → ℕ → Step Bool
insert_page_at page pid address m =
    if is_full m.page_table then schedule page pid m else some (true, add_page page pid address m)

-- The part of `insertPage` without an address where the table is not full, for the frame that is
-- available and the one that needs memory, if there are.
abbrev pub insert_in_frame : ℕ → ℕ → Mmu → Option ℕ → Option ℕ → Option (Bool × Mmu)
insert_in_frame page pid m (some i) need_alloc =
    insert_page_at page pid (frame_address_at i m.frame_table) m
insert_in_frame page pid m none (some i) =
    let (space, n) = new_space (2 ^ m.page_bit) m in
    insert_page_at page pid space
      (record n { frame_table = change_frame (set_frame_address space) i n.frame_table })
insert_in_frame page pid m none none = some (false, m)

unfoldable pub insert_page : ℕ → ℕ → Step Bool
insert_page page pid m =
    if is_full m.page_table
    then schedule page pid m
    else insert_in_frame page pid m (get_available_frame m.frame_table)
        (get_need_alloc_frame m.frame_table)

abbrev pub fault_of : ℕ → ℕ → Mmu → Option PageTableItem → Option (Bool × Mmu)
fault_of pid page m none = some (false, m)
fault_of pid page m (some i) =
    if i.in_memory
    then some (true, m)
    else if i.swapped
    then schedule page pid m
    else insert_page page pid m

unfoldable pub page_fault : ℕ → ℕ → Step Bool
page_fault pid page m = fault_of pid page m (get_process_page_table_item pid page m)

abbrev pub use_page : ℕ → ℕ → Mmu → Mmu
use_page page pid = use_page_table (used_page page pid)
