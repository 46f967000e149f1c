-- ===== src/Device/Mmu/UserMemory.antt =====
-- device/memory/mmu.cpp: giving memory to processes and taking it back.
use ferry_os.Prelude.{
  ℕ, zero, suc, ◌+◌, ◌-◌, ◌*◌, ◌/◌, ◌%◌, ◌^◌, Bool, false, none, some, List, [], ◌∷◌, ltb, leb,
  ◌==◌, if◌then◌else◌,
}
use ferry_os.Device.PageTableItem.{PageTableItem, update_frame}
use ferry_os.Device.Mmu.Frames.{
  get_available_frame, get_need_alloc_frame, get_available_frame_count, get_need_alloc_frame_count,
  change_frame, frame_address_at, free_frame,
}
use ferry_os.Device.Mmu.ProcessTable.{
  ProcessTableItem, put_item, can_alloc, can_use_pages, get_heap_header,
  get_alloc_but_not_used_size, page_up,
}
use ferry_os.Device.Mmu.PageTable.{get_page_table_item, change_item}
use ferry_os.Device.Mmu.State.{
  Mmu, Step, ◌>>=◌, get_process, get_process_page_table_item, change_process, update_process,
  new_space, with_frames, use_page_table,
}
use ferry_os.Device.Mmu.Schedule.{insert_page_at, insert_page}

-- The numbers from `first` on.
unfoldable pub range : ℕ → ℕ → List ℕ
range first zero = []
range first (suc count) = first ∷ range (first + 1) count

-- The frame `i` gets a page of a process, in the three tables.
unfoldable pub map_frame : ℕ → ℕ → ℕ → ℕ → Step Bool
map_frame i address page pid m =
    let n = with_frames (change_frame (update_frame address page pid) i) m in
    insert_page_at page pid address (update_process page pid address n)

-- The first loop, over frames that have memory; the pages that are left.
unfoldable pub reuse_frames : ℕ → ℕ → List ℕ → Step (List ℕ)
reuse_frames zero pid pages m = some (pages, m)
reuse_frames (suc count) pid [] m = none
reuse_frames (suc count) pid (page ∷ pages) m = elim (get_available_frame m.frame_table) [
  | none ↦ none
  | some i ↦
      (map_frame i (frame_address_at i m.frame_table) page pid >>= λ (_ : Bool).
      reuse_frames count pid pages)
        m
]

-- The second loop, over frames that get new memory, one page after the other.
unfoldable pub alloc_frames : ℕ → ℕ → ℕ → List ℕ → Step (List ℕ)
alloc_frames zero space pid pages m = some (pages, m)
alloc_frames (suc count) space pid [] m = none
alloc_frames (suc count) space pid (page ∷ pages) m = elim (get_need_alloc_frame m.frame_table) [
  | none ↦ none
  | some i ↦
      (map_frame i space page pid >>= λ (_ : Bool).
      alloc_frames count (space + 2 ^ m.page_bit) pid pages)
        m
]

-- The third loop, where pages of others are replaced.
unfoldable pub replace_frames : ℕ → ℕ → List ℕ → Step (Unit {0})
replace_frames zero pid pages m = some (tt, m)
replace_frames (suc count) pid [] m = none
replace_frames (suc count) pid (page ∷ pages) m =
    (insert_page page pid >>= λ (_ : Bool). replace_frames count pid pages) m

-- The three loops, for `count` pages.
unfoldable pub map_pages : ℕ → ℕ → List ℕ → Step (Unit {0})
map_pages count pid pages m =
    let available = get_available_frame_count m.frame_table in
    let reuse = (if ltb available count then available else count) in
    (reuse_frames reuse pid pages >>= λ (more : List ℕ). λ n.
        let left = count - reuse in
        let need_alloc = get_need_alloc_frame_count n.frame_table in
        let alloc = (if ltb need_alloc left then need_alloc else left) in
        let (space, o) = new_space (alloc * 2 ^ n.page_bit) n in
        (alloc_frames alloc space pid more >>= λ (last : List ℕ).
        replace_frames (left - alloc) pid last)
          o)
      m

-- The pages that an allocation may use, which are none where it goes behind the heap. The end of the
-- range is `endPage` of the source, and from a later start there are none.
unfoldable pub inter_pages : ℕ → ℕ → ℕ → ProcessTableItem → List ℕ
inter_pages page_bit size start p =
    if start == 0
    then can_use_pages page_bit size p
    else range (page_up page_bit start)
        (page_up page_bit ((size + start) % 2 ^ 64) - page_up page_bit start)

-- The unsigned difference wraps where the start lies behind the pages.
unfoldable pub has_room : ℕ → ℕ → ℕ → ProcessTableItem → Bool
has_room page_bit size start p =
    if start == 0
    then can_alloc page_bit size p
    else leb size ((p.page_count * 2 ^ page_bit + 2 ^ 64 - start) % 2 ^ 64)

-- The number of pages that `allocUserMemory` asks for.
unfoldable pub pages_needed : ℕ → ℕ → ProcessTableItem → ℕ
pages_needed page_bit size p =
    let free = get_alloc_but_not_used_size page_bit p in
    page_up page_bit (if ltb free size then size - free else 0)

-- The address that is returned, and the pages.
unfoldable pub choose_pages : ℕ → ℕ → ℕ → ProcessTableItem → ℕ × List ℕ
choose_pages page_bit size start p =
    let pointer = (if start == 0 then get_heap_header p else start) in
    elim (inter_pages page_bit size start p) [
      | [] ↦ (pointer, range (page_up page_bit pointer) (pages_needed page_bit size p))
      | first ∷ more ↦ (if start == 0 then first * 2 ^ page_bit else start, first ∷ more)
    ]

abbrev pub grow_heap : ℕ → ProcessTableItem → ProcessTableItem
grow_heap size p = record p { heap_used_size = p.heap_used_size + size }

unfoldable pub alloc_user_memory : ℕ → ℕ → ℕ → Step ℕ
alloc_user_memory pid size start m = elim (get_process pid m) [
  | none ↦ some (0, m)
  | some p ↦
      let (pointer, pages) = choose_pages m.page_bit size start p in
      if has_room m.page_bit size start p
      then (map_pages (pages_needed m.page_bit size p) pid pages >>= λ (_ : Unit {0}).
            λ n. some (pointer, (if start == 0 then change_process (grow_heap size) pid n else n)))
          m
      else some (0, m)
]

abbrev pub clear_used : PageTableItem → PageTableItem
clear_used i = record i { used = false }

-- The body of the loops of `freeUserMemory`.
unfoldable pub release_page : ℕ → ℕ → Mmu → Mmu
release_page pid page m = elim (get_process_page_table_item pid page m) [
  | none ↦ m
  | some i ↦
      if i.used
      then (let n = with_frames (free_frame pid page) m in
          let o =
            use_page_table
              (λ t. elim (get_page_table_item page pid t) [
                | none ↦ t
                | some k ↦ record t { slots = change_item clear_used k t.slots }
              ])
              n in
          change_process (put_item page (clear_used i)) pid o)
      else m
]

unfoldable pub release_pages : ℕ → ℕ → ℕ → Mmu → Mmu
release_pages zero pid page m = m
release_pages (suc count) pid page m = release_pages count pid (page + 1) (release_page pid page m)

-- At the end of the heap the last page is that of the byte before the head, which wraps at 0.
unfoldable pub free_user_memory : ℕ → ℕ → ℕ → Mmu → Mmu
free_user_memory pid address size m = elim (get_process pid m) [
  | none ↦ m
  | some p ↦
      let freed = (if ltb p.heap_used_size size then p.heap_used_size else size) in
      let first = page_up m.page_bit address in
      let behind_last =
        (if leb (get_heap_header p) (address + freed)
          then (get_heap_header p + (2 ^ 64 - 1)) % 2 ^ 64 / 2 ^ m.page_bit + 1
          else (address + freed) / 2 ^ m.page_bit) in
      release_pages (behind_last - first) pid first m
]
