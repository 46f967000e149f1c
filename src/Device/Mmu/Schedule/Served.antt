-- ===== src/Device/Mmu/Schedule/Served.antt =====
-- device/memory/mmu.cpp, device/memory/page_table.cpp: a page fault that is served brings the page
-- into memory, whether it gets a free frame or that of another page.
use ferry_os.Prelude.{
  ℕ, ◌+◌, ◌^◌, ◌≡◌, refl, ◌∙◌, ◌≢◌, sym, Bool, true, false, Option, none, some, ◌==◌, ==_iff,
  if◌then◌else◌, inl, inr, Bool-cases, Option-cases, not, ◌||◌, subst,
}
use ferry_os.Device.PageTableItem.{PageTableItem, swap_out_memory}
use ferry_os.Device.Mmu.ProcessTable.{ProcessTableItem, put_item}
use ferry_os.Device.Mmu.State.{Mmu, find_process, get_process, get_process_page_table_item}
use ferry_os.Device.Mmu.Schedule.{
  get_need_alloc_frame, frame_address_at, get_available_frame, fault_of, insert_in_frame, erase,
  evict, evict_from, swap_out_item, replace_page, schedule, add_page, insert_page_at, insert_page,
  page_fault,
}
use ferry_os.Device.Mmu.PageTable.{find_victim, is_full}
use ferry_os.Device.Mmu.Schedule.Faults.{
  find_process-put_process, get_process_page_table_item-pages, get_process_page_table_item-some,
  update_all-in_memory,
}

-- A process has an entry for a page, and has it in memory.
abbrev pub Present : ℕ → ℕ → Mmu → Type 0
Present pid page m = (i : PageTableItem) × (get_process_page_table_item pid page m ≡ some i)

abbrev pub InMemory : ℕ → ℕ → Mmu → Type 0
InMemory pid page m =
    (i : PageTableItem) × (get_process_page_table_item pid page m ≡ some i) × (i.in_memory ≡ true)

put_item-here :
    (page r : ℕ) (i : PageTableItem) (p : ProcessTableItem)
    → (page == r) ≡ true
    → (put_item r i p).pages page ≡ some i
put_item-here page r i p e = rw e refl

put_item-elsewhere :
    (page r : ℕ) (i : PageTableItem) (p : ProcessTableItem)
    → (page == r) ≡ false
    → (put_item r i p).pages page ≡ p.pages page
put_item-elsewhere page r i p e = rw e refl

Present-swap_out_item :
    (pid page q r : ℕ) (m : Mmu) (p : ProcessTableItem) (i : PageTableItem)
    → get_process q m ≡ some p
    → Present pid page m
    → Present pid page (swap_out_item q r m p i)
Present-swap_out_item pid page q r m p i e (k, there) =
    let (o, found, own) = get_process_page_table_item-some pid page m k there in
    let (_, j, _, _) = swap_out_memory (2 ^ m.page_bit) m.swap i m.memory in
    let n = swap_out_item q r m p i in
    let got = find_process-put_process pid q (put_item r j p) o m.process_table found in
    elim (Bool-cases (q == pid)) [
      | inl same ↦
          let at_table = got ∙ rw same refl in
          let of_table = get_process_page_table_item-pages pid page n (put_item r j p) at_table in
          let e_pid =
            subst (λ x. find_process x m.process_table ≡ some p) ((==_iff q pid).0 same) e in
          elim (Bool-cases (page == r)) [
            | inl here ↦ (j, of_table ∙ put_item-here page r j p here)
            | inr else_ ↦ (
              k,
              of_table
                  ∙ (put_item-elsewhere page r j p else_
                      ∙ (sym (get_process_page_table_item-pages pid page m p e_pid) ∙ there)),
            )
          ]
      | inr differ ↦
          (k, get_process_page_table_item-pages pid page n o (got ∙ rw differ refl) ∙ own)
    ]

Present-evict_from :
    (pid page q r : ℕ) (m : Mmu) (p : ProcessTableItem)
    → get_process q m ≡ some p
    → Present pid page m
    → Present pid page (evict_from q r m p)
Present-evict_from pid page q r m p e h =
    let choose = λ (i : PageTableItem).
      (if i.changed || not i.have_swapped then swap_out_item q r m p i else m) in
    let out = λ (o : Option PageTableItem). elim o as (λ _. Mmu) [ none ↦ m | some i ↦ choose i ] in
    elim (Option-cases (p.pages r)) [
      | inl missing ↦ subst (λ o. Present pid page (out o)) (sym missing) h
      | inr (i, found) ↦
          subst (λ o. Present pid page (out o)) (sym found)
            (elim (Bool-cases (i.changed || not i.have_swapped)) [
              | inl dirty ↦ rw dirty (Present-swap_out_item pid page q r m p i e h)
              | inr clean ↦ rw clean h
            ])
    ]

pub Present-evict :
    (pid page q r : ℕ) (m : Mmu) → Present pid page m → Present pid page (evict q r m)
unfolding evict
Present-evict pid page q r m h =
    let out = λ (o : Option ProcessTableItem). elim o as (λ _. Mmu) [
      | none ↦ m
      | some p ↦ evict_from q r m p
    ] in
    elim (Option-cases (get_process q m)) [
      | inl missing ↦ subst (λ o. Present pid page (out o)) (sym missing) h
      | inr (p, found) ↦
          subst (λ o. Present pid page (out o)) (sym found)
            (Present-evict_from pid page q r m p found h)
    ]

Present-replace :
    (v page pid : ℕ) (m : Mmu)
    → pid ≢ 0
    → Present pid page m
    → InMemory pid page (replace_page v page pid m)
unfolding replace_page get_process_page_table_item
Present-replace v page pid m user h =
    let old = (m.page_table.slots v).item in
    let (i, there) = Present-evict pid page old.pid old.logical_page (erase old m) h in
    let (j, e, inside, _) = update_all-in_memory page pid old.physical_address _ i user there in
    (j, e, inside)

-- What is said of a step that ends in true.
abbrev pub Ends : (Mmu → Type 0) → Option (Bool × Mmu) → Type 0
Ends P none = Unit
Ends P (some (true, n)) = P n
Ends P (some (false, n)) = Unit

Ends-subst :
    (P : Mmu → Type 0) (o : Option (Bool × Mmu)) (n : Mmu) → Ends P o → o ≡ some (true, n) → P n
Ends-subst P o n h e = subst (Ends P) e h

schedule-Ends :
    (page pid : ℕ) (m : Mmu)
    → pid ≢ 0
    → Present pid page m
    → Ends (InMemory pid page) (schedule page pid m)
unfolding schedule
schedule-Ends page pid m user h =
    let out = λ (o : Option (Option ℕ)). elim o as (λ _. Option (Bool × Mmu)) [
      | none ↦ none
      | some none ↦ some (false, m)
      | some (some v) ↦ some (true, replace_page v page pid m)
    ] in
    let P = λ (o : Option (Option ℕ)). Ends (InMemory pid page) (out o) in
    elim (find_victim (m.page_table.alloced_count + 1) m.page_table m.page_table.lru_tail) as P [
      | none ↦ tt
      | some none ↦ tt
      | some (some v) ↦ Present-replace v page pid m user h
    ]

add_page-InMemory :
    (page pid address : ℕ) (m : Mmu)
    → pid ≢ 0
    → Present pid page m
    → InMemory pid page (add_page page pid address m)
unfolding add_page get_process_page_table_item
add_page-InMemory page pid address m user (i, there) =
    let (j, e, inside, _) = update_all-in_memory page pid address _ i user there in (j, e, inside)

insert_page_at-Ends :
    (page pid address : ℕ) (m : Mmu)
    → pid ≢ 0
    → Present pid page m
    → Ends (InMemory pid page) (insert_page_at page pid address m)
unfolding insert_page_at
insert_page_at-Ends page pid address m user h = elim (Bool-cases (is_full m.page_table)) [
  | inl full ↦ rw full (schedule-Ends page pid m user h)
  | inr room ↦ rw room (add_page-InMemory page pid address m user h)
]

insert_in_frame-Ends :
    (page pid : ℕ) (m : Mmu) (available need_alloc : Option ℕ)
    → pid ≢ 0
    → Present pid page m
    → Ends (InMemory pid page) (insert_in_frame page pid m available need_alloc)
unfolding get_process_page_table_item
insert_in_frame-Ends page pid m (some i) need_alloc user h =
    insert_page_at-Ends page pid (frame_address_at i m.frame_table) m user h
insert_in_frame-Ends page pid m none (some i) user h = insert_page_at-Ends page pid _ _ user h
insert_in_frame-Ends page pid m none none user h = tt

insert_page-Ends :
    (page pid : ℕ) (m : Mmu)
    → pid ≢ 0
    → Present pid page m
    → Ends (InMemory pid page) (insert_page page pid m)
unfolding insert_page
insert_page-Ends page pid m user h = elim (Bool-cases (is_full m.page_table)) [
  | inl full ↦ rw full (schedule-Ends page pid m user h)
  | inr room ↦ rw room (
      insert_in_frame-Ends page pid m (get_available_frame m.frame_table)
        (get_need_alloc_frame m.frame_table) user h)
]

fault_of-Ends :
    (page pid : ℕ) (m : Mmu) (o : Option PageTableItem)
    → pid ≢ 0
    → get_process_page_table_item pid page m ≡ o
    → Ends (InMemory pid page) (fault_of pid page m o)
fault_of-Ends page pid m none user e = tt
fault_of-Ends page pid m (some i) user e = elim (Bool-cases i.in_memory) [
  | inl inside ↦ rw inside (i, e, inside)
  | inr outside ↦ elim (Bool-cases i.swapped) [
    | inl swapped ↦ rw (outside, swapped) (schedule-Ends page pid m user (i, e))
    | inr fresh ↦ rw (outside, fresh) (insert_page-Ends page pid m user (i, e))
  ]
]

-- A page fault of a process that is served, by a free frame or by the frame of another page, leaves the
-- page in memory.
pub page_fault-InMemory :
    (pid page : ℕ) (m n : Mmu)
    → pid ≢ 0
    → page_fault pid page m ≡ some (true, n)
    → InMemory pid page n
unfolding page_fault
page_fault-InMemory pid page m n user e =
    Ends-subst (InMemory pid page) (page_fault pid page m) n
      (fault_of-Ends page pid m (get_process_page_table_item pid page m) user refl) e
