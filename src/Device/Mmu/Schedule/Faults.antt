-- ===== src/Device/Mmu/Schedule/Faults.antt =====
-- device/memory/mmu.cpp: a page fault that is served brings the page into memory.
use ferry_os.Prelude.{
  ℕ, ◌≡◌, refl, ◌∙◌, ◌≢◌, sym, ap, true, Option, none, some, List, [], ◌∷◌, arith, ◌==◌, ==_iff,
  if◌then◌else◌, inl, inr, Bool-cases, Option-cases,
}
use ferry_os.Device.SwapSpace.{SwapSpace}
use ferry_os.Device.PageTableItem.{PageTableItem, Physical, set_physical_address, swap_into_memory}
use ferry_os.Device.Mmu.ProcessTable.{refill, ProcessTableItem, update_page_table, put_item}
use ferry_os.Device.Mmu.State.{
  update_frame_at, update_table, Mmu, find_process, put_process, get_process,
  get_process_page_table_item, update_process, update_all,
}

pub find_process-put_process :
    (pid q : ℕ) (p o : ProcessTableItem) (table : List (ℕ × ProcessTableItem))
    → find_process pid table ≡ some o
    → find_process pid (put_process q p table) ≡ some (if q == pid then p else o)
unfolding find_process put_process
find_process-put_process pid q p o [] e = ground arith
find_process-put_process pid q p o ((r, x) ∷ table) e =
    ground (arith, find_process-put_process pid q p o table)

pub get_process_page_table_item-pages :
    (pid page : ℕ) (m : Mmu) (p : ProcessTableItem)
    → get_process pid m ≡ some p
    → get_process_page_table_item pid page m ≡ p.pages page
unfolding get_process_page_table_item
get_process_page_table_item-pages pid page m p e =
    ap (λ o. elim o as (λ _. Option PageTableItem) [ none ↦ none | some p ↦ p.pages page ]) e

pub find_process-put_same :
    (pid : ℕ) (p o : ProcessTableItem) (table : List (ℕ × ProcessTableItem))
    → find_process pid table ≡ some o
    → find_process pid (put_process pid p table) ≡ some p
find_process-put_same pid p o table e = find_process-put_process pid pid p o table e ∙ ground arith

pub put_item-same :
    (page : ℕ) (i : PageTableItem) (p : ProcessTableItem) → (put_item page i p).pages page ≡ some i
put_item-same page i p = ground arith

none-some : (i : PageTableItem) → none ≢ some i
none-some i e = ground arith

get_process_page_table_item-none :
    (pid page : ℕ) (m : Mmu)
    → get_process pid m ≡ none
    → get_process_page_table_item pid page m ≡ none
unfolding get_process_page_table_item
get_process_page_table_item-none pid page m e =
    ap (λ o. elim o as (λ _. Option PageTableItem) [ none ↦ none | some p ↦ p.pages page ]) e

-- The entry of a process for a page, with the table that holds it.
pub get_process_page_table_item-some :
    (pid page : ℕ) (m : Mmu) (i : PageTableItem)
    → get_process_page_table_item pid page m ≡ some i
    → (p : ProcessTableItem) × (get_process pid m ≡ some p) × (p.pages page ≡ some i)
get_process_page_table_item-some pid page m i e = elim (Option-cases (get_process pid m)) [
  | inl missing ↦
      absurd (none-some i (sym (get_process_page_table_item-none pid page m missing) ∙ e))
  | inr (p, found) ↦ (p, found, sym (get_process_page_table_item-pages pid page m p found) ∙ e)
]

update_page_table-some :
    (page address : ℕ) (s : SwapSpace) (p : ProcessTableItem) (memory : Physical)
    (i : PageTableItem)
    → p.pages page ≡ some i
    → (update_page_table page address s p memory).0 ≡ put_item page (refill address s memory i).0 p
unfolding update_page_table
update_page_table-some page address s p memory i e =
    ap
      (λ o.
        (elim o as (λ _. ProcessTableItem × Physical) [
          | none ↦ (p, memory)
          | some i ↦ (put_item page (refill address s memory i).0 p, (refill address s memory i).1)
        ]).0)
      e

refill-physical_address :
    (address : ℕ) (s : SwapSpace) (memory : Physical) (i : PageTableItem)
    → (refill address s memory i).0.physical_address ≡ address
unfolding swap_into_memory set_physical_address
refill-physical_address address s memory i = ground arith

pub update_process-none :
    (page pid address : ℕ) (m : Mmu)
    → get_process pid m ≡ none
    → update_process page pid address m ≡ m
unfolding update_process
update_process-none page pid address m e =
    ap (λ o. elim o as (λ _. Mmu) [ none ↦ m | some p ↦ update_table page pid address m p ]) e

pub update_process-some :
    (page pid address : ℕ) (m : Mmu) (p : ProcessTableItem)
    → get_process pid m ≡ some p
    → update_process page pid address m ≡ update_table page pid address m p
unfolding update_process
update_process-some page pid address m p e =
    ap (λ o. elim o as (λ _. Mmu) [ none ↦ m | some p ↦ update_table page pid address m p ]) e

pub update_process-in_memory :
    (page pid address : ℕ) (m : Mmu) (i : PageTableItem)
    → get_process_page_table_item pid page m ≡ some i
    → (j : PageTableItem) × (get_process_page_table_item pid page
          (update_process page pid address m)
        ≡ some j)
      × (j.in_memory ≡ true)
      × (j.physical_address ≡ address)
update_process-in_memory page pid address m i e =
    let (p, found, there) = get_process_page_table_item-some pid page m i e in
    let q = (update_page_table page address m.swap p m.memory).0 in
    let got = find_process-put_same pid q p m.process_table found in
    (
      (refill address m.swap m.memory i).0,
      rw (update_process-some page pid address m p found) (
          get_process_page_table_item-pages pid page (update_table page pid address m p) q got
          ∙ (ap (λ (q : ProcessTableItem). q.pages page)
                (update_page_table-some page address m.swap p m.memory i there)
              ∙ put_item-same page (refill address m.swap m.memory i).0 p)),
      refl,
      refill-physical_address address m.swap m.memory i,
    )

-- Telling the tables of a page brings it into memory at the address, for a process that has the page.
pub update_all-in_memory :
    (page pid address : ℕ) (m : Mmu) (i : PageTableItem)
    → pid ≢ 0
    → get_process_page_table_item pid page m ≡ some i
    → (j : PageTableItem) × (get_process_page_table_item pid page (update_all page pid address m)
        ≡ some j)
      × (j.in_memory ≡ true)
      × (j.physical_address ≡ address)
unfolding update_all get_process_page_table_item
update_all-in_memory page pid address m i user e = elim (Bool-cases (pid == 0)) [
  | inl system ↦ absurd (user ((==_iff pid 0).0 system))
  | inr other ↦ rw other (
      update_process-in_memory page pid address
        (record m { frame_table = update_frame_at page pid address m.frame_table }) i e)
]
