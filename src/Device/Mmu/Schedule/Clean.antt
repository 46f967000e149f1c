-- ===== src/Device/Mmu/Schedule/Clean.antt =====
-- device/memory/page_table.cpp: a page that counts as clean and is replaced is not told so.
use ferry_os.Prelude.{
  ℕ, ◌+◌, ◌≡◌, refl, ◌∙◌, ◌≢◌, sym, ap, Bool, true, false, Option, none, some, arith, ◌==◌, ==_iff,
  if◌then◌else◌, inl, inr, Bool-cases, Option-cases, not, ◌||◌,
}
use ferry_os.Device.PageTableItem.{PageTableItem}
use ferry_os.Device.Mmu.ProcessTable.{ProcessTableItem, update_page_table}
use ferry_os.Device.Mmu.PageTable.{find_victim}
use ferry_os.Device.Mmu.State.{
  update_frame_at, Mmu, get_process, get_process_page_table_item, update_all, update_process,
  update_table,
}
use ferry_os.Device.Mmu.Schedule.{
  erase, relink, evict, evict_from, swap_out_item, replace_page, schedule,
}
use ferry_os.Device.Mmu.Schedule.Faults.{
  find_process-put_process, get_process_page_table_item-pages, get_process_page_table_item-some,
  update_all-in_memory, update_process-some, update_process-none,
}

evict-clean :
    (pid page : ℕ) (m : Mmu) (i : PageTableItem)
    → get_process_page_table_item pid page m ≡ some i
    → i.changed ≡ false
    → i.have_swapped ≡ true
    → evict pid page m ≡ m
unfolding evict
evict-clean pid page m i e clean swapped =
    let (p, found, own) = get_process_page_table_item-some pid page m i e in
    let out = λ (o : Option ProcessTableItem). elim o as (λ _. Mmu) [
      | none ↦ m
      | some p ↦ evict_from pid page m p
    ] in
    let choose = λ (i : PageTableItem).
      (if i.changed || not i.have_swapped then swap_out_item pid page m p i else m) in
    let of_item =
      λ (o : Option PageTableItem). elim o as (λ _. Mmu) [ none ↦ m | some i ↦ choose i ] in
    ap out found ∙ (ap of_item own ∙ rw (clean, swapped) refl)

replace_page-clean :
    (v page pid : ℕ) (m : Mmu) (i : PageTableItem)
    → let old = (m.page_table.slots v).item in
      get_process_page_table_item old.pid old.logical_page m ≡ some i
      → i.changed ≡ false
      → i.have_swapped ≡ true
      → replace_page v page pid m
        ≡ update_all page pid old.physical_address (relink v page pid (erase old m))
unfolding replace_page get_process_page_table_item
replace_page-clean v page pid m i e clean swapped =
    let old = (m.page_table.slots v).item in
    ap (λ n. update_all page pid old.physical_address (relink v page pid n))
      (evict-clean old.pid old.logical_page (erase old m) i e clean swapped)

pub update_process-other :
    (page pid address q r : ℕ) (m : Mmu) (i : PageTableItem)
    → pid ≢ q
    → get_process_page_table_item q r m ≡ some i
    → get_process_page_table_item q r (update_process page pid address m) ≡ some i
update_process-other page pid address q r m i other e =
    let (o, found, own) = get_process_page_table_item-some q r m i e in
    elim (Option-cases (get_process pid m)) [
      | inl missing ↦ rw (update_process-none page pid address m missing) e
      | inr (p, there) ↦
          let s = (update_page_table page address m.swap p m.memory).0 in
          rw (update_process-some page pid address m p there) (
            get_process_page_table_item-pages q r (update_table page pid address m p) o
              (find_process-put_process q pid s o m.process_table found ∙ ground arith)
            ∙ own)
    ]

pub update_all-other :
    (page pid address q r : ℕ) (m : Mmu) (i : PageTableItem)
    → pid ≢ 0
    → pid ≢ q
    → get_process_page_table_item q r m ≡ some i
    → get_process_page_table_item q r (update_all page pid address m) ≡ some i
unfolding update_all get_process_page_table_item
update_all-other page pid address q r m i user other e = elim (Bool-cases (pid == 0)) [
  | inl system ↦ absurd (user ((==_iff pid 0).0 system))
  | inr no_system ↦ rw no_system (
      update_process-other page pid address q r
        (record m { frame_table = update_frame_at page pid address m.frame_table }) i other e)
]

-- Let the entry that `schedule` replaces belong to a page of another process, whose own entry has that
-- page in memory at the same address, is not marked as changed and was swapped out before. The
-- page of a process that asks gets the frame; and the entry of the other process still has its page
-- in memory at the address, so that both use the frame.
pub schedule-shares_frame :
    (page pid v : ℕ) (m : Mmu) (i j : PageTableItem)
    → find_victim (m.page_table.alloced_count + 1) m.page_table m.page_table.lru_tail
      ≡ some (some v)
    → pid ≢ 0
    → let old = (m.page_table.slots v).item in
      pid ≢ old.pid
      → get_process_page_table_item old.pid old.logical_page m ≡ some i
      → i.in_memory ≡ true
      → i.changed ≡ false
      → i.have_swapped ≡ true
      → i.physical_address ≡ old.physical_address
      → get_process_page_table_item pid page m ≡ some j
      → (n : Mmu) × (k : PageTableItem) × (schedule page pid m ≡ some (true, n))
        × (get_process_page_table_item pid page n ≡ some k)
        × (k.in_memory ≡ true)
        × (k.physical_address ≡ i.physical_address)
        × (get_process_page_table_item old.pid old.logical_page n ≡ some i)
unfolding schedule get_process_page_table_item
schedule-shares_frame page pid v m i j found user other e inside clean swapped at there =
    let old = (m.page_table.slots v).item in
    let address = old.physical_address in
    let linked = relink v page pid (erase old m) in
    let (k, there_k, inside_k, at_k) = update_all-in_memory page pid address linked j user there in
    let out = λ (o : Option (Option ℕ)). elim o as (λ _. Option (Bool × Mmu)) [
      | none ↦ none
      | some none ↦ some (false, m)
      | some (some v) ↦ some (true, replace_page v page pid m)
    ] in
    (
      update_all page pid address linked,
      k,
      ap out found
          ∙ ap (λ (n : Mmu). some (true, n)) (replace_page-clean v page pid m i e clean swapped),
      there_k,
      inside_k,
      at_k ∙ sym at,
      update_all-other page pid address old.pid old.logical_page linked i user other e,
    )
