-- ===== src/Device/Mmu/Schedule/FirstEviction.antt =====
-- device/memory/page_table.cpp: a page that is replaced for the first time is kept in the swap space.
use ferry_os.Prelude.{
  ℕ, ◌+◌, ◌^◌, ◌<◌, ◌≡◌, refl, ◌∙◌, ◌≢◌, ap, Bool, true, false, Option, none, some, List, arith,
  ◌==◌, if◌then◌else◌, inl, inr, Bool-cases, Option-cases, not, ◌||◌,
}
use ferry_os.Device.SwapSpace.{load_page_into_memory}
use ferry_os.Device.SwapSpace.Pages.{IsConsistent}
use ferry_os.Device.PageTableItem.{PageTableItem, swap_out_memory}
use ferry_os.Device.PageTableItem.FirstSwap.{swap_out_memory-first}
use ferry_os.Device.Mmu.ProcessTable.{ProcessTableItem, put_item}
use ferry_os.Device.Mmu.PageTable.{find_victim}
use ferry_os.Device.Mmu.State.{
  Mmu, get_process, get_process_page_table_item, update_all, with_frames, update_frame_at,
}
use ferry_os.Device.Mmu.Schedule.{
  erase, relink, evict, evict_from, swap_out_item, replace_page, schedule,
}
use ferry_os.Device.Mmu.Schedule.Faults.{
  find_process-put_same, put_item-same, get_process_page_table_item-pages,
  get_process_page_table_item-some, update_process-some, update_process-none,
}
use ferry_os.Device.Mmu.Schedule.Clean.{update_all-other}

must_swap : (i : PageTableItem) → i.have_swapped ≡ false → (i.changed || not i.have_swapped) ≡ true
must_swap i never = ground arith

evict-first :
    (pid page : ℕ) (m : Mmu) (p : ProcessTableItem) (i : PageTableItem)
    → get_process pid m ≡ some p
    → p.pages page ≡ some i
    → i.have_swapped ≡ false
    → evict pid page m ≡ swap_out_item pid page m p i
unfolding evict
evict-first pid page m p i found own never =
    let out = λ (o : Option ProcessTableItem). elim o as (λ _. Mmu) [
      | none ↦ m
      | some p ↦ evict_from pid page m p
    ] in
    let choose = λ (i : PageTableItem).
      (if i.changed || not i.have_swapped then swap_out_item pid page m p i else m) in
    let of_item =
      λ (o : Option PageTableItem). elim o as (λ _. Mmu) [ none ↦ m | some i ↦ choose i ] in
    ap out found
    ∙ (ap of_item own ∙ ap (λ b. if b then swap_out_item pid page m p i else m) (must_swap i never))

update_all-swap : (page pid address : ℕ) (m : Mmu) → (update_all page pid address m).swap ≡ m.swap
unfolding update_all
update_all-swap page pid address m =
    let n = with_frames (update_frame_at page pid address) m in
    elim (Bool-cases (pid == 0)) [
      | inl system ↦ rw system refl
      | inr other ↦ rw other (elim (Option-cases (get_process pid n)) [
        | inl missing ↦ rw (update_process-none page pid address n missing) refl
        | inr (p, found) ↦ rw (update_process-some page pid address n p found) refl
      ])
    ]

-- Let the entry that `schedule` replaces belong to a page of another process, whose own entry has the page
-- at an address other than 0 and never swapped it out; let the swap space be consistent and open, and one
-- of its pages be unused. Then the page that asks gets the frame, and the owner's entry says that its page
-- is not in memory but swapped out, and the bytes of the page are in the page of the swap space that it names.
pub schedule-swaps_out :
    (page pid v : ℕ) (m : Mmu) (i : PageTableItem) (contents : ℕ → List ℕ)
    → find_victim (m.page_table.alloced_count + 1) m.page_table m.page_table.lru_tail
      ≡ some (some v)
    → pid ≢ 0
    → let old = (m.page_table.slots v).item in
      pid ≢ old.pid
      → get_process_page_table_item old.pid old.logical_page m ≡ some i
      → i.have_swapped ≡ false
      → i.swap_page ≡ m.swap.space_page
      → i.physical_address ≢ 0
      → IsConsistent m.swap
      → m.swap.used_page < m.swap.space_page
      → m.swap.file ≡ some contents
      → (n : Mmu) × (k : PageTableItem) × (schedule page pid m ≡ some (true, n))
        × (get_process_page_table_item old.pid old.logical_page n ≡ some k)
        × (k.in_memory ≡ false)
        × (k.swapped ≡ true)
        × (load_page_into_memory k.swap_page n.swap ≡ some (m.memory i.physical_address))
unfolding schedule replace_page get_process_page_table_item
schedule-swaps_out page pid v m i contents found user other e never fresh here consistent room
      open_ =
    let old = (m.page_table.slots v).item in
    let (p, of_pid, own) = get_process_page_table_item-some old.pid old.logical_page m i e in
    let out = λ (o : Option (Option ℕ)). elim o as (λ _. Option (Bool × Mmu)) [
      | none ↦ none
      | some none ↦ some (false, m)
      | some (some v) ↦ some (true, replace_page v page pid m)
    ] in
    let evicted = swap_out_item old.pid old.logical_page (erase old m) p i in
    let finish = λ (n : Mmu). update_all page pid old.physical_address (relink v page pid n) in
    let (_, k, _, _) = swap_out_memory (2 ^ m.page_bit) m.swap i m.memory in
    let (outside, swapped, bytes) =
      swap_out_memory-first (2 ^ m.page_bit) m.swap contents i m.memory consistent room open_ fresh
        here in
    let of_owner =
      find_process-put_same old.pid (put_item old.logical_page k p) p m.process_table of_pid in
    (
      finish evicted,
      k,
      ap out found
          ∙ ap (λ n. some (true, finish n))
              (evict-first old.pid old.logical_page (erase old m) p i of_pid own never),
      update_all-other page pid old.physical_address old.pid old.logical_page
          (relink v page pid evicted) k user other
          (get_process_page_table_item-pages old.pid old.logical_page (relink v page pid evicted)
              (put_item old.logical_page k p) of_owner
            ∙ put_item-same old.logical_page k p),
      outside,
      swapped,
      ap (load_page_into_memory k.swap_page)
            (update_all-swap page pid old.physical_address (relink v page pid evicted))
          ∙ bytes,
    )
