-- ===== src/Device/Mmu/Processes/Ends.antt =====
-- device/memory/mmu.cpp, device/memory/page_table.cpp: what is left of a process that ended.
use ferry_os.Prelude.{
  ℕ, zero, suc, ◌+◌, ◌<◌, ◌≡◌, refl, ap, sym, subst, ◌∙◌, Bool, true, false, ◌&&◌, Option, none,
  some, List, [], ◌∷◌, arith, ◌==◌, if◌then◌else◌, Option-cases, inl, inr, All, get_or, set, leb,
}
use ferry_os.Device.PageTableItem.{PageTableItem}
use ferry_os.Device.Mmu.UserMemory.{clear_used}
use ferry_os.Device.Mmu.ProcessTable.{put_item, ProcessTableItem}
use ferry_os.Device.Mmu.PageTable.{Slot, Key, PageTable, clear_keys, release}
use ferry_os.Device.Mmu.State.{
  Mmu, change_process, put_process, get_process_page_table_item, get_process,
}
use ferry_os.Device.Mmu.Processes.{
  clear_used, free_process, end_process, end_if_found, free_page, free_item, leave_memory,
  leave_swap, free_pages,
}

-- The entry of a key is a page of the process that is in use.
abbrev pub is_live : ℕ → (ℕ → Slot) → Key → Bool
is_live pid slots k = (slots k.slot).item.pid == pid && (slots k.slot).item.used

abbrev clear_key : ℕ → Key → PageTable → PageTable
clear_key pid k t = if is_live pid t.slots k then release k.slot t else t

clear_key-keeps :
    (pid : ℕ) (k : Key) (t : PageTable) (j : Key)
    → is_live pid t.slots j ≡ false
    → is_live pid (clear_key pid k t).slots j ≡ false
clear_key-keeps pid k t j h = ground arith

clear_key-clears :
    (pid : ℕ) (k : Key) (t : PageTable) → is_live pid (clear_key pid k t).slots k ≡ false
clear_key-clears pid k t = ground arith

clear_keys-keeps :
    (pid : ℕ) (keys : List Key) (t : PageTable) (j : Key)
    → is_live pid t.slots j ≡ false
    → is_live pid (clear_keys pid keys t).slots j ≡ false
unfolding clear_keys
clear_keys-keeps pid [] t j h = h
clear_keys-keeps pid (k ∷ keys) t j h =
    clear_keys-keeps pid keys (clear_key pid k t) j (clear_key-keeps pid k t j h)

clear_keys-clears :
    (pid : ℕ) (keys : List Key) (t : PageTable)
    → All (λ k. is_live pid (clear_keys pid keys t).slots k ≡ false) keys
unfolding clear_keys
clear_keys-clears pid [] t = tt
clear_keys-clears pid (k ∷ keys) t = (
  clear_keys-keeps pid keys (clear_key pid k t) k (clear_key-clears pid k t),
  clear_keys-clears pid keys (clear_key pid k t),
)

clear_keys-map :
    (pid : ℕ) (keys : List Key) (t : PageTable) → (clear_keys pid keys t).page_map ≡ t.page_map
unfolding clear_keys
clear_keys-map pid [] t = refl
clear_keys-map pid (k ∷ keys) t = clear_keys-map pid keys (clear_key pid k t) ∙ ground arith

change_process-numbers :
    (change : ProcessTableItem → ProcessTableItem) (pid : ℕ) (m : Mmu)
    → (change_process change pid m).process_table_used ≡ m.process_table_used
unfolding change_process
change_process-numbers change pid m = elim (Option-cases (get_process pid m)) [
  | inl missing ↦
      ap
        (λ o.
          (elim o as (λ _. Mmu) [
            | none ↦ m
            | some p ↦ record m { process_table = put_process pid (change p) m.process_table }
          ]).process_table_used)
        missing
  | inr (p, found) ↦
      ap
        (λ o.
          (elim o as (λ _. Mmu) [
            | none ↦ m
            | some p ↦ record m { process_table = put_process pid (change p) m.process_table }
          ]).process_table_used)
        found
]

either-numbers :
    (b : Bool) (n o : Mmu) (flags : List Bool)
    → n.process_table_used ≡ flags
    → o.process_table_used ≡ flags
    → (if b then n else o).process_table_used ≡ flags
either-numbers true n o flags e f = e
either-numbers false n o flags e f = f

free_item-numbers :
    (pid page : ℕ) (m : Mmu) (o : Option PageTableItem)
    → (free_item pid page m o).process_table_used ≡ m.process_table_used
free_item-numbers pid page m none = refl
free_item-numbers pid page m (some i) =
    let n = (if i.in_memory then leave_memory pid page i m else m) in
    let left =
      either-numbers i.in_memory (leave_memory pid page i m) m m.process_table_used
        (change_process-numbers (put_item page (clear_used i)) pid _) refl in
    either-numbers i.have_swapped (leave_swap i n) n m.process_table_used left left

free_page-numbers :
    (pid page : ℕ) (m : Mmu) → (free_page pid page m).process_table_used ≡ m.process_table_used
unfolding free_page
free_page-numbers pid page m = free_item-numbers pid page m (get_process_page_table_item pid page m)

free_pages-numbers :
    (count page pid : ℕ) (m : Mmu)
    → (free_pages count page pid m).process_table_used ≡ m.process_table_used
unfolding free_pages
free_pages-numbers zero page pid m = refl
free_pages-numbers (suc count) page pid m =
    free_pages-numbers count (page + 1) pid (free_page pid page m) ∙ free_page-numbers pid page m

lt→not_leb : (a b : ℕ) → a < b → leb b a ≡ false
lt→not_leb a b lt = ground arith

get_or-set-false : (flags : List Bool) (i : ℕ) → get_or (set flags i false) i false ≡ false
get_or-set-false [] i = refl
get_or-set-false (b ∷ flags) zero = refl
get_or-set-false (b ∷ flags) (suc i) = get_or-set-false flags i

-- A process that is in the table with a number of it ends with success: no entry of the global page
-- table is a page of the process that is in use, and its number is free again.
pub free_process-releases :
    (pid : ℕ) (m : Mmu) (p : ProcessTableItem)
    → get_process pid m ≡ some p
    → p.process_table_number < m.maximum_tasks
    → (n : Mmu) × (free_process pid m ≡ (n, true))
      × All (λ k. is_live pid n.page_table.slots k ≡ false) n.page_table.page_map
      × (get_or n.process_table_used p.process_table_number false ≡ false)
unfolding free_process
free_process-releases pid m p found lt =
    let started = record m {
      process_table_used = set m.process_table_used p.process_table_number false;
    } in
    let t = (free_pages p.page_count 0 pid started).page_table in
    (
      end_process pid m p,
      ap (end_if_found pid m) found
          ∙ rw (lt→not_leb p.process_table_number m.maximum_tasks lt) refl,
      subst (All (λ k. is_live pid (clear_keys pid t.page_map t).slots k ≡ false))
          (sym (clear_keys-map pid t.page_map t)) (clear_keys-clears pid t.page_map t),
      ap (λ flags. get_or flags p.process_table_number false)
            (free_pages-numbers p.page_count 0 pid started)
          ∙ get_or-set-false m.process_table_used p.process_table_number,
    )
