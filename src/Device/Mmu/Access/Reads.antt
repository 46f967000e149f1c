-- ===== src/Device/Mmu/Access/Reads.antt =====
-- device/memory/process_table_item.cpp: reading calls itself again at most once.
use ferry_os.Prelude.{
  ℕ, suc, ◌≡◌, refl, ◌∙◌, ◌≢◌, ap, Bool, true, false, Option, none, some, inl, inr, Bool-cases,
}
use ferry_os.Device.PageTableItem.{PageTableItem}
use ferry_os.Device.Mmu.State.{Mmu, get_process_page_table_item}
use ferry_os.Device.Mmu.Schedule.{page_fault, use_page}
use ferry_os.Device.Mmu.Schedule.Served.{page_fault-InMemory}
use ferry_os.Device.Mmu.Access.{retry, locate_item, locate}

pub locate-in_memory :
    (fuel pid page : ℕ) (m : Mmu) (i : PageTableItem)
    → get_process_page_table_item pid page m ≡ some i
    → i.in_memory ≡ true
    → locate (suc fuel) pid page m ≡ some (some i.physical_address, use_page page pid m)
unfolding locate
locate-in_memory fuel pid page m i e inside =
    ap (locate_item (locate fuel pid page) pid page m) e ∙ rw inside refl

retry-returns :
    (pid page : ℕ) (m : Mmu) (o : Option (Bool × Mmu))
    → pid ≢ 0
    → page_fault pid page m ≡ o
    → o ≢ none
    → (r : Option ℕ × Mmu) × ((more : ℕ) → retry (locate (suc more) pid page) o ≡ some r)
retry-returns pid page m none user e returns = absurd (returns refl)
retry-returns pid page m (some (false, n)) user e returns = ((none, n), λ more. refl)
retry-returns pid page m (some (true, n)) user e returns =
    let (i, there, inside) = page_fault-InMemory pid page m n user e in
    (
      (some i.physical_address, use_page page pid n),
      λ more. locate-in_memory more pid page n i there inside,
    )

locate_item-returns :
    (pid page : ℕ) (m : Mmu) (o : Option PageTableItem)
    → pid ≢ 0
    → page_fault pid page (use_page page pid m) ≢ none
    → (r : Option ℕ × Mmu) × ((more : ℕ)
        → locate_item (locate (suc more) pid page) pid page m o ≡ some r)
locate_item-returns pid page m none user returns = ((none, m), λ more. refl)
locate_item-returns pid page m (some i) user returns = elim (Bool-cases i.in_memory) [
  | inl inside ↦ ((some i.physical_address, use_page page pid m), λ more. rw inside refl)
  | inr outside ↦
      let (r, e) =
        retry-returns pid page (use_page page pid m) (page_fault pid page (use_page page pid m))
          user refl returns in
      (r, λ more. rw outside (e more))
]

-- When the page fault that a read of a process may cause returns, the read does: two calls of
-- the method are enough, and with more the result is the same.
pub locate-returns :
    (pid page : ℕ) (m : Mmu)
    → pid ≢ 0
    → page_fault pid page (use_page page pid m) ≢ none
    → (r : Option ℕ × Mmu) × ((more : ℕ) → locate (suc (suc more)) pid page m ≡ some r)
unfolding locate
locate-returns pid page m user returns =
    locate_item-returns pid page m (get_process_page_table_item pid page m) user returns
