-- ===== src/Device/Mmu/Access/Resident.antt =====
-- device/memory/process_table_item.cpp: what a write does to the pages of a process that are in memory.
use ferry_os.Prelude.{
  ℕ, ◌+◌, ◌-◌, ◌*◌, ◌^◌, ◌<◌, ◌≡◌, refl, ◌∙◌, ◌≢◌, sym, ap, true, ◌&&◌, none, some, List, length,
  get_or, arith, ltb, leb, ◌==◌, ==_iff, if◌then◌else◌, inl, inr, Bool-cases,
}
use ferry_os.Device.PageTableItem.{PageTableItem, Physical}
use ferry_os.Device.Mmu.ProcessTable.{ProcessTableItem}
use ferry_os.Device.Mmu.State.{Mmu, get_process, get_process_page_table_item}
use ferry_os.Device.Mmu.Schedule.{use_page}
use ferry_os.Device.Mmu.Schedule.Faults.{get_process_page_table_item-pages}
use ferry_os.Device.Mmu.Access.{store, store_in, write_item, write_page, put_bytes}

-- The page of a process is in memory, with its entry.
abbrev pub Resident : ProcessTableItem → ℕ → Type 0
Resident p page = (i : PageTableItem) × (p.pages page ≡ some i) × (i.in_memory ≡ true)

-- The pages in memory have their frames for themselves, and the size of a page.
pub record IsLaidOut (page_size : ℕ) (p : ProcessTableItem) (memory : Physical) : Type 0 where
  pub separate :
      (q r : ℕ) (i j : PageTableItem)
      → p.pages q ≡ some i
      → i.in_memory ≡ true
      → p.pages r ≡ some j
      → j.in_memory ≡ true
      → i.physical_address ≡ j.physical_address
      → q ≡ r
  pub sized :
      (q : ℕ) (i : PageTableItem)
      → p.pages q ≡ some i
      → i.in_memory ≡ true
      → length (memory i.physical_address) ≡ page_size

-- What a write of bytes from an offset into a page on does to the pages in memory: byte `o` of the page
-- that is `k` pages on.
pub record Written (p : ProcessTableItem) (page offset : ℕ) (bytes : List ℕ) (m n : Mmu)
    : Type 0 where
  pub same_tables : n.process_table ≡ m.process_table
  pub same_bit : n.page_bit ≡ m.page_bit
  pub same_sizes : (a : ℕ) → length (n.memory a) ≡ length (m.memory a)
  pub pages_before :
      (q : ℕ) (i : PageTableItem)
      → q < page
      → p.pages q ≡ some i
      → i.in_memory ≡ true
      → n.memory i.physical_address ≡ m.memory i.physical_address
  pub bytes_at :
      (k o : ℕ) (i : PageTableItem)
      → o < 2 ^ m.page_bit
      → p.pages (page + k) ≡ some i
      → i.in_memory ≡ true
      → get_or (n.memory i.physical_address) o 0 ≡ (
          let at = 2 ^ m.page_bit * k + o in
          if leb offset at && ltb at (offset + length bytes)
          then get_or bytes (at - offset) 0
          else get_or (m.memory i.physical_address) o 0)

pub write_page-some :
    (pid page offset : ℕ) (chunk : List ℕ) (m : Mmu) (p : ProcessTableItem) (i : PageTableItem)
    → get_process pid m ≡ some p
    → p.pages page ≡ some i
    → i.in_memory ≡ true
    → write_page pid page offset chunk m
      ≡ some (
        true,
        record (use_page page pid m) { memory = store i.physical_address offset chunk m.memory },
      )
unfolding write_page get_process_page_table_item
write_page-some pid page offset chunk m p i found own inside =
    let there = get_process_page_table_item-pages pid page m p found ∙ own in
    ap (write_item pid page offset chunk m) there
    ∙ (rw inside (ap (store_in offset chunk (use_page page pid m)) there))

pub some_inj : (i j : PageTableItem) → some i ≡ some j → i ≡ j
some_inj i j e = ap (λ o. elim o as (λ _. PageTableItem) [ none ↦ i | some k ↦ k ]) e

-- What the copy to the page of an entry does to the page of an entry.
pub store-here :
    (p : ProcessTableItem) (page offset : ℕ) (chunk : List ℕ) (memory : Physical)
    (i j : PageTableItem)
    → p.pages page ≡ some i
    → p.pages page ≡ some j
    → store i.physical_address offset chunk memory j.physical_address
      ≡ put_bytes (memory j.physical_address) offset chunk
store-here p page offset chunk memory i j own other =
    rw (some_inj i j (sym own ∙ other)) (ground arith)

pub store-elsewhere :
    (size : ℕ) (p : ProcessTableItem) (page q offset : ℕ) (chunk : List ℕ) (memory : Physical)
    (i j : PageTableItem)
    → IsLaidOut size p memory
    → p.pages page ≡ some i
    → i.in_memory ≡ true
    → p.pages q ≡ some j
    → j.in_memory ≡ true
    → page ≢ q
    → store i.physical_address offset chunk memory j.physical_address ≡ memory j.physical_address
store-elsewhere size p page q offset chunk memory i j laid own inside other inside_j differ =
    elim (Bool-cases (i.physical_address == j.physical_address)) [
      | inl same ↦
          absurd (differ (laid.separate page q i j own inside other inside_j ((==_iff _ _).0 same)))
      | inr apart ↦ rw apart refl
    ]
