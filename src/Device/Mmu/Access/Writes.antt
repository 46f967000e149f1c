-- ===== src/Device/Mmu/Access/Writes.antt =====
-- device/memory/process_table_item.cpp: a page of `write`, and the rest of the bytes.
use ferry_os.Prelude.{
  ℕ, zero, suc, ◌+◌, ◌-◌, ◌*◌, ◌^◌, ◌≤◌, ◌<◌, ◌≡◌, ◌∙◌, ap, subst, true, ◌&&◌, some, List, length,
  get_or, arith, ltb, leb, if◌then◌else◌, ◌⊎◌,
}
use ferry_os.Device.PageTableItem.{PageTableItem, Physical}
use ferry_os.Device.Mmu.ProcessTable.{ProcessTableItem}
use ferry_os.Device.Mmu.State.{Mmu}
use ferry_os.Device.Mmu.Schedule.{use_page}
use ferry_os.Device.Mmu.Access.{store, first_bytes, rest_bytes, put_bytes}
use ferry_os.Device.Mmu.Access.Bytes.{
  length-put_bytes, get_or-put_bytes, length-first_bytes, get_or-first_bytes, get_or-at,
  length-rest_bytes, get_or-rest_bytes,
}
use ferry_os.Device.Mmu.Access.Resident.{IsLaidOut, Written, store-here, store-elsewhere}

-- The part of the bytes that goes to the first page fills the page or is all of them.
abbrev pub Fits : ℕ → ℕ → ℕ → List ℕ → Type 0
Fits size offset first bytes =
    (offset + first ≡ size) ⊎ ((length bytes ≡ first) × (offset + first ≤ size))

-- The state behind the first page.
abbrev pub first_done : ℕ → ℕ → ℕ → ℕ → List ℕ → Mmu → PageTableItem → Mmu
first_done pid page offset first bytes m i = record (use_page page pid m) {
  memory = store i.physical_address offset (first_bytes first bytes) m.memory;
}

-- A byte of the first page.
here-value :
    (size offset first : ℕ) (bytes old : List ℕ) (o : ℕ)
    → Fits size offset first bytes
    → length old ≡ size
    → o < size
    → get_or (put_bytes old offset (first_bytes first bytes)) o 0 ≡ (
        if leb offset o && ltb o (offset + length bytes)
        then get_or bytes (o - offset) 0
        else get_or old o 0)
here-value size offset first bytes old o fits sized lt =
    get_or-put_bytes old offset (first_bytes first bytes) o (omega arith)
    ∙ ground (arith, length-first_bytes first bytes, get_or-first_bytes first bytes (o - offset))

-- A byte of a later page, given what the rest of the bytes does to it.
later-value :
    (size offset first : ℕ) (bytes : List ℕ) (k o old : ℕ)
    → Fits size offset first bytes
    → (let at = size * k + o in
        if leb 0 at && ltb at (0 + length (rest_bytes first bytes))
        then get_or (rest_bytes first bytes) (at - 0) 0
        else old)
      ≡ (let at = size * suc k + o in
          if leb offset at && ltb at (offset + length bytes)
          then get_or bytes (at - offset) 0
          else old)
later-value size offset first bytes k o old fits = ground (
  arith,
  length-rest_bytes first bytes,
  get_or-rest_bytes first bytes (size * k + o - 0),
  get_or-at bytes (first + (size * k + o - 0)) (size * suc k + o - offset),
)

pub shift : (page k : ℕ) → page + suc k ≡ page + 1 + k
shift page k = omega arith

pub no_shift : (page : ℕ) → page + 0 ≡ page
no_shift page = omega arith

at_first : (size o : ℕ) → o ≡ size * 0 + o
at_first size o = omega arith

pub length-store :
    (base offset : ℕ) (chunk : List ℕ) (memory : Physical) (a : ℕ)
    → length (store base offset chunk memory a) ≡ length (memory a)
length-store base offset chunk memory a = ground (arith, length-put_bytes (memory a) offset chunk)

module _ (pid page offset first : ℕ) (bytes : List ℕ) (m n : Mmu) (p : ProcessTableItem)
    (i : PageTableItem) (fits : Fits (2 ^ m.page_bit) offset first bytes)
    (laid : IsLaidOut (2 ^ m.page_bit) p m.memory) (own : p.pages page ≡ some i)
    (inside : i.in_memory ≡ true)
    (rest : Written p
      (page + 1)
      0
      (rest_bytes first bytes)
      (first_done pid page offset first bytes m i)
      n) where
  first_page :
      (o : ℕ) (j : PageTableItem)
      → o < 2 ^ m.page_bit
      → p.pages page ≡ some j
      → j.in_memory ≡ true
      → get_or (n.memory j.physical_address) o 0 ≡ (
          if leb offset o && ltb o (offset + length bytes)
          then get_or bytes (o - offset) 0
          else get_or (m.memory j.physical_address) o 0)
  first_page o j lt other inside_j =
      ap (λ old. get_or old o 0)
        (rest.pages_before page j (omega arith) other inside_j
          ∙ store-here p page offset (first_bytes first bytes) m.memory i j own other)
      ∙ here-value (2 ^ m.page_bit) offset first bytes (m.memory j.physical_address) o fits
          (laid.sized page j other inside_j) lt

  later_page :
      (k o : ℕ) (j : PageTableItem)
      → o < 2 ^ m.page_bit
      → p.pages (page + suc k) ≡ some j
      → j.in_memory ≡ true
      → get_or (n.memory j.physical_address) o 0 ≡ (
          let at = 2 ^ m.page_bit * suc k + o in
          if leb offset at && ltb at (offset + length bytes)
          then get_or bytes (at - offset) 0
          else get_or (m.memory j.physical_address) o 0)
  later_page k o j lt other inside_j =
      let there = subst (λ q. p.pages q ≡ some j) (shift page k) other in
      let kept =
        store-elsewhere (2 ^ m.page_bit) p page (page + suc k) offset (first_bytes first bytes)
          m.memory i j laid own inside other inside_j (omega arith) in
      rest.bytes_at k o j lt there inside_j
      ∙ (ap
            (λ old.
              (let at = 2 ^ m.page_bit * k + o in
                if leb 0 at && ltb at (0 + length (rest_bytes first bytes))
                then get_or (rest_bytes first bytes) (at - 0) 0
                else get_or old o 0))
            kept
          ∙ later-value (2 ^ m.page_bit) offset first bytes k o
              (get_or (m.memory j.physical_address) o 0) fits)

  any_page :
      (k o : ℕ) (j : PageTableItem)
      → o < 2 ^ m.page_bit
      → p.pages (page + k) ≡ some j
      → j.in_memory ≡ true
      → get_or (n.memory j.physical_address) o 0 ≡ (
          let at = 2 ^ m.page_bit * k + o in
          if leb offset at && ltb at (offset + length bytes)
          then get_or bytes (at - offset) 0
          else get_or (m.memory j.physical_address) o 0)
  any_page zero o j lt other inside_j =
      subst
        (λ at. get_or (n.memory j.physical_address) o 0 ≡ (
          if leb offset at && ltb at (offset + length bytes)
          then get_or bytes (at - offset) 0
          else get_or (m.memory j.physical_address) o 0))
        (at_first (2 ^ m.page_bit) o)
        (first_page o j lt (subst (λ q. p.pages q ≡ some j) (no_shift page) other) inside_j)
  any_page (suc k) o j lt other inside_j = later_page k o j lt other inside_j

  pub Written-first : Written p page offset bytes m n
  Written-first = record {
    same_tables = rest.same_tables;
    same_bit = rest.same_bit;
    same_sizes = λ a.
        rest.same_sizes a
        ∙ length-store i.physical_address offset (first_bytes first bytes) m.memory a;
    pages_before = λ q j lt other inside_j.
        rest.pages_before q j (omega arith) other inside_j
        ∙ store-elsewhere (2 ^ m.page_bit) p page q offset (first_bytes first bytes) m.memory i j
            laid own inside other inside_j (omega arith);
    bytes_at = any_page;
  }
