-- ===== src/Device/Mmu/Access/RoundTrip.antt =====
-- device/memory/mmu.cpp: what is written to the memory of a process is read from it.
use ferry_os.Prelude.{
  ℕ, ◌+◌, ◌-◌, ◌*◌, ◌/◌, ◌%◌, ◌^◌, ◌≤◌, ◌<◌, ◌≡◌, refl, ◌∙◌, ◌≢◌, sym, ap, subst, true, false, ◌&&◌,
  some, List, length, get_or, arith, ltb, leb, ◌==◌, ==_iff, if◌then◌else◌, inl, inr, Bool-cases,
  lt→ltb,
}
use native.Mathlib.Nat.{mod-lt, one-le-pow, add-zero, le-div_iff_mul-le, div-mul-le_self}
use ferry_os.Device.PageTableItem.{PageTableItem}
use ferry_os.Device.Mmu.ProcessTable.{ProcessTableItem, is_valid}
use ferry_os.Device.Mmu.State.{Mmu, find_process, get_process}
use ferry_os.Device.Mmu.Schedule.{use_page}
use ferry_os.Device.Mmu.Schedule.Faults.{get_process_page_table_item-pages}
use ferry_os.Device.Mmu.Access.{
  fetch, read_located, read_byte, read_table, fetch_located, write_table, write, write_process,
}
use ferry_os.Device.Mmu.Access.Bytes.{get_or-at}
use ferry_os.Device.Mmu.Access.Reads.{locate-in_memory}
use ferry_os.Device.Mmu.Access.Resident.{Resident, IsLaidOut, Written}
use ferry_os.Device.Mmu.Access.Loop.{write_all-Written}

pub not_system : (pid : ℕ) → pid ≢ 0 → (pid == 0) ≡ false
not_system pid user = elim (Bool-cases (pid == 0)) [
  | inl system ↦ absurd (user ((==_iff pid 0).0 system))
  | inr other ↦ other
]

last-wrap :
    (address count : ℕ)
    → 0 < count
    → address + count ≤ 2 ^ 64
    → (address + count + (2 ^ 64 - 1)) % 2 ^ 64 ≡ address + count - 1
last-wrap address count some_bytes le = omega arith

not_zero : (n : ℕ) → 0 < n → (n == 0) ≡ false
not_zero n lt = ground arith

-- Let the range of at least one byte lie in the memory of a process below the end of the addresses,
-- with all its pages in memory, and let the pages in memory have their frames for
-- themselves and the size of a page. The write succeeds; in the pages in memory each byte of the range
-- is the one written, and the others are as before.
pub write-Written :
    (pid address : ℕ) (bytes : List ℕ) (m : Mmu) (p : ProcessTableItem)
    → pid ≢ 0
    → get_process pid m ≡ some p
    → address / 2 ^ m.page_bit < p.page_count
    → (address + length bytes - 1) / 2 ^ m.page_bit < p.page_count
    → address + length bytes ≤ 2 ^ 64
    → IsLaidOut (2 ^ m.page_bit) p m.memory
    → ((k : ℕ)
        → 2 ^ m.page_bit * k < address % 2 ^ m.page_bit + length bytes
        → Resident p (address / 2 ^ m.page_bit + k))
    → 0 < length bytes
    → (n : Mmu) × (write address bytes pid m ≡ some (true, n))
      × Written p (address / 2 ^ m.page_bit) (address % 2 ^ m.page_bit) bytes m n
unfolding write write_process is_valid
write-Written pid address bytes m p user found first last top laid resident some_bytes =
    let (n, e, done) =
      write_all-Written pid (address / 2 ^ m.page_bit) (address % 2 ^ m.page_bit) bytes m p found
        laid (mod-lt address (one-le-pow m.page_bit 2 (omega arith))) resident some_bytes in
    (
      n,
      rw (not_system pid user) (
          ap (write_table pid address bytes m) found
          ∙ (rw
              (
                last-wrap address (length bytes) some_bytes top,
                lt→ltb _ _ first,
                lt→ltb _ _ last,
                not_zero (length bytes) some_bytes,
              )
              e)),
      done,
    )

-- Reading a byte of a page in memory.
pub read_byte-resident :
    (pid address : ℕ) (m : Mmu) (p : ProcessTableItem) (i : PageTableItem)
    → pid ≢ 0
    → get_process pid m ≡ some p
    → address / 2 ^ m.page_bit < p.page_count
    → p.pages (address / 2 ^ m.page_bit) ≡ some i
    → i.in_memory ≡ true
    → read_byte pid address m
      ≡ some (
        get_or (m.memory i.physical_address) (address % 2 ^ m.page_bit) 0,
        use_page (address / 2 ^ m.page_bit) pid m,
      )
unfolding read_byte read_located fetch is_valid
read_byte-resident pid address m p i user found valid own inside = rw (not_system pid user) (
    ap (read_table 1 pid address m) found
    ∙ (rw (lt→ltb _ _ valid) (
        ap (fetch_located 1 address) (
          locate-in_memory 1 pid (address / 2 ^ m.page_bit) m i
            (get_process_page_table_item-pages pid (address / 2 ^ m.page_bit) m p found ∙ own)
            inside)
        ∙ rw (add-zero (get_or (m.memory i.physical_address) (address % 2 ^ m.page_bit) 0)) refl)))

pub div-le_of_le : (a b size : ℕ) → 0 < size → a ≤ b → a / size ≤ b / size
div-le_of_le a b size positive le =
    (le-div_iff_mul-le positive).1 (omega (arith, div-mul-le_self a size))

mul_plus : (size a d : ℕ) → size * (a + d) ≡ size * a + size * d
mul_plus size a d = omega arith

sub_back : (a q : ℕ) → a ≤ q → a + (q - a) ≡ q
sub_back a q le = omega arith

mul_sub : (size a q : ℕ) → a ≤ q → size * q ≡ size * a + size * (q - a)
mul_sub size a q le =
    subst (λ x. size * x ≡ size * a + size * (q - a)) (sub_back a q le) (mul_plus size a (q - a))

-- The place of byte `j` behind an address: pages on, and the place in the page.
pub place :
    (size address j : ℕ)
    → 0 < size
    → (k : ℕ) × ((address + j) / size ≡ address / size + k)
      × (size * k + (address + j) % size ≡ address % size + j)
place size address j positive =
    let q = (address + j) / size in
    let k = q - address / size in
    let le = div-le_of_le address (address + j) size positive (omega arith) in
    let split = mul_sub size (address / size) q le in (k, omega arith, omega arith)

in_range :
    (offset at j : ℕ) (bytes : List ℕ) (old : ℕ)
    → at ≡ offset + j
    → j < length bytes
    → (if leb offset at && ltb at (offset + length bytes)
        then get_or bytes (at - offset) 0
        else old)
      ≡ get_or bytes j 0
in_range offset at j bytes old e lt = rw e (ground (arith, get_or-at bytes (offset + j - offset) j))

-- The byte that a write left at a place in its range.
pub byte_of_range :
    (p : ProcessTableItem) (page offset : ℕ) (bytes : List ℕ) (m n : Mmu) (k o j : ℕ)
    (i : PageTableItem)
    → Written p page offset bytes m n
    → o < 2 ^ m.page_bit
    → 2 ^ m.page_bit * k + o ≡ offset + j
    → j < length bytes
    → p.pages (page + k) ≡ some i
    → i.in_memory ≡ true
    → get_or (n.memory i.physical_address) o 0 ≡ get_or bytes j 0
byte_of_range p page offset bytes m n k o j i done lt_o at lt own inside =
    done.bytes_at k o i lt_o own inside
    ∙ in_range offset (2 ^ m.page_bit * k + o) j bytes (get_or (m.memory i.physical_address) o 0) at
        lt

-- A byte of the range that was written is read.
read_byte-Written :
    (pid address j : ℕ) (bytes : List ℕ) (m n : Mmu) (p : ProcessTableItem)
    → pid ≢ 0
    → get_process pid m ≡ some p
    → (address + length bytes - 1) / 2 ^ m.page_bit < p.page_count
    → ((k : ℕ)
        → 2 ^ m.page_bit * k < address % 2 ^ m.page_bit + length bytes
        → Resident p (address / 2 ^ m.page_bit + k))
    → Written p (address / 2 ^ m.page_bit) (address % 2 ^ m.page_bit) bytes m n
    → j < length bytes
    → read_byte pid (address + j) n
      ≡ some (get_or bytes j 0, use_page ((address + j) / 2 ^ n.page_bit) pid n)
read_byte-Written pid address j bytes m n p user found last resident done lt =
    let positive = one-le-pow m.page_bit 2 (omega arith) in
    let (k, page_k, at_k) = place (2 ^ m.page_bit) address j positive in
    let (i, own, inside) = resident k (omega arith) in
    let under =
      div-le_of_le (address + j) (address + length bytes - 1) (2 ^ m.page_bit) positive
        (omega arith) in
    let own_n =
      subst (λ b. p.pages ((address + j) / 2 ^ b) ≡ some i) (sym done.same_bit)
        (subst (λ q. p.pages q ≡ some i) (sym page_k) own) in
    let valid_n =
      subst (λ b. (address + j) / 2 ^ b < p.page_count) (sym done.same_bit) (omega arith) in
    let byte_n =
      subst (λ b. get_or (n.memory i.physical_address) ((address + j) % 2 ^ b) 0 ≡ get_or bytes j 0)
        (sym done.same_bit)
        (byte_of_range p (address / 2 ^ m.page_bit) (address % 2 ^ m.page_bit) bytes m n k
          ((address + j) % 2 ^ m.page_bit) j i done (mod-lt (address + j) positive) at_k lt own
          inside) in
    read_byte-resident pid (address + j) n p i user (ap (find_process pid) done.same_tables ∙ found)
      valid_n own_n inside
    ∙ rw byte_n refl

-- Let the range be as in a write that succeeds: in the memory of a process, below the end of the
-- addresses, with its pages in memory, where the pages in memory have their frames for themselves and
-- the size of a page. Then the write succeeds, and each byte of the range is read back as written.
pub read_byte-write :
    (pid address j : ℕ) (bytes : List ℕ) (m : Mmu) (p : ProcessTableItem)
    → pid ≢ 0
    → get_process pid m ≡ some p
    → address / 2 ^ m.page_bit < p.page_count
    → (address + length bytes - 1) / 2 ^ m.page_bit < p.page_count
    → address + length bytes ≤ 2 ^ 64
    → IsLaidOut (2 ^ m.page_bit) p m.memory
    → ((k : ℕ)
        → 2 ^ m.page_bit * k < address % 2 ^ m.page_bit + length bytes
        → Resident p (address / 2 ^ m.page_bit + k))
    → j < length bytes
    → (n : Mmu) × (write address bytes pid m ≡ some (true, n))
      × (read_byte pid (address + j) n
          ≡ some (get_or bytes j 0, use_page ((address + j) / 2 ^ n.page_bit) pid n))
read_byte-write pid address j bytes m p user found first last top laid resident lt =
    let (n, e, done) =
      write-Written pid address bytes m p user found first last top laid resident (omega arith) in
    (n, e, read_byte-Written pid address j bytes m n p user found last resident done lt)
