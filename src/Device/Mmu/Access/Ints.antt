-- ===== src/Device/Mmu/Access/Ints.antt =====
-- device/memory/mmu.cpp: an int that is written to the memory of a process is read from it, whether
-- it is aligned or crosses two pages.
use ferry_os.Prelude.{
  ℕ, ◌+◌, ◌-◌, ◌*◌, ◌/◌, ◌%◌, ◌^◌, ◌≤◌, ◌<◌, ◌≡◌, ◌∙◌, ◌≢◌, sym, ap, subst, true, some, List,
  length, get_or, arith, ltb, leb, ◌&&◌, if◌then◌else◌,
}
use native.Mathlib.Nat.{mod-lt, one-le-pow, le-div_iff_mul-le}
use ferry_os.Bytes.{int_bytes}
use ferry_os.Device.PageTableItem.{PageTableItem}
use ferry_os.Device.Mmu.ProcessTable.{ProcessTableItem}
use ferry_os.Device.Mmu.State.{Mmu, find_process, get_process}
use ferry_os.Device.Mmu.Access.{write}
use ferry_os.Device.Mmu.Access.Resident.{Resident, IsLaidOut, Written}
use ferry_os.Device.Mmu.Access.RoundTrip.{write-Written, div-le_of_le, place, byte_of_range}

-- The pages of a range of addresses of a process are its own and in memory, in frames of their own.
pub record CanUse (pid : ℕ) (p : ProcessTableItem) (lo hi : ℕ) (m : Mmu) : Type 0 where
  pub user : pid ≢ 0
  pub found : get_process pid m ≡ some p
  pub laid : IsLaidOut (2 ^ m.page_bit) p m.memory
  pub owned : (hi - 1) / 2 ^ m.page_bit < p.page_count
  pub resident : (q : ℕ) → lo / 2 ^ m.page_bit ≤ q → q ≤ (hi - 1) / 2 ^ m.page_bit → Resident p q

-- The byte that a process sees at an address.
abbrev pub IsByte : ProcessTableItem → Mmu → ℕ → ℕ → Type 0
IsByte p m a v =
    (i : PageTableItem) × (p.pages (a / 2 ^ m.page_bit) ≡ some i)
    × (i.in_memory ≡ true)
    × (get_or (m.memory i.physical_address) (a % 2 ^ m.page_bit) 0 ≡ v)

module _ (pid : ℕ) (p : ProcessTableItem) (lo hi : ℕ) (m : Mmu) (can : CanUse pid p lo hi m) where
  positive : 0 < 2 ^ m.page_bit
  positive = one-le-pow m.page_bit 2 (omega arith)

  -- The page that is `k` pages behind an address.
  page_behind :
      (a count k : ℕ)
      → lo ≤ a
      → a + count ≤ hi
      → 2 ^ m.page_bit * k < a % 2 ^ m.page_bit + count
      → Resident p (a / 2 ^ m.page_bit + k)
  page_behind a count k le top lt =
      can.resident (a / 2 ^ m.page_bit + k)
        (omega (arith, div-le_of_le lo a (2 ^ m.page_bit) positive le))
        ((le-div_iff_mul-le positive).1 (omega arith))

  pub owned_at : (a : ℕ) → a < hi → a / 2 ^ m.page_bit < p.page_count
  owned_at a lt =
      omega (arith, can.owned, div-le_of_le a (hi - 1) (2 ^ m.page_bit) positive (omega arith))

  -- The range is usable behind a write too.
  still :
      (a : ℕ) (bytes : List ℕ) (n : Mmu)
      → Written p (a / 2 ^ m.page_bit) (a % 2 ^ m.page_bit) bytes m n
      → CanUse pid p lo hi n
  still a bytes n done = record {
    user = can.user;
    found = ap (find_process pid) done.same_tables ∙ can.found;
    laid = record {
      separate = can.laid.separate;
      sized = λ q i own inside.
          subst (λ b. length (n.memory i.physical_address) ≡ 2 ^ b) (sym done.same_bit)
            (done.same_sizes i.physical_address ∙ can.laid.sized q i own inside);
    };
    owned = subst (λ b. (hi - 1) / 2 ^ b < p.page_count) (sym done.same_bit) can.owned;
    resident =
        subst (λ b. (q : ℕ) → lo / 2 ^ b ≤ q → q ≤ (hi - 1) / 2 ^ b → Resident p q)
          (sym done.same_bit) can.resident;
  }

  -- A byte that was written.
  Written-IsByte :
      (a j : ℕ) (bytes : List ℕ) (n : Mmu)
      → lo ≤ a
      → a + length bytes ≤ hi
      → j < length bytes
      → Written p (a / 2 ^ m.page_bit) (a % 2 ^ m.page_bit) bytes m n
      → IsByte p n (a + j) (get_or bytes j 0)
  Written-IsByte a j bytes n le top lt done =
      let (k, page_k, at_k) = place (2 ^ m.page_bit) a j positive in
      let rest = mod-lt (a + j) positive in
      let (i, own, inside) = page_behind a (length bytes) k le top (omega arith) in
      (
        i,
        subst (λ b. p.pages ((a + j) / 2 ^ b) ≡ some i) (sym done.same_bit)
            (subst (λ q. p.pages q ≡ some i) (sym page_k) own),
        inside,
        subst (λ b. get_or (n.memory i.physical_address) ((a + j) % 2 ^ b) 0 ≡ get_or bytes j 0)
            (sym done.same_bit)
            (byte_of_range p (a / 2 ^ m.page_bit) (a % 2 ^ m.page_bit) bytes m n k
              ((a + j) % 2 ^ m.page_bit) j i done rest at_k lt own inside),
      )

  -- A byte behind those that were written.
  kept-IsByte :
      (a j v : ℕ) (bytes : List ℕ) (n : Mmu)
      → length bytes ≤ j
      → Written p (a / 2 ^ m.page_bit) (a % 2 ^ m.page_bit) bytes m n
      → IsByte p m (a + j) v
      → IsByte p n (a + j) v
  kept-IsByte a j v bytes n le done (i, own, inside, value) =
      let (k, page_k, at_k) = place (2 ^ m.page_bit) a j positive in
      let rest = mod-lt (a + j) positive in
      (
        i,
        subst (λ b. p.pages ((a + j) / 2 ^ b) ≡ some i) (sym done.same_bit) own,
        inside,
        subst (λ b. get_or (n.memory i.physical_address) ((a + j) % 2 ^ b) 0 ≡ v)
            (sym done.same_bit)
            (done.bytes_at k ((a + j) % 2 ^ m.page_bit) i rest
                (subst (λ q. p.pages q ≡ some i) page_k own) inside
              ∙ (behind (a % 2 ^ m.page_bit) (2 ^ m.page_bit * k + (a + j) % 2 ^ m.page_bit) j bytes
                    _ at_k le
                  ∙ value)),
      )
    where
      behind :
          (offset at j : ℕ) (bytes : List ℕ) (old : ℕ)
          → at ≡ offset + j
          → length bytes ≤ j
          → (if leb offset at && ltb at (offset + length bytes)
              then get_or bytes (at - offset) 0
              else old)
            ≡ old
      behind offset at j bytes old e le = ground arith

  -- A write of an int in the range succeeds, its bytes are there, and those behind it stay.
  pub write-int :
      (a v : ℕ)
      → lo ≤ a
      → a + 4 ≤ hi
      → hi ≤ 2 ^ 64
      → (n : Mmu) × (write a (int_bytes v) pid m ≡ some (true, n))
        × CanUse pid p lo hi n
        × ((j : ℕ) → j < 4 → IsByte p n (a + j) (get_or (int_bytes v) j 0))
        × ((j w : ℕ) → 4 ≤ j → IsByte p m (a + j) w → IsByte p n (a + j) w)
  write-int a v le top small =
      let bytes = int_bytes v in
      let (n, e, done) =
        write-Written pid a bytes m p can.user can.found (owned_at a (omega arith))
          (owned_at (a + 4 - 1) (omega arith)) (omega arith) can.laid
          (λ k lt. page_behind a 4 k le top lt) (omega arith) in
      (
        n,
        e,
        still a bytes n done,
        λ j lt. Written-IsByte a j bytes n le top lt done,
        λ j w far old. kept-IsByte a j w bytes n far done old,
      )
