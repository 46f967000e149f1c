-- ===== src/Device/Mmu/Access/Loop.antt =====
-- device/memory/process_table_item.cpp: the loop of `write` over pages that are in memory.
use ferry_os.Prelude.{
  ℕ, zero, suc, ◌+◌, ◌-◌, ◌*◌, ◌%◌, ◌^◌, ◌≤◌, ◌<◌, ◌≡◌, refl, ◌∙◌, ap, subst, true, false, some,
  List, length, arith, ltb, ◌==◌, ==_iff, inl, inr, Bool-cases,
}
use native.Mathlib.Nat.{mod-lt, one-le-pow}
use ferry_os.Device.PageTableItem.{Physical}
use ferry_os.Device.Mmu.ProcessTable.{ProcessTableItem, page_up}
use ferry_os.Device.Mmu.State.{Mmu, get_process}
use ferry_os.Device.Mmu.Access.{go_on, write_rest, write_all, first_bytes, rest_bytes, first_size}
use ferry_os.Device.Mmu.Access.Bytes.{length-rest_bytes}
use ferry_os.Device.Mmu.Access.Resident.{Resident, IsLaidOut, Written, write_page-some}
use ferry_os.Device.Mmu.Access.Writes.{
  Fits, first_done, shift, no_shift, length-store, Written-first,
}

IsLaidOut-sizes :
    (size : ℕ) (p : ProcessTableItem) (memory filled : Physical)
    → ((a : ℕ) → length (filled a) ≡ length (memory a))
    → IsLaidOut size p memory
    → IsLaidOut size p filled
IsLaidOut-sizes size p memory filled same laid = record {
  separate = laid.separate;
  sized = λ q i own inside. same i.physical_address ∙ laid.sized q i own inside;
}

-- The loop over whole pages, for as many rounds as the bytes need.
write_rest-Written :
    (count pid page : ℕ) (bytes : List ℕ) (m : Mmu) (p : ProcessTableItem)
    → get_process pid m ≡ some p
    → IsLaidOut (2 ^ m.page_bit) p m.memory
    → length bytes ≤ 2 ^ m.page_bit * count
    → 2 ^ m.page_bit * count < length bytes + 2 ^ m.page_bit
    → ((k : ℕ) → 2 ^ m.page_bit * k < length bytes → Resident p (page + k))
    → (n : Mmu) × (write_rest count pid page bytes m ≡ some (true, n)) × Written p page 0 bytes m n
unfolding write_rest
write_rest-Written zero pid page bytes m p found laid le lt resident = (
  m,
  refl,
  record {
    same_tables = refl;
    same_bit = refl;
    same_sizes = λ a. refl;
    pages_before = λ q i lt own inside. refl;
    bytes_at = λ k o i lt own inside. ground arith;
  },
)
write_rest-Written (suc count) pid page bytes m p found laid le lt resident =
    let size = 2 ^ m.page_bit in
    let (i, own, inside) = subst (Resident p) (no_shift page) (resident 0 (omega arith)) in
    let done = first_done pid page 0 size bytes m i in
    let sizes = length-store i.physical_address 0 (first_bytes size bytes) m.memory in
    let (n, e, rest) =
      write_rest-Written count pid (page + 1) (rest_bytes size bytes) done p found
        (IsLaidOut-sizes size p m.memory done.memory sizes laid)
        (omega (arith, length-rest_bytes size bytes)) (omega (arith, length-rest_bytes size bytes))
        (λ k lt_k.
          subst (Resident p) (shift page k)
            (resident (suc k) (omega (arith, length-rest_bytes size bytes)))) in
    (
      n,
      ap (go_on (write_rest count pid (page + 1) (rest_bytes size bytes)))
            (write_page-some pid page 0 (first_bytes size bytes) m p i found own inside)
          ∙ e,
      Written-first pid page 0 size bytes m n p i (inl (omega arith)) laid own inside rest,
    )

not_zero : (n : ℕ) → (n == 0) ≡ false → 0 < n
not_zero n e = ground arith

page_up-bounds :
    (page_bit n : ℕ)
    → (n ≤ 2 ^ page_bit * page_up page_bit n)
      × (2 ^ page_bit * page_up page_bit n < n + 2 ^ page_bit)
unfolding page_up
page_up-bounds page_bit n =
    let positive = one-le-pow page_bit 2 (omega arith) in
    elim (Bool-cases (n % 2 ^ page_bit == 0)) [
      | inl whole ↦
          rw whole (let e = (==_iff (n % 2 ^ page_bit) 0).0 whole in (omega arith, omega arith))
      | inr part ↦
          rw part
            (omega (arith, mod-lt n positive), omega (arith, not_zero (n % 2 ^ page_bit) part))
    ]

later-start :
    (size offset first : ℕ) (bytes : List ℕ) (k : ℕ)
    → Fits size offset first bytes
    → size * k < length (rest_bytes first bytes)
    → size * suc k < offset + length bytes
later-start size offset first bytes k (inl fills) lt = omega (arith, length-rest_bytes first bytes)
later-start size offset first bytes k (inr (all, le)) lt =
    absurd (omega (arith, length-rest_bytes first bytes))

first_size-Fits :
    (page_bit offset : ℕ) (bytes : List ℕ)
    → offset < 2 ^ page_bit
    → Fits (2 ^ page_bit) offset (first_size page_bit offset bytes) bytes
first_size-Fits page_bit offset bytes lt =
    elim (Bool-cases (ltb (2 ^ page_bit - offset) (length bytes))) [
      | inl more ↦ rw more (inl (omega arith))
      | inr enough ↦ rw enough (inr (refl, ground arith))
    ]

-- Let a process have all pages in memory that the bytes touch, its pages in memory having their frames for
-- themselves and the size of a page. A write of at least one byte succeeds; each byte of its pages in memory
-- that lies in the range is the one written, and the others are as before.
pub write_all-Written :
    (pid page offset : ℕ) (bytes : List ℕ) (m : Mmu) (p : ProcessTableItem)
    → get_process pid m ≡ some p
    → IsLaidOut (2 ^ m.page_bit) p m.memory
    → offset < 2 ^ m.page_bit
    → ((k : ℕ) → 2 ^ m.page_bit * k < offset + length bytes → Resident p (page + k))
    → 0 < length bytes
    → (n : Mmu) × (write_all pid page offset bytes m ≡ some (true, n))
      × Written p page offset bytes m n
unfolding write_all
write_all-Written pid page offset bytes m p found laid lt resident some_bytes =
    let size = 2 ^ m.page_bit in
    let first = first_size m.page_bit offset bytes in
    let fits = first_size-Fits m.page_bit offset bytes lt in
    let (i, own, inside) = subst (Resident p) (no_shift page) (resident 0 (omega arith)) in
    let done = first_done pid page offset first bytes m i in
    let sizes = length-store i.physical_address offset (first_bytes first bytes) m.memory in
    let count = page_up m.page_bit (length bytes - first) in
    let (up, under) = page_up-bounds m.page_bit (length bytes - first) in
    let (n, e, rest) =
      write_rest-Written count pid (page + 1) (rest_bytes first bytes) done p found
        (IsLaidOut-sizes size p m.memory done.memory sizes laid)
        (omega (arith, length-rest_bytes first bytes))
        (omega (arith, length-rest_bytes first bytes))
        (λ k lt_k.
          subst (Resident p) (shift page k)
            (resident (suc k) (later-start size offset first bytes k fits lt_k))) in
    (
      n,
      ap (go_on (write_rest count pid (page + 1) (rest_bytes first bytes)))
            (write_page-some pid page offset (first_bytes first bytes) m p i found own inside)
          ∙ e,
      Written-first pid page offset first bytes m n p i fits laid own inside rest,
    )
