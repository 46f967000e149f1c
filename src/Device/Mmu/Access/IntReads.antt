-- ===== src/Device/Mmu/Access/IntReads.antt =====
-- device/memory/mmu.cpp: reading an int from the pages of a process that are in memory, in one piece
-- where it is aligned and byte by byte where it is not.
use ferry_os.Prelude.{
  ℕ, zero, suc, ◌+◌, ◌*◌, ◌/◌, ◌%◌, ◌^◌, ◌≤◌, ◌<◌, ◌≡◌, refl, ◌∙◌, sym, ap, subst, some, get_or,
  arith, ◌==◌, inl, inr, Bool-cases, lt→ltb,
}
use native.Mathlib.Nat.{mod-lt, one-le-pow, add-zero}
use ferry_os.Bytes.{int_bytes}
use ferry_os.Device.PageTableItem.{PageTableItem, Physical}
use ferry_os.Device.Mmu.ProcessTable.{ProcessTableItem, is_valid}
use ferry_os.Device.Mmu.State.{Mmu, then-some}
use ferry_os.Device.Mmu.Schedule.{use_page}
use ferry_os.Device.Mmu.Schedule.Faults.{get_process_page_table_item-pages}
use ferry_os.Device.Mmu.Access.{
  fetch, read_located, read_byte, read_bytes, read_half_word, read_table, fetch_located,
}
use ferry_os.Device.Mmu.Access.Reads.{locate-in_memory}
use ferry_os.Device.Mmu.Access.Resident.{some_inj}
use ferry_os.Device.Mmu.Access.RoundTrip.{not_system, read_byte-resident, place}
use ferry_os.Device.Mmu.Access.Ints.{CanUse, IsByte, owned_at}

four_times : (c : ℕ) → 2 ^ suc (suc c) ≡ 4 * 2 ^ c
four_times c = omega arith

no_page_on : (size k r o j : ℕ) → size * k + r ≡ o + j → o + j < size → (k ≡ 0) × (r ≡ o + j)
no_page_on size zero r o j e lt = (refl, omega arith)
no_page_on size (suc k) r o j e lt = absurd (omega arith)

in_page :
    (t a j : ℕ)
    → 0 < t
    → a % 4 ≡ 0
    → j < 4
    → ((a + j) / (4 * t) ≡ a / (4 * t)) × ((a + j) % (4 * t) ≡ a % (4 * t) + j)
in_page t a j positive aligned lt =
    let (k, page_k, at_k) = place (4 * t) a j (omega arith) in
    let rest = mod-lt a (let p : 0 < 4 * t = omega arith in p) in
    let room : a % (4 * t) + 3 < 4 * t = omega (arith, rest) in
    let (none_more, offset) =
      no_page_on (4 * t) k ((a + j) % (4 * t)) (a % (4 * t)) j at_k (omega (arith, room)) in
    (page_k ∙ (ap (λ x. a / (4 * t) + x) none_more ∙ add-zero (a / (4 * t))), offset)

-- The bytes of an aligned int are in one page.
aligned :
    (b a j : ℕ)
    → 2 ≤ b
    → a % 4 ≡ 0
    → j < 4
    → ((a + j) / 2 ^ b ≡ a / 2 ^ b) × ((a + j) % 2 ^ b ≡ a % 2 ^ b + j)
aligned zero a j le h lt = absurd (omega arith)
aligned (suc zero) a j le h lt = absurd (omega arith)
aligned (suc (suc c)) a j le h lt =
    subst (λ size. ((a + j) / size ≡ a / size) × ((a + j) % size ≡ a % size + j))
      (sym (four_times c)) (in_page (2 ^ c) a j (one-le-pow c 2 (omega arith)) h lt)

joined :
    (v : ℕ)
    → v < 2 ^ 32
    → ((((0 * 256 + v / 16777216 % 256) % 2 ^ 32 * 256 + v / 65536 % 256) % 2 ^ 32 * 256
              + v / 256 % 256)
            % 2 ^ 32
            * 256
          + v % 256)
        % 2 ^ 32
      ≡ v
joined v small = omega arith

in_one :
    (v : ℕ)
    → v < 2 ^ 32
    → v % 256
        + 256 * (v / 256 % 256 + 256 * (v / 65536 % 256 + 256 * (v / 16777216 % 256 + 256 * 0)))
      ≡ v
in_one v small = omega arith

-- Four bytes in a page are the int.
fetch_int :
    (base o v : ℕ) (memory : Physical)
    → ((j : ℕ) → j < 4 → get_or (memory base) (o + j) 0 ≡ get_or (int_bytes v) j 0)
    → v < 2 ^ 32
    → fetch 4 base o memory ≡ v
unfolding fetch
fetch_int base o v memory h small = omega (
  arith,
  at o 0 (omega arith) (omega arith),
  at (o + 1) 1 (omega arith) (omega arith),
  at (o + 1 + 1) 2 (omega arith) (omega arith),
  at (o + 1 + 1 + 1) 3 (omega arith) (omega arith),
  in_one v small,
)
  where
    at : (q j : ℕ) → q ≡ o + j → j < 4 → get_or (memory base) q 0 ≡ get_or (int_bytes v) j 0
    at q j e lt = ap (λ x. get_or (memory base) x 0) e ∙ h j lt

read_bytes-step :
    (pid a left value w : ℕ) (m n : Mmu)
    → read_byte pid (a + left) m ≡ some (w, n)
    → read_bytes (suc left) pid a value m ≡ read_bytes left pid a ((value * 256 + w) % 2 ^ 32) n
unfolding read_bytes
read_bytes-step pid a left value w m n e = then-some (read_byte pid (a + left)) _ e

-- The state behind the use of a page.
used :
    (pid q lo hi : ℕ) (p : ProcessTableItem) (m : Mmu)
    → CanUse pid p lo hi m
    → CanUse pid p lo hi (use_page q pid m)
used pid q lo hi p m can = record {
  user = can.user;
  found = can.found;
  laid = can.laid;
  owned = can.owned;
  resident = can.resident;
}

read_at :
    (pid a w lo hi : ℕ) (p : ProcessTableItem) (m : Mmu)
    → CanUse pid p lo hi m
    → a < hi
    → IsByte p m a w
    → read_byte pid a m ≡ some (w, use_page (a / 2 ^ m.page_bit) pid m)
read_at pid a w lo hi p m can lt (i, own, inside, value) =
    read_byte-resident pid a m p i can.user can.found (owned_at pid p lo hi m can a lt) own inside
    ∙ rw value refl

module _ (pid a v lo hi : ℕ) (p : ProcessTableItem) (m : Mmu) (can : CanUse pid p lo hi m)
    (top : a + 4 ≤ hi) (small : v < 2 ^ 32)
    (bytes : (j : ℕ) → j < 4 → IsByte p m (a + j) (get_or (int_bytes v) j 0)) where
  abbrev after : ℕ → Mmu → Mmu
  after j n = use_page ((a + j) / 2 ^ n.page_bit) pid n

  unaligned : read_bytes 4 pid a 0 m ≡ some (v, after 0 (after 1 (after 2 (after 3 m))))
  unfolding read_bytes
  unaligned =
      let can3 = used pid ((a + 3) / 2 ^ m.page_bit) lo hi p m can in
      let can2 = used pid ((a + 2) / 2 ^ m.page_bit) lo hi p (after 3 m) can3 in
      let can1 = used pid ((a + 1) / 2 ^ m.page_bit) lo hi p (after 2 (after 3 m)) can2 in
      read_bytes-step pid a 3 0 _ m _
        (read_at pid (a + 3) _ lo hi p m can (omega arith) (bytes 3 (omega arith)))
      ∙ (read_bytes-step pid a 2 _ _ (after 3 m) _
            (read_at pid (a + 2) _ lo hi p (after 3 m) can3 (omega arith) (bytes 2 (omega arith)))
          ∙ (read_bytes-step pid a 1 _ _ (after 2 (after 3 m)) _ (
                read_at pid (a + 1) _ lo hi p (after 2 (after 3 m)) can2 (omega arith)
                  (bytes 1 (omega arith)))
              ∙ (read_bytes-step pid a 0 _ _ (after 1 (after 2 (after 3 m))) _ (
                    read_at pid (a + 0) _ lo hi p (after 1 (after 2 (after 3 m))) can1 (omega arith)
                      (bytes 0 (omega arith)))
                  ∙ ap (λ x. some (x, after 0 (after 1 (after 2 (after 3 m))))) (joined v small))))

  -- The bytes of an aligned int, in the page of its first.
  byte_here :
      (j : ℕ) (i : PageTableItem)
      → 2 ≤ m.page_bit
      → a % 4 ≡ 0
      → j < 4
      → p.pages (a / 2 ^ m.page_bit) ≡ some i
      → get_or (m.memory i.physical_address) (a % 2 ^ m.page_bit + j) 0 ≡ get_or (int_bytes v) j 0
  byte_here j i wide whole lt own =
      let (i', own', inside, value) = bytes j lt in
      let (page, offset) = aligned m.page_bit a j wide whole lt in
      let same : i ≡ i' = some_inj i i' (sym own ∙ (ap p.pages (sym page) ∙ own')) in
      ap (λ o. get_or (m.memory i.physical_address) o 0) (sym offset)
      ∙ (ap
            (λ (x : PageTableItem).
              get_or (m.memory x.physical_address) ((a + j) % 2 ^ m.page_bit) 0)
            same
          ∙ value)

  in_one_page :
      2 ≤ m.page_bit
      → a % 4 ≡ 0
      → read_located 4 pid a m ≡ some (v, use_page (a / 2 ^ m.page_bit) pid m)
  unfolding read_located fetch is_valid
  in_one_page wide whole =
      let (i, own0, inside, value) = bytes 0 (omega arith) in
      let own = ap (λ x. p.pages (x / 2 ^ m.page_bit)) (sym (add-zero a)) ∙ own0 in
      ap (read_table 4 pid a m) can.found
      ∙ (rw (lt→ltb _ _ (owned_at pid p lo hi m can a (omega arith))) (
          ap (fetch_located 4 a) (
            locate-in_memory 1 pid (a / 2 ^ m.page_bit) m i
              (get_process_page_table_item-pages pid (a / 2 ^ m.page_bit) m p can.found ∙ own)
              inside)
          ∙ ap (λ x. some (x, use_page (a / 2 ^ m.page_bit) pid m))
              (fetch_int i.physical_address (a % 2 ^ m.page_bit) v m.memory
                (λ j lt. byte_here j i wide whole lt own) small)))

  -- Reading an int in the range returns it and leaves the pages as they are.
  pub read-int :
      2 ≤ m.page_bit
      → (n : Mmu) × (read_half_word pid a m ≡ some (v, n))
        × CanUse pid p lo hi n
        × (n.process_table ≡ m.process_table)
        × (n.memory ≡ m.memory)
        × (n.page_bit ≡ m.page_bit)
  unfolding read_half_word is_valid
  read-int wide = elim (Bool-cases (a % 4 == 0)) [
    | inl whole ↦ (
      use_page (a / 2 ^ m.page_bit) pid m,
      rw
          (
            not_system pid can.user,
            can.found,
            lt→ltb _ _ (owned_at pid p lo hi m can a (omega arith)),
            whole,
          )
          (in_one_page wide (ground arith)),
      used pid _ lo hi p m can,
      refl,
      refl,
      refl,
    )
    | inr split ↦ (
      after 0 (after 1 (after 2 (after 3 m))),
      rw
          (
            not_system pid can.user,
            can.found,
            lt→ltb _ _ (owned_at pid p lo hi m can a (omega arith)),
            split,
          )
          unaligned,
      used pid _ lo hi p _ (used pid _ lo hi p _ (used pid _ lo hi p _ (used pid _ lo hi p m can))),
      refl,
      refl,
      refl,
    )
  ]
