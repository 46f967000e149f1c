-- ===== src/Device/Interrupter/Priority.antt =====
-- device/interrupter/interrupter.cpp: what the priority table holds and what the register masks do.
use ferry_os.Prelude.{
  ℕ, ◌+◌, ◌/◌, ◌%◌, ◌^◌, ◌<◌, ◌≡◌, refl, Bool, true, false, ◌&&◌, not, ◌||◌, arith, ltb, ◌==◌, leb,
  leb→le, ◌≤◌, holds_under, read_table, ==_iff,
}
use ferry_os.Prelude.Words.{set_bit8, clear_bit8}
use ferry_os.Device.Interrupter.{highest_prio}

abbrev pub bit_at : ℕ → ℕ → ℕ
bit_at x i = x / 2 ^ i % 2

lowest_test : ℕ → Bool
unfolding highest_prio
lowest_test x =
    x == 0
    || ltb (highest_prio x) 8 && bit_at x (highest_prio x) == 1 && x % 2 ^ highest_prio x == 0

lowest_table : holds_under lowest_test 256 ≡ true
unfolding holds_under lowest_test
lowest_table = refl

-- The table gives the number of the lowest bit that is set: the source with the highest priority.
pub highest_prio_lowest :
    (x : ℕ)
    → 0 < x
    → x < 256
    → (highest_prio x < 8) × (bit_at x (highest_prio x) ≡ 1) × (x % 2 ^ highest_prio x ≡ 0)
unfolding lowest_test
highest_prio_lowest x pos lt = read (highest_prio x) (read_table lowest_test 256 x lowest_table lt)
  where
    read :
        (p : ℕ)
        → (x == 0 || ltb p 8 && bit_at x p == 1 && x % 2 ^ p == 0) ≡ true
        → (p < 8) × (bit_at x p ≡ 1) × (x % 2 ^ p ≡ 0)
    read p h = ground arith

clear_table :
    holds_under (λ x. holds_under (λ p. not (bit_at x p == 1) || clear_bit8 x p + 2 ^ p == x) 8) 256
    ≡ true
unfolding holds_under
clear_table = refl

set_table : holds_under (λ x. holds_under (λ p. bit_at (set_bit8 x p) p == 1) 8) 256 ≡ true
unfolding holds_under
set_table = refl

-- The masks set and clear one bit.
pub clear_bit8-add : (x p : ℕ) → x < 256 → p < 8 → bit_at x p ≡ 1 → clear_bit8 x p + 2 ^ p ≡ x
clear_bit8-add x p hx hp h =
    read (bit_at x p) (clear_bit8 x p + 2 ^ p) h
      (read_table _ 8 p (read_table _ 256 x clear_table hx) hp)
  where
    read : (b n : ℕ) → b ≡ 1 → (not (b == 1) || n == x) ≡ true → n ≡ x
    read b n e t = ground arith

pub bit_at-set_self : (x p : ℕ) → x < 256 → p < 8 → bit_at (set_bit8 x p) p ≡ 1
bit_at-set_self x p hx hp = (==_iff _ _).0 (read_table _ 8 p (read_table _ 256 x set_table hx) hp)

and_left : (a b : Bool) → (a && b) ≡ true → a ≡ true
and_left true b h = refl
and_left false b h = h

and_right : (a b : Bool) → (a && b) ≡ true → b ≡ true
and_right true b h = h
and_right false b h = cc

-- No request is lost by another one, and clearing source 0 leaves the others as they were.
keep_table :
    holds_under
      (λ x.
        holds_under
          (λ i.
            holds_under (λ p. leb (bit_at x i) (bit_at (set_bit8 x p) i)) 8
            && (i == 0 || bit_at (clear_bit8 x 0) i == bit_at x i))
          8)
      256
    ≡ true
unfolding holds_under
keep_table = refl

keeps :
    (x i : ℕ)
    → x < 256
    → i < 8
    → (holds_under (λ p. leb (bit_at x i) (bit_at (set_bit8 x p) i)) 8
        && (i == 0 || bit_at (clear_bit8 x 0) i == bit_at x i))
      ≡ true
keeps x i hx hi = read_table _ 8 i (read_table _ 256 x keep_table hx) hi

pub bit_at-set_bit8 : (x i p : ℕ) → x < 256 → i < 8 → p < 8 → bit_at x i ≤ bit_at (set_bit8 x p) i
bit_at-set_bit8 x i p hx hi hp = leb→le _ _ (
    read_table (λ q. leb (bit_at x i) (bit_at (set_bit8 x q) i)) 8 p
      (and_left _ _ (keeps x i hx hi)) hp)

pub bit_at-clear_bit8 : (x i : ℕ) → x < 256 → i < 8 → 0 < i → bit_at (clear_bit8 x 0) i ≡ bit_at x i
bit_at-clear_bit8 x i hx hi pos = read (bit_at (clear_bit8 x 0) i) (and_right _ _ (keeps x i hx hi))
  where
    read : (n : ℕ) → (i == 0 || n == bit_at x i) ≡ true → n ≡ bit_at x i
    read n h = ground arith
