-- ===== src/Device/SwapSpace/Bitmap.antt =====
-- device/fs/fs.cpp: counting the bits of a bitmap, and what its search loop finds.
use ferry_os.Prelude.{
  ℕ, zero, suc, ◌+◌, ◌≤◌, ◌<◌, ◌≡◌, refl, Bool, true, false, none, some, List, [], ◌∷◌, arith,
  if◌then◌else◌, get_or, set, replicate, length, ◌==◌,
}
use ferry_os.Device.SwapSpace.{find_free}

-- The number of bits that are set.
pub total : List Bool → ℕ
total [] = 0
total (b ∷ bs) = (if b then 1 else 0) + total bs

pub total-le-length : (bs : List Bool) → total bs ≤ length bs
unfolding total
total-le-length [] = omega arith
total-le-length (true ∷ bs) = omega (arith, total-le-length bs)
total-le-length (false ∷ bs) = omega (arith, total-le-length bs)

pub total-replicate : (n : ℕ) → total (replicate n false) ≡ 0
unfolding total
total-replicate zero = refl
total-replicate (suc n) = omega (arith, total-replicate n)

pub total-set-true :
    (bs : List Bool) (i : ℕ)
    → i < length bs
    → get_or bs i false ≡ false
    → total (set bs i true) ≡ total bs + 1
unfolding total
total-set-true [] i h e = absurd (omega arith)
total-set-true (b ∷ bs) zero h e = ground arith
total-set-true (b ∷ bs) (suc i) h e = omega (arith, total-set-true bs i (omega arith) e)

pub total-set-false :
    (bs : List Bool) (i : ℕ) → get_or bs i false ≡ true → total (set bs i false) + 1 ≡ total bs
unfolding total
total-set-false [] i e = cc
total-set-false (b ∷ bs) zero e = ground arith
total-set-false (b ∷ bs) (suc i) e = omega (arith, total-set-false bs i e)

pub get_or-set :
    (bs : List Bool) (i j : ℕ) (v : Bool)
    → i < length bs
    → get_or (set bs i v) j false ≡ (if i == j then v else get_or bs j false)
get_or-set [] i j v h = absurd (omega arith)
get_or-set (b ∷ bs) zero zero v h = refl
get_or-set (b ∷ bs) zero (suc j) v h = ground arith
get_or-set (b ∷ bs) (suc i) zero v h = ground arith
get_or-set (b ∷ bs) (suc i) (suc j) v h = ground (arith, get_or-set bs i j v (omega arith))

pub get_or-replicate : (n j : ℕ) → get_or (replicate n false) j false ≡ false
get_or-replicate zero j = refl
get_or-replicate (suc n) zero = refl
get_or-replicate (suc n) (suc j) = get_or-replicate n j

pub length-replicate : (n : ℕ) → length (replicate n false) ≡ n
length-replicate zero = refl
length-replicate (suc n) = omega (arith, length-replicate n)

-- As many bits as a first stretch of set bits has.
pub stretch-le-total :
    (n : ℕ) (bs : List Bool) → ((j : ℕ) → j < n → get_or bs j false ≡ true) → n ≤ total bs
unfolding total
stretch-le-total zero bs h = omega arith
stretch-le-total (suc n) [] h = absurd (ground (arith, h 0 (omega arith)))
stretch-le-total (suc n) (b ∷ bs) h =
    ground (arith, h 0 (omega arith), stretch-le-total n bs (λ j lt. h (suc j) (omega arith)))

-- No more bits than the last set one allows.
pub total-le_of_above :
    (n : ℕ) (bs : List Bool) → ((j : ℕ) → n ≤ j → get_or bs j false ≡ false) → total bs ≤ n
unfolding total
total-le_of_above n [] h = omega arith
total-le_of_above zero (b ∷ bs) h =
    ground (arith, h 0 (omega arith), total-le_of_above zero bs (λ j le. h (suc j) (omega arith)))
total-le_of_above (suc n) (b ∷ bs) h =
    ground (arith, total-le_of_above n bs (λ j le. h (suc j) (omega arith)))

-- A page that the search finds is allocated and free.
pub find_free_sound :
    (n i : ℕ) (bs ms : List Bool) (p : ℕ)
    → find_free n i bs ms ≡ some p
    → (get_or ms p false ≡ true) × (get_or bs p false ≡ false) × (p < i + n)
unfolding find_free
find_free_sound zero i bs ms p e = cc
find_free_sound (suc n) i bs ms p e = ground (arith, find_free_sound n (i + 1) bs ms p)

-- If it finds none, no allocated page of the range is free.
pub find_free_complete :
    (n i : ℕ) (bs ms : List Bool) (j : ℕ)
    → find_free n i bs ms ≡ none
    → i ≤ j
    → j < i + n
    → get_or ms j false ≡ true
    → get_or bs j false ≡ true
unfolding find_free
find_free_complete zero i bs ms j e lo hi m = absurd (omega arith)
find_free_complete (suc n) i bs ms j e lo hi m =
    ground (arith, find_free_complete n (i + 1) bs ms j)
