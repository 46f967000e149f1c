-- ===== src/Prelude/Count.antt =====
-- How often a number stands in a queue: the measure by which queues are compared.
use ferry_os.Prelude.{ℕ, ◌+◌, ◌≡◌, List, [], ◌∷◌, ◌++◌, arith, ◌==◌, if◌then◌else◌}

abbrev pub times : ℕ → List ℕ → ℕ
times n [] = 0
times n (front ∷ rest) = (if front == n then 1 else 0) + times n rest

pub times-append : (n : ℕ) (q back : List ℕ) → times n (q ++ back) ≡ times n q + times n back
times-append n [] back = omega arith
times-append n (front ∷ rest) back = omega (arith, times-append n rest back)

pub times-snoc :
    (n : ℕ) (q : List ℕ) (last : ℕ)
    → times n (q ++ last ∷ []) ≡ times n q + (if last == n then 1 else 0)
times-snoc n q last = omega (arith, times-append n q (last ∷ []))
