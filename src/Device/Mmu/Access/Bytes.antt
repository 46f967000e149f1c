-- ===== src/Device/Mmu/Access/Bytes.antt =====
-- device/memory/process_table_item.cpp: the parts into which `write` cuts the bytes, and the pages it
-- puts them into.
use ferry_os.Prelude.{
  ℕ, zero, suc, ◌+◌, ◌-◌, ◌<◌, ◌≡◌, refl, ◌∙◌, ap, ◌&&◌, List, [], ◌∷◌, length, get_or, arith, ltb,
  leb, if◌then◌else◌,
}
use ferry_os.Device.Mmu.Access.{put_bytes, first_bytes, rest_bytes}

pub length-put_bytes :
    (page : List ℕ) (offset : ℕ) (chunk : List ℕ)
    → length (put_bytes page offset chunk) ≡ length page
unfolding put_bytes
length-put_bytes [] offset chunk = refl
length-put_bytes (b ∷ page) (suc offset) chunk = ap suc (length-put_bytes page offset chunk)
length-put_bytes (b ∷ page) zero [] = refl
length-put_bytes (b ∷ page) zero (c ∷ chunk) = ap suc (length-put_bytes page zero chunk)

-- A byte of a page that was written to.
pub get_or-put_bytes :
    (page : List ℕ) (offset : ℕ) (chunk : List ℕ) (i : ℕ)
    → i < length page
    → get_or (put_bytes page offset chunk) i 0 ≡ (
        if leb offset i && ltb i (offset + length chunk)
        then get_or chunk (i - offset) 0
        else get_or page i 0)
unfolding put_bytes
get_or-put_bytes [] offset chunk i lt = absurd (omega arith)
get_or-put_bytes (b ∷ page) (suc offset) chunk zero lt = ground arith
get_or-put_bytes (b ∷ page) (suc offset) chunk (suc i) lt =
    get_or-put_bytes page offset chunk i (omega arith) ∙ ground arith
get_or-put_bytes (b ∷ page) zero [] i lt = ground arith
get_or-put_bytes (b ∷ page) zero (c ∷ chunk) zero lt = ground arith
get_or-put_bytes (b ∷ page) zero (c ∷ chunk) (suc i) lt =
    get_or-put_bytes page zero chunk i (omega arith) ∙ ground arith

pub length-first_bytes :
    (n : ℕ) (bytes : List ℕ)
    → length (first_bytes n bytes) ≡ (if ltb n (length bytes) then n else length bytes)
unfolding first_bytes
length-first_bytes zero bytes = ground arith
length-first_bytes (suc n) [] = ground arith
length-first_bytes (suc n) (b ∷ bytes) = ground (arith, length-first_bytes n bytes)

pub get_or-first_bytes :
    (n : ℕ) (bytes : List ℕ) (i : ℕ) → i < n → get_or (first_bytes n bytes) i 0 ≡ get_or bytes i 0
unfolding first_bytes
get_or-first_bytes zero bytes i lt = absurd (omega arith)
get_or-first_bytes (suc n) [] i lt = refl
get_or-first_bytes (suc n) (b ∷ bytes) zero lt = refl
get_or-first_bytes (suc n) (b ∷ bytes) (suc i) lt = get_or-first_bytes n bytes i (omega arith)

pub get_or-at : (bytes : List ℕ) (i j : ℕ) → i ≡ j → get_or bytes i 0 ≡ get_or bytes j 0
get_or-at bytes i j e = ap (λ k. get_or bytes k 0) e

pub length-rest_bytes : (n : ℕ) (bytes : List ℕ) → length (rest_bytes n bytes) ≡ length bytes - n
unfolding rest_bytes
length-rest_bytes zero bytes = omega arith
length-rest_bytes (suc n) [] = omega arith
length-rest_bytes (suc n) (b ∷ bytes) = omega (arith, length-rest_bytes n bytes)

pub get_or-rest_bytes :
    (n : ℕ) (bytes : List ℕ) (i : ℕ) → get_or (rest_bytes n bytes) i 0 ≡ get_or bytes (n + i) 0
unfolding rest_bytes
get_or-rest_bytes zero bytes i = get_or-at bytes i (0 + i) (omega arith)
get_or-rest_bytes (suc n) [] i = refl
get_or-rest_bytes (suc n) (b ∷ bytes) i =
    get_or-rest_bytes n bytes i ∙ get_or-at (b ∷ bytes) (suc (n + i)) (suc n + i) (omega arith)
