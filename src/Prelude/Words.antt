-- ===== src/Prelude/Words.antt =====
-- Machine words as native numbers: wrap by `%`, two's complement as a bit pattern.
use Prim.Native.Nat.{bit_and, bit_or}
use ferry_os.Prelude.{
  ◌+◌, ◌/◌, Bool, true, false, not, ◌&&◌, leb, ◌==◌, ℕ, zero, suc, ◌-◌, ◌%◌, ◌^◌, List, [], ◌∷◌,
  Option, none, some, ltb, if◌then◌else◌, length,
}

abbrev pub u8 : ℕ → ℕ
u8 n = n % 2 ^ 8

abbrev pub u16 : ℕ → ℕ
u16 n = n % 2 ^ 16

abbrev pub u32 : ℕ → ℕ
u32 n = n % 2 ^ 32

-- `x |= 1 << i` on an unsigned char.
abbrev pub set_bit8 : ℕ → ℕ → ℕ
set_bit8 x i = u8 (bit_or x (2 ^ i))

-- `x &= ~(1 << i)` on an unsigned char: the complement is taken on the int and cut to 8 bits.
abbrev pub clear_bit8 : ℕ → ℕ → ℕ
clear_bit8 x i = u8 (bit_and x (255 - u8 (2 ^ i)))

unfoldable pub copy_bytes : ℕ → List ℕ → List ℕ → List ℕ
copy_bytes n src [] = []
copy_bytes zero src (b ∷ buffer) = 0 ∷ buffer
copy_bytes (suc n) [] (b ∷ buffer) = b ∷ buffer
copy_bytes (suc n) (c ∷ src) (b ∷ buffer) = c ∷ copy_bytes n src buffer

-- `memcpy(buffer, src, n)`, then a zero at `n`: the buffer keeps its other bytes. The result is none
-- where the zero goes behind the buffer.
unfoldable pub copy_string : ℕ → List ℕ → List ℕ → Option (List ℕ)
unfolding copy_bytes
copy_string n src buffer = if ltb n (length buffer) then some (copy_bytes n src buffer) else none

-- int arithmetic on bit patterns below 2 ^ 32, with the wrap of the machine.
abbrev pub add32 : ℕ → ℕ → ℕ
add32 a b = (a + b) % 2 ^ 32

abbrev pub sub32 : ℕ → ℕ → ℕ
sub32 a b = (a + 2 ^ 32 - b) % 2 ^ 32

abbrev pub is_neg : ℕ → Bool
is_neg w = leb (2 ^ 31) w

-- An int converted to an unsigned long: the sign is extended.
abbrev pub sext : ℕ → ℕ
sext w = if is_neg w then w + (2 ^ 64 - 2 ^ 32) else w

-- The order of ints.
abbrev pub lt_int : ℕ → ℕ → Bool
lt_int a b = ltb ((a + 2 ^ 31) % 2 ^ 32) ((b + 2 ^ 31) % 2 ^ 32)

abbrev abs32 : ℕ → ℕ
abs32 a = if is_neg a then 2 ^ 32 - a else a

abbrev same_sign : Bool → Bool → Bool
same_sign true b = b
same_sign false b = not b

-- `a / b` rounds towards 0; it traps on 0 and on the one quotient that is no int.
unfoldable pub div32 : ℕ → ℕ → Option ℕ
div32 a b =
    if b == 0
    then none
    else if a == 2 ^ 31 && b == 2 ^ 32 - 1
    then none
    else let q = abs32 a / abs32 b in
      some (if same_sign (is_neg a) (is_neg b) then q else sub32 0 q)
