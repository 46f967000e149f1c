-- ===== src/Bytes.antt =====
-- The bytes of an int, as the host keeps it in memory and in files.
use ferry_os.Prelude.{ℕ, ◌+◌, ◌*◌, ◌/◌, ◌%◌, List, [], ◌∷◌}

-- The bytes of an int, lowest first.
abbrev pub int_bytes : ℕ → List ℕ
int_bytes w = w % 256 ∷ w / 256 % 256 ∷ w / 65536 % 256 ∷ w / 16777216 % 256 ∷ []

abbrev pub int_of_bytes : ℕ → ℕ → ℕ → ℕ → ℕ
int_of_bytes a b c d = a + 256 * b + 65536 * c + 16777216 * d
