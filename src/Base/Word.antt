-- ===== src/Base/Word.antt =====
-- Machine words as native numbers: casts by `%`, shifts by `/` and `*`, bytes of a word.
use Prim.Native.Nat.{ℕ, zero, suc, ◌+◌, ◌-◌, ◌*◌, ◌/◌, ◌%◌, ◌^◌}
use mathlib.Core.List.{List, [], ◌∷◌, reverse}

abbrev pub u8 : ℕ → ℕ
u8 n = n % 2 ^ 8

abbrev pub u16 : ℕ → ℕ
u16 n = n % 2 ^ 16

abbrev pub u32 : ℕ → ℕ
u32 n = n % 2 ^ 32

-- `uint32_t` subtraction wraps.
abbrev pub sub_u32 : ℕ → ℕ → ℕ
sub_u32 a b = (a + 2 ^ 32 - b) % 2 ^ 32

infixl 72 ◌<<<◌ ◌>>>◌
abbrev pub ◌<<<◌ : ℕ → ℕ → ℕ
x <<< k = x * 2 ^ k

abbrev pub ◌>>>◌ : ℕ → ℕ → ℕ
x >>> k = x / 2 ^ k

-- The bytes of a `w`-byte word as they lie in the memory of a little-endian host.
abbrev pub le_bytes : ℕ → ℕ → List ℕ
le_bytes zero x = []
le_bytes (suc w) x = x % 256 ∷ le_bytes w (x / 256)

-- The word that `memcpy` reads from such bytes.
abbrev pub of_le_bytes : List ℕ → ℕ
of_le_bytes [] = 0
of_le_bytes (b ∷ bs) = b + 256 * of_le_bytes bs

-- `ntohs`, `ntohl`, `ntohll` and their inverses on a little-endian host: the bytes of a `w`-byte
-- word in reverse order.
abbrev pub byte_swap : ℕ → ℕ → ℕ
byte_swap w x = of_le_bytes (reverse (le_bytes w x))
