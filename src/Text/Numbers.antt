-- ===== src/Text/Numbers.antt =====
-- `std::stoi` and its like: white space, a sign, and as many digits as there are.
use lu.Base.{
  ℕ, zero, suc, ◌+◌, ◌-◌, ◌*◌, ◌^◌, Bool, true, false, not, ◌&&◌, ◌||◌, List, [], ◌∷◌, Option, none,
  some, ◌==◌, leb, ltb, if◌then◌else◌,
}

-- An integer, `negsuc n` for -(n + 1).
pub data ℤ : Type 0 where
  pos negsuc : ℕ → ℤ

abbrev pub is_digit : ℕ → Bool
is_digit c = leb b'0' c && leb c b'9'

-- `std::isspace` in the C locale.
abbrev pub is_space : ℕ → Bool
is_space c = c == 32 || (leb 9 c && leb c 13)

abbrev pub skip_spaces : List ℕ → List ℕ
skip_spaces [] = []
skip_spaces (c ∷ text) = let rest = skip_spaces text in if is_space c then rest else c ∷ text

-- The number that the digits in front make, after those already read.
abbrev pub digits : ℕ → List ℕ → ℕ
digits n [] = n
digits n (c ∷ text) = let rest = digits (n * 10 + (c - b'0')) text in if is_digit c then rest else n

-- No digit: `std::invalid_argument`.
abbrev pub read_digits : List ℕ → Option ℕ
read_digits [] = none
read_digits (c ∷ text) = if is_digit c then some (digits 0 (c ∷ text)) else none

-- The sign, true for a minus, and what is behind it.
abbrev pub sign : List ℕ → Bool × List ℕ
sign [] = (false, [])
sign (c ∷ text) =
    if c == b'-' then (true, text) else if c == b'+' then (false, text) else (false, c ∷ text)

abbrev pub negate : ℕ → ℤ
negate zero = pos 0
negate (suc n) = negsuc n

-- A value outside the type: `std::out_of_range`.
abbrev pub in_range : ℕ → Bool → Option ℕ → Option ℤ
in_range bits minus none = none
in_range bits true (some n) = if leb n (2 ^ bits) then some (negate n) else none
in_range bits false (some n) = if ltb n (2 ^ bits) then some (pos n) else none

abbrev pub signed : ℕ → Bool × List ℕ → Option ℤ
signed bits (minus, text) = in_range bits minus (read_digits text)

abbrev pub stoi : List ℕ → Option ℤ
stoi text = signed 31 (sign (skip_spaces text))

abbrev pub stoll : List ℕ → Option ℤ
stoll text = signed 63 (sign (skip_spaces text))

-- A minus is taken modulo 2 ^ 64.
abbrev pub wrapped : Bool → Option ℕ → Option ℕ
wrapped minus none = none
wrapped minus (some n) =
    if ltb n (2 ^ 64) then some (if minus && not (n == 0) then 2 ^ 64 - n else n) else none

abbrev pub unsigned : Bool × List ℕ → Option ℕ
unsigned (minus, text) = wrapped minus (read_digits text)

-- `std::stoul`, where `unsigned long` has 64 bits, and `std::stoull`.
abbrev pub stoull : List ℕ → Option ℕ
stoull text = unsigned (sign (skip_spaces text))

abbrev pub is_zero : ℤ → Bool
is_zero (pos n) = n == 0
is_zero (negsuc n) = false

abbrev pub is_one : ℤ → Bool
is_one (pos n) = n == 1
is_one (negsuc n) = false

abbrev pub greater : ℤ → ℤ → Bool
greater (pos m) (pos n) = ltb n m
greater (pos m) (negsuc n) = true
greater (negsuc m) (pos n) = false
greater (negsuc m) (negsuc n) = ltb m n
