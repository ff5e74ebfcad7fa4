-- ===== src/Text/Bytes.antt =====
-- What the code uses of strings: search, comparison and lower case.
use lu.Base.{
  ℕ, ◌+◌, Bool, true, false, ◌&&◌, List, [], ◌∷◌, map, Option, none, some, length, drop, ◌==◌, leb,
  if◌then◌else◌,
}
use Prim.Native.Char.{code}
use Prim.Native.String.{String}

abbrev pub codes : String → List ℕ
codes String.[] = []
codes (String.◌∷◌ c s) = code c ∷ codes s

abbrev pub text_eq : List ℕ → List ℕ → Bool
text_eq [] [] = true
text_eq [] (b ∷ y) = false
text_eq (a ∷ x) [] = false
text_eq (a ∷ x) (b ∷ y) = let rest = text_eq x y in if a == b then rest else false

abbrev pub starts_with : List ℕ → List ℕ → Bool
starts_with [] text = true
starts_with (c ∷ d) [] = false
starts_with (c ∷ d) (b ∷ text) = let rest = starts_with d text in if c == b then rest else false

abbrev pub plus : ℕ → Option ℕ → Option ℕ
plus k none = none
plus k (some n) = some (k + n)

-- Where the first occurrence begins.
abbrev pub find : List ℕ → List ℕ → Option ℕ
find d [] = if starts_with d [] then some 0 else none
find d (b ∷ text) =
    let rest = find d text in if starts_with d (b ∷ text) then some 0 else plus 1 rest

-- The first occurrence at a position or behind it.
abbrev pub find_from : List ℕ → List ℕ → ℕ → Option ℕ
find_from d text pos = if leb pos (length text) then plus pos (find d (drop pos text)) else none

-- The bytes before the first zero byte.
unfoldable pub until_zero : List ℕ → List ℕ
until_zero [] = []
until_zero (b ∷ bs) = let rest = until_zero bs in if b == 0 then [] else b ∷ rest

-- `std::towlower` of a byte.
abbrev pub lower : ℕ → ℕ
lower c = if leb b'A' c && leb c b'Z' then c + 32 else c

-- `Utils::toLower`
abbrev pub to_lower : List ℕ → List ℕ
to_lower = map lower
