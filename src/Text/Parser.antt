-- ===== src/Text/Parser.antt =====
-- src/utils/DelimiterTextParser.cpp: the items of a line, between delimiters.
use lu.Base.{
  ℕ, ◌+◌, ◌-◌, ◌%◌, ◌^◌, Bool, ◌||◌, List, [], ◌∷◌, Option, none, some, length, slice, ◌==◌, leb,
  if◌then◌else◌,
}
use lu.Text.Bytes.{codes, text_eq, find_from, until_zero}
use lu.Text.Numbers.{ℤ, pos, stoi, stoll, stoull, is_one}

pub record TextParser : Type 0 where
  pub line : List ℕ
  pub delimiter : List ℕ
  pub start_pos : ℕ
  pub current_index : ℕ
  pub line_number : ℕ

-- A value, or the exception that is thrown: an item of a line is missing, or it is no number.
pub data Parsed (A : Type 0) : Type 0 where
  ok : A → Parsed A
  missing : ℕ → ℕ → Parsed A
  no_number : List ℕ → ℕ → ℕ → Parsed A

abbrev pub then_parse : {A B : Type 0} → Parsed A → (A → Parsed B) → Parsed B
then_parse (ok a) f = f a
then_parse (missing i n) f = missing i n
then_parse (no_number t i n) f = no_number t i n

-- On a `std::string_view`; a `std::string` is read up to its first zero byte.
abbrev pub new_parser : List ℕ → List ℕ → ℕ → TextParser
new_parser line delimiter start_line = record {
  line = line;
  delimiter = delimiter;
  start_pos = 0;
  current_index = 1;
  line_number = start_line;
}

abbrev pub string_parser : List ℕ → List ℕ → ℕ → TextParser
string_parser line = new_parser (until_zero line)

abbrev pub next_line : TextParser → List ℕ → TextParser
next_line p line = record p {
  line = until_zero line;
  start_pos = 0;
  current_index = 1;
  line_number = p.line_number + 1;
}

-- `find_first_not_of(' ')`; a text of spaces only is left as it is.
abbrev pub trim_front : List ℕ → List ℕ
trim_front [] = []
trim_front (c ∷ text) = let rest = trim_front text in if c == 32 then rest else c ∷ text

-- `find_last_not_of(' ')`
abbrev pub before : ℕ → List ℕ → List ℕ
before c [] = if c == 32 then [] else c ∷ []
before c (d ∷ rest) = c ∷ d ∷ rest

abbrev pub trim_back : List ℕ → List ℕ
trim_back [] = []
trim_back (c ∷ text) = before c (trim_back text)

abbrev pub or_else : List ℕ → List ℕ → List ℕ
or_else [] text = text
or_else (c ∷ rest) text = c ∷ rest

abbrev pub trim : List ℕ → List ℕ
trim text = or_else (trim_back (trim_front text)) text

unfoldable pub cleaned : List ℕ → List ℕ
cleaned text =
    let t = trim text in
    if text_eq t (codes "null") || (text_eq t (codes "Null") || text_eq t (codes "NULL"))
    then []
    else t

-- The item that ends at a position.
abbrev pub item_to : TextParser → ℕ → Parsed (List ℕ × TextParser)
item_to p end_pos = ok (
  cleaned (slice p.line p.start_pos (end_pos - p.start_pos)),
  record p { start_pos = end_pos + length p.delimiter; current_index = p.current_index + 1 },
)

abbrev pub item_at : TextParser → Option ℕ → Parsed (List ℕ × TextParser)
item_at p (some end_pos) = item_to p end_pos
item_at p none =
    if leb (length p.line) p.start_pos
    then missing p.current_index p.line_number
    else item_to p (length p.line)

unfoldable pub next : TextParser → Parsed (List ℕ × TextParser)
next p = item_at p (find_from p.delimiter p.line p.start_pos)

abbrev pub read_or : {A : Type 0} → List ℕ → ℕ → TextParser → Option A → Parsed (A × TextParser)
read_or text index p none = no_number text index p.line_number
read_or text index p (some a) = ok (a, p)

-- An empty item is the number 0; an item that is none is reported with its index, and `more`.
abbrev pub number :
    {A : Type 0} → (List ℕ → Option A) → A → ℕ → List ℕ × TextParser → Parsed (A × TextParser)
number read nought more ([], p) = ok (nought, p)
number read nought more (c ∷ text, p) =
    read_or (c ∷ text) (p.current_index + more) p (read (c ∷ text))

abbrev pub first_char : List ℕ → ℕ
first_char [] = 32
first_char (c ∷ text) = c

abbrev pub next_char : TextParser → Parsed (ℕ × TextParser)
next_char p = then_parse (next p) (λ r. ok (first_char r.0, r.1))

abbrev pub next_int : TextParser → Parsed (ℤ × TextParser)
next_int p = then_parse (next p) (number stoi (pos 0) 0)

-- `unsigned int` takes the low 32 bits.
abbrev pub next_uint : TextParser → Parsed (ℕ × TextParser)
next_uint p = then_parse (then_parse (next p) (number stoull 0 0)) (λ r. ok (r.0 % 2 ^ 32, r.1))

abbrev pub next_long_long : TextParser → Parsed (ℤ × TextParser)
next_long_long p = then_parse (next p) (number stoll (pos 0) 0)

abbrev pub next_ulong_long : TextParser → Parsed (ℕ × TextParser)
next_ulong_long p = then_parse (next p) (number stoull 0 0)

abbrev pub next_bool : TextParser → Parsed (Bool × TextParser)
next_bool p = then_parse (then_parse (next p) (number stoi (pos 0) 0)) (λ r. ok (is_one r.0, r.1))

-- `std::stod` and `std::stof` are arguments.
abbrev pub next_double :
    {A : Type 0} → (List ℕ → Option A) → A → TextParser → Parsed (A × TextParser)
next_double stod nought p = then_parse (next p) (number stod nought 0)

abbrev pub next_float :
    {A : Type 0} → (List ℕ → Option A) → A → TextParser → Parsed (A × TextParser)
next_float stof nought p = then_parse (next p) (number stof nought 1)
