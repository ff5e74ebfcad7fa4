-- ===== src/Handshake/Fuel.antt =====
-- The fuel of the loops over protocols and versions of `getResponse`.
use lu.Base.{
  ℕ, zero, suc, ◌+◌, ◌-◌, ◌≤◌, ◌<◌, ◌≡◌, refl, Bool, true, false, List, [], ◌∷◌, Option, none, some,
  length, drop, le→leb, not_leb, dec_le, if◌then◌else◌, arith,
}
use lu.Text.Bytes.{plus, find, until_zero}
use lu.Text.Numbers.{ℤ, pos, stoi, is_zero}
use lu.Text.Parser.{
  TextParser, Parsed, ok, missing, no_number, then_parse, number, read_or, item_at, item_to, next,
  next_line, next_int,
}
use lu.Handshake.Types.{Answer, answers, throws, overruns}
use lu.Handshake.Request.{
  before_rest, item_or_end, read_protocols, version_or_end, read_versions, protocols_parser,
  or_throw, all_protocols, all_versions,
}

-- What a parser can still give items of.
abbrev remaining : TextParser → ℕ
remaining p = length p.line + 1 - p.start_pos

-- What `next` gives: no item, or one, and then less is left.
data Steps (p : TextParser) : Parsed (List ℕ × TextParser) → Type 0 where
  no_item : (i n : ℕ) → Steps p (missing i n)
  one_item :
      (v : List ℕ) (q : TextParser)
      → length q.delimiter ≡ length p.delimiter
      → remaining q < remaining p
      → Steps p (ok (v, q))

item_to-Steps :
    (p : TextParser) (e : ℕ)
    → 0 < length p.delimiter
    → p.start_pos ≤ e
    → p.start_pos ≤ length p.line
    → Steps p (item_to p e)
item_to-Steps p e d h h' = one_item _ _ refl (omega (arith, d, h, h'))

item_at-Steps :
    (p : TextParser) (o : Option ℕ)
    → 0 < length p.delimiter
    → p.start_pos ≤ length p.line
    → Steps p (item_at p (plus p.start_pos o))
item_at-Steps p (some k) d h = item_to-Steps p (p.start_pos + k) d (omega arith) h
item_at-Steps p none d h = elim (dec_le (length p.line) p.start_pos) [
  | yes past ↦ rw (le→leb (length p.line) p.start_pos past) (no_item _ _)
  | no inside ↦
      rw (not_leb (length p.line) p.start_pos (omega (arith, inside)))
        (item_to-Steps p (length p.line) d h h)
]

next-Steps : (p : TextParser) → 0 < length p.delimiter → Steps p (next p)
unfolding next
next-Steps p d = elim (dec_le p.start_pos (length p.line)) [
  | yes inside ↦
      rw (le→leb p.start_pos (length p.line) inside)
        (item_at-Steps p (find p.delimiter (drop p.start_pos p.line)) d inside)
  | no past ↦
      rw
        (
          not_leb p.start_pos (length p.line) (omega (arith, past)),
          le→leb (length p.line) p.start_pos (omega (arith, past)),
        )
        (no_item _ _)
]

pub data Ends {A : Type 0} : Answer A → Type 0 where
  ends_answers : (a : A) → Ends (answers a)
  ends_throws : Ends throws
  ends_overruns : Ends overruns

pub if-Ends : {A : Type 0} (b : Bool) (x y : Answer A) → Ends x → Ends y → Ends (if b then x else y)
if-Ends true x y p q = p
if-Ends false x y p q = q

before_rest-Ends :
    {A : Type 0} (v : A) (rest : Answer (List A)) → Ends rest → Ends (before_rest v rest)
before_rest-Ends v rest (ends_answers vs) = ends_answers (v ∷ vs)
before_rest-Ends v rest ends_throws = ends_throws
before_rest-Ends v rest ends_overruns = ends_overruns

-- The loop behind each item ends.
module _ (p : TextParser) where
  item_or_end-Ends :
      (go : TextParser → Answer (List (List ℕ))) (r : Parsed (List ℕ × TextParser))
      → Steps p r
      → ((q : TextParser)
          → length q.delimiter ≡ length p.delimiter
          → remaining q < remaining p
          → Ends (go q))
      → Ends (item_or_end go r)
  item_or_end-Ends go r (no_item i n) h = ends_answers []
  item_or_end-Ends go r (one_item [] q d less) h = ends_answers []
  item_or_end-Ends go r (one_item (c ∷ v) q d less) h = before_rest-Ends (c ∷ v) (go q) (h q d less)

  version-Ends :
      (go : TextParser → Answer (List ℤ)) (t : List ℕ) (i : ℕ) (q : TextParser) (o : Option ℤ)
      → Ends (go q)
      → Ends (version_or_end go (read_or t i q o))
  version-Ends go t i q none h = ends_answers []
  version-Ends go t i q (some a) h =
      if-Ends (is_zero a) (answers []) _ (ends_answers []) (before_rest-Ends a (go q) h)

  version_or_end-Ends :
      (go : TextParser → Answer (List ℤ)) (r : Parsed (List ℕ × TextParser))
      → Steps p r
      → ((q : TextParser)
          → length q.delimiter ≡ length p.delimiter
          → remaining q < remaining p
          → Ends (go q))
      → Ends (version_or_end go (then_parse r (number stoi (pos 0) 0)))
  version_or_end-Ends go r (no_item i n) h = ends_answers []
  version_or_end-Ends go r (one_item [] q d less) h = ends_answers []
  version_or_end-Ends go r (one_item (c ∷ v) q d less) h =
      version-Ends go (c ∷ v) (q.current_index + 0) q (stoi (c ∷ v)) (h q d less)

read_protocols-Ends :
    (n : ℕ) (p : TextParser)
    → 0 < length p.delimiter
    → length p.line + 1 - p.start_pos < n
    → Ends (read_protocols n p)
unfolding read_protocols
read_protocols-Ends zero p d h = absurd (omega (arith, h))
read_protocols-Ends (suc n) p d h =
    item_or_end-Ends p (read_protocols n) (next p) (next-Steps p d)
      (λ q e less. read_protocols-Ends n q (omega (arith, e, d)) (omega (arith, h, less)))

read_versions-Ends :
    (n : ℕ) (p : TextParser)
    → 0 < length p.delimiter
    → length p.line + 1 - p.start_pos < n
    → Ends (read_versions n p)
unfolding read_versions
read_versions-Ends zero p d h = absurd (omega (arith, h))
read_versions-Ends (suc n) p d h =
    version_or_end-Ends p (read_versions n) (next p) (next-Steps p d)
      (λ q e less. read_versions-Ends n q (omega (arith, e, d)) (omega (arith, h, less)))

length-until_zero : (t : List ℕ) → length (until_zero t) ≤ length t
unfolding until_zero
length-until_zero [] = omega arith
length-until_zero (b ∷ t) = ground (arith, length-until_zero t)

pub or_throw-Ends : {A B : Type 0} (p : Parsed A) (b : Answer B) → Ends b → Ends (or_throw p b)
or_throw-Ends (ok a) b h = h
or_throw-Ends (missing i n) b h = ends_throws
or_throw-Ends (no_number t i n) b h = ends_throws

-- The fuel that the two loops are given is enough.
pub all_protocols-Ends : (protocols : List ℕ) → Ends (all_protocols protocols)
all_protocols-Ends protocols = or_throw-Ends (next (protocols_parser protocols)) _ (
    read_protocols-Ends (length protocols + 2) (protocols_parser protocols) (omega arith)
      (omega (arith, length-until_zero protocols)))

pub all_versions-Ends : (protocols versions : List ℕ) → Ends (all_versions protocols versions)
all_versions-Ends protocols versions =
    or_throw-Ends (next_int (next_line (protocols_parser protocols) versions)) _ (
      read_versions-Ends (length versions + 2) (next_line (protocols_parser protocols) versions)
        (omega arith) (omega (arith, length-until_zero versions)))
