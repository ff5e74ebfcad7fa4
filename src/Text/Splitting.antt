-- ===== src/Text/Splitting.antt =====
-- `DelimiterTextParser` on a row of items that is joined by the delimiter.
use lu.Base.{ℕ, zero, suc, ◌+◌, ◌<◌, ◌≡◌, List, [], ◌∷◌, ◌++◌, map, length}
use lu.Text.Parser.{TextParser, Parsed, ok, missing, then_parse, next, cleaned}

abbrev pub row : List ℕ → List ℕ → List (List ℕ) → List ℕ
row d f [] = f
row d f (g ∷ fs) = f ++ (d ++ row d g fs)

abbrev pub put_first : List ℕ → List (List ℕ) × TextParser → Parsed (List (List ℕ) × TextParser)
put_first t s = ok (t ∷ s.0, s.1)

-- That many calls of `next`.
abbrev pub next_items : ℕ → TextParser → Parsed (List (List ℕ) × TextParser)
next_items zero p = ok ([], p)
next_items (suc n) p = then_parse (next p) (λ r. then_parse (next_items n r.1) (put_first r.0))

-- The last item has a byte: behind a last delimiter there is none.
abbrev pub LastNonempty : List ℕ → List (List ℕ) → Type 0
LastNonempty f [] = 0 < length f
LastNonempty f (g ∷ fs) = LastNonempty g fs

record Finished (p : TextParser) (f : List ℕ) (fs : List (List ℕ)) : Type 0 where
  last : TextParser
  all_read : next_items (suc (length fs)) p ≡ ok (map cleaned (f ∷ fs), last)
  then_missing : next last ≡ missing (p.current_index + suc (length fs)) p.line_number
