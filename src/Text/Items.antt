-- ===== src/Text/Items.antt =====
-- `next` of `DelimiterTextParser` at an item, at the last item and behind it.
use lu.Base.{
  ℕ, ◌+◌, ◌-◌, ◌≤◌, ◌<◌, ◌≡◌, refl, sym, ap, ◌∙◌, List, ◌∷◌, ◌++◌, none, length, length-append,
  length-drop, drop, take, slice, take-append, take_all, drop-append, drop-drop, le→leb, not_leb,
  arith,
}
use lu.Text.Bytes.{plus, find, find_from}
use lu.Text.Finding.{Without, find-append, find-none}
use lu.Text.Parser.{TextParser, ok, missing, item_at, item_to, cleaned, next}

-- What is still to be read.
pub record At (p : TextParser) (r : List ℕ) : Type 0 where
  pub inside : p.start_pos ≤ length p.line
  pub reads : drop p.start_pos p.line ≡ r

find_from-At :
    (p : TextParser) (r : List ℕ)
    → At p r
    → find_from p.delimiter p.line p.start_pos ≡ plus p.start_pos (find p.delimiter r)
find_from-At p r a =
    rw (le→leb p.start_pos (length p.line) a.inside)
      (ap (λ t. plus p.start_pos (find p.delimiter t)) a.reads)

abbrev pub moved_to : TextParser → ℕ → TextParser
moved_to p end_pos = record p {
  start_pos = end_pos + length p.delimiter;
  current_index = p.current_index + 1;
}

pub next-item :
    (p : TextParser) (c : ℕ) (d f rest : List ℕ)
    → p.delimiter ≡ c ∷ d
    → At p (f ++ ((c ∷ d) ++ rest))
    → Without c f
    → next p ≡ ok (cleaned f, moved_to p (p.start_pos + length f))
unfolding next
next-item p c d f rest e a w =
    ap (item_at p) (
      find_from-At p _ a
      ∙ (ap (λ t. plus p.start_pos (find t (f ++ ((c ∷ d) ++ rest)))) e
          ∙ ap (plus p.start_pos) (find-append c d f rest w)))
    ∙ ap (λ t. ok (cleaned t, moved_to p (p.start_pos + length f))) front
  where
    front : slice p.line p.start_pos (p.start_pos + length f - p.start_pos) ≡ f
    front =
        ap (λ n. take n (drop p.start_pos p.line)) (omega arith)
        ∙ (ap (take (length f)) a.reads ∙ take-append (length f) f ((c ∷ d) ++ rest) refl)

pub At-next :
    (p : TextParser) (d f rest : List ℕ)
    → p.delimiter ≡ d
    → At p (f ++ (d ++ rest))
    → At (moved_to p (p.start_pos + length f)) rest
At-next p d f rest e a = record {
  inside = omega (
    arith,
    ap length a.reads,
    length-drop p.start_pos p.line,
    length-append f (d ++ rest),
    length-append d rest,
    ap length e,
    a.inside,
  );
  reads =
      ap (λ n. drop n p.line) (omega arith)
      ∙ (drop-drop p.start_pos (length f + length p.delimiter) p.line
          ∙ (ap (drop (length f + length p.delimiter)) a.reads
              ∙ (drop-drop (length f) (length p.delimiter) (f ++ (d ++ rest))
                  ∙ (ap (drop (length p.delimiter)) (drop-append (length f) f (d ++ rest) refl)
                      ∙ drop-append (length p.delimiter) d rest (ap length (sym e))))));
}

pub next-last :
    (p : TextParser) (c : ℕ) (d f : List ℕ)
    → p.delimiter ≡ c ∷ d
    → At p f
    → 0 < length f
    → Without c f
    → next p ≡ ok (cleaned f, moved_to p (length p.line))
unfolding next
next-last p c d f e a some_left w =
    ap (item_at p) (
      find_from-At p f a
      ∙ (ap (λ t. plus p.start_pos (find t f)) e ∙ ap (plus p.start_pos) (find-none c d f w)))
    ∙ (to_end ∙ ap (λ t. ok (cleaned t, moved_to p (length p.line))) all_left)
  where
    to_end : item_at p none ≡ item_to p (length p.line)
    to_end =
        rw
          (not_leb (length p.line) p.start_pos
            (omega (arith, some_left, ap length a.reads, length-drop p.start_pos p.line)))
          refl

    all_left : slice p.line p.start_pos (length p.line - p.start_pos) ≡ f
    all_left =
        take_all (length p.line - p.start_pos) (drop p.start_pos p.line)
          (omega (arith, length-drop p.start_pos p.line))
        ∙ a.reads

-- The exception names the item that is missing, and its line.
pub next-end :
    (p : TextParser) → length p.line < p.start_pos → next p ≡ missing p.current_index p.line_number
unfolding next
next-end p h =
    rw
      (not_leb p.start_pos (length p.line) h, le→leb (length p.line) p.start_pos (omega (arith, h)))
      refl
