-- ===== src/Text/Finding.antt =====
-- Where a delimiter is found in a text, from its first byte.
use lu.Base.{ℕ, ◌≡◌, ◌≢◌, refl, true, List, [], ◌∷◌, ◌++◌, All, none, some, length, arith}
use lu.Text.Bytes.{text_eq, starts_with, find, until_zero}

abbrev pub Without : ℕ → List ℕ → Type 0
Without c = All (λ b. b ≢ c)

pub text_eq_refl : (t : List ℕ) → text_eq t t ≡ true
text_eq_refl [] = refl
text_eq_refl (c ∷ t) = ground (arith, text_eq_refl t)

starts_with-append : (d text : List ℕ) → starts_with d (d ++ text) ≡ true
starts_with-append [] text = refl
starts_with-append (c ∷ d) text = ground (arith, starts_with-append d text)

pub find-append :
    (c : ℕ) (d f text : List ℕ)
    → Without c f
    → find (c ∷ d) (f ++ ((c ∷ d) ++ text)) ≡ some (length f)
find-append c d [] text a = ground (arith, starts_with-append d text)
find-append c d (b ∷ f) text a = ground (arith, a.0, find-append c d f text a.1)

pub find-none : (c : ℕ) (d f : List ℕ) → Without c f → find (c ∷ d) f ≡ none
find-none c d [] a = refl
find-none c d (b ∷ f) a = ground (arith, a.0, find-none c d f a.1)

pub until_zero-Without : (t : List ℕ) → Without 0 t → until_zero t ≡ t
unfolding until_zero
until_zero-Without [] a = refl
until_zero-Without (b ∷ t) a = ground (arith, a.0, until_zero-Without t a.1)

pub Without-append : (c : ℕ) (xs ys : List ℕ) → Without c xs → Without c ys → Without c (xs ++ ys)
Without-append c [] ys a b = b
Without-append c (x ∷ xs) ys a b = (a.0, Without-append c xs ys a.1 b)
