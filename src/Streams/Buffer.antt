-- ===== src/Streams/Buffer.antt =====
-- Bytes that are added to a buffer behind those it shows.
use lu.Base.{
  ℕ, zero, suc, ◌+◌, ◌≤◌, ◌≡◌, refl, sym, ap, subst, ◌∙◌, List, [], ◌∷◌, ◌++◌, All, append_assoc,
  length, take, drop, overwrite, slice, take_all, arith,
}
use lu.Streams.Cutting.{Shows, Shows-slice}

drop-overwrite :
    (i k : ℕ) (xs ys : List ℕ)
    → i + k ≤ length xs
    → drop i (overwrite xs (i + k) ys) ≡ overwrite (drop i xs) k ys
drop-overwrite zero k xs ys h = let e : 0 + k ≡ k = omega arith in rw e refl
drop-overwrite (suc i) k [] ys h = absurd (omega arith)
drop-overwrite (suc i) k (x ∷ xs) ys h =
    let e : suc i + k ≡ suc (i + k) = omega arith in
    let f : suc (i + k) + length ys ≡ suc (i + k + length ys) = omega arith in
    rw (e, f) (drop-overwrite i k xs ys (omega arith))

take_front : (p q : List ℕ) → take (length p) (p ++ q) ≡ p
take_front [] q = refl
take_front (x ∷ p) q = ap (λ t. x ∷ t) (take_front p q)

pub Shows-fill :
    {memory : List ℕ} {offset : ℕ} (p c : List ℕ)
    → Shows memory offset p
    → offset + length p ≤ length memory
    → Shows (overwrite memory (offset + length p) c) offset (p ++ c)
Shows-fill {memory} {offset} p c s h = record {
  behind = drop (length p + length c) (drop offset memory);
  shown =
      drop-overwrite offset (length p) memory c h
      ∙ (ap (λ t. t ++ (c ++ drop (length p + length c) (drop offset memory)))
            (ap (take (length p)) s.shown ∙ take_front p s.behind)
          ∙ sym (append_assoc p c _));
}

-- What is moved to the front of the buffer is shown there.
pub Shows-moved :
    {memory : List ℕ} {offset : ℕ} (p : List ℕ)
    → Shows memory offset p
    → Shows (overwrite memory 0 (slice memory offset (length p))) 0 p
Shows-moved {memory} {offset} p s = record {
  behind = drop (length (slice memory offset (length p))) memory;
  shown =
      ap (λ t. t ++ drop (0 + length (slice memory offset (length p))) memory)
        (Shows-slice (length p) s (omega arith) ∙ take_all (length p) p (omega arith))
      ∙ ap (λ k. p ++ drop k memory) (omega arith);
}

pub All-suffix :
    (P : List ℕ → Type 0) (xs ys zs : List (List ℕ)) → zs ≡ xs ++ ys → All P zs → All P ys
All-suffix P xs ys zs e a = suffix xs (subst (All P) e a)
  where
    suffix : (xs : List (List ℕ)) → All P (xs ++ ys) → All P ys
    suffix [] a = a
    suffix (x ∷ xs) a = suffix xs a.1

pub no_bytes : (p : List ℕ) → length p ≡ 0 → p ≡ []
no_bytes [] h = refl
no_bytes (x ∷ p) h = absurd (omega arith)
