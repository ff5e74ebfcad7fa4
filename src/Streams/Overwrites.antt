-- ===== src/Streams/Overwrites.antt =====
-- Writes to two buffers that stand one behind the other, as one write.
use lu.Base.{
  ℕ, zero, suc, ◌+◌, ◌-◌, ◌≤◌, ◌≡◌, refl, sym, ap, ap₂, ◌∙◌, List, [], ◌∷◌, ◌++◌, append_assoc,
  append-nil, length, length-append, take, drop, take-append-drop, drop-append, drop-drop, take_all,
  overwrite, slice, arith,
}

module _ {ℓ} {A : Type ℓ} where
  pub drop_all : (n : ℕ) (xs : List A) → length xs ≤ n → drop n xs ≡ []
  drop_all zero [] h = refl
  drop_all (suc n) [] h = refl
  drop_all zero (x ∷ xs) h = absurd (omega arith)
  drop_all (suc n) (x ∷ xs) h = drop_all n xs (omega arith)

  pub drop_less : (n : ℕ) (xs ys : List A) → n ≤ length xs → drop n (xs ++ ys) ≡ drop n xs ++ ys
  drop_less zero xs ys h = refl
  drop_less (suc n) [] ys h = absurd (omega arith)
  drop_less (suc n) (x ∷ xs) ys h = drop_less n xs ys (omega arith)

  pub take_less : (n : ℕ) (xs ys : List A) → n ≤ length xs → take n (xs ++ ys) ≡ take n xs
  take_less zero xs ys h = refl
  take_less (suc n) [] ys h = absurd (omega arith)
  take_less (suc n) (x ∷ xs) ys h = ap (λ t. x ∷ t) (take_less n xs ys (omega arith))

  pub drop_more : (n k : ℕ) (xs ys : List A) → length xs ≡ n → drop (n + k) (xs ++ ys) ≡ drop k ys
  drop_more n k xs ys h = drop-drop n k (xs ++ ys) ∙ ap (drop k) (drop-append n xs ys h)

  pub take_more :
      (n : ℕ) (xs ys : List A) → length xs ≤ n → take n (xs ++ ys) ≡ xs ++ take (n - length xs) ys
  take_more n [] ys h = ap (λ k. take k ys) (omega arith)
  take_more zero (x ∷ xs) ys h = absurd (omega arith)
  take_more (suc n) (x ∷ xs) ys h =
      let e : suc n - suc (length xs) ≡ n - length xs = omega arith in
      ap (λ t. x ∷ t) (take_more n xs ys (omega arith) ∙ ap (λ k. xs ++ take k ys) (sym e))

  -- A slice that lies in the first part, across both, and in the second.
  pub slice_first :
      (xs ys : List A) (i n : ℕ) → i + n ≤ length xs → slice (xs ++ ys) i n ≡ slice xs i n
  slice_first [] ys zero zero h = refl
  slice_first [] ys (suc i) n h = absurd (omega arith)
  slice_first [] ys zero (suc n) h = absurd (omega arith)
  slice_first (x ∷ xs) ys zero n h = take_less n (x ∷ xs) ys (omega arith)
  slice_first (x ∷ xs) ys (suc i) n h = slice_first xs ys i n (omega arith)

  pub slice_both :
      (xs ys : List A) (i n : ℕ)
      → i ≤ length xs
      → length xs ≤ i + n
      → slice (xs ++ ys) i n ≡ slice xs i (length xs - i) ++ slice ys 0 (n - (length xs - i))
  slice_both [] ys zero n h h' = ap (λ k. take k ys) (omega arith)
  slice_both [] ys (suc i) n h h' = absurd (omega arith)
  slice_both (x ∷ xs) ys zero n h h' =
      take_more n (x ∷ xs) ys (omega arith)
      ∙ ap₂ (λ a k. a ++ take k ys) (sym (take_all _ (x ∷ xs) (omega arith))) (omega arith)
  slice_both (x ∷ xs) ys (suc i) n h h' =
      let e : suc (length xs) - suc i ≡ length xs - i = omega arith in
      rw e (slice_both xs ys i n (omega arith) (omega arith))

  pub slice_second :
      (xs ys : List A) (i n : ℕ) → length xs ≤ i → slice (xs ++ ys) i n ≡ slice ys (i - length xs) n
  slice_second [] ys i n h = ap (λ k. slice ys k n) (omega arith)
  slice_second (x ∷ xs) ys zero n h = absurd (omega arith)
  slice_second (x ∷ xs) ys (suc i) n h =
      let e : suc i - suc (length xs) ≡ i - length xs = omega arith in
      slice_second xs ys i n (omega arith) ∙ ap (λ k. slice ys k n) (sym e)

  pub overwrite_nothing : (xs : List A) (i : ℕ) → overwrite xs i [] ≡ xs
  overwrite_nothing xs i = ap (λ k. take i xs ++ drop k xs) (omega arith) ∙ take-append-drop i xs

  pub overwrite_first :
      (xs ys zs : List A) (i : ℕ)
      → i + length ys ≤ length xs
      → overwrite (xs ++ zs) i ys ≡ overwrite xs i ys ++ zs
  overwrite_first xs ys zs i h =
      ap₂ (λ a b. a ++ (ys ++ b)) (take_less i xs zs (omega arith))
        (drop_less (i + length ys) xs zs h)
      ∙ sym (
          append_assoc (take i xs) (ys ++ drop (i + length ys) xs) zs
          ∙ ap (λ t. take i xs ++ t) (append_assoc ys (drop (i + length ys) xs) zs))

  pub overwrite_second :
      (xs ys zs : List A) (i : ℕ)
      → overwrite (xs ++ zs) (length xs + i) ys ≡ xs ++ overwrite zs i ys
  overwrite_second [] ys zs i = ap (λ k. overwrite zs k ys) (omega arith)
  overwrite_second (x ∷ xs) ys zs i =
      let e : suc (length xs) + i ≡ suc (length xs + i) = omega arith in
      let f : suc (length xs + i) + length ys ≡ suc (length xs + i + length ys) = omega arith in
      rw (e, f) (ap (λ t. x ∷ t) (overwrite_second xs ys zs i))

  pub overwrite_both :
      (xs ys zs c : List A) (i : ℕ)
      → i + length ys ≡ length xs
      → overwrite (xs ++ zs) i (ys ++ c) ≡ overwrite xs i ys ++ overwrite zs 0 c
  overwrite_both xs ys zs c i h =
      ap₂ (λ a b. a ++ ((ys ++ c) ++ b)) (take_less i xs zs (omega (arith, h))) behind
      ∙ (ap (λ t. take i xs ++ t) (append_assoc ys c (drop (0 + length c) zs))
          ∙ (sym (append_assoc (take i xs) ys (overwrite zs 0 c))
              ∙ ap (λ t. t ++ overwrite zs 0 c)
                  (ap (λ t. take i xs ++ t)
                    (sym (append-nil ys) ∙ ap (λ t. ys ++ t) (sym nothing_left)))))
    where
      behind : drop (i + length (ys ++ c)) (xs ++ zs) ≡ drop (0 + length c) zs
      behind =
          ap (λ k. drop k (xs ++ zs)) (omega (arith, h, length-append ys c))
          ∙ drop_more (length xs) (0 + length c) xs zs refl

      nothing_left : drop (i + length ys) xs ≡ []
      nothing_left = drop_all (i + length ys) xs (omega (arith, h))
