-- ===== src/Base/Bytes.antt =====
-- Words and their bytes: reading back what was written, in either byte order.
use Prim.Native.Nat.{ℕ, zero, suc, ◌+◌, ◌*◌, ◌/◌, ◌%◌, ◌^◌, ◌<◌}
use mathlib.Core.Path.{◌≡◌, refl, ap, ap₂, subst, ◌∙◌}
use mathlib.Core.List.{List, [], ◌∷◌, ◌++◌, reverse, reverse-cons, reverse-reverse}
use native.Mathlib.Nat.{pow-suc}
use native.Mathlib.Omega.{arith}
use lu.Base.Lists.{length, length-append, All}
use lu.Base.Word.{le_bytes, of_le_bytes, byte_swap}

abbrev pub IsBytes : List ℕ → Type 0
IsBytes = All (λ b. b < 256)

pub length-le_bytes : (w x : ℕ) → length (le_bytes w x) ≡ w
length-le_bytes zero x = refl
length-le_bytes (suc w) x = ap suc (length-le_bytes w (x / 256))

pub le_bytes-IsBytes : (w x : ℕ) → IsBytes (le_bytes w x)
le_bytes-IsBytes zero x = tt
le_bytes-IsBytes (suc w) x = (omega arith, le_bytes-IsBytes w (x / 256))

pub of_le_bytes-le_bytes : (w x : ℕ) → x < 256 ^ w → of_le_bytes (le_bytes w x) ≡ x
of_le_bytes-le_bytes zero x h = omega arith
of_le_bytes-le_bytes (suc w) x h =
    omega (arith, pow-suc 256 w, of_le_bytes-le_bytes w (x / 256) (omega (arith, pow-suc 256 w)))

pub le_bytes-of_le_bytes : (bs : List ℕ) → IsBytes bs → le_bytes (length bs) (of_le_bytes bs) ≡ bs
le_bytes-of_le_bytes [] h = refl
le_bytes-of_le_bytes (b ∷ bs) h =
    ap₂ ◌∷◌ low (ap (le_bytes (length bs)) high ∙ le_bytes-of_le_bytes bs h.1)
  where
    low : (b + 256 * of_le_bytes bs) % 256 ≡ b
    low = omega (arith, h.0)

    high : (b + 256 * of_le_bytes bs) / 256 ≡ of_le_bytes bs
    high = omega (arith, h.0)

pub length-reverse {ℓ} : {A : Type ℓ} (xs : List A) → length (reverse xs) ≡ length xs
length-reverse [] = refl
length-reverse (x ∷ xs) =
    omega
      (arith, ap length (reverse-cons x xs), length-append (reverse xs) (x ∷ []), length-reverse xs)

IsBytes-append : (xs ys : List ℕ) → IsBytes xs → IsBytes ys → IsBytes (xs ++ ys)
IsBytes-append [] ys p q = q
IsBytes-append (x ∷ xs) ys p q = (p.0, IsBytes-append xs ys p.1 q)

IsBytes-reverse : (xs : List ℕ) → IsBytes xs → IsBytes (reverse xs)
IsBytes-reverse [] p = p
IsBytes-reverse (x ∷ xs) p =
    rw (reverse-cons x xs) (IsBytes-append (reverse xs) (x ∷ []) (IsBytes-reverse xs p.1) (p.0, tt))

le_bytes-of_length :
    (w : ℕ) (bs : List ℕ) → length bs ≡ w → IsBytes bs → le_bytes w (of_le_bytes bs) ≡ bs
le_bytes-of_length w bs e h =
    subst (λ k. le_bytes k (of_le_bytes bs) ≡ bs) e (le_bytes-of_le_bytes bs h)

pub swapped_bytes : (w x : ℕ) → le_bytes w (byte_swap w x) ≡ reverse (le_bytes w x)
swapped_bytes w x =
    le_bytes-of_length w _ (length-reverse (le_bytes w x) ∙ length-le_bytes w x)
      (IsBytes-reverse _ (le_bytes-IsBytes w x))

-- Swapping twice gives the word back.
pub byte_swap-byte_swap : (w x : ℕ) → x < 256 ^ w → byte_swap w (byte_swap w x) ≡ x
byte_swap-byte_swap w x h =
    ap (λ bs. of_le_bytes (reverse bs)) (swapped_bytes w x)
    ∙ (ap of_le_bytes (reverse-reverse _) ∙ of_le_bytes-le_bytes w x h)

-- A word that was swapped, stored, loaded and swapped again is the word.
pub swapped_load :
    (w x : ℕ) → x < 256 ^ w → byte_swap w (of_le_bytes (le_bytes w (byte_swap w x))) ≡ x
swapped_load w x h =
    ap (λ bs. byte_swap w (of_le_bytes bs)) (swapped_bytes w x) ∙ byte_swap-byte_swap w x h
