-- ===== src/Frame/Masking.antt =====
-- `mask`: masking twice with one key gives the payload back, and touches nothing behind it.
use lu.Base.{
  ℕ, zero, suc, ◌<◌, ◌-◌, ◌*◌, ◌/◌, ◌^◌, bit_and, drop, drop-append, ◌+◌, ◌%◌, ◌≡◌, refl, ap, ap₂,
  ◌∙◌, List, [], ◌∷◌, ◌++◌, length, get_or, bit_xor, arith,
}
use lu.Base.Bits.{and_shift, and_low, xor_cancel, xor_comm, xor_zero}
use lu.Frame.Reader.{mask_bytes, mask_from, mask}

pub length-mask_from :
    (ks : List ℕ) (i n : ℕ) (xs : List ℕ) → length (mask_from ks i n xs) ≡ length xs
unfolding mask_from
length-mask_from ks i zero xs = refl
length-mask_from ks i (suc n) [] = refl
length-mask_from ks i (suc n) (x ∷ xs) = ap suc (length-mask_from ks (i + 1) n xs)

mask_from-append :
    (ks : List ℕ) (i n : ℕ) (xs ys : List ℕ)
    → length xs ≡ n
    → mask_from ks i n (xs ++ ys) ≡ mask_from ks i n xs ++ ys
unfolding mask_from
mask_from-append ks i zero [] ys e = refl
mask_from-append ks i zero (x ∷ xs) ys e = absurd (omega arith)
mask_from-append ks i (suc n) [] ys e = absurd (omega arith)
mask_from-append ks i (suc n) (x ∷ xs) ys e =
    ap (λ t. bit_xor x (get_or ks (i % 4) 0) ∷ t)
      (mask_from-append ks (i + 1) n xs ys (omega arith))

mask_from-mask_from :
    (ks : List ℕ) (i n : ℕ) (xs : List ℕ) → mask_from ks i n (mask_from ks i n xs) ≡ xs
unfolding mask_from
mask_from-mask_from ks i zero xs = refl
mask_from-mask_from ks i (suc n) [] = refl
mask_from-mask_from ks i (suc n) (x ∷ xs) = ap₂ ◌∷◌ back (mask_from-mask_from ks (i + 1) n xs)
  where
    k : ℕ
    k = get_or ks (i % 4) 0

    back : bit_xor (bit_xor x k) k ≡ x
    back = xor_comm (bit_xor x k) k ∙ (ap (bit_xor k) (xor_comm x k) ∙ xor_cancel k x)

zeros : List ℕ
zeros = 0 ∷ 0 ∷ 0 ∷ 0 ∷ []

zeros-get_or : (i : ℕ) → get_or zeros i 0 ≡ 0
unfolding zeros
zeros-get_or zero = refl
zeros-get_or (suc zero) = refl
zeros-get_or (suc (suc zero)) = refl
zeros-get_or (suc (suc (suc zero))) = refl
zeros-get_or (suc (suc (suc (suc i)))) = refl

mask_from-zeros : (i n : ℕ) (xs : List ℕ) → mask_from zeros i n xs ≡ xs
unfolding mask_from
mask_from-zeros i zero xs = refl
mask_from-zeros i (suc n) [] = refl
mask_from-zeros i (suc n) (x ∷ xs) =
    ap₂ ◌∷◌ (ap (bit_xor x) (zeros-get_or (i % 4)) ∙ xor_zero x) (mask_from-zeros (i + 1) n xs)

-- Masking the same bytes twice with one key restores them, and leaves what stands behind them.
pub mask-mask :
    (xs ys : List ℕ) (key : ℕ) → mask (mask xs (length xs) key ++ ys) (length xs) key ≡ xs ++ ys
unfolding mask
mask-mask xs ys key =
    mask_from-append (mask_bytes key) 0 (length xs) _ ys (length-mask_from _ 0 (length xs) xs)
    ∙ ap (λ t. t ++ ys) (mask_from-mask_from (mask_bytes key) 0 (length xs) xs)

pub length-mask : (xs : List ℕ) (n key : ℕ) → length (mask xs n key) ≡ length xs
unfolding mask
length-mask xs n key = length-mask_from (mask_bytes key) 0 n xs

pub mask_zero_key : (xs : List ℕ) (n : ℕ) → mask xs n 0 ≡ xs
unfolding mask zeros
mask_zero_key xs n = mask_from-zeros 0 n xs

pub mask_nothing : (xs : List ℕ) (key : ℕ) → mask xs 0 key ≡ xs
unfolding mask mask_from
mask_nothing xs key = refl

get_or-mask_from :
    (ks : List ℕ) (i n j : ℕ) (xs : List ℕ)
    → j < length xs
    → j < n
    → get_or (mask_from ks i n xs) j 0 ≡ bit_xor (get_or xs j 0) (get_or ks ((i + j) % 4) 0)
unfolding mask_from
get_or-mask_from ks i zero j xs h k = absurd (omega (arith, k))
get_or-mask_from ks i (suc n) j [] h k = absurd (omega (arith, h))
get_or-mask_from ks i (suc n) zero (x ∷ xs) h k =
    ap (λ t. bit_xor x (get_or ks (t % 4) 0)) {x = i} (omega arith)
get_or-mask_from ks i (suc n) (suc j) (x ∷ xs) h k =
    get_or-mask_from ks (i + 1) n j xs (omega (arith, h)) (omega (arith, k))
    ∙ ap (λ t. bit_xor (get_or xs j 0) (get_or ks (t % 4) 0)) {x = i + 1 + j} (omega arith)

-- The bytes of a key are those of the word, from the highest on.
abbrev pub key_byte : ℕ → ℕ → ℕ
key_byte key i = key / 2 ^ (24 - 8 * i) % 256

byte_at : (k key : ℕ) → bit_and key (255 * 2 ^ k) / 2 ^ k % 256 ≡ key / 2 ^ k % 256
byte_at k key = omega (arith, and_shift k key 255, and_low 8 (key / 2 ^ k))

mask_bytes-key_byte : (key i : ℕ) → i < 4 → get_or (mask_bytes key) i 0 ≡ key_byte key i
mask_bytes-key_byte key zero h = byte_at 24 key
mask_bytes-key_byte key (suc zero) h = byte_at 16 key
mask_bytes-key_byte key (suc (suc zero)) h = byte_at 8 key
mask_bytes-key_byte key (suc (suc (suc zero))) h = omega (arith, and_low 8 key)
mask_bytes-key_byte key (suc (suc (suc (suc i)))) h = absurd (omega (arith, h))

get_or-append : (xs ys : List ℕ) (i : ℕ) → i < length xs → get_or (xs ++ ys) i 0 ≡ get_or xs i 0
get_or-append [] ys i h = absurd (omega (arith, h))
get_or-append (x ∷ xs) ys zero h = refl
get_or-append (x ∷ xs) ys (suc i) h = get_or-append xs ys i (omega (arith, h))

-- `mask` of the first bytes of a memory XORs each byte `i` of them with byte `i % 4` of the key,
-- counted from the highest, leaves what stands behind them, and done once more with the same key
-- gives the memory back.
pub mask-bytes :
    (xs ys : List ℕ) (key i : ℕ)
    → i < length xs
    → (get_or (mask (xs ++ ys) (length xs) key) i 0
        ≡ bit_xor (get_or xs i 0) (key_byte key (i % 4)))
      × (drop (length xs) (mask (xs ++ ys) (length xs) key) ≡ ys)
      × (mask (mask (xs ++ ys) (length xs) key) (length xs) key ≡ xs ++ ys)
unfolding mask
mask-bytes xs ys key i h =
    let ks = mask_bytes key in
    let split = mask_from-append ks 0 (length xs) xs ys refl in
    (
      ap (λ t. get_or t i 0) split
          ∙ (get_or-append (mask_from ks 0 (length xs) xs) ys i
                (omega (arith, h, length-mask_from ks 0 (length xs) xs))
              ∙ (get_or-mask_from ks 0 (length xs) i xs h h
                  ∙ (ap (λ t. bit_xor (get_or xs i 0) (get_or ks (t % 4) 0)) {x = 0 + i}
                        (omega arith)
                      ∙ ap (bit_xor (get_or xs i 0))
                          (mask_bytes-key_byte key (i % 4) (omega arith))))),
      ap (drop (length xs)) split
          ∙ drop-append (length xs) (mask_from ks 0 (length xs) xs) ys
              (length-mask_from ks 0 (length xs) xs),
      mask_from-mask_from ks 0 (length xs) (xs ++ ys),
    )
