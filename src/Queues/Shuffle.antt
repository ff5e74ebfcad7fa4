-- ===== src/Queues/Shuffle.antt =====
-- `remapIndex` swaps the two lowest groups of bits of an index, so it permutes the slots.
use lu.Base.{
  ℕ, zero, suc, ◌+◌, ◌-◌, ◌*◌, ◌/◌, ◌%◌, ◌^◌, ◌≤◌, ◌<◌, ◌≡◌, ◌≢◌, ap, ap₂, sym, ◌∙◌, subst, bit_xor,
  bit_and, u32, dec_lt, ◌<<<◌, ◌>>>◌, arith,
}
use lu.Base.Bits.{xor_split, xor_cancel, xor_comm, xor_zero, xor-lt, and_low}
use native.Mathlib.Nat.{
  mod-lt, pow-suc, mul_assoc, div-add-mod', one-le-pow, mul-add-mod_self_right, mod-eq_of_lt,
  mul-add-div_right, div-eq_of_lt, pow-le-pow_right, mul-lt-mul_of_pos_right, mul-le-mul,
}
use lu.Queues.Index.{remap_index}

-- An index in its groups of bits: `a` lowest, then `b`, then the rest.
abbrev index_of : ℕ → ℕ → ℕ → ℕ → ℕ
index_of bits n b a = (n * 2 ^ bits + b) * 2 ^ bits + a

-- A number below the lowest group changes that group only.
xor_low :
    (bits h x y : ℕ)
    → x < 2 ^ bits
    → y < 2 ^ bits
    → bit_xor (h * 2 ^ bits + x) y ≡ h * 2 ^ bits + bit_xor x y
xor_low bits h x y hx hy =
    ap (bit_xor (h * 2 ^ bits + x)) (let e : y ≡ 0 * 2 ^ bits + y = omega arith in e)
    ∙ (xor_split bits h x 0 y hx hy ∙ ap (λ z. z * 2 ^ bits + bit_xor x y) (xor_zero h))

-- A multiple of the lowest group's size leaves that group alone.
xor_high :
    (bits h x y : ℕ)
    → x < 2 ^ bits
    → bit_xor (h * 2 ^ bits + x) (y * 2 ^ bits) ≡ bit_xor h y * 2 ^ bits + x
xor_high bits h x y hx =
    ap (bit_xor (h * 2 ^ bits + x)) (let e : y * 2 ^ bits ≡ y * 2 ^ bits + 0 = omega arith in e)
    ∙ (xor_split bits h x y 0 hx (one-le-pow bits 2 (omega arith))
        ∙ ap (λ z. bit_xor h y * 2 ^ bits + z) (xor_zero x))

module _ (bits n b a : ℕ) (hb : b < 2 ^ bits) (ha : a < 2 ^ bits) where
  abbrev top : ℕ
  top = n * 2 ^ bits + b

  mix-lt : bit_xor a b < 2 ^ bits
  mix-lt = xor-lt bits a b ha hb

  mix_is :
      bit_and (bit_xor (index_of bits n b a) (index_of bits n b a >>> bits)) (2 ^ bits - 1)
      ≡ bit_xor a b
  mix_is =
      and_low bits _
      ∙ (ap (λ z. bit_xor (index_of bits n b a) z % 2 ^ bits) shifted
          ∙ (ap (λ z. z % 2 ^ bits) (xor_split bits top a n b ha hb)
              ∙ (mul-add-mod_self_right (bit_xor top n) (2 ^ bits) (bit_xor a b)
                  ∙ mod-eq_of_lt mix-lt)))
    where
      shifted : index_of bits n b a / 2 ^ bits ≡ top
      shifted =
          mul-add-div_right (one-le-pow bits 2 (omega arith)) top a ∙ omega (arith, div-eq_of_lt ha)

  fits_word : bits ≤ 16 → bit_xor a b * 2 ^ bits < 2 ^ 32
  fits_word h = omega (
    arith,
    mul-lt-mul_of_pos_right mix-lt (one-le-pow bits 2 (omega arith)),
    mul-le-mul (pow-le-pow_right {n = 2} (omega arith) h)
        (pow-le-pow_right {n = 2} (omega arith) h),
  )

  remap_index-swaps :
      bits ≢ 0 → bits ≤ 16 → remap_index bits (index_of bits n b a) ≡ index_of bits n a b
  unfolding remap_index
  remap_index-swaps ne h =
      ground (arith, ne)
      ∙ (ap (λ z. bit_xor (bit_xor (index_of bits n b a) z) (u32 (z <<< bits))) mix_is
          ∙ (ap₂ bit_xor
                (xor_low bits top a (bit_xor a b) ha mix-lt
                  ∙ ap (λ z. top * 2 ^ bits + z) (xor_cancel a b))
                (mod-eq_of_lt (fits_word h))
              ∙ (xor_high bits top b (bit_xor a b) hb
                  ∙ ap (λ z. z * 2 ^ bits + b)
                      (xor_low bits n b (bit_xor a b) hb mix-lt
                        ∙ ap (λ z. n * 2 ^ bits + z)
                            (ap (bit_xor b) (xor_comm a b) ∙ xor_cancel b a)))))

scale-lt : (n s a p : ℕ) → n < s → a < p → n * p + a < s * p
scale-lt n s a p h k =
    omega (arith, k, mul-le-mul {n₁ = suc n} {m₁ = p} {n₂ = s} {m₂ = p} h (omega arith))

unscale-lt : (n s a p : ℕ) → n * p + a < s * p → n < s
unscale-lt n s a p h = elim (dec_lt n s) [
  | yes e ↦ e
  | no e ↦ absurd (
      omega
        (arith, h, mul-le-mul {n₁ = s} {m₁ = p} {n₂ = n} {m₂ = p} (omega (arith, e)) (omega arith)))
]

-- Every number in its groups.
groups :
    (bits i : ℕ)
    → i ≡ index_of bits (i / 2 ^ bits / 2 ^ bits) (i / 2 ^ bits % 2 ^ bits) (i % 2 ^ bits)
groups bits i =
    sym (div-add-mod' i (2 ^ bits))
    ∙ ap (λ z. z * 2 ^ bits + i % 2 ^ bits) (sym (div-add-mod' (i / 2 ^ bits) (2 ^ bits)))

pub two_pow_add : (a b : ℕ) → 2 ^ (a + b) ≡ 2 ^ a * 2 ^ b
two_pow_add a zero = ap (λ n. 2 ^ n) (let e : a + 0 ≡ a = omega arith in e) ∙ omega arith
two_pow_add a (suc b) =
    ap (λ n. 2 ^ n) (let e : a + suc b ≡ suc (a + b) = omega arith in e)
    ∙ (pow-suc 2 (a + b)
        ∙ (ap (λ n. n * 2) (two_pow_add a b)
            ∙ (mul_assoc (2 ^ a) (2 ^ b) 2 ∙ ap (λ n. 2 ^ a * n) (sym (pow-suc 2 b)))))

module _ (bits : ℕ) (ne : bits ≢ 0) (h : bits ≤ 16) where
  pos : 0 < 2 ^ bits
  pos = one-le-pow bits 2 (omega arith)

  remap_index-groups :
      (i : ℕ)
      → remap_index bits i
        ≡ index_of bits (i / 2 ^ bits / 2 ^ bits) (i % 2 ^ bits) (i / 2 ^ bits % 2 ^ bits)
  remap_index-groups i =
      ap (remap_index bits) (groups bits i)
      ∙ remap_index-swaps bits _ _ _ (mod-lt (i / 2 ^ bits) pos) (mod-lt i pos) ne h

  -- Shuffling an index twice, with 1 to 16 bits, gives the index back.
  pub remap_index-remap_index : (i : ℕ) → remap_index bits (remap_index bits i) ≡ i
  remap_index-remap_index i =
      ap (remap_index bits) (remap_index-groups i)
      ∙ (remap_index-swaps bits (i / 2 ^ bits / 2 ^ bits) (i % 2 ^ bits) (i / 2 ^ bits % 2 ^ bits)
            (mod-lt i pos) (mod-lt (i / 2 ^ bits) pos) ne h
          ∙ sym (groups bits i))

  module _ (k : ℕ) (room : bits + bits ≤ k) where
    size_is : 2 ^ k ≡ 2 ^ (k - (bits + bits)) * 2 ^ bits * 2 ^ bits
    size_is =
        ap (λ n. 2 ^ n) (let e : k ≡ k - (bits + bits) + bits + bits = omega (arith, room) in e)
        ∙ (two_pow_add (k - (bits + bits) + bits) bits
            ∙ ap (λ n. n * 2 ^ bits) (two_pow_add (k - (bits + bits)) bits))

    -- An index into a table of 2^k slots stays one.
    pub remap_index-lt : (i : ℕ) → i < 2 ^ k → remap_index bits i < 2 ^ k
    remap_index-lt i small =
        subst (λ n. n < 2 ^ k) (sym (remap_index-groups i))
          (subst
            (λ n.
              index_of bits (i / 2 ^ bits / 2 ^ bits) (i % 2 ^ bits) (i / 2 ^ bits % 2 ^ bits) < n)
            (sym size_is)
            (scale-lt _ _ _ (2 ^ bits) (scale-lt _ _ _ (2 ^ bits) top-lt (mod-lt i pos))
              (mod-lt (i / 2 ^ bits) pos)))
      where
        top-lt : i / 2 ^ bits / 2 ^ bits < 2 ^ (k - (bits + bits))
        top-lt =
            unscale-lt (i / 2 ^ bits / 2 ^ bits) (2 ^ (k - (bits + bits))) (i / 2 ^ bits % 2 ^ bits)
              (2 ^ bits)
              (unscale-lt (i / 2 ^ bits / 2 ^ bits * 2 ^ bits + i / 2 ^ bits % 2 ^ bits)
                (2 ^ (k - (bits + bits)) * 2 ^ bits) (i % 2 ^ bits) (2 ^ bits)
                (subst
                  (λ n.
                    index_of bits (i / 2 ^ bits / 2 ^ bits) (i / 2 ^ bits % 2 ^ bits) (i % 2 ^ bits)
                    < n)
                  size_is (subst (λ n. n < 2 ^ k) (groups bits i) small)))
