-- ===== src/Base/Bits.antt =====
-- The bit operations at variables, from the recursion on binary digits that they stand for: one
-- law for each on a number split into high and low digits, at every width.
use Prim.Native.Nat.{
  ℕ, zero, suc, ◌+◌, ◌-◌, ◌*◌, ◌/◌, ◌%◌, ◌^◌, ◌≤◌, ◌<◌, min, max, digits, bitwise, differ, bit_and,
  bit_or, bit_xor, bit_and-bitwise, bit_or-bitwise, bit_xor-bitwise,
}
use mathlib.Core.Path.{◌≡◌, refl, ap, sym, ◌∙◌}
use native.Mathlib.Nat.{pow-suc, one-le-pow, div-div-eq-div-mul}
use native.Mathlib.Omega.{arith}

-- More fuel than digits changes nothing.
module _ (rest : ℕ → ℕ) (digit : ℕ → ℕ → ℕ) where
  digits_enough : (j k a b : ℕ) → a ≤ j → a ≤ k → digits rest digit j a b ≡ digits rest digit k a b
  digits_enough zero zero a b p q = refl
  digits_enough zero (suc k) zero b p q = refl
  digits_enough zero (suc k) (suc a) b p q = absurd (omega arith)
  digits_enough (suc j) zero zero b p q = refl
  digits_enough (suc j) zero (suc a) b p q = absurd (omega arith)
  digits_enough (suc j) (suc k) zero b p q = refl
  digits_enough (suc j) (suc k) (suc a) b p q =
      rw (digits_enough j k (suc a / 2) (b / 2) (omega arith) (omega arith))

  bitwise_lowest :
      (a b : ℕ)
      → bitwise rest digit (suc a) b
        ≡ bitwise rest digit (suc a / 2) (b / 2) * 2 + digit (suc a % 2) (b % 2)
  bitwise_lowest a b =
      omega (arith, digits_enough a (suc a / 2) (suc a / 2) (b / 2) (omega arith) (omega arith))

differ_digits : (x y : ℕ) → x < 2 → y < 2 → differ x y ≡ (x + y) % 2
differ_digits zero zero p q = refl
differ_digits zero (suc zero) p q = refl
differ_digits (suc zero) zero p q = refl
differ_digits (suc zero) (suc zero) p q = refl
differ_digits (suc (suc x)) y p q = absurd (omega arith)
differ_digits x (suc (suc y)) p q = absurd (omega arith)

differ_of_parities : (a b : ℕ) → differ (a % 2) (b % 2) ≡ (a + b) % 2
differ_of_parities a b = omega (arith, differ_digits (a % 2) (b % 2) (omega arith) (omega arith))

pub zero-bit_xor : (b : ℕ) → bit_xor 0 b ≡ b
zero-bit_xor b = simp bit_xor-bitwise

pub xor_lowest : (a b : ℕ) → bit_xor a b ≡ bit_xor (a / 2) (b / 2) * 2 + (a + b) % 2
xor_lowest zero b = omega (arith, zero-bit_xor b, zero-bit_xor (b / 2))
xor_lowest (suc a) b =
    rw (← differ_of_parities (suc a) b) (simp bit_xor-bitwise (bitwise_lowest (λ y. y) differ a b))

pub and_lowest : (a b : ℕ) → bit_and a b ≡ bit_and (a / 2) (b / 2) * 2 + min (a % 2) (b % 2)
and_lowest zero b = simp bit_and-bitwise (omega arith)
and_lowest (suc a) b = simp bit_and-bitwise (bitwise_lowest (λ y. 0) min a b)

pub or_lowest : (a b : ℕ) → bit_or a b ≡ bit_or (a / 2) (b / 2) * 2 + max (a % 2) (b % 2)
or_lowest zero b = simp bit_or-bitwise (omega arith)
or_lowest (suc a) b = simp bit_or-bitwise (bitwise_lowest (λ y. y) max a b)

-- Exclusive or.
xor_self_below : (n a : ℕ) → a ≤ n → bit_xor a a ≡ 0
xor_self_below n zero h = zero-bit_xor 0
xor_self_below zero (suc a) h = absurd (omega arith)
xor_self_below (suc n) (suc a) h =
    omega (arith, xor_lowest (suc a) (suc a), xor_self_below n (suc a / 2) (omega arith))

xor_cancel_below : (n a b : ℕ) → a ≤ n → bit_xor a (bit_xor a b) ≡ b
xor_cancel_below n zero b h = omega (arith, zero-bit_xor b, zero-bit_xor (bit_xor 0 b))
xor_cancel_below zero (suc a) b h = absurd (omega arith)
xor_cancel_below (suc n) (suc a) b h =
    rw (xor_lowest (suc a) (bit_xor (suc a) b), halves)
      (omega (arith, xor_lowest (suc a) b, xor_cancel_below n (suc a / 2) (b / 2) (omega arith)))
  where
    halves : bit_xor (suc a) b / 2 ≡ bit_xor (suc a / 2) (b / 2)
    halves = omega (arith, xor_lowest (suc a) b)

xor_comm_below : (n a b : ℕ) → a ≤ n → b ≤ n → bit_xor a b ≡ bit_xor b a
xor_comm_below zero zero zero p q = refl
xor_comm_below zero (suc a) b p q = absurd (omega arith)
xor_comm_below zero zero (suc b) p q = absurd (omega arith)
xor_comm_below (suc n) a b p q = omega (
  arith,
  xor_lowest a b,
  xor_lowest b a,
  xor_comm_below n (a / 2) (b / 2) (omega arith) (omega arith),
)

pub xor_self : (a : ℕ) → bit_xor a a ≡ 0
xor_self a = xor_self_below a a (omega arith)

pub xor_cancel : (a b : ℕ) → bit_xor a (bit_xor a b) ≡ b
xor_cancel a b = xor_cancel_below a a b (omega arith)

pub xor_comm : (a b : ℕ) → bit_xor a b ≡ bit_xor b a
xor_comm a b = xor_comm_below (a + b) a b (omega arith) (omega arith)

pub xor_zero : (a : ℕ) → bit_xor a 0 ≡ a
xor_zero a = omega (arith, xor_comm a 0, zero-bit_xor a)

-- A number split at bit `k` is `q * 2 ^ k + r` with `r < 2 ^ k`; the parts are combined apart.
times_pow_suc : (q k : ℕ) → q * 2 ^ suc k ≡ 2 * (q * 2 ^ k)
times_pow_suc q k = omega (arith, ap (λ (t : ℕ). q * t) (pow-suc 2 k))

pub xor_split :
    (k q r s t : ℕ)
    → r < 2 ^ k
    → t < 2 ^ k
    → bit_xor (q * 2 ^ k + r) (s * 2 ^ k + t) ≡ bit_xor q s * 2 ^ k + bit_xor r t
xor_split zero q r s t p h = ground (arith, zero-bit_xor 0)
xor_split (suc k) q r s t p h = ground (
  arith,
  xor_lowest (q * 2 ^ suc k + r) (s * 2 ^ suc k + t),
  times_pow_suc q k,
  times_pow_suc s k,
  times_pow_suc (bit_xor q s) k,
  pow-suc 2 k,
  xor_lowest r t,
  xor_split k q (r / 2) s (t / 2),
)

pub xor-lt : (k r t : ℕ) → r < 2 ^ k → t < 2 ^ k → bit_xor r t < 2 ^ k
xor-lt zero r t p h = ground (arith, zero-bit_xor 0)
xor-lt (suc k) r t p h = ground (arith, xor_lowest r t, pow-suc 2 k, xor-lt k (r / 2) (t / 2))

-- And.
pub zero-bit_and : (b : ℕ) → bit_and 0 b ≡ 0
zero-bit_and b = simp bit_and-bitwise

and_zero_below : (n a : ℕ) → a ≤ n → bit_and a 0 ≡ 0
and_zero_below n zero h = zero-bit_and 0
and_zero_below zero (suc a) h = absurd (omega arith)
and_zero_below (suc n) (suc a) h =
    omega (arith, and_lowest (suc a) 0, and_zero_below n (suc a / 2) (omega arith))

pub and_zero : (a : ℕ) → bit_and a 0 ≡ 0
and_zero a = and_zero_below a a (omega arith)

-- A mask of `k` low ones takes the remainder.
and_low_split : (k q r : ℕ) → r < 2 ^ k → bit_and (q * 2 ^ k + r) (2 ^ k - 1) ≡ r
and_low_split zero q r h = rw and_zero (omega arith)
and_low_split (suc k) q r h = ground (
  arith,
  and_lowest (q * 2 ^ suc k + r) (2 ^ suc k - 1),
  times_pow_suc q k,
  pow-suc 2 k,
  and_low_split k q (r / 2),
)

pub and_low : (k a : ℕ) → bit_and a (2 ^ k - 1) ≡ a % 2 ^ k
and_low k a = ground (arith, one-le-pow k 2, and_low_split k (a / 2 ^ k) (a % 2 ^ k))

-- A mask moved up by `k` bits takes what the mask takes of the number moved down.
and_half : (a c : ℕ) → bit_and a (2 * c) / 2 ≡ bit_and (a / 2) c
and_half a c =
    let e : 2 * c / 2 ≡ c = omega arith in
    omega (arith, and_lowest a (2 * c), ap (bit_and (a / 2)) e)

pub and_shift : (k a c : ℕ) → bit_and a (c * 2 ^ k) / 2 ^ k ≡ bit_and (a / 2 ^ k) c
and_shift zero a c =
    let e : c * 2 ^ 0 ≡ c = omega arith in
    let f : a / 2 ^ 0 ≡ a = omega arith in omega (arith, ap (bit_and a) e, ap (λ t. bit_and t c) f)
and_shift (suc k) a c =
    let twice : 2 ^ suc k ≡ 2 * 2 ^ k = omega (arith, pow-suc 2 k) in
    ap (λ t. bit_and a t / 2 ^ suc k) (times_pow_suc c k)
    ∙ (ap (λ t. bit_and a (2 * (c * 2 ^ k)) / t) twice
        ∙ (sym (div-div-eq-div-mul (bit_and a (2 * (c * 2 ^ k))) 2 (2 ^ k))
            ∙ (ap (λ t. t / 2 ^ k) (and_half a (c * 2 ^ k))
                ∙ (and_shift k (a / 2) c
                    ∙ ap (λ t. bit_and t c)
                        (div-div-eq-div-mul a 2 (2 ^ k) ∙ ap (λ t. a / t) (sym twice))))))

-- Or.
pub zero-bit_or : (b : ℕ) → bit_or 0 b ≡ b
zero-bit_or b = simp bit_or-bitwise

or_zero_below : (n a : ℕ) → a ≤ n → bit_or a 0 ≡ a
or_zero_below n zero h = zero-bit_or 0
or_zero_below zero (suc a) h = absurd (omega arith)
or_zero_below (suc n) (suc a) h =
    omega (arith, or_lowest (suc a) 0, or_zero_below n (suc a / 2) (omega arith))

pub or_zero : (a : ℕ) → bit_or a 0 ≡ a
or_zero a = or_zero_below a a (omega arith)

pub or_split :
    (k q r s t : ℕ)
    → r < 2 ^ k
    → t < 2 ^ k
    → bit_or (q * 2 ^ k + r) (s * 2 ^ k + t) ≡ bit_or q s * 2 ^ k + bit_or r t
or_split zero q r s t p h = ground (arith, zero-bit_or 0)
or_split (suc k) q r s t p h = ground (
  arith,
  or_lowest (q * 2 ^ suc k + r) (s * 2 ^ suc k + t),
  times_pow_suc q k,
  times_pow_suc s k,
  times_pow_suc (bit_or q s) k,
  pow-suc 2 k,
  or_lowest r t,
  or_split k q (r / 2) s (t / 2),
)

-- A mask of `k` ones swallows what fits below it.
pub or_ones : (k r : ℕ) → r < 2 ^ k → bit_or r (2 ^ k - 1) ≡ 2 ^ k - 1
or_ones zero r h = ground (arith, zero-bit_or 0)
or_ones (suc k) r h =
    ground (arith, or_lowest r (2 ^ suc k - 1), pow-suc 2 k, one-le-pow k 2, or_ones k (r / 2))
