-- ===== src/Queues/Sizes.antt =====
-- The sizes and shuffle bits of the queues' classes keep each counter's slot apart.
use lu.Base.{
  ℕ, suc, ◌+◌, ◌-◌, ◌*◌, ◌^◌, ◌≤◌, ◌<◌, ◌≡◌, refl, ap, sym, ◌∙◌, subst, ℕ_discrete, dec_le, Bool,
  true, false, ◌⊎◌, inl, inr, ◌<<<◌, arith,
}
use native.Mathlib.Nat.{one-le-pow, pow-le-pow_right, pow-suc}
use lu.Queues.Index.{remap_index, index_bits_size, index_shuffle_bits, next_power_of_two}
use lu.Queues.Ring.{config_of}
use lu.Queues.Shuffle.{two_pow_add, remap_index-remap_index, remap_index-lt}
use lu.Queues.Fifo.{IsConfig}

plain_remap : (i : ℕ) → remap_index 0 i ≡ i
unfolding remap_index
plain_remap i = refl

in_table :
    (k bits : ℕ) → bits ≤ 16 → bits + bits ≤ k → (i : ℕ) → i < 2 ^ k → remap_index bits i < 2 ^ k
in_table k bits few room i h = elim (ℕ_discrete bits 0) [
  | yes e ↦
      subst (λ b. remap_index b i < 2 ^ k) (sym e) (subst (λ n. n < 2 ^ k) (sym (plain_remap i)) h)
  | no ne ↦ remap_index-lt bits ne few k room i h
]

remap_twice : (bits : ℕ) → bits ≤ 16 → (i : ℕ) → remap_index bits (remap_index bits i) ≡ i
remap_twice bits few i = elim (ℕ_discrete bits 0) [
  | yes e ↦
      subst (λ b. remap_index b (remap_index b i) ≡ i) (sym e)
        (plain_remap (remap_index 0 i) ∙ plain_remap i)
  | no ne ↦ remap_index-remap_index bits ne few i
]

power-IsConfig :
    (k bits : ℕ)
    → k < 31
    → bits ≤ 16
    → bits + bits ≤ k
    → IsConfig (record { queue_size = 2 ^ k; shuffle_bits = bits })
power-IsConfig k bits small few room = record {
  positive = one-le-pow k 2 (omega arith);
  small =
      omega (arith, pow-le-pow_right {n = 2} (omega arith) {i = k} {j = 30} (omega (arith, small)));
  rounds = 2 ^ (32 - k);
  whole_rounds =
      ap (λ n. 2 ^ n) (let e : 32 ≡ k + (32 - k) = omega (arith, small) in e)
      ∙ two_pow_add k (32 - k);
  in_range = in_table k bits few room;
  apart = λ i j h h' e.
      sym (remap_twice bits few i) ∙ (ap (remap_index bits) e ∙ remap_twice bits few j);
}

index_bits_size-le : (n : ℕ) → index_bits_size n ≤ 8
unfolding index_bits_size
index_bits_size-le n = ground arith

-- Slots are shuffled only where the two groups of bits fit the index.
shuffle_cases :
    (b : Bool) (size n : ℕ)
    → (index_shuffle_bits b size n ≡ 0)
      ⊎ ((index_shuffle_bits b size n ≤ 8)
          × (2 ^ (index_shuffle_bits b size n + index_shuffle_bits b size n) ≤ size))
unfolding index_shuffle_bits
shuffle_cases false size n = inl refl
shuffle_cases true size n = elim (dec_le (1 <<< (index_bits_size n * 2)) size) [
  | yes fits ↦ inr (
    ground (arith, fits, index_bits_size-le n),
    ground (
      arith,
      fits,
      ap (λ b. 2 ^ b)
          (let e : index_bits_size n * 2 ≡ index_bits_size n + index_bits_size n = omega arith in
            e),
    ),
  )
  | no e ↦ inl (ground (arith, e))
]

exponent-le : (a b : ℕ) → 2 ^ a ≤ 2 ^ b → a ≤ b
exponent-le a b h = elim (dec_le a b) [
  | yes e ↦ e
  | no over ↦ absurd (
      omega (
        arith,
        h,
        pow-suc 2 b,
        one-le-pow b 2 (omega arith),
        pow-le-pow_right {n = 2} (omega arith) {i = suc b} {j = a} (omega (arith, over)),
      ))
]

-- A class of queues that minimises contention, and whose rounded size is a power of two below
-- 2^31, gives the counters of one round different slots within the table, also where the 32-bit
-- counters wrap around.
pub config_of-IsConfig :
    (size per_line k : ℕ)
    → next_power_of_two size ≡ 2 ^ k
    → k < 31
    → IsConfig (config_of true size per_line)
unfolding config_of
config_of-IsConfig size per_line k e small =
    subst IsConfig
      (ap (λ n. record { queue_size = n; shuffle_bits = index_shuffle_bits true n per_line })
        (sym e))
      (elim (shuffle_cases true (2 ^ k) per_line) [
        | inl none_ ↦ power-IsConfig k _ small (omega (arith, none_)) (omega (arith, none_))
        | inr (few, fits) ↦ power-IsConfig k _ small (omega (arith, few)) (exponent-le _ k fits)
      ])
