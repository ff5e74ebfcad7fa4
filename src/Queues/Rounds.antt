-- ===== src/Queues/Rounds.antt =====
-- Remainders of counters, and reads of lists, for the queues.
use lu.Base.{
  ℕ, zero, suc, ◌+◌, ◌-◌, ◌*◌, ◌/◌, ◌%◌, ◌^◌, ◌<◌, ◌≡◌, refl, ap, sym, ◌∙◌, leb, dec_le, List, [],
  ◌∷◌, ◌++◌, length, get_or, replicate, if◌then◌else◌, arith,
}
use native.Mathlib.Nat.{
  mod-lt, mul_assoc, mul-add-mod_self_left, div-add-mod, mod-eq_of_lt, mod-add-mod, add-mod_right,
}

-- A step of less than one round changes the remainder.
mod_below_two : (y n : ℕ) → y < n + n → y % n ≡ (if leb n y then y - n else y)
mod_below_two y n h = elim (dec_le n y) [
  | yes over ↦
      let e : y ≡ (y - n) + n = omega (arith, over) in
      ground (
        arith,
        over,
        ap (λ k. k % n) e,
        add-mod_right (y - n) n,
        mod-eq_of_lt {n = y - n} {m = n} (omega (arith, h, over)),
      )
  | no under ↦ ground (arith, under, mod-eq_of_lt {n = y} {m = n} (omega (arith, under)))
]

mod_step :
    (t i n : ℕ) → i < n → (t + i) % n ≡ (if leb n (t % n + i) then t % n + i - n else t % n + i)
mod_step t i n h =
    sym (mod-add-mod t n i)
    ∙ mod_below_two (t % n + i) n
        (omega (arith, h, mod-lt t (let p : 0 < n = omega (arith, h) in p)))

pub mod_word : (s rounds x : ℕ) → 2 ^ 32 ≡ s * rounds → x % 2 ^ 32 % s ≡ x % s
mod_word s rounds x e =
    sym (mul-add-mod_self_left s (rounds * (x / 2 ^ 32)) (x % 2 ^ 32))
    ∙ ap (λ k. k % s)
        (ap (λ k. k + x % 2 ^ 32)
            (sym (mul_assoc s rounds (x / 2 ^ 32)) ∙ ap (λ k. k * (x / 2 ^ 32)) (sym e))
          ∙ div-add-mod x (2 ^ 32))

pub mod_apart : (t i j n : ℕ) → i < n → j < n → (t + i) % n ≡ (t + j) % n → i ≡ j
mod_apart t i j n h k e =
    ground (arith, mod_step t i n h, mod_step t j n k, mod-lt t (let p : 0 < n = omega arith in p))

pub get_or-append_left :
    {A : Type 0} (xs ys : List A) (i : ℕ) (d : A)
    → i < length xs
    → get_or (xs ++ ys) i d ≡ get_or xs i d
get_or-append_left [] ys i d h = absurd (omega arith)
get_or-append_left (x ∷ xs) ys zero d h = refl
get_or-append_left (x ∷ xs) ys (suc i) d h = get_or-append_left xs ys i d (omega arith)

pub get_or-replicate : {A : Type 0} (n i : ℕ) (a : A) → get_or (replicate n a) i a ≡ a
get_or-replicate zero i a = refl
get_or-replicate (suc n) zero a = refl
get_or-replicate (suc n) (suc i) a = get_or-replicate n i a
