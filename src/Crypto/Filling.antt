-- ===== src/Crypto/Filling.antt =====
-- How a `DataWrap` fills: the bytes appended so far, and the room that is left.
use lu.Base.{
  ℕ, ◌+◌, ◌^◌, ◌≤◌, ◌<◌, ◌≡◌, refl, ap, subst, ◌∙◌, sym, true, false, List, [], ◌++◌, append_assoc,
  length, take, overwrite, length-append, length-take, length-replicate, length-overwrite,
  take-append, take_all, arith, dec_le, ◌⊎◌, inl, inr,
}
use lu.Crypto.DataWrap.{DataWrap, create, append, move_from, contents, IsWell}

pub create-IsWell : (n : ℕ) → IsWell (create n)
unfolding create
create-IsWell n = omega (arith, length-replicate {A = ℕ} n 0)

take-overwrite :
    (xs : List ℕ) (i : ℕ) (ys : List ℕ)
    → i + length ys ≤ length xs
    → take (i + length ys) (overwrite xs i ys) ≡ take i xs ++ ys
take-overwrite xs i ys h =
    ap (take (i + length ys)) (sym (append_assoc (take i xs) ys _))
    ∙ take-append _ (take i xs ++ ys) _
        (omega (arith, length-append (take i xs) ys, length-take i xs))

abbrev stored : DataWrap → List ℕ → ℕ → DataWrap
stored w bs n = record w { bytes = overwrite w.bytes w.offset (take n bs); offset = w.offset + n }

append-stored :
    (w : DataWrap) (bs : List ℕ) (n : ℕ)
    → w.capacity < 2 ^ 63
    → w.offset + n ≤ w.capacity
    → append w bs n ≡ (stored w bs n, true)
unfolding append
append-stored w bs n small fits = ground arith

module _ (w : DataWrap) (bs : List ℕ) (n : ℕ) (h : IsWell w) (room : n ≤ length bs) where
  stored-contents : w.offset + n ≤ w.capacity → contents (stored w bs n) ≡ contents w ++ take n bs
  stored-contents fits =
      ap (λ k. take (w.offset + k) (overwrite w.bytes w.offset (take n bs))) exact
      ∙ take-overwrite w.bytes w.offset (take n bs) (omega (arith, h.full, exact))
    where
      exact : n ≡ length (take n bs)
      exact = omega (arith, length-take n bs)

  stored-IsWell : w.offset + n ≤ w.capacity → IsWell (stored w bs n)
  stored-IsWell fits =
      omega
        (arith, h.sized, h.full, length-take n bs, length-overwrite w.bytes w.offset (take n bs))

-- On a well-formed buffer, bytes that fit are stored behind those that are there and the buffer
-- stays well-formed; bytes that do not fit change nothing; the answer says which. The capacity
-- and the count are below 2^63, and the source has as many bytes as the count says.
pub append-contents :
    (w : DataWrap) (bs : List ℕ) (n : ℕ)
    → IsWell w
    → w.capacity < 2 ^ 63
    → n < 2 ^ 63
    → n ≤ length bs
    → ((w.offset + n ≤ w.capacity)
        × ((append w bs n).1 ≡ true)
        × (contents (append w bs n).0 ≡ contents w ++ take n bs)
        × IsWell (append w bs n).0)
      ⊎ ((w.capacity < w.offset + n) × (append w bs n ≡ (w, false)))
unfolding append
append-contents w bs n h small few room = elim (dec_le (w.offset + n) w.capacity) [
  | yes fits ↦
      let e = append-stored w bs n small fits in
      inl (
        fits,
        ap (λ r. r.1) e,
        ap (λ r. contents r.0) e ∙ stored-contents w bs n h room fits,
        subst (λ r. IsWell r.0) (sym e) (stored-IsWell w bs n h room fits),
      )
  | no full ↦ inr (omega arith, ground arith)
]

-- A whole word appended to a buffer with room: what a header is made of.
pub append_whole :
    (w : DataWrap) (bs : List ℕ) (n : ℕ)
    → IsWell w
    → w.capacity < 2 ^ 63
    → length bs ≡ n
    → w.offset + n ≤ w.capacity
    → (contents (append w bs n).0 ≡ contents w ++ bs)
      × IsWell (append w bs n).0
      × ((append w bs n).0.offset ≡ w.offset + n)
      × ((append w bs n).0.capacity ≡ w.capacity)
append_whole w bs n h small exact fits = (
  ap (λ r. contents r.0) e
      ∙ (stored-contents w bs n h (omega arith) fits
          ∙ ap (λ t. contents w ++ t) (take_all n bs (omega arith))),
  subst (λ r. IsWell r.0) (sym e) (stored-IsWell w bs n h (omega arith) fits),
  ap (λ r. r.0.offset) e,
  ap (λ r. r.0.capacity) e,
)
  where
    e : append w bs n ≡ (stored w bs n, true)
    e = append-stored w bs n small fits

-- The move constructor takes the buffer and the capacity, and not the count of bytes: the new object
-- is empty, while the old one still counts bytes that it no longer has.
pub move_from-drops :
    (w : DataWrap)
    → (contents (move_from w).0 ≡ [])
      × ((move_from w).0.bytes ≡ w.bytes)
      × ((move_from w).0.capacity ≡ w.capacity)
      × ((move_from w).1.offset ≡ w.offset)
      × ((move_from w).1.bytes ≡ [])
unfolding move_from
move_from-drops w = (refl, refl, refl, refl, refl)
