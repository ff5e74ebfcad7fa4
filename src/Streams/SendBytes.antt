-- ===== src/Streams/SendBytes.antt =====
-- BaseSocket.cpp: the bytes that `send` hands to the system, and the number that it answers.
use lu.Base.{
  ℕ, zero, suc, ◌+◌, ◌-◌, ◌≤◌, ◌<◌, min, ◌≡◌, refl, sym, ap, ◌∙◌, Bool, true, false, List, [], ◌∷◌,
  ◌++◌, length, length-take, length-drop, length-append, drop-drop, take, dec_lt, ℕ_discrete, drop,
  slice, ltb, ◌==◌, lt→ltb, not_ltb, if◌then◌else◌, arith,
}
use lu.Streams.BaseSocket.{
  Errno, again, interrupted, other, SendCall, took, fails, SendEnd, returned, sending, count, Sent,
  goes_on, put_before, after_failure, send_loop, send,
}

take-sum : (n m : ℕ) (xs : List ℕ) → take n xs ++ take m (drop n xs) ≡ take (n + m) xs
take-sum zero m xs = ap (λ k. take k xs) (omega arith)
take-sum (suc n) m [] = none_left m ∙ ap (λ k. take k []) {x = suc (n + m)} (omega arith)
  where
    none_left : (m : ℕ) → take {A = ℕ} m [] ≡ []
    none_left zero = refl
    none_left (suc m) = refl
take-sum (suc n) m (x ∷ xs) =
    let e : suc n + m ≡ suc (n + m) = omega arith in rw e (ap (λ t. x ∷ t) (take-sum n m xs))

-- From some bytes sent: the bytes that follow in the buffer, and an answer that counts no more.
pub record Sends (buffer : List ℕ) (total : ℕ) (s : Sent) : Type 0 where
  in_order : s.1 ≡ slice buffer total (length s.1)
  counted : count s.0 ≤ total + length s.1
  inside : total + length s.1 ≤ length buffer

pub stop-Sends :
    (buffer : List ℕ) (total : ℕ) (e : SendEnd)
    → count e ≤ total
    → total ≤ length buffer
    → Sends buffer total (e, [])
stop-Sends buffer total e h i = record {
  in_order = refl;
  counted = omega (arith, h);
  inside = omega (arith, i);
}

pub put-Sends :
    (buffer : List ℕ) (total n : ℕ) (s : Sent)
    → total + n ≤ length buffer
    → Sends buffer (total + n) s
    → Sends buffer total (put_before (slice buffer total n) s)
put-Sends buffer total n s h v =
    let taken : length (slice buffer total n) ≡ n =
      omega (arith, length-take n (drop total buffer), length-drop total buffer, h) in
    let all : length (slice buffer total n ++ s.1) ≡ n + length s.1 =
      omega (arith, length-append (slice buffer total n) s.1, taken) in
    record {
      in_order =
          ap (λ t. slice buffer total n ++ t)
            (v.in_order ∙ ap (take (length s.1)) (drop-drop total n buffer))
          ∙ (take-sum n (length s.1) (drop total buffer)
              ∙ ap (λ k. slice buffer total k) (sym all));
      counted = omega (arith, v.counted, all);
      inside = omega (arith, v.inside, all);
    }

pub if-Sends :
    (b : Bool) {buffer : List ℕ} {total : ℕ} (x y : Sent)
    → Sends buffer total x
    → Sends buffer total y
    → Sends buffer total (if b then x else y)
if-Sends true x y p q = p
if-Sends false x y p q = q

pub failure-Sends :
    (e : Errno) (buffer : List ℕ) (total : ℕ) (rest : Sent)
    → total ≤ length buffer
    → Sends buffer total rest
    → Sends buffer total (after_failure e total rest)
failure-Sends again buffer total rest h v = v
failure-Sends interrupted buffer total rest h v = stop-Sends buffer total _ (omega arith) h
failure-Sends other buffer total rest h v = stop-Sends buffer total _ (omega arith) h

send_loop-Sends :
    (calls : List SendCall) (errno : Errno) (buffer : List ℕ) (total size : ℕ)
    → total ≤ length buffer
    → (total < size → total + size ≤ length buffer)
    → Sends buffer total (send_loop calls errno buffer total size)
unfolding send_loop
send_loop-Sends [] errno buffer total size h i =
    if-Sends (ltb total size) _ _ (stop-Sends buffer total (sending total) (omega arith) h)
      (stop-Sends buffer total (returned total) (omega arith) h)
send_loop-Sends (fails e ∷ calls) errno buffer total size h i =
    if-Sends (ltb total size) _ _
      (failure-Sends e buffer total _ h (send_loop-Sends calls e buffer total size h i))
      (stop-Sends buffer total (returned total) (omega arith) h)
send_loop-Sends (took k ∷ calls) errno buffer total size h i = elim (dec_lt total size) [
  | no past ↦
      rw (not_ltb total size (omega (arith, past)))
        (stop-Sends buffer total (returned total) (omega arith) h)
  | yes more ↦
      let n = min k size in
      let room : total + n ≤ length buffer = omega (arith, i more) in
      rw (lt→ltb total size more) (
        put-Sends buffer total n _ room (elim (ℕ_discrete n size) [
          | yes full ↦
              let same : (n == size) ≡ true = ground (arith, full) in
              rw same
                (send_loop-Sends calls errno buffer (total + n) size room (omega (arith, full)))
          | no part ↦
              let less : (n == size) ≡ false = ground (arith, part) in
              rw less (
                if-Sends (goes_on errno) _ _
                  (send_loop-Sends calls errno buffer (total + n) (size - n) room
                    (omega (arith, i more)))
                  (stop-Sends buffer (total + n) (returned total) (omega arith) room))
        ]))
]

pub Sends-prefix :
    (buffer : List ℕ) (s : Sent)
    → Sends buffer 0 s
    → (s.1 ≡ take (length s.1) buffer) × (count s.0 ≤ length s.1) × (length s.1 ≤ length buffer)
Sends-prefix buffer s v = (v.in_order, omega (arith, v.counted), omega (arith, v.inside))

-- Whatever the calls of `::send` do, the bytes that `send` of a whole buffer hands over are the
-- first ones of the buffer, in order and each once, and it answers at most their number.
pub send-prefix :
    (is_open : Bool) (errno : Errno) (calls : List SendCall) (buffer : List ℕ)
    → (let s = send is_open errno calls buffer (length buffer) in
        (s.1 ≡ take (length s.1) buffer) × (count s.0 ≤ length s.1) × (length s.1 ≤ length buffer))
unfolding send
send-prefix is_open errno calls buffer = Sends-prefix buffer _ (
    if-Sends is_open _ _
      (send_loop-Sends calls errno buffer 0 (length buffer) (omega arith) (omega arith))
      (stop-Sends buffer 0 (returned 0) (omega arith) (omega arith)))
