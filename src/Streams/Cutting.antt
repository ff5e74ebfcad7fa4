-- ===== src/Streams/Cutting.antt =====
-- `readMessages` on bytes that are the beginning of a row of messages.
use lu.Base.{
  ℕ, zero, suc, ◌+◌, ◌-◌, ◌≤◌, ◌<◌, ◌≡◌, refl, sym, ap, ap₂, subst, ◌∙◌, some, List, [], ◌∷◌, ◌++◌,
  All, append_assoc, length, length-append, length-drop, take, drop, slice, take-append,
  drop-append, drop-drop, dec_le, arith,
}
use lu.Streams.Receiving.{Ending, done}
use lu.Streams.Overwrites.{take_less}
use lu.Streams.Messages.{DataHandler, Cut, cut_messages, add_message, call_on_data}

abbrev pub joined : List (List ℕ) → List ℕ
joined [] = []
joined (m ∷ ms) = m ++ joined ms

-- What the handler reads is what stands in one run of bytes, a header tells its message's size, and
-- there is room for messages up to a size.
pub record HandlerLaws (h : DataHandler) : Type 1 where
  pub flat : h.Memory → List ℕ
  pub IsSized : h.Memory → Type 0
  pub size_of : List ℕ → ℕ
  pub message_room : ℕ
  pub some_header : 0 < h.header_size
  pub header_is :
      (memory : h.Memory) (offset : ℕ)
      → IsSized memory
      → offset + h.header_size ≤ length (flat memory)
      → h.read_header memory offset ≡ size_of (slice (flat memory) offset h.header_size)
  pub message_is :
      (memory : h.Memory) (offset size : ℕ)
      → IsSized memory
      → offset + size ≤ length (flat memory)
      → size ≤ message_room
      → h.read_message memory offset size ≡ some (slice (flat memory) offset size)

pub record IsMessage (h : DataHandler) (l : HandlerLaws h) (m : List ℕ) : Type 0 where
  pub whole_header : h.header_size ≤ length m
  pub size_told : l.size_of (take h.header_size m) ≡ length m
  pub in_room : length m ≤ l.message_room

-- The memory has these bytes from the offset on.
pub record Shows (memory : List ℕ) (offset : ℕ) (bytes : List ℕ) : Type 0 where
  pub behind : List ℕ
  pub shown : drop offset memory ≡ bytes ++ behind

-- Less than the first of some messages is left.
abbrev pub Partly : List (List ℕ) → ℕ → Type 0
Partly [] left = left ≡ 0
Partly (m ∷ ms) left = left < length m

-- Where two rows are the same, the longer first part begins with the other.
first_part :
    (p u m q : List ℕ)
    → p ++ u ≡ m ++ q
    → length m ≤ length p
    → (p ≡ m ++ drop (length m) p) × (drop (length m) p ++ u ≡ q)
first_part p u [] q e h = (refl, e)
first_part [] u (x ∷ m) q e h = absurd (omega arith)
first_part (y ∷ p) u (x ∷ m) q e h =
    let (a, b) = first_part p u m q (ap tail_of e) (omega arith) in (ground (arith, e, a), b)
  where
    tail_of : List ℕ → List ℕ
    tail_of [] = []
    tail_of (z ∷ zs) = zs

pub Shows-slice :
    {memory : List ℕ} {offset : ℕ} {bytes : List ℕ} (n : ℕ)
    → Shows memory offset bytes
    → n ≤ length bytes
    → slice memory offset n ≡ take n bytes
Shows-slice {bytes = bytes} n s h = ap (take n) s.shown ∙ take_less n bytes s.behind h

pub Shows-within :
    {memory : List ℕ} {offset : ℕ} {bytes : List ℕ}
    → Shows memory offset bytes
    → 0 < length bytes
    → offset + length bytes ≤ length memory
Shows-within {memory} {offset} {bytes} s h =
    omega (arith, h, length-drop offset memory, ap length s.shown, length-append bytes s.behind)

pub Shows-drop :
    {memory : List ℕ} {offset : ℕ} (xs ys : List ℕ)
    → Shows memory offset (xs ++ ys)
    → Shows memory (offset + length xs) ys
Shows-drop {memory} {offset} xs ys s = record {
  behind = s.behind;
  shown =
      drop-drop offset (length xs) memory
      ∙ (ap (drop (length xs)) (s.shown ∙ append_assoc xs ys s.behind)
          ∙ drop-append (length xs) xs (ys ++ s.behind) refl);
}

module _ (h : DataHandler) (memory : h.Memory) where
  abbrev unread : ℕ → ℕ → Cut
  unread offset left = record { messages = []; read_offset = offset; left_to_read = left }

  cut_short :
      (n offset left : ℕ)
      → left < h.header_size
      → cut_messages h memory (suc n) offset left ≡ done (unread offset left)
  unfolding cut_messages
  cut_short n offset left e = ground (arith, e)

  cut_partial :
      (n offset left : ℕ)
      → left < h.read_header memory offset
      → cut_messages h memory (suc n) offset left ≡ done (unread offset left)
  unfolding cut_messages
  cut_partial n offset left e = ground (arith, e)

  pub cut_whole :
      (n offset left : ℕ)
      → h.header_size ≤ left
      → h.read_header memory offset ≤ left
      → cut_messages h memory (suc n) offset left
        ≡ call_on_data (h.read_message memory offset (h.read_header memory offset)) (
            cut_messages h memory n
              (offset + h.read_header memory offset)
              (left - h.read_header memory offset))
  unfolding cut_messages
  cut_whole n offset left e e' = ground (arith, e, e')

module _ (h : DataHandler) (l : HandlerLaws h) (memory : h.Memory) (sized : l.IsSized memory) where
  -- The messages that were cut, those still to come, and the bytes of the next one.
  pub record Cuts (ms : List (List ℕ)) (u : List ℕ) (offset left : ℕ) (r : Ending Cut)
      : Type 0 where
    pub sent : List (List ℕ)
    pub later : List (List ℕ)
    pub rest : List ℕ
    pub offset_then : ℕ
    pub ends :
        r ≡ done (record { messages = sent; read_offset = offset_then; left_to_read = length rest })
    pub all_of : ms ≡ sent ++ later
    pub later_fit : All (IsMessage h l) later
    pub onward : offset_then + length rest ≡ offset + left
    pub shows : Shows (l.flat memory) offset_then rest
    pub next_bytes : rest ++ u ≡ joined later
    pub partly : Partly later (length rest)

  stay-Cuts :
      (ms : List (List ℕ)) (u p : List ℕ) (offset : ℕ) (r : Ending Cut)
      → r ≡ done (unread h memory offset (length p))
      → All (IsMessage h l) ms
      → Shows (l.flat memory) offset p
      → p ++ u ≡ joined ms
      → Partly ms (length p)
      → Cuts ms u offset (length p) r
  stay-Cuts ms u p offset r e a s j q = record {
    sent = [];
    later = ms;
    rest = p;
    offset_then = offset;
    ends = e;
    all_of = refl;
    later_fit = a;
    onward = refl;
    shows = s;
    next_bytes = j;
    partly = q;
  }

  more-Cuts :
      (m : List ℕ) (ms : List (List ℕ)) (u : List ℕ) (offset left : ℕ) (r : Ending Cut)
      → Cuts ms u (offset + length m) left r
      → Cuts (m ∷ ms) u offset (length m + left) (add_message m r)
  more-Cuts m ms u offset left r c = record {
    sent = m ∷ c.sent;
    later = c.later;
    rest = c.rest;
    offset_then = c.offset_then;
    ends = ap (add_message m) c.ends;
    all_of = ap (λ xs. m ∷ xs) c.all_of;
    later_fit = c.later_fit;
    onward = omega (arith, c.onward);
    shows = c.shows;
    next_bytes = c.next_bytes;
    partly = c.partly;
  }

  -- The size that a header in the bytes tells.
  size_read :
      (offset : ℕ) (p m u q : List ℕ)
      → IsMessage h l m
      → Shows (l.flat memory) offset p
      → p ++ u ≡ m ++ q
      → h.header_size ≤ length p
      → h.read_header memory offset ≡ length m
  size_read offset p m u q i s e long =
      l.header_is memory offset sized
        (omega (arith, long, Shows-within s (omega (arith, long, l.some_header))))
      ∙ (ap l.size_of (
            Shows-slice h.header_size s long
            ∙ (sym (take_less h.header_size p u long)
                ∙ (ap (take h.header_size) e ∙ take_less h.header_size m q i.whole_header)))
          ∙ i.size_told)

  Cuts-eq :
      {ms : List (List ℕ)} {u : List ℕ} {offset left left' : ℕ} {r r' : Ending Cut}
      → left ≡ left'
      → r ≡ r'
      → Cuts ms u offset left r
      → Cuts ms u offset left' r'
  Cuts-eq {ms} {u} {offset} {left} {left'} {r} {r'} e f c =
      subst (λ k. Cuts ms u offset k r') e (subst (Cuts ms u offset left) f c)

  pub cut_messages-Cuts :
      (n : ℕ) (ms : List (List ℕ)) (p u : List ℕ) (offset : ℕ)
      → length p < n
      → All (IsMessage h l) ms
      → Shows (l.flat memory) offset p
      → p ++ u ≡ joined ms
      → Cuts ms u offset (length p) (cut_messages h memory n offset (length p))
  cut_messages-Cuts zero ms p u offset enough a s e = absurd (omega (arith, enough))
  cut_messages-Cuts (suc n) [] p u offset enough a s e =
      let none_left : length p ≡ 0 = omega (arith, length-append p u, ap length e) in
      stay-Cuts [] u p offset _
        (cut_short h memory n offset (length p) (omega (arith, none_left, l.some_header))) a s e
        none_left
  cut_messages-Cuts (suc n) (m ∷ ms) p u offset enough a s e = elim (dec_le (length m) (length p)) [
    | yes whole ↦
        let (front, back) = first_part p u m (joined ms) e whole in
        let told =
          size_read offset p m u (joined ms) a.0 s e (omega (arith, whole, a.0.whole_header)) in
        let s' : Shows (l.flat memory) (offset + length m) (drop (length m) p) =
          Shows-drop m (drop (length m) p) (subst (Shows (l.flat memory) offset) front s) in
        let message : h.read_message memory offset (length m) ≡ some m =
          l.message_is memory offset (length m) sized
            (omega (
              arith,
              whole,
              Shows-within s (omega (arith, whole, a.0.whole_header, l.some_header)),
            ))
            a.0.in_room
          ∙ ap some (
              Shows-slice (length m) s whole
              ∙ (ap (take (length m)) front ∙ take-append (length m) m (drop (length m) p) refl)) in
        let shorter : length p - length m ≡ length (drop (length m) p) =
          sym (length-drop (length m) p) in
        let turn =
          cut_whole h memory n offset (length p) (omega (arith, whole, a.0.whole_header))
            (omega (arith, told, whole))
          ∙ (ap
                (λ k.
                  call_on_data (h.read_message memory offset k)
                    (cut_messages h memory n (offset + k) (length p - k)))
                told
              ∙ ap₂ (λ x k. call_on_data x (cut_messages h memory n (offset + length m) k)) message
                  shorter) in
        Cuts-eq (omega (arith, whole, shorter)) (sym turn) (
          more-Cuts m ms u offset _ _ (
            cut_messages-Cuts n ms (drop (length m) p) u (offset + length m)
              (omega (arith, enough, whole, shorter, a.0.whole_header, l.some_header)) a.1 s' back))
    | no less ↦
        stay-Cuts (m ∷ ms) u p offset _
          (elim (dec_le h.header_size (length p)) [
            | yes long ↦
                cut_partial h memory n offset (length p)
                  (omega (arith, less, size_read offset p m u (joined ms) a.0 s e long))
            | no short ↦ cut_short h memory n offset (length p) (omega (arith, short))
          ])
          a s e (omega (arith, less))
  ]
