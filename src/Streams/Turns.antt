-- ===== src/Streams/Turns.antt =====
-- A turn of `Receive`: the messages are cut from the buffer, then the socket makes room.
use lu.Base.{ℕ, ◌≡◌, ap, subst, List, ◌++◌, All, length, arith}
use lu.Streams.Receiving.{Ending, done, and_then}
use lu.Streams.Messages.{DataHandler, Cut, read_messages}
use lu.Streams.Cutting.{HandlerLaws, IsMessage, Shows, joined, Cuts, cut_messages-Cuts}
use lu.Streams.Delivery.{Turn}

module _ (h : DataHandler) (l : HandlerLaws h) {S : Type 0} (finish : ℕ → ℕ → S) where
  -- What the buffer holds is cut, and `finish` gives the socket from the offset and the bytes left.
  abbrev pub cut_then : h.Memory → ℕ → ℕ → Ending (List (List ℕ) × S)
  cut_then memory offset left =
      and_then (read_messages h memory offset left)
        (λ r. done (r.messages, finish r.read_offset r.left_to_read))

  pub turn_from :
      (Ready : List (List ℕ) → List ℕ → S → Type 0) (memory : h.Memory) (sized : l.IsSized memory)
      (ms : List (List ℕ)) (u p : List ℕ) (offset left : ℕ)
      → length p ≡ left
      → All (IsMessage h l) ms
      → Shows (l.flat memory) offset p
      → p ++ u ≡ joined ms
      → ((c : Cuts h l memory sized ms u offset left (read_messages h memory offset left))
          → Ready c.later u (finish c.offset_then (length c.rest)))
      → Turn Ready ms u (cut_then memory offset left)
  turn_from Ready memory sized ms u p offset left total whole shows e next =
      let c : Cuts h l memory sized ms u offset left (read_messages h memory offset left) =
        subst (λ k. Cuts h l memory sized ms u offset k (read_messages h memory offset k)) total
          (cut_messages-Cuts h l memory sized _ ms p u offset (omega arith) whole shows e) in
      record {
        sent = c.sent;
        later = c.later;
        next = finish c.offset_then (length c.rest);
        ends =
            ap
              (λ r.
                and_then r (λ (r : Cut). done (r.messages, finish r.read_offset r.left_to_read)))
              c.ends;
        all_of = c.all_of;
        ready = next c;
      }
