-- ===== src/Streams/Delivery.antt =====
-- The loop of `Receive` over what arrives, on any socket that keeps its turn's laws.
use lu.Base.{
  ℕ, zero, suc, ◌≤◌, ◌<◌, min, ◌≡◌, refl, sym, ap, subst, ◌∙◌, Bool, true, false, List, [], ◌∷◌,
  ◌++◌, append_assoc, append-nil, length, length-append, length-drop, length-take, take, drop,
  take-append-drop, drop-append, arith,
}
use lu.Streams.Receiving.{
  some_bytes, Arrival, arrived, closed, broken, recv, read_data_socket, Ending, done, and_then,
}
use lu.Streams.Buffer.{no_bytes}
use lu.Streams.Loop.{Receiver, Outcome, after_read, stop_with, then_go, receive}

-- Each call finds a byte, if one is still to come.
abbrev pub AllArrive : List Arrival → Type 0
AllArrive [] = Unit
AllArrive (arrived k ∷ calls) = (0 < k) × AllArrive calls
AllArrive (closed ∷ calls) = ⊥
AllArrive (broken ∷ calls) = ⊥

-- What a call gives: nothing, or some bytes that are the first of those pending.
data Reads (a : Arrival) (n : ℕ) (u : List ℕ) : Bool × List ℕ → Type 0 where
  none_read :
      (b : Bool) → (AllArrive (a ∷ []) → 0 < n → (u ≡ []) × (b ≡ true)) → Reads a n u (b, [])
  some_read :
      (x : ℕ) (c u' : List ℕ) → u ≡ (x ∷ c) ++ u' → length (x ∷ c) ≤ n → Reads a n u (true, x ∷ c)

arrived-Reads :
    (k n : ℕ) (u c u' : List ℕ)
    → u ≡ c ++ u'
    → length c ≡ min (min k n) (length u)
    → Reads (arrived k) n u (read_data_socket (some_bytes c))
unfolding read_data_socket
arrived-Reads k n u [] u' e h =
    none_read true (λ a room. (no_bytes u (omega (arith, a.0, room, h)), refl))
arrived-Reads k n u (x ∷ c) u' e h = some_read x c u' e (omega (arith, h))

recv-Reads : (a : Arrival) (n : ℕ) (u : List ℕ) → Reads a n u (read_data_socket (recv a n u))
unfolding recv read_data_socket
recv-Reads (arrived k) zero u = none_read false (λ a room. absurd (omega (arith, room)))
recv-Reads (arrived k) (suc n) u =
    arrived-Reads k (suc n) u (take (min k (suc n)) u) (drop (min k (suc n)) u)
      (sym (take-append-drop (min k (suc n)) u)) (length-take (min k (suc n)) u)
recv-Reads closed n u = none_read false (λ a room. absurd a)
recv-Reads broken n u = none_read false (λ a room. absurd a)

-- A turn hands over the messages that are whole by then.
pub record Turn {S : Type 0} (Ready : List (List ℕ) → List ℕ → S → Type 0) (ms : List (List ℕ))
    (u : List ℕ) (t : Ending (List (List ℕ) × S)) : Type 0 where
  pub sent : List (List ℕ)
  pub later : List (List ℕ)
  pub next : S
  pub ends : t ≡ done (sent, next)
  pub all_of : ms ≡ sent ++ later
  pub ready : Ready later u next

-- What a socket keeps between two calls: `Ready ms u s` says that the messages `ms` are not handed over,
-- and that their last bytes `u` are not received.
pub record ReceiverLaws (r : Receiver) : Type 1 where
  pub Ready : List (List ℕ) → List ℕ → r.Socket → Type 0
  pub some_room : (ms : List (List ℕ)) (u : List ℕ) (s : r.Socket) → Ready ms u s → 0 < r.room s
  pub turn :
      (ms : List (List ℕ)) (c u : List ℕ) (s : r.Socket)
      → Ready ms (c ++ u) s
      → length c ≤ r.room s
      → Turn Ready ms u (r.take_bytes s c)
  pub none_later :
      (ms : List (List ℕ)) (u : List ℕ) (s : r.Socket) → Ready ms u s → u ≡ [] → ms ≡ []

module _ (r : Receiver) (l : ReceiverLaws r) where
  -- The messages handed over and those that are still to come, by then.
  pub record Delivers (calls : List Arrival) (ms : List (List ℕ)) (u : List ℕ)
      (e : Ending (Outcome r.Socket)) : Type 0 where
    pub outcome : Outcome r.Socket
    pub later : List (List ℕ)
    pub ends : e ≡ done outcome
    pub all_of : ms ≡ outcome.messages ++ later
    pub ready : l.Ready later outcome.pending outcome.socket
    pub drained :
        AllArrive calls → length u ≤ length calls → (outcome.pending ≡ []) × (outcome.answer ≡ true)

  stop-Delivers :
      (b : Bool) (calls : List Arrival) (ms : List (List ℕ)) (u : List ℕ) (s : r.Socket)
      → l.Ready ms u s
      → (AllArrive calls → length u ≤ length calls → (u ≡ []) × (b ≡ true))
      → Delivers calls ms u (stop_with b u s)
  stop-Delivers b calls ms u s r d = record {
    outcome = record { answer = b; messages = []; pending = u; socket = s };
    later = ms;
    ends = refl;
    all_of = refl;
    ready = r;
    drained = d;
  }

  abbrev add_messages : List (List ℕ) → Outcome r.Socket → Outcome r.Socket
  add_messages ms o = record o { messages = ms ++ o.messages }

  turn-Delivers :
      (a : Arrival) (calls : List Arrival) (ms : List (List ℕ)) (u v : List ℕ)
      (t : Ending (List (List ℕ) × r.Socket)) (go : r.Socket → Ending (Outcome r.Socket))
      → length v < length u
      → Turn l.Ready ms v t
      → ((ms' : List (List ℕ)) (s' : r.Socket) → l.Ready ms' v s' → Delivers calls ms' v (go s'))
      → Delivers (a ∷ calls) ms u (and_then t (then_go go))
  turn-Delivers a calls ms u v t go less turn rest =
      let d = rest turn.later turn.next turn.ready in
      record {
        outcome = add_messages turn.sent d.outcome;
        later = d.later;
        ends =
            ap (λ t. and_then t (then_go go)) turn.ends
            ∙ ap (λ r. and_then r (λ o. done (add_messages turn.sent o))) d.ends;
        all_of =
            turn.all_of
            ∙ (ap (λ xs. turn.sent ++ xs) d.all_of
                ∙ sym (append_assoc turn.sent d.outcome.messages d.later));
        ready = d.ready;
        drained = λ all enough. d.drained (others a all) (omega (arith, less, enough));
      }
    where
      others : (a : Arrival) → AllArrive (a ∷ calls) → AllArrive calls
      others (arrived k) all = all.1
      others closed all = absurd all
      others broken all = absurd all

  after_read-Delivers :
      (a : Arrival) (calls : List Arrival) (ms : List (List ℕ)) (u : List ℕ) (s : r.Socket)
      (e : Bool × List ℕ) (go : List ℕ → r.Socket → Ending (Outcome r.Socket))
      → Reads a (r.room s) u e
      → l.Ready ms u s
      → ((ms' : List (List ℕ)) (u' : List ℕ) (s' : r.Socket)
          → l.Ready ms' u' s'
          → Delivers calls ms' u' (go u' s'))
      → Delivers (a ∷ calls) ms u (after_read r go u s e)
  after_read-Delivers a calls ms u s _ go (none_read b d) ready rest = nothing b d
    where
      first : (a : Arrival) → AllArrive (a ∷ calls) → AllArrive (a ∷ [])
      first (arrived k) all = (all.0, tt)
      first closed all = absurd all
      first broken all = absurd all

      nothing :
          (b : Bool)
          → (AllArrive (a ∷ []) → 0 < (r.room s) → (u ≡ []) × (b ≡ true))
          → Delivers (a ∷ calls) ms u (after_read r go u s (b, []))
      nothing false d =
          stop-Delivers false (a ∷ calls) ms u s ready
            (λ all e. d (first a all) (l.some_room ms u s ready))
      nothing true d =
          stop-Delivers true (a ∷ calls) ms u s ready
            (λ all e. d (first a all) (l.some_room ms u s ready))
  after_read-Delivers a calls ms u s _ go (some_read x c u' e h) ready rest =
      turn-Delivers a calls ms u (drop (length (x ∷ c)) u) (r.take_bytes s (x ∷ c))
        (go (drop (length (x ∷ c)) u))
        (omega (arith, length-drop (length (x ∷ c)) u, ap length e, length-append (x ∷ c) u'))
        (l.turn ms (x ∷ c) (drop (length (x ∷ c)) u) s
          (subst (λ v. l.Ready ms v s) (e ∙ ap (λ v. (x ∷ c) ++ v) behind) ready) h)
        (λ ms' s' r'. rest ms' (drop (length (x ∷ c)) u) s' r')
    where
      behind : u' ≡ drop (length (x ∷ c)) u
      behind = sym (ap (drop (length (x ∷ c))) e ∙ drop-append (length (x ∷ c)) (x ∷ c) u' refl)

  pub receive-Delivers :
      (calls : List Arrival) (ms : List (List ℕ)) (u : List ℕ) (s : r.Socket)
      → l.Ready ms u s
      → Delivers calls ms u (receive r calls u s)
  unfolding receive
  receive-Delivers [] ms u s ready =
      stop-Delivers true [] ms u s ready (λ all enough. (no_bytes u (omega (arith, enough)), refl))
  receive-Delivers (a ∷ calls) ms u s ready =
      after_read-Delivers a calls ms u s _ (receive r calls) (recv-Reads a (r.room s) u) ready
        (λ ms' u' s' r'. receive-Delivers calls ms' u' s' r')

  all_out :
      (calls : List Arrival) (ms : List (List ℕ)) (u : List ℕ) (e : Ending (Outcome r.Socket))
      (d : Delivers calls ms u e)
      → d.outcome.pending ≡ []
      → d.outcome.messages ≡ ms
  all_out calls ms u _ d e = sym (
      d.all_of
      ∙ (ap (λ xs. d.outcome.messages ++ xs)
            (l.none_later d.later d.outcome.pending d.outcome.socket d.ready e)
          ∙ append-nil d.outcome.messages))

  -- From a socket that is ready: the messages that are handed over, in their order, and all of them once no byte
  -- is pending.
  pub delivered :
      (ms : List (List ℕ)) (u : List ℕ) (s : r.Socket) (calls : List Arrival)
      → l.Ready ms u s
      → (o : Outcome r.Socket) × (receive r calls u s ≡ done o)
        × ((later : List (List ℕ)) × (ms ≡ o.messages ++ later))
        × (o.pending ≡ [] → o.messages ≡ ms)
  delivered ms u s calls ready =
      let d = receive-Delivers calls ms u s ready in
      (d.outcome, d.ends, (d.later, d.all_of), all_out calls ms u _ d)

  -- Where each call finds a byte, all are handed over after as many calls as there are bytes.
  pub delivered_in_time :
      (ms : List (List ℕ)) (u : List ℕ) (s : r.Socket) (calls : List Arrival)
      → l.Ready ms u s
      → AllArrive calls
      → length u ≤ length calls
      → (s' : r.Socket) × (receive r calls u s
          ≡ done (record { answer = true; messages = ms; pending = []; socket = s' }))
  delivered_in_time ms u s calls ready all enough =
      let d = receive-Delivers calls ms u s ready in
      let (none, success) = d.drained all enough in
      let same = all_out calls ms u _ d none in
      (
        d.outcome.socket,
        d.ends ∙ (λ i. done (record {
          answer = success i;
          messages = same i;
          pending = none i;
          socket = d.outcome.socket;
        })),
      )
