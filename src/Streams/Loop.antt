-- ===== src/Streams/Loop.antt =====
-- `Receive` of DataSocket.h and DataSocketV.h: the loop that reads until a call would block.
use lu.Base.{ℕ, Bool, true, false, List, [], ◌∷◌, ◌++◌, length, drop}
use lu.Streams.Receiving.{Arrival, recv, read_data_socket, Ending, done, and_then}

-- What differs between the sockets: the number of bytes that the next call asks for, and a turn of the
-- loop after some bytes were read, with the messages that are handed to `onData`.
pub record Receiver : Type 1 where
  pub Socket : Type 0
  pub room : Socket → ℕ
  pub take_bytes : Socket → List ℕ → Ending (List (List ℕ) × Socket)

-- How `Receive` ends: its answer, the messages handed to `onData`, the bytes that the peer has sent
-- and that were not received, and the socket.
pub record Outcome (A : Type 0) : Type 0 where
  pub answer : Bool
  pub messages : List (List ℕ)
  pub pending : List ℕ
  pub socket : A

abbrev pub stop_with : {A : Type 0} → Bool → List ℕ → A → Ending (Outcome A)
stop_with b u s = done (record { answer = b; messages = []; pending = u; socket = s })

-- The next turns, and the messages of this one put before theirs.
abbrev pub then_go :
    {A : Type 0} → (A → Ending (Outcome A)) → List (List ℕ) × A → Ending (Outcome A)
then_go go t = and_then (go t.1) (λ o. done (record o { messages = t.0 ++ o.messages }))

module _ (r : Receiver) where
  -- The loop after a read: `go` is the next turn.
  abbrev pub after_read :
      (List ℕ → r.Socket → Ending (Outcome r.Socket))
      → List ℕ
      → r.Socket
      → Bool × List ℕ
      → Ending (Outcome r.Socket)
  after_read go u s (false, c) = stop_with false u s
  after_read go u s (true, []) = stop_with true u s
  after_read go u s (true, b ∷ c) =
      and_then (r.take_bytes s (b ∷ c)) (then_go (go (drop (length (b ∷ c)) u)))

  -- `Receive`, on what happens at each call of `recv`; after the last of these a call would block.
  unfoldable pub receive : List Arrival → List ℕ → r.Socket → Ending (Outcome r.Socket)
  receive [] u s = stop_with true u s
  receive (a ∷ later) u s = after_read (receive later) u s (read_data_socket (recv a (r.room s) u))
