-- ===== src/Streams/Receiving.antt =====
-- src/utils/Utils.cpp, `readDataSocket` and `readDataFile`: what one system call gives.
use lu.Base.{ℕ, Bool, true, false, List, [], ◌∷◌, min, take, zero, suc}

-- What `recv`, `readv` or `read` returns: some bytes, none at the end of the stream, or -1 with
-- EAGAIN or EWOULDBLOCK, or with another error.
pub data Received : Type 0 where
  bytes : List ℕ → Received
  would_block failed : Received

-- The answer and the bytes read. 0 bytes are the end of the stream, which is no success.
-- That `readv` aborts the program at EOPNOTSUPP is left out.
unfoldable pub read_data_socket : Received → Bool × List ℕ
read_data_socket (bytes []) = (false, [])
read_data_socket (bytes (b ∷ bs)) = (true, b ∷ bs)
read_data_socket would_block = (true, [])
read_data_socket failed = (false, [])

-- What happens at a call of `recv`: up to a number of the bytes that the peer has sent have arrived, or
-- the peer has closed, or the socket fails.
pub data Arrival : Type 0 where
  arrived : ℕ → Arrival
  closed broken : Arrival

abbrev pub some_bytes : List ℕ → Received
some_bytes [] = would_block
some_bytes (b ∷ bs) = bytes (b ∷ bs)

-- A call that takes at most `size` bytes of those that are pending; one for 0 bytes returns 0.
unfoldable pub recv : Arrival → ℕ → List ℕ → Received
recv (arrived k) zero pending = bytes []
recv (arrived k) (suc n) pending = some_bytes (take (min k (suc n)) pending)
recv closed size pending = bytes []
recv broken size pending = failed

-- How a piece of the code ends: with a result, or it goes round for ever, or it writes past the end of
-- its buffer.
pub data Ending (A : Type 0) : Type 0 where
  done : A → Ending A
  spins overruns : Ending A

abbrev pub and_then : {A B : Type 0} → Ending A → (A → Ending B) → Ending B
and_then (done a) f = f a
and_then spins f = spins
and_then overruns f = overruns
