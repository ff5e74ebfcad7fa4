-- ===== src/Streams/Messages.antt =====
-- `readMessages` of DataSocket.h and DataSocketV.h: whole messages are cut from the bytes received.
use lu.Base.{ℕ, zero, suc, ◌+◌, ◌-◌, ◌≡◌, List, [], ◌∷◌, Option, none, some, leb, if◌then◌else◌}
use lu.Streams.Receiving.{Ending, done, spins, overruns}

-- What a data handler gives: the size of its buffer and of a header, the size that a header at an
-- offset tells, and the message of a size at an offset, or none where the copy of it is written past
-- the end of the object made for it, which a copy of 0 bytes never is.
pub record DataHandler : Type 1 where
  pub Memory : Type 0
  pub buffer_size : ℕ
  pub header_size : ℕ
  pub read_header : Memory → ℕ → ℕ
  pub read_message : Memory → ℕ → ℕ → Option (List ℕ)
  pub empty_fits :
      (memory : Memory) (offset : ℕ) → (m : List ℕ) × (read_message memory offset 0 ≡ some m)

-- The messages, the read offset and the number of bytes that are left.
pub record Cut : Type 0 where
  pub messages : List (List ℕ)
  pub read_offset : ℕ
  pub left_to_read : ℕ

abbrev pub add_message : List ℕ → Ending Cut → Ending Cut
add_message m (done c) = done (record c { messages = m ∷ c.messages })
add_message m spins = spins
add_message m overruns = overruns

abbrev pub call_on_data : Option (List ℕ) → Ending Cut → Ending Cut
call_on_data none c = overruns
call_on_data (some m) c = add_message m c

-- The loop, with fuel. A message of size 0 is handed over again and again: the loop calls `stop`, and
-- goes on.
unfoldable pub cut_messages : (h : DataHandler) → h.Memory → ℕ → ℕ → ℕ → Ending Cut
cut_messages h memory zero offset left = spins
cut_messages h memory (suc n) offset left =
    let size = h.read_header memory offset in
    let rest = cut_messages h memory n (offset + size) (left - size) in
    if leb h.header_size left
    then (if leb size left then call_on_data (h.read_message memory offset size) rest else stay)
    else stay
  where
    stay : Ending Cut
    stay = done (record { messages = []; read_offset = offset; left_to_read = left })

-- Each message takes a byte at least, unless the loop never ends.
abbrev pub read_messages : (h : DataHandler) → h.Memory → ℕ → ℕ → Ending Cut
read_messages h memory offset left = cut_messages h memory (left + 1) offset left
