-- ===== src/Streams/BaseSocket.antt =====
-- src/platform/socket/BaseSocket.cpp, `send`: a buffer that is written in several calls.
use lu.Base.{
  ℕ, ◌+◌, ◌-◌, min, Bool, true, false, not, List, [], ◌∷◌, ◌++◌, slice, ltb, ◌==◌, if◌then◌else◌,
}

-- The values of `errno` that the code tells apart: EAGAIN and EWOULDBLOCK, EINTR and ENOBUFS, others.
pub data Errno : Type 0 where
  again interrupted other : Errno

-- What `::send` does: it takes up to a number of bytes and leaves `errno` alone, or fails with an error.
pub data SendCall : Type 0 where
  took : ℕ → SendCall
  fails : Errno → SendCall

-- The answer of `send`, or what was sent while it still tries.
pub data SendEnd : Type 0 where
  returned sending : ℕ → SendEnd

abbrev pub count : SendEnd → ℕ
count (returned n) = n
count (sending n) = n

-- The end of the call, and the bytes that went to the peer.
abbrev pub Sent : Type 0
Sent = SendEnd × List ℕ

abbrev pub goes_on : Errno → Bool
goes_on again = true
goes_on interrupted = true
goes_on other = false

abbrev pub after_failure : Errno → ℕ → Sent → Sent
after_failure again total rest = rest
after_failure interrupted total rest = (returned total, [])
after_failure other total rest = (returned total, [])

abbrev pub put_before : List ℕ → Sent → Sent
put_before bytes s = (s.0, bytes ++ s.1)

-- The loop, from its condition on. `size` shrinks where a call takes a part.
unfoldable pub send_loop : List SendCall → Errno → List ℕ → ℕ → ℕ → Sent
send_loop [] errno buffer total size =
    if ltb total size then (sending total, []) else (returned total, [])
send_loop (fails e ∷ calls) errno buffer total size =
    let rest = send_loop calls e buffer total size in
    if ltb total size then after_failure e total rest else (returned total, [])
send_loop (took k ∷ calls) errno buffer total size =
    let n = min k size in
    let whole = send_loop calls errno buffer (total + n) size in
    let part = send_loop calls errno buffer (total + n) (size - n) in
    if not (ltb total size)
    then (returned total, [])
    else put_before (slice buffer total n)
        (if n == size then whole else if goes_on errno then part else (returned total, []))

-- `send` of `size` bytes, on what the calls do; `is_open` is that the descriptor is not null.
unfoldable pub send : Bool → Errno → List SendCall → List ℕ → ℕ → Sent
send is_open errno calls buffer size =
    if is_open then send_loop calls errno buffer 0 size else (returned 0, [])
