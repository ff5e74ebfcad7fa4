-- ===== src/Streams/SendFile.antt =====
-- src/platform/socket/BaseSocket.cpp, `sendfile`: a file that is sent in several calls. The system
-- moves the offset past what it sent, and never sends past the end of the file.
use lu.Base.{
  ℕ, ◌+◌, ◌-◌, ◌≤◌, min, ◌≡◌, not, List, [], ◌∷◌, length, take, slice, ltb, ◌==◌, if◌then◌else◌,
  arith,
}
use lu.Streams.BaseSocket.{
  Errno, again, interrupted, other, SendCall, took, fails, returned, sending, count, Sent, goes_on,
  after_failure, put_before,
}
use lu.Streams.SendBytes.{Sends, Sends-prefix, stop-Sends, put-Sends, if-Sends}

-- What a call sends: no more than it is asked for, and no more than the file has after the offset.
abbrev pub portion : List ℕ → ℕ → ℕ → ℕ → ℕ
portion file offset k size = min k (min size (length file - offset))

-- The loop, from its condition on. `first` is what the call before the loop sent.
unfoldable pub file_loop : List SendCall → Errno → List ℕ → ℕ → ℕ → ℕ → ℕ → Sent
file_loop [] errno file first offset total size =
    if ltb total size then (sending total, []) else (returned first, [])
file_loop (fails e ∷ calls) errno file first offset total size =
    let rest = file_loop calls e file first offset total size in
    if ltb total size then after_failure e total rest else (returned first, [])
file_loop (took k ∷ calls) errno file first offset total size =
    let n = portion file offset k size in
    let whole = file_loop calls errno file first (offset + n) (total + n) size in
    let part = file_loop calls errno file first (offset + n) (total + n) (size - n) in
    if not (ltb total size)
    then (returned first, [])
    else put_before (slice file offset n)
        (if n == size then whole else if goes_on errno then part else (returned total, []))

-- `sendfile` of `size` bytes: a call before the loop, which the loop does not count.
unfoldable pub sendfile : Errno → List SendCall → List ℕ → ℕ → Sent
sendfile errno [] file size = (sending 0, [])
sendfile errno (fails e ∷ calls) file size = (returned 0, [])
sendfile errno (took k ∷ calls) file size =
    let n = portion file 0 k size in
    put_before (slice file 0 n) (file_loop calls errno file n n 0 size)

file_loop-Sends :
    (calls : List SendCall) (errno : Errno) (file : List ℕ) (first offset total size : ℕ)
    → first ≤ offset
    → total ≤ offset
    → offset ≤ length file
    → Sends file offset (file_loop calls errno file first offset total size)
unfolding file_loop
file_loop-Sends [] errno file first offset total size f t h =
    if-Sends (ltb total size) _ _ (stop-Sends file offset (sending total) t h)
      (stop-Sends file offset (returned first) f h)
file_loop-Sends (fails again ∷ calls) errno file first offset total size f t h =
    if-Sends (ltb total size) _ _ (file_loop-Sends calls again file first offset total size f t h)
      (stop-Sends file offset (returned first) f h)
file_loop-Sends (fails interrupted ∷ calls) errno file first offset total size f t h =
    if-Sends (ltb total size) _ _ (stop-Sends file offset (returned total) t h)
      (stop-Sends file offset (returned first) f h)
file_loop-Sends (fails other ∷ calls) errno file first offset total size f t h =
    if-Sends (ltb total size) _ _ (stop-Sends file offset (returned total) t h)
      (stop-Sends file offset (returned first) f h)
file_loop-Sends (took k ∷ calls) errno file first offset total size f t h =
    let n = portion file offset k size in
    let room : offset + n ≤ length file = omega (arith, h) in
    let further : first ≤ offset + n = omega (arith, f) in
    let more : total + n ≤ offset + n = omega (arith, t) in
    if-Sends (not (ltb total size)) _ _ (stop-Sends file offset (returned first) f h) (
      put-Sends file offset n _ room (
        if-Sends (n == size) _ _
          (file_loop-Sends calls errno file first (offset + n) (total + n) size further more room)
          (if-Sends (goes_on errno) _ _
            (file_loop-Sends calls errno file first (offset + n) (total + n) (size - n) further more
              room)
            (stop-Sends file (offset + n) (returned total) (omega (arith, t)) room))))

-- Whatever the calls of `::sendfile` do, the bytes sent are the first ones of the file, in order
-- and each once, and the answer is at most their number.
pub sendfile-prefix :
    (errno : Errno) (calls : List SendCall) (file : List ℕ) (size : ℕ)
    → (let s = sendfile errno calls file size in
        (s.1 ≡ take (length s.1) file) × (count s.0 ≤ length s.1) × (length s.1 ≤ length file))
unfolding sendfile
sendfile-prefix errno calls file size = Sends-prefix file _ (sends calls)
  where
    sends : (calls : List SendCall) → Sends file 0 (sendfile errno calls file size)
    sends [] = stop-Sends file 0 (sending 0) (omega arith) (omega arith)
    sends (fails e ∷ calls) = stop-Sends file 0 (returned 0) (omega arith) (omega arith)
    sends (took k ∷ calls) =
        let n = portion file 0 k size in
        let start : 0 + n ≡ n = omega arith in
        put-Sends file 0 n (file_loop calls errno file n n 0 size) (omega arith) (
          rw start
            (file_loop-Sends calls errno file n n 0 size (omega arith) (omega arith) (omega arith)))
