-- ===== src/Web/Returns.antt =====
-- The fuel of the loop of `processHandshake`.
use lu.Base.{
  ℕ, zero, suc, ◌+◌, ◌-◌, ◌<◌, ◌≢◌, refl, Bool, true, false, List, [], ◌∷◌, Option, none, some,
  length, drop, slice, ◌==◌, le→leb, not_leb, dec_le, if◌then◌else◌, arith,
}
use lu.Text.Bytes.{plus, find}
use lu.Handshake.Types.{Answer, answers, throws, overruns, spins, then_answer, crlf}
use lu.Handshake.Opening.{supported_versions}
use lu.Handshake.Termination.{get_response-returns}
use lu.Web.Socket.{
  WebSocket, Turned, protocol, resource, reply, wait_for_more, end_of_header, scan_at, scan,
  process_handshake,
}

reply-returns : (s : WebSocket) (t : List ℕ) → reply s t ≢ spins
reply-returns s [] h = cc
reply-returns s (b ∷ t) h = cc

then_reply-returns :
    (s : WebSocket) (a : Answer (List ℕ)) → a ≢ spins → then_answer a (reply s) ≢ spins
then_reply-returns s (answers t) h e = reply-returns s t e
then_reply-returns s throws h e = cc
then_reply-returns s overruns h e = cc
then_reply-returns s spins h e = h refl

if-returns : (b : Bool) (x y : Turned) → x ≢ spins → y ≢ spins → (if b then x else y) ≢ spins
if-returns true x y p q = p
if-returns false x y p q = q

wait-returns : (s : WebSocket) → wait_for_more s ≢ spins
wait-returns s = if-returns (s.left_to_recv == 0) _ _ (λ e. cc) (λ e. cc)

-- At each turn the line end is behind the header offset.
module _ (get_base64_hash : List ℕ → List ℕ) (below : List ℕ → Option Bool) where
  header-returns : (s : WebSocket) → end_of_header get_base64_hash below s ≢ spins
  header-returns s = then_reply-returns s _ (
      get_response-returns get_base64_hash protocol supported_versions below resource
        (slice s.memory 0 s.header_offset))

  scan_at-returns :
      (go : WebSocket → Turned) (s : WebSocket) (o : Option ℕ)
      → ((k : ℕ) → go (record s { header_offset = s.header_offset + k + 2 }) ≢ spins)
      → scan_at get_base64_hash below go s (plus s.header_offset o) ≢ spins
  scan_at-returns go s none h = wait-returns s
  scan_at-returns go s (some k) h =
      if-returns (s.header_offset + k == s.header_offset) _ _ (header-returns _) (h k)

  scan-returns :
      (n : ℕ) (view : List ℕ) (s : WebSocket)
      → 0 < n
      → length view + 1 < n + s.header_offset
      → scan get_base64_hash below n view s ≢ spins
  unfolding scan
  scan-returns zero view s some_fuel h = absurd (omega (arith, some_fuel))
  scan-returns (suc n) view s some_fuel h = elim (dec_le s.header_offset (length view)) [
    | yes inside ↦ rw (le→leb s.header_offset (length view) inside) (
        scan_at-returns (scan get_base64_hash below n view) s
          (find crlf (drop s.header_offset view))
          (λ k.
            scan-returns n view (record s { header_offset = s.header_offset + k + 2 })
              (omega (arith, h, inside)) (omega (arith, h))))
    | no past ↦ rw (not_leb s.header_offset (length view) (omega (arith, past))) (wait-returns s)
  ]

  -- `processHandshake` comes to an end in every state of the socket.
  pub process_handshake-returns :
      (s : WebSocket) → process_handshake get_base64_hash below s ≢ spins
  unfolding process_handshake
  process_handshake-returns s =
      let view = slice s.memory s.header_offset (s.left_to_read - s.header_offset) in
      scan-returns (length view + 2) view s (omega arith) (omega arith)
