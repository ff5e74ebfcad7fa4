-- ===== src/Handshake/Client.antt =====
-- src/platform/socket/websocket/HandshakeSeverResponse.cpp: the client reads the server's response.
use lu.Base.{
  ℕ, ◌+◌, Bool, true, false, not, ◌||◌, List, [], ◌∷◌, Option, none, some, length, ◌==◌,
  if◌then◌else◌,
}
use lu.Text.Bytes.{codes, text_eq, to_lower}
use lu.Text.Numbers.{ℤ, pos, negsuc}
use lu.Text.Parser.{Parsed, ok, missing, no_number, then_parse, new_parser, next, next_int}
use lu.Handshake.Types.{Keys, Answer, answers, then_answer, find_key}
use lu.Handshake.Lines.{read_lines}
use lu.Handshake.Response.{get_accept_key}
use lu.Handshake.Request.{http_version, protocols_parser, or_throw}

abbrev pub is_switching : ℤ → Bool
is_switching (pos n) = n == 101
is_switching (negsuc n) = false

abbrev pub accepted_status : Parsed (ℤ × Bool) → Option (List ℕ × List ℕ)
accepted_status (missing i n) = none
accepted_status (no_number t i n) = none
accepted_status (ok (status_code, old)) =
    if old || not (is_switching status_code)
    then none
    else some (codes "ServerResponse", codes "101")

unfoldable pub status_line : (List ℕ → Option Bool) → List ℕ → Option (List ℕ × List ℕ)
status_line below line = accepted_status (
    then_parse (next (new_parser line (codes " ") 1)) (λ http_protocol.
      then_parse (next_int http_protocol.1) (λ status_code.
        then_parse (http_version below http_protocol.0) (λ old. ok (status_code.0, old)))))

-- A key that is missing refuses the response.
abbrev pub with_value : Option (List ℕ) → (List ℕ → Answer Bool) → Answer Bool
with_value none f = answers false
with_value (some v) f = f v

-- The protocols are read, and not looked at; only the first call of `next` can throw.
abbrev pub skip_protocols : Option (List ℕ) → Answer Bool
skip_protocols none = answers true
skip_protocols (some []) = answers true
skip_protocols (some (c ∷ text)) = or_throw (next (protocols_parser (c ∷ text))) (answers true)

module _ (get_base64_hash : List ℕ → List ℕ) (key : List ℕ) where
  abbrev pub checked_accept : Keys → Answer Bool
  checked_accept keys =
      then_answer (skip_protocols (find_key (codes "sec-websocket-protocol") keys)) (λ b.
        with_value (find_key (codes "sec-websocket-accept") keys)
          (λ accept. answers (text_eq accept (get_accept_key get_base64_hash key))))

  abbrev pub checked_upgrade : Keys → List ℕ → Answer Bool
  checked_upgrade keys upgrade =
      if text_eq upgrade (codes "tcp")
      then answers true
      else if not (text_eq upgrade (codes "websocket"))
      then answers false
      else with_value (find_key (codes "connection") keys) (λ connection.
        if not (text_eq (to_lower connection) (codes "upgrade"))
        then answers false
        else checked_accept keys)

  abbrev pub check_keys : Option Keys → Answer Bool
  check_keys none = answers false
  check_keys (some keys) = with_value (find_key (codes "upgrade") keys) (checked_upgrade keys)

  unfoldable pub read_server_response : (List ℕ → Option Bool) → List ℕ → Answer Bool
  read_server_response below text =
      then_answer (read_lines (status_line below) (length text + 1) text []) check_keys
