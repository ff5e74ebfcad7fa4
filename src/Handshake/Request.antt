-- ===== src/Handshake/Request.antt =====
-- src/platform/socket/websocket/HandshakeRequest.cpp: a request is made by the client and answered by the server.
use lu.Base.{
  ℕ, zero, suc, ◌+◌, Bool, true, not, ◌||◌, List, [], ◌∷◌, ◌++◌, Option, none, some, length,
  if◌then◌else◌,
}
use lu.Text.Bytes.{codes, text_eq, to_lower}
use lu.Text.Numbers.{ℤ, is_zero}
use lu.Text.Parser.{
  TextParser, Parsed, ok, missing, no_number, then_parse, new_parser, string_parser, next_line,
  next, next_int, next_float,
}
use lu.Handshake.Types.{
  Keys, InitialRequestInfo, Answer, answers, throws, spins, then_answer, crlf, find_key,
}
use lu.Handshake.Lines.{read_lines}
use lu.Handshake.Response.{handshake_response, is_empty}

-- `createHandShakeRequest`: the lines that are left out where there is nothing to say.
abbrev pub optional : List ℕ → List ℕ → Keys
optional k [] = []
optional k (c ∷ v) = (k, c ∷ v) ∷ []

abbrev pub upgrade_of : List ℕ → List ℕ
upgrade_of [] = codes "websocket"
upgrade_of (c ∷ v) = c ∷ v

abbrev pub more_protocols : List (List ℕ) → List ℕ
more_protocols [] = []
more_protocols (p ∷ ps) = codes ", " ++ (p ++ more_protocols ps)

abbrev pub protocol_line : List (List ℕ) → Keys
protocol_line [] = []
protocol_line (p ∷ ps) = (codes "Sec-WebSocket-Protocol", p ++ more_protocols ps) ∷ []

abbrev pub header_lines : Keys → List ℕ
header_lines [] = []
header_lines ((k, v) ∷ keys) = k ++ (codes ": " ++ (v ++ (crlf ++ header_lines keys)))

abbrev pub request_headers : InitialRequestInfo → List ℕ → Keys
request_headers info key =
    (codes "Host", info.host)
    ∷ (codes "Upgrade", upgrade_of info.upgrade)
    ∷ (codes "Connection", codes "Upgrade")
    ∷ (codes "Sec-WebSocket-Key", key)
    ∷ (optional (codes "Origin") info.origin
        ++ ((codes "Sec-WebSocket-Version", info.ws_version)
            ∷ (optional (codes "Sec-WebSocket-Extensions") info.extensions
                ++ (protocol_line info.protocols ++ info.headers))))

unfoldable pub create_handshake_request : InitialRequestInfo → List ℕ → List ℕ
create_handshake_request info key =
    codes "GET "
    ++ (info.resource_name
        ++ (codes " HTTP/1.1" ++ (crlf ++ (header_lines (request_headers info key) ++ crlf))))

-- The first line. `below` says of a text whether `std::stof` of it is less than 1.1F, and nothing where it throws.
abbrev pub accepted_line :
    List ℕ → List ℕ → Parsed (List ℕ × List ℕ × Bool) → Option (List ℕ × List ℕ)
accepted_line resource line (missing i n) = none
accepted_line resource line (no_number t i n) = none
accepted_line resource line (ok (verb, asked, old)) =
    if not (text_eq verb (codes "GET")) || (not (text_eq asked resource) || old)
    then none
    else some (codes "request-method", line)

abbrev pub http_version : (List ℕ → Option Bool) → List ℕ → Parsed Bool
http_version below http_protocol =
    then_parse (next (string_parser http_protocol (codes "/") 1))
      (λ p. then_parse (next_float below true p.1) (λ v. ok v.0))

unfoldable pub request_line : (List ℕ → Option Bool) → List ℕ → List ℕ → Option (List ℕ × List ℕ)
request_line below resource line = accepted_line resource line (
    then_parse (next (new_parser line (codes " ") 1)) (λ verb. then_parse (next verb.1) (λ asked.
      then_parse (next asked.1) (λ http_protocol.
        then_parse (http_version below http_protocol.0) (λ old. ok (verb.0, asked.0, old))))))

-- The items up to an empty one, or to the end of the line. The fuel is a turn for each byte, and two more.
abbrev pub before_rest : {A : Type 0} → A → Answer (List A) → Answer (List A)
before_rest v rest = then_answer rest (λ vs. answers (v ∷ vs))

abbrev pub item_or_end :
    (TextParser → Answer (List (List ℕ))) → Parsed (List ℕ × TextParser) → Answer (List (List ℕ))
item_or_end go (missing i n) = answers []
item_or_end go (no_number t i n) = answers []
item_or_end go (ok ([], p)) = answers []
item_or_end go (ok (c ∷ value, p)) = before_rest (c ∷ value) (go p)

unfoldable pub read_protocols : ℕ → TextParser → Answer (List (List ℕ))
read_protocols zero p = spins
read_protocols (suc n) p = item_or_end (read_protocols n) (next p)

abbrev pub version_or_end :
    (TextParser → Answer (List ℤ)) → Parsed (ℤ × TextParser) → Answer (List ℤ)
version_or_end go (missing i n) = answers []
version_or_end go (no_number t i n) = answers []
version_or_end go (ok (version, p)) =
    let rest = before_rest version (go p) in if is_zero version then answers [] else rest

unfoldable pub read_versions : ℕ → TextParser → Answer (List ℤ)
read_versions zero p = spins
read_versions (suc n) p = version_or_end (read_versions n) (next_int p)

-- The first call of `next` stands outside the `try`.
abbrev pub or_throw : {A B : Type 0} → Parsed A → Answer B → Answer B
or_throw (ok a) b = b
or_throw (missing i n) b = throws
or_throw (no_number t i n) b = throws

abbrev pub protocols_parser : List ℕ → TextParser
protocols_parser protocols = string_parser protocols (codes ", ") 1

abbrev pub all_protocols : List ℕ → Answer (List (List ℕ))
all_protocols protocols =
    or_throw (next (protocols_parser protocols))
      (read_protocols (length protocols + 2) (protocols_parser protocols))

abbrev pub all_versions : List ℕ → List ℕ → Answer (List ℤ)
all_versions protocols versions =
    or_throw (next_int (next_line (protocols_parser protocols) versions))
      (read_versions (length versions + 2) (next_line (protocols_parser protocols) versions))

-- A key that is missing refuses the request.
abbrev pub with_key : Option (List ℕ) → (List ℕ → Answer (List ℕ)) → Answer (List ℕ)
with_key none f = answers []
with_key (some v) f = f v

module _ (get_base64_hash : List ℕ → List ℕ) (supported_protocol : List ℕ)
    (supported_versions : List ℤ) where
  abbrev pub responded : List ℕ → List ℕ → List (List ℕ) → List ℤ → Answer (List ℕ)
  responded upgrade key ps vs =
      if is_empty ps
      then answers []
      else answers (
          handshake_response get_base64_hash
            (record { protocols = ps; websocket_versions = vs; key = key; upgrade = upgrade })
            supported_versions supported_protocol)

  -- From `Sec-WebSocket-Version` on.
  abbrev pub versioned : List ℕ → List ℕ → List ℕ → List (List ℕ) → List ℕ → Answer (List ℕ)
  versioned upgrade key protocols ps versions =
      then_answer (all_versions protocols versions) (responded upgrade key ps)

  -- From `Sec-WebSocket-Protocol` on.
  abbrev pub offered : Keys → List ℕ → List ℕ → List ℕ → Answer (List ℕ)
  offered keys upgrade key protocols =
      if is_empty protocols
      then answers []
      else then_answer (all_protocols protocols) (λ ps.
        with_key (find_key (codes "sec-websocket-version") keys)
          (versioned upgrade key protocols ps))

  -- From `Upgrade` on.
  abbrev pub upgraded : Keys → List ℕ → Answer (List ℕ)
  upgraded keys upgrade =
      if text_eq upgrade (codes "tcp")
      then answers (
          handshake_response get_base64_hash
            (record { protocols = []; websocket_versions = []; key = []; upgrade = upgrade })
            supported_versions supported_protocol)
      else if not (text_eq upgrade (codes "websocket"))
      then answers []
      else with_key (find_key (codes "sec-websocket-key") keys) (λ key.
        with_key (find_key (codes "connection") keys) (λ connection.
          if not (text_eq (to_lower connection) (codes "upgrade"))
          then answers []
          else with_key (find_key (codes "sec-websocket-protocol") keys)
              (offered keys upgrade key)))

  abbrev pub answer_keys : Option Keys → Answer (List ℕ)
  answer_keys none = answers []
  answer_keys (some keys) = with_key (find_key (codes "upgrade") keys) (upgraded keys)

  -- `getResponse`, empty where the request is refused.
  unfoldable pub get_response : (List ℕ → Option Bool) → List ℕ → List ℕ → Answer (List ℕ)
  get_response below resource text =
      then_answer (read_lines (request_line below resource) (length text + 1) text []) answer_keys
