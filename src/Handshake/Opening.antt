-- ===== src/Handshake/Opening.antt =====
-- The request of a client as the server reads it: its lines and its keys.
use lu.Base.{
  ℕ, suc, ◌+◌, ◌≤◌, ◌<◌, ◌≡◌, refl, sym, ap, ap₂, ◌∙◌, Bool, false, List, [], ◌∷◌, ◌++◌, All,
  Option, some, append_assoc, length, length-append, arith,
}
use lu.Text.Bytes.{codes, text_eq, to_lower, until_zero}
use lu.Text.Numbers.{ℤ, pos}
use lu.Text.Finding.{Without, Without-append}
use lu.Text.Parser.{cleaned, next}
use lu.Handshake.Types.{Keys, InitialRequestInfo, answers, crlf, find_key}
use lu.Handshake.Lines.{read_lines}
use lu.Handshake.Response.{is_empty}
use lu.Handshake.Request.{
  optional, upgrade_of, header_lines, request_headers, create_handshake_request, request_line,
  read_versions, all_versions,
}
use lu.Handshake.Reading.{IsHeader, lowered, line_first, read_lines-headers}
use lu.Handshake.Protocols.{IsName, offer, offer-one_line, first_line, request_line-accepted}

-- `supportedVersion` of WebSocket.h.
abbrev pub supported_versions : List ℤ
supported_versions = pos 13 ∷ []

-- What a client asks for: a WebSocket of version 13, with some protocols, and no line end in any field.
pub record IsRequest (info : InitialRequestInfo) (key : List ℕ) : Type 0 where
  pub resource_one_line : Without 13 info.resource_name
  pub resource_one_word : Without 32 info.resource_name
  pub resource_clean : cleaned info.resource_name ≡ info.resource_name
  pub host_one_line : Without 13 info.host
  pub websocket : upgrade_of info.upgrade ≡ codes "websocket"
  pub key_one_line : Without 13 key
  pub origin_one_line : Without 13 info.origin
  pub version : info.ws_version ≡ codes "13"
  pub extensions_one_line : Without 13 info.extensions
  pub first_offer : List ℕ
  pub other_offers : List (List ℕ)
  pub offers : info.protocols ≡ first_offer ∷ other_offers
  pub first_name : IsName first_offer
  pub other_names : All IsName other_offers
  pub all_headers : All IsHeader info.headers

optional-headers :
    (k v : List ℕ) (hs : Keys)
    → IsHeader (k, v)
    → All IsHeader hs
    → All IsHeader (optional k v ++ hs)
optional-headers k [] hs h a = a
optional-headers k (c ∷ v) hs h a = (h, a)

find_key-optional :
    (a k v : List ℕ) (hs : Keys)
    → text_eq (to_lower k) a ≡ false
    → find_key a (lowered (optional k v ++ hs)) ≡ find_key a (lowered hs)
find_key-optional a k [] hs h = refl
find_key-optional a k (c ∷ v) hs h = rw h refl

-- The headers, with the fields that the server reads.
abbrev pub headers_with : InitialRequestInfo → List ℕ → List ℕ → Keys
headers_with info key protocols =
    (codes "Host", info.host)
    ∷ (codes "Upgrade", codes "websocket")
    ∷ (codes "Connection", codes "Upgrade")
    ∷ (codes "Sec-WebSocket-Key", key)
    ∷ (optional (codes "Origin") info.origin
        ++ ((codes "Sec-WebSocket-Version", codes "13")
            ∷ (optional (codes "Sec-WebSocket-Extensions") info.extensions
                ++ ((codes "Sec-WebSocket-Protocol", protocols) ∷ info.headers))))

pub headers-are :
    (info : InitialRequestInfo) (key : List ℕ) (r : IsRequest info key)
    → request_headers info key ≡ headers_with info key (offer r.first_offer r.other_offers)
headers-are info key r = rw (r.websocket, r.version, r.offers) refl

module _ (info : InitialRequestInfo) (key protocols : List ℕ) where
  abbrev pub keys : Keys
  keys =
      (codes "request-method", first_line info.resource_name)
      ∷ lowered (headers_with info key protocols)

  pub version_found : find_key (codes "sec-websocket-version") keys ≡ some (codes "13")
  version_found =
      find_key-optional (codes "sec-websocket-version") (codes "Origin") info.origin _ refl

  pub protocol_found : find_key (codes "sec-websocket-protocol") keys ≡ some protocols
  protocol_found =
      find_key-optional (codes "sec-websocket-protocol") (codes "Origin") info.origin _ refl
      ∙ find_key-optional (codes "sec-websocket-protocol") (codes "Sec-WebSocket-Extensions")
          info.extensions _ refl

pub versions-read :
    (protocols : List ℕ) → all_versions protocols (codes "13") ≡ answers (pos 13 ∷ [])
unfolding read_versions next cleaned until_zero
versions-read protocols = refl

pub is_empty-offer : (p : List ℕ) (ps : List (List ℕ)) → IsName p → is_empty (offer p ps) ≡ false
is_empty-offer [] ps i = absurd (omega (arith, i.nonempty))
is_empty-offer (c ∷ p) ps i = refl

pub length-header_lines : (hs : Keys) → length hs ≤ length (header_lines hs)
length-header_lines [] = omega arith
length-header_lines ((k, v) ∷ hs) = omega (
  arith,
  length-append k (codes ": " ++ (v ++ (crlf ++ header_lines hs))),
  length-append v (crlf ++ header_lines hs),
  length-header_lines hs,
)

pub headers-IsHeader :
    (info : InitialRequestInfo) (key : List ℕ) (r : IsRequest info key)
    → All IsHeader (headers_with info key (offer r.first_offer r.other_offers))
headers-IsHeader info key r = (
  (omega arith, (omega arith, r.host_one_line)),
  (
    (omega arith, (omega arith, omega arith)),
    (
      (omega arith, (omega arith, omega arith)),
      (
        (omega arith, (omega arith, r.key_one_line)),
        optional-headers (codes "Origin") info.origin _
            (omega arith, (omega arith, r.origin_one_line))
            (
              (omega arith, (omega arith, omega arith)),
              optional-headers (codes "Sec-WebSocket-Extensions") info.extensions _
                  (omega arith, (omega arith, r.extensions_one_line))
                  (
                    (
                      omega arith,
                      (
                        omega arith,
                        offer-one_line r.first_offer r.other_offers r.first_name r.other_names,
                      ),
                    ),
                    r.all_headers,
                  ),
            ),
      ),
    ),
  ),
)

-- The text of a request and of a response: a line, then headers.
pub read_lines-text :
    (first : List ℕ → Option (List ℕ × List ℕ)) (l text : List ℕ) (e : List ℕ × List ℕ) (hs : Keys)
    → 0 < length l
    → Without 13 l
    → first l ≡ some e
    → All IsHeader hs
    → text ≡ l ++ (crlf ++ (header_lines hs ++ crlf))
    → read_lines first (length text + 1) text [] ≡ answers (some (e ∷ lowered hs))
read_lines-text first l text e hs some_left w f a is =
    let enough : length hs < length text = omega (
      arith,
      ap length is,
      length-append l (crlf ++ (header_lines hs ++ crlf)),
      length-append (header_lines hs) crlf,
      length-header_lines hs,
    ) in
    let one_more : length text + 1 ≡ suc (length text) = omega arith in
    ap₂ (λ n t. read_lines first n t []) one_more is
    ∙ (line_first first (length text) l (header_lines hs ++ crlf) e some_left w f
        ∙ read_lines-headers first hs (length text) e [] enough a)

pub request-text :
    (info : InitialRequestInfo) (key : List ℕ)
    → create_handshake_request info key
      ≡ first_line info.resource_name ++ (crlf ++ (header_lines (request_headers info key) ++ crlf))
unfolding create_handshake_request
request-text info key =
    ap (λ t. codes "GET " ++ t) (sym (append_assoc info.resource_name (codes " HTTP/1.1") _))

pub request-read :
    (below : List ℕ → Option Bool) (info : InitialRequestInfo) (key : List ℕ)
    (r : IsRequest info key)
    → below (codes "1.1") ≡ some false
    → (let text = create_handshake_request info key in
        read_lines (request_line below info.resource_name) (length text + 1) text [])
      ≡ answers (some (keys info key (offer r.first_offer r.other_offers)))
request-read below info key r h =
    read_lines-text (request_line below info.resource_name) (first_line info.resource_name)
      (create_handshake_request info key) _
      (headers_with info key (offer r.first_offer r.other_offers)) (omega arith)
      (
        omega arith,
        (
          omega arith,
          (
            omega arith,
            (
              omega arith,
              Without-append 13 info.resource_name (codes " HTTP/1.1") r.resource_one_line
                  (omega arith),
            ),
          ),
        ),
      )
      (request_line-accepted below info.resource_name h r.resource_one_word r.resource_clean)
      (headers-IsHeader info key r)
      (request-text info key
        ∙ ap (λ hs. first_line info.resource_name ++ (crlf ++ (header_lines hs ++ crlf)))
            (headers-are info key r))
