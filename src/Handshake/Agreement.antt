-- ===== src/Handshake/Agreement.antt =====
-- A request of the client, the response of the server to it, and the client that reads the response.
use lu.Base.{
  ℕ, ◌<◌, ◌≡◌, refl, sym, ap, ◌∙◌, Bool, true, false, List, [], ◌∷◌, ◌++◌, Option, some,
  append_assoc, append-nil, length, if◌then◌else◌, Bool-cases, inl, inr, arith,
}
use lu.Text.Bytes.{codes, text_eq, until_zero}
use lu.Text.Numbers.{pos}
use lu.Text.Finding.{Without, text_eq_refl}
use lu.Text.Parser.{cleaned, next}
use lu.Handshake.Types.{Keys, InitialRequestInfo, Answer, answers, then_answer, crlf, find_key}
use lu.Handshake.Response.{contains, handshake_response, websocket_response, get_accept_key}
use lu.Handshake.Request.{
  header_lines, create_handshake_request, with_key, responded, versioned, all_protocols,
  protocols_parser, offered, answer_keys, get_response, or_throw,
}
use lu.Handshake.Client.{status_line, check_keys, skip_protocols, read_server_response}
use lu.Handshake.Protocols.{IsName, offer, all_protocols-offer, first_protocol}
use lu.Handshake.Opening.{
  supported_versions, IsRequest, keys, version_found, protocol_found, versions-read, is_empty-offer,
  read_lines-text, request-read,
}

answer-offer :
    (get_base64_hash : List ℕ → List ℕ) (protocol key : List ℕ) (ps : List (List ℕ))
    → 0 < length protocol
    → handshake_response get_base64_hash
        (record {
          protocols = ps;
          websocket_versions = pos 13 ∷ [];
          key = key;
          upgrade = codes "websocket";
        })
        supported_versions
        protocol
      ≡ (if contains protocol ps
          then websocket_response (get_accept_key get_base64_hash key) protocol
          else [])
unfolding handshake_response
answer-offer get_base64_hash [] key ps h = absurd (omega (arith, h))
answer-offer get_base64_hash (b ∷ protocol) key ps h =
    elim (Bool-cases (contains (b ∷ protocol) ps)) [ inl e ↦ rw e refl | inr e ↦ rw e refl ]

module _ (get_base64_hash : List ℕ → List ℕ) (supported_protocol : List ℕ)
    (info : InitialRequestInfo) (key : List ℕ) (r : IsRequest info key) where
  abbrev protocols : List ℕ
  protocols = offer r.first_offer r.other_offers

  abbrev names : List (List ℕ)
  names = r.first_offer ∷ r.other_offers

  abbrev then_versions : List (List ℕ) → Answer (List ℕ)
  then_versions ps = with_key (find_key (codes "sec-websocket-version") (keys info key protocols)) (
      versioned get_base64_hash supported_protocol supported_versions (codes "websocket") key
        protocols ps)

  offered-response :
      offered get_base64_hash supported_protocol supported_versions
        (keys info key protocols)
        (codes "websocket")
        key
        protocols
      ≡ responded get_base64_hash supported_protocol supported_versions
          (codes "websocket")
          key
          names
          (pos 13 ∷ [])
  offered-response =
      ap (λ b. if b then answers [] else then_answer (all_protocols protocols) then_versions)
        (is_empty-offer r.first_offer r.other_offers r.first_name)
      ∙ (ap (λ a. then_answer a then_versions)
            (all_protocols-offer r.first_offer r.other_offers r.first_name r.other_names)
          ∙ (ap
                (λ o. with_key o (
                  versioned get_base64_hash supported_protocol supported_versions
                    (codes "websocket") key protocols names))
                (version_found info key protocols)
              ∙ ap
                  (λ a. then_answer a (
                    responded get_base64_hash supported_protocol supported_versions
                      (codes "websocket") key names))
                  (versions-read protocols)))

  -- To a request that `createHandShakeRequest` makes for a WebSocket of version 13, `getResponse`
  -- gives the response with the accept key and the protocol of the server if the request offers
  -- that protocol, and nothing otherwise. The fields of the request are as the parser keeps them,
  -- the protocol is not empty, and 1.1 is not below 1.1F.
  pub get_response-offer :
      (below : List ℕ → Option Bool)
      → below (codes "1.1") ≡ some false
      → 0 < length supported_protocol
      → get_response get_base64_hash supported_protocol supported_versions below info.resource_name
          (create_handshake_request info key)
        ≡ answers (
            if contains supported_protocol info.protocols
            then websocket_response (get_accept_key get_base64_hash key) supported_protocol
            else [])
  unfolding get_response
  get_response-offer below h some_name =
      ap (λ a. then_answer a (answer_keys get_base64_hash supported_protocol supported_versions))
        (request-read below info key r h)
      ∙ (ap
            (λ o. with_key o (
              offered get_base64_hash supported_protocol supported_versions
                (keys info key protocols) (codes "websocket") key))
            (protocol_found info key protocols)
          ∙ (offered-response
              ∙ ap answers (
                  answer-offer get_base64_hash supported_protocol key names some_name
                  ∙ ap
                      (λ ps.
                        if contains supported_protocol ps
                        then websocket_response (get_accept_key get_base64_hash key)
                            supported_protocol
                        else [])
                      (sym r.offers))))

abbrev response_headers : List ℕ → List ℕ → Keys
response_headers accept protocol =
    (codes "Upgrade", codes "websocket")
    ∷ (codes "Connection", codes "Upgrade")
    ∷ (codes "Sec-WebSocket-Accept", accept)
    ∷ (codes "Sec-WebSocket-Protocol", protocol)
    ∷ []

response-text :
    (accept protocol : List ℕ)
    → websocket_response accept protocol
      ≡ codes "HTTP/1.1 101 Switching Protocols"
        ++ (crlf ++ (header_lines (response_headers accept protocol) ++ crlf))
unfolding websocket_response
response-text accept protocol = simp append_assoc

status-accepted :
    (below : List ℕ → Option Bool)
    → below (codes "1.1") ≡ some false
    → status_line below (codes "HTTP/1.1 101 Switching Protocols")
      ≡ some (codes "ServerResponse", codes "101")
unfolding status_line next cleaned until_zero
status-accepted below h = rw h refl

skip-protocol :
    (protocol : List ℕ) → IsName protocol → skip_protocols (some protocol) ≡ answers true
skip-protocol [] i = refl
skip-protocol (c ∷ protocol) i =
    let (q, e) = first_protocol (c ∷ protocol) [] i tt in
    ap (λ t. or_throw (next (protocols_parser t)) (answers true)) (sym (append-nil (c ∷ protocol)))
    ∙ ap (λ r. or_throw r (answers true)) e

-- Of a response in the layout of `HandshakeResponse` with any accept key in one line,
-- `readServerResponse` answers whether it is the accept key of the key that was sent. The
-- protocol is a name that the parser keeps as it is, and 1.1 is not below 1.1F.
pub read_server_response-key :
    (get_base64_hash : List ℕ → List ℕ) (key accept protocol : List ℕ)
    (below : List ℕ → Option Bool)
    → below (codes "1.1") ≡ some false
    → IsName protocol
    → Without 13 accept
    → read_server_response get_base64_hash key below (websocket_response accept protocol)
      ≡ answers (text_eq accept (get_accept_key get_base64_hash key))
unfolding read_server_response
read_server_response-key get_base64_hash key accept protocol below h i w =
    ap (λ a. then_answer a (check_keys get_base64_hash key))
      (read_lines-text (status_line below) (codes "HTTP/1.1 101 Switching Protocols")
        (websocket_response accept protocol) _ (response_headers accept protocol) (omega arith)
        (omega arith) (status-accepted below h)
        (
          (omega arith, (omega arith, omega arith)),
          (
            (omega arith, (omega arith, omega arith)),
            ((omega arith, (omega arith, w)), ((omega arith, (omega arith, i.no_return)), tt)),
          ),
        )
        (response-text accept protocol))
    ∙ ap (λ a. then_answer a (λ b. answers (text_eq accept (get_accept_key get_base64_hash key))))
        (skip-protocol protocol i)

-- The server answers the request that the client makes, and the client accepts that answer to its
-- key. The request is for a WebSocket of version 13 and offers the protocol of the server; its
-- protocols are names that the parser of items keeps as they are, its resource has no spaces, no
-- field has a line end, and its own headers have their first colon behind the key. The text 1.1
-- is not below 1.1F, and the hash of the key has no line end.
pub handshake_agrees :
    (get_base64_hash : List ℕ → List ℕ) (protocol : List ℕ) (info : InitialRequestInfo)
    (key : List ℕ) (below : List ℕ → Option Bool)
    → IsRequest info key
    → IsName protocol
    → below (codes "1.1") ≡ some false
    → contains protocol info.protocols ≡ true
    → Without 13 (get_accept_key get_base64_hash key)
    → (response : List ℕ) × (get_response get_base64_hash protocol supported_versions below
          info.resource_name
          (create_handshake_request info key)
        ≡ answers response)
      × (read_server_response get_base64_hash key below response ≡ answers true)
handshake_agrees get_base64_hash protocol info key below r i h c w = (
  websocket_response (get_accept_key get_base64_hash key) protocol,
  get_response-offer get_base64_hash protocol info key r below h i.nonempty
      ∙ ap
          (λ b.
            answers
              (if b then websocket_response (get_accept_key get_base64_hash key) protocol else []))
          c,
  read_server_response-key get_base64_hash key (get_accept_key get_base64_hash key) protocol below h
        i w
      ∙ ap answers (text_eq_refl (get_accept_key get_base64_hash key)),
)
