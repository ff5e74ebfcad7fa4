-- ===== src/Handshake/Examples.antt =====
-- Runs of the handshake, and the theorems on it, at small inputs.
use lu.Base.{ℕ, ◌≡◌, ◌≢◌, refl, Bool, true, false, List, [], ◌∷◌, ◌++◌, Option, some, arith}
use lu.Text.Bytes.{codes}
use lu.Text.Parser.{cleaned}
use lu.Handshake.Types.{InitialRequestInfo, answers, throws, spins, crlf}
use lu.Handshake.Response.{websocket_response}
use lu.Handshake.Request.{create_handshake_request, get_response}
use lu.Handshake.Client.{read_server_response}
use lu.Handshake.Protocols.{IsName, first_line}
use lu.Handshake.Opening.{IsRequest, supported_versions}
use lu.Handshake.Agreement.{get_response-offer, read_server_response-key, handshake_agrees}
use lu.Handshake.Termination.{get_response-returns}
use lu.Handshake.Exceptions.{empty_header_throws}

abbrev info : InitialRequestInfo
info = record {
  resource_name = codes "/chat";
  host = codes "example.org";
  upgrade = [];
  origin = codes "here";
  ws_version = codes "13";
  extensions = [];
  protocols = codes "Other" ∷ codes "LuBinary" ∷ [];
  headers = (codes "X-Id", codes "7") ∷ [];
}

-- Every version is new enough, and every hash is the same.
abbrev never_below : List ℕ → Option Bool
never_below t = some false

abbrev hash : List ℕ → List ℕ
hash t = codes "q83v"

lubinary-IsName : IsName (codes "LuBinary")
unfolding cleaned
lubinary-IsName = record {
  nonempty = omega arith;
  clean = refl;
  no_comma = omega arith;
  no_return = omega arith;
  no_zero = omega arith;
}

other-IsName : IsName (codes "Other")
unfolding cleaned
other-IsName = record {
  nonempty = omega arith;
  clean = refl;
  no_comma = omega arith;
  no_return = omega arith;
  no_zero = omega arith;
}

info-IsRequest : IsRequest info (codes "a2V5")
unfolding cleaned
info-IsRequest = record {
  resource_one_line = omega arith;
  resource_one_word = omega arith;
  resource_clean = refl;
  host_one_line = omega arith;
  websocket = refl;
  key_one_line = omega arith;
  origin_one_line = omega arith;
  version = refl;
  extensions_one_line = tt;
  first_offer = codes "Other";
  other_offers = codes "LuBinary" ∷ [];
  offers = refl;
  first_name = other-IsName;
  other_names = (lubinary-IsName, tt);
  all_headers = ((omega arith, (omega arith, omega arith)), tt);
}

handshake_agrees_example :
    (response : List ℕ) × (get_response hash
        (codes "LuBinary")
        supported_versions
        never_below
        (codes "/chat")
        (create_handshake_request info (codes "a2V5"))
      ≡ answers response)
    × (read_server_response hash (codes "a2V5") never_below response ≡ answers true)
handshake_agrees_example =
    handshake_agrees hash (codes "LuBinary") info (codes "a2V5") never_below info-IsRequest
      lubinary-IsName refl refl (omega arith)

-- A protocol that the client does not offer.
get_response-offer_example :
    get_response hash
      (codes "Third")
      supported_versions
      never_below
      (codes "/chat")
      (create_handshake_request info (codes "a2V5"))
    ≡ answers []
get_response-offer_example =
    get_response-offer hash (codes "Third") info (codes "a2V5") info-IsRequest never_below refl
      (omega arith)

-- A response with another key.
read_server_response-key_example :
    read_server_response hash
      (codes "a2V5")
      never_below
      (websocket_response (codes "AAAA") (codes "LuBinary"))
    ≡ answers false
read_server_response-key_example =
    read_server_response-key hash (codes "a2V5") (codes "AAAA") (codes "LuBinary") never_below refl
      lubinary-IsName (omega arith)

get_response-returns_example :
    get_response hash
      (codes "LuBinary")
      supported_versions
      never_below
      (codes "/chat")
      (codes "GET")
    ≢ spins
get_response-returns_example =
    get_response-returns hash (codes "LuBinary") supported_versions never_below (codes "/chat")
      (codes "GET")

empty_header_throws_example :
    get_response hash
      (codes "LuBinary")
      supported_versions
      never_below
      (codes "/chat")
      (first_line (codes "/chat") ++ (crlf ++ ((codes "Cookie" ++ codes ":") ++ (crlf ++ crlf))))
    ≡ throws
unfolding cleaned
empty_header_throws_example =
    empty_header_throws hash (codes "LuBinary") supported_versions never_below (codes "/chat")
      (codes "Cookie") crlf refl (omega arith) (omega arith) refl (omega arith) (omega arith)
