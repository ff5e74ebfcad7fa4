-- ===== src/Handshake/Response.antt =====
-- src/platform/socket/websocket/HandshakeResponse.cpp: the response to a request that was read.
use lu.Base.{ℕ, zero, suc, ◌+◌, Bool, true, false, ◌||◌, List, [], ◌∷◌, ◌++◌, length, if◌then◌else◌}
use lu.Text.Bytes.{codes, text_eq}
use lu.Text.Numbers.{ℤ, greater}
use lu.Handshake.Types.{HandshakeRequest, crlf}

-- `std::sort` with `std::greater`.
abbrev pub insert_down : ℤ → List ℤ → List ℤ
insert_down x [] = x ∷ []
insert_down x (y ∷ ys) = let rest = insert_down x ys in if greater y x then y ∷ rest else x ∷ y ∷ ys

abbrev pub sort_down : List ℤ → List ℤ
sort_down [] = []
sort_down (x ∷ xs) = insert_down x (sort_down xs)

-- `std::set_intersection` with `std::greater`.
abbrev pub intersection : ℕ → List ℤ → List ℤ → List ℤ
intersection zero xs ys = []
intersection (suc n) [] ys = []
intersection (suc n) (x ∷ xs) [] = []
intersection (suc n) (x ∷ xs) (y ∷ ys) =
    let left = intersection n xs (y ∷ ys) in
    let right = intersection n (x ∷ xs) ys in
    let both = intersection n xs ys in
    if greater x y then left else if greater y x then right else x ∷ both

abbrev pub list_intersection : List ℤ → List ℤ → List ℤ
list_intersection xs ys = intersection (length xs + length ys) (sort_down xs) (sort_down ys)

abbrev pub is_empty {ℓ} : {A : Type ℓ} → List A → Bool
is_empty [] = true
is_empty (x ∷ xs) = false

abbrev pub contains : List ℕ → List (List ℕ) → Bool
contains t [] = false
contains t (u ∷ us) = let rest = contains t us in if text_eq u t then true else rest

abbrev pub tcp_response : List ℕ
tcp_response =
    codes "HTTP/1.1 101 Switching Protocols" ++ (crlf ++ (codes "Upgrade: tcp" ++ (crlf ++ crlf)))

-- `getAcceptKey`; the hash is OpenSSL's.
abbrev pub get_accept_key : (List ℕ → List ℕ) → List ℕ → List ℕ
get_accept_key get_base64_hash key =
    get_base64_hash (key ++ codes "258EAFA5-E914-47DA-95CA-C5AB0DC85B11")

unfoldable pub websocket_response : List ℕ → List ℕ → List ℕ
websocket_response accept_key protocol =
    codes "HTTP/1.1 101 Switching Protocols"
    ++ (crlf
        ++ (codes "Upgrade: websocket"
            ++ (crlf
                ++ (codes "Connection: Upgrade"
                    ++ (crlf
                        ++ (codes "Sec-WebSocket-Accept: "
                            ++ (accept_key
                                ++ (crlf
                                    ++ (codes "Sec-WebSocket-Protocol: "
                                        ++ (protocol ++ (crlf ++ crlf)))))))))))

-- The response, empty where the request is refused.
unfoldable pub handshake_response : (List ℕ → List ℕ) → HandshakeRequest → List ℤ → List ℕ → List ℕ
handshake_response get_base64_hash r supported_versions supported_protocol =
    let protocol = if contains supported_protocol r.protocols then supported_protocol else [] in
    if text_eq r.upgrade (codes "tcp")
    then tcp_response
    else if is_empty protocol
        || is_empty (list_intersection supported_versions r.websocket_versions)
    then []
    else websocket_response (get_accept_key get_base64_hash r.key) supported_protocol
