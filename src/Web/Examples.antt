-- ===== src/Web/Examples.antt =====
-- A session that opens, and the theorem on it, at a small input.
use lu.Base.{ℕ, ◌≡◌, refl, Bool, true, false, List, [], ◌∷◌, ◌++◌, Option, some, length, arith}
use lu.Text.Bytes.{codes}
use lu.Text.Parser.{cleaned}
use lu.Crypto.DataWrap
use lu.Frame.Types.{binary, is_control_code, is_op_code_reserved}
use lu.Frame.Message.{on_data}
use lu.Frame.Parsing.{in_two}
use lu.Frame.Reader.{mask, mask_from}
use lu.Frame.Writer.{
  send_msg, send_from, frame_count, frame_bytes, get_frame_header, append_length, first_byte,
}
use lu.Frame.Delivery.{IsData, Between, Sending, wire}
use lu.Handshake.Types.{InitialRequestInfo, answers}
use lu.Handshake.Response.{websocket_response, get_accept_key}
use lu.Handshake.Request.{create_handshake_request}
use lu.Handshake.Protocols.{IsName}
use lu.Handshake.Opening.{IsRequest}
use lu.Web.Socket.{WebSocket, new_web_socket, protocol, receive_bytes, sent, opened, framed}
use lu.Web.Session.{session_opens}

abbrev info : InitialRequestInfo
info = record {
  resource_name = codes "/comms";
  host = codes "h";
  upgrade = [];
  origin = [];
  ws_version = codes "13";
  extensions = [];
  protocols = codes "LuBinary" ∷ [];
  headers = [];
}

abbrev never_below : List ℕ → Option Bool
never_below t = some false

abbrev hash : List ℕ → List ℕ
hash t = codes "q83v"

protocol-IsName : IsName protocol
unfolding cleaned
protocol-IsName = record {
  nonempty = omega arith;
  clean = refl;
  no_comma = omega arith;
  no_return = omega arith;
  no_zero = omega arith;
}

info-IsRequest : IsRequest info (codes "a2V5")
unfolding cleaned
info-IsRequest = record {
  resource_one_line = omega arith;
  resource_one_word = omega arith;
  resource_clean = refl;
  host_one_line = omega arith;
  websocket = refl;
  key_one_line = omega arith;
  origin_one_line = tt;
  version = refl;
  extensions_one_line = tt;
  first_offer = protocol;
  other_offers = [];
  offers = refl;
  first_name = protocol-IsName;
  other_names = tt;
  all_headers = tt;
}

binary-IsData : IsData binary
unfolding is_control_code is_op_code_reserved
binary-IsData = record {
  data_code = refl;
  first = refl;
  legal = λ last n. record { known = refl; control = λ e. cc };
}

abbrev one_message : List Sending
one_message = record { message = 1 ∷ 2 ∷ 3 ∷ []; keys = λ i. 0x01020304 } ∷ []

bytes_sent :
    length (create_handshake_request info (codes "a2V5") ++ wire 100 binary true one_message) ≡ 168
unfolding create_handshake_request wire send_msg send_from frame_count frame_bytes get_frame_header
    append_length first_byte mask mask_from DataWrap.append DataWrap.create
bytes_sent = refl

session_opens_example :
    (s : WebSocket) × (receive_bytes hash never_below
        (new_web_socket 120 100)
        (create_handshake_request info (codes "a2V5") ++ wire 100 binary true one_message)
      ≡ answers (
        sent (websocket_response (get_accept_key hash (codes "a2V5")) protocol)
            ∷ opened
            ∷ framed (on_data (1 ∷ 2 ∷ 3 ∷ []))
            ∷ [],
        s,
      ))
    × (s.connected ≡ true)
    × Between 120 s.frame
session_opens_example =
    session_opens hash never_below info (codes "a2V5") 120 100 100 binary true one_message
      info-IsRequest refl refl refl binary-IsData
      (
        record {
          some_limit = omega arith;
          within_limit = omega arith;
          on_wire = in_two (omega arith);
          key_size = λ i. omega arith;
        },
        tt,
      )
      (omega arith) (omega (arith, bytes_sent))
