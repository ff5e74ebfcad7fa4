-- ===== src/Frame/Types.antt =====
-- include/platform/socket/websocket/Frame.h: the frame's state, its enumerations, the data it reads.
use lu.Base.{
  ℕ, Bool, true, false, not, ◌&&◌, ◌||◌, List, [], ◌∷◌, ltb, leb, ◌==◌, bit_and, get_or, sub_u32,
}
use Prim.Native.String.{String}
use lu.Crypto.DataWrap.{DataWrap, create}

pub data ProcessingState : Type 0 where
  read_header read_payload_length read_mask read_payload wait_for_data done error : ProcessingState

-- Every value that a cast from four bits can give is an enumerator.
pub data OpCode : Type 0 where
  continue text binary reserved3 reserved4 reserved5 reserved6 reserved7 : OpCode
  close ping pong reserved_b reserved_c reserved_d reserved_e reserved_f : OpCode

abbrev pub op_codes : List OpCode
op_codes =
    continue ∷ text ∷ binary ∷ reserved3 ∷ reserved4 ∷ reserved5 ∷ reserved6 ∷ reserved7 ∷ close
    ∷ ping ∷ pong ∷ reserved_b ∷ reserved_c ∷ reserved_d ∷ reserved_e ∷ reserved_f ∷ []

-- `static_cast<OpCode>(n)` for `n < 16`.
abbrev pub of_code : ℕ → OpCode
of_code n = get_or op_codes n reserved_f

abbrev pub to_code : OpCode → ℕ
to_code continue = 0x0
to_code text = 0x1
to_code binary = 0x2
to_code reserved3 = 0x3
to_code reserved4 = 0x4
to_code reserved5 = 0x5
to_code reserved6 = 0x6
to_code reserved7 = 0x7
to_code close = 0x8
to_code ping = 0x9
to_code pong = 0xa
to_code reserved_b = 0xb
to_code reserved_c = 0xc
to_code reserved_d = 0xd
to_code reserved_e = 0xe
to_code reserved_f = 0xf

-- `CloseCode` holds any value that comes from the wire, so it is a number.
abbrev pub close_code_normal : ℕ
close_code_normal = 1000

abbrev pub close_code_protocol_error : ℕ
close_code_protocol_error = 1002

abbrev pub close_code_reserved1004 : ℕ
close_code_reserved1004 = 1004

abbrev pub close_code_missing_status_code : ℕ
close_code_missing_status_code = 1005

abbrev pub close_code_abnormal_disconnection : ℕ
close_code_abnormal_disconnection = 1006

abbrev pub close_code_too_much_data : ℕ
close_code_too_much_data = 1009

-- `SocketData`. `bytes` is the memory from `data` on, `length` the number of bytes received.
pub record SocketData : Type 0 where
  pub bytes : List ℕ
  pub size : ℕ
  pub read_offset : ℕ

abbrev pub get_data_left_to_read : SocketData → ℕ
get_data_left_to_read s = sub_u32 s.size s.read_offset

-- `max_allowed_message_size` is what reading `m_maxAllowedMessageSize`, a reference, gives: the same at
-- each read. `mask_key` is `m_mask`.
pub record Frame : Type 0 where
  pub max_allowed_message_size : ℕ
  pub processing_state : ProcessingState
  pub is_final_frame : Bool
  pub rsv1 : Bool
  pub rsv2 : Bool
  pub rsv3 : Bool
  pub is_valid : Bool
  pub mask_key : ℕ
  pub size : ℕ
  pub op_code : OpCode
  pub close_code : ℕ
  pub close_reason : String
  pub is_fragmented : Bool
  pub message : DataWrap

-- `Frame(maxAllowedMessageSize)`, for a variable that stays and keeps its value.
unfoldable pub fresh : ℕ → Frame
fresh max_size = record {
  max_allowed_message_size = max_size;
  processing_state = read_header;
  is_final_frame = true;
  rsv1 = false;
  rsv2 = false;
  rsv3 = false;
  is_valid = false;
  mask_key = 0;
  size = 0;
  op_code = reserved_c;
  close_code = close_code_normal;
  close_reason = "";
  is_fragmented = false;
  message = create max_size;
}

-- `reset()` leaves the message buffer alone.
unfoldable pub reset : Frame → Frame
reset f = record f {
  processing_state = read_header;
  is_final_frame = true;
  rsv1 = false;
  rsv2 = false;
  rsv3 = false;
  is_valid = false;
  mask_key = 0;
  size = 0;
  op_code = reserved_c;
  close_code = close_code_normal;
  close_reason = "";
  is_fragmented = false;
}

unfoldable pub set_error : Frame → ℕ → String → Frame
unfolding reset
set_error f code reason = record (reset f) {
  close_code = code;
  close_reason = reason;
  is_valid = false;
}

unfoldable pub is_op_code_reserved : OpCode → Bool
is_op_code_reserved code =
    (ltb (to_code binary) (to_code code) && ltb (to_code code) (to_code close))
    || ltb (to_code pong) (to_code code)

unfoldable pub is_control_code : OpCode → Bool
is_control_code code = bit_and (to_code code) 0x08 == 0x08

abbrev pub is_control_frame : Frame → Bool
is_control_frame f = is_control_code f.op_code

-- `isContinuationFrame`: a data frame with the opcode `Continue`.
unfoldable pub is_continuation_frame : Frame → Bool
is_continuation_frame f = not (is_control_frame f) && (to_code f.op_code == to_code continue)

abbrev pub has_mask : Frame → Bool
has_mask f = ltb 0 f.mask_key

unfoldable pub is_close_code_valid : ℕ → Bool
is_close_code_valid code =
    ltb 999 code
    && (ltb code 5000
        && (not (code == close_code_reserved1004)
            && (not (code == close_code_missing_status_code)
                && (not (code == close_code_abnormal_disconnection)
                    && (leb 3000 code || ltb code 1012)))))
