-- ===== src/Message/Types.antt =====
-- The enumerations and constants of the message layout, and the messages of protobuf, which are
-- a parameter: a message is what its two methods answer.
use common.Utils.Memory.{AllBytes}
use common.Base.{
  ℕ, ◌+◌, ◌*◌, ◌≤◌, ◌<◌, ◌^◌, ◌≡◌, refl, arith, List, [], Option, none, some, Bool, length, ◌==◌,
  if◌then◌else◌, ℤ, pos,
}

-- `transfer_msg_type`; an enumeration over `unsigned char` also holds values with no name.
pub data TransferMsgType : Type 0 where
  req res ping pong : TransferMsgType
  other : ℕ → TransferMsgType

-- `static_cast<transfer_msg_type>(b)`
unfoldable pub to_type : ℕ → TransferMsgType
to_type b =
    if b == 0
    then req
    else if b == 1
    then res
    else if b == 2
    then ping
    else if b == 3
    then pong
    else other b

-- `static_cast<std::byte>(type)`
unfoldable pub type_byte : TransferMsgType → ℕ
type_byte req = 0
type_byte res = 1
type_byte ping = 2
type_byte pong = 3
type_byte (other b) = b

-- `response_result` (types/response-result.h)
pub data ResponseResult : Type 0 where
  ok unknown_error canceled request_parse_error response_too_big : ResponseResult
  not_implemented invalid_request : ResponseResult
  other : ℕ → ResponseResult

unfoldable pub to_response_result : ℕ → ResponseResult
to_response_result b =
    if b == 0
    then ResponseResult.ok
    else if b == 1
    then unknown_error
    else if b == 2
    then canceled
    else if b == 3
    then request_parse_error
    else if b == 4
    then response_too_big
    else if b == 5
    then not_implemented
    else if b == 6
    then invalid_request
    else ResponseResult.other b

unfoldable pub response_result_byte : ResponseResult → ℕ
response_result_byte ok = 0
response_result_byte unknown_error = 1
response_result_byte canceled = 2
response_result_byte request_parse_error = 3
response_result_byte response_too_big = 4
response_result_byte not_implemented = 5
response_result_byte invalid_request = 6
response_result_byte (other b) = b

-- `is_success(response_result)`
unfoldable pub is_success : ResponseResult → Bool
unfolding response_result_byte
is_success rc = response_result_byte rc == response_result_byte ResponseResult.ok

-- consts.h
abbrev pub max_transfer_message_size : ℕ
max_transfer_message_size = 1024 * 1024 + 100

abbrev pub max_request_proto_size : ℕ
max_request_proto_size = 1024 * 1024

abbrev pub max_response_proto_size : ℕ
max_response_proto_size = 1024 * 1024

-- the sizes of the fields, in bytes
abbrev pub message_type_bytes_count : ℕ
message_type_bytes_count = 1

abbrev pub proto_size_bytes_count : ℕ
proto_size_bytes_count = 4

abbrev pub message_number_bytes_count : ℕ
message_number_bytes_count = 8

abbrev pub method_idx_bytes_count : ℕ
method_idx_bytes_count = 4

abbrev pub result_code_bytes_count : ℕ
result_code_bytes_count = 1

abbrev pub header_bytes_count : ℕ
header_bytes_count = message_type_bytes_count + proto_size_bytes_count

abbrev pub req_trailer_bytes_count : ℕ
req_trailer_bytes_count = message_number_bytes_count + method_idx_bytes_count

abbrev pub res_trailer_bytes_count : ℕ
res_trailer_bytes_count = message_number_bytes_count + result_code_bytes_count

-- What the code asks of a `google::protobuf::Message`: `ByteSizeLong()`, and the bytes that
-- `SerializeToArray(p, size)` writes at `p` (`none`: it writes nothing and answers false).
pub record ProtoMessage : Type 0 where
  pub byte_size_long : ℕ
  pub serialize_to_array : ℤ → Option (List ℕ)

-- The documented behaviour of a message that serialises to the bytes `bytes`: `ByteSizeLong()` is
-- their number, and `SerializeToArray` writes them wherever they fit.
pub record Serializes (m : ProtoMessage) (bytes : List ℕ) : Type 0 where
  pub are_bytes : AllBytes bytes
  pub size : m.byte_size_long ≡ length bytes
  pub writes : (n : ℕ) → length bytes ≤ n → n < 2 ^ 31 → m.serialize_to_array (pos n) ≡ some bytes

-- What an optional message pointer contributes to the layout: nothing if it is null.
abbrev pub Payload : Option ProtoMessage → List ℕ → Type 0
Payload none bytes = bytes ≡ []
Payload (some m) bytes = Serializes m bytes

-- A value of `response_result` that has a name.
abbrev pub IsNamed : ResponseResult → Type 0
IsNamed (other b) = ⊥
IsNamed _ = Unit {0}

pub response_result_round :
    (rc : ResponseResult)
    → IsNamed rc
    → (to_response_result (response_result_byte rc) ≡ rc) × (response_result_byte rc < 256)
unfolding to_response_result response_result_byte
response_result_round ok n = (refl, omega arith)
response_result_round unknown_error n = (refl, omega arith)
response_result_round canceled n = (refl, omega arith)
response_result_round request_parse_error n = (refl, omega arith)
response_result_round response_too_big n = (refl, omega arith)
response_result_round not_implemented n = (refl, omega arith)
response_result_round invalid_request n = (refl, omega arith)
response_result_round (other b) n = absurd n
