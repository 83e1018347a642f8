-- ===== src/Rpc/Tests.antt =====
-- A call of method 1 of a service whose requests and responses are byte strings.
use common.Base.{
  ℕ, ◌-◌, ◌^◌, ◌≡◌, refl, ap, List, [], ◌∷◌, Option, none, some, true, false, arith, ℤ, pos, negsuc,
  to_int, take, leb, if◌then◌else◌, ok,
}
use common.Utils.Memory.{Pointer}
use common.Utils.Buffer.{Buffer}
use common.Utils.View.{of_buffer}
use common.Results.{RequestResult}
use common.Message.Types.{ProtoMessage, Serializes, ResponseResult}
use common.Message.Encode.Create.{exactly, response_bytes}
use common.Message.Decode.Fields.{Shows}
use common.Message.RoundTrip.{contents}
use common.Rpc.Controller.{response_run}
use common.Rpc.Channel.{call_method, sent, Readable, receive_response}
use common.Rpc.Service.{Generated, answered, called, process_request, finish_request}
use common.Rpc.EndToEnd.{call_lem}
use common.Rpc.Responses.{process_request_lem, receive_response_lem}

abbrev garbage : ℕ → ℕ
garbage i = 0xCD

abbrev read_bytes : Pointer → ℤ → List ℕ
read_bytes none n = []
read_bytes (some mem) (pos n) = take n mem
read_bytes (some mem) (negsuc n) = []

abbrev three : List ℕ
three = 7 ∷ 8 ∷ 9 ∷ []

abbrev write_three : ℤ → Option (List ℕ)
write_three (pos n) = if leb 3 n then some three else none
write_three (negsuc n) = none

abbrev three_message : ProtoMessage
three_message = record { byte_size_long = 3; serialize_to_array = write_three }

three-Serializes : Serializes three_message three
three-Serializes = record { are_bytes = omega arith; size = refl; writes = λ n h k. ground arith }

abbrev byte_service : Generated (List ℕ)
byte_service = record {
  method_count = 2;
  parse_from_array = λ idx p n. some (read_bytes p n);
  new_response = λ idx. three_message;
  clear = λ m. m;
}

abbrev byte_response : Readable (List ℕ)
byte_response = record { clear = λ m. []; parse_from_array = λ p n m. (true, read_bytes p n) }

read_bytes-three :
    (p : Pointer) (n : ℕ)
    → contents (record { m_buffer = p; m_size = n }) ≡ three
    → n ≡ 3
    → read_bytes p (to_int n) ≡ three
read_bytes-three none n h e = h
read_bytes-three (some mem) n h e = rw e (rw e at h)

call_lem_example :
    (b : Buffer) × (call_method garbage 1 three_message (record { m_next_req_id = 5 })
      ≡ ok (record { m_next_req_id = 6 }, sent 5 b))
    × (process_request garbage (some byte_service) b ≡ ok (called 5 1 three))
    × ((b' : Buffer) × (finish_request garbage byte_service 5 (response_run false) three_message
          ≡ ok b')
        × (receive_response byte_response 5 RequestResult.ok b' [] ≡ ok (RequestResult.ok, three)))
call_lem_example =
    call_lem garbage garbage (record { m_next_req_id = 5 }) byte_service byte_response 1
      three_message three_message three three three [] three (omega arith) (omega arith)
      three-Serializes (omega arith) (λ v h e. ap some (read_bytes-three v.m_buffer v.m_size h e))
      three-Serializes (omega arith)
      (λ v h e. ap (λ r. (true, r)) (read_bytes-three v.m_buffer v.m_size h e))

-- Five bytes that claim a payload, and no trailer.
abbrev short : Buffer
short = exactly (0 ∷ 0 ∷ 0 ∷ 0 ∷ 4 ∷ [])

short-Shows : Shows (of_buffer short) (0 ∷ 0 ∷ 0 ∷ 0 ∷ 4 ∷ [])
unfolding of_buffer
short-Shows = record { points = refl; within = omega arith; are_bytes = omega arith }

process_request_lem_example :
    process_request garbage (some byte_service) short
    ≡ ok (answered (exactly (response_bytes (2 ^ 64 - 1) ResponseResult.invalid_request [])))
process_request_lem_example =
    process_request_lem garbage (some byte_service) (λ idx. three) short (0 ∷ 0 ∷ 0 ∷ 0 ∷ 4 ∷ [])
      (λ idx h. (three-Serializes, omega arith)) short-Shows

receive_response_lem_example :
    receive_response byte_response 5 RequestResult.ok short three
    ≡ ok (RequestResult.invalid_response, three)
receive_response_lem_example =
    receive_response_lem byte_response 5 RequestResult.ok short (0 ∷ 0 ∷ 0 ∷ 0 ∷ 4 ∷ []) three
      short-Shows
