-- ===== src/Xrce/SessionTests.antt =====
-- xrce/src/session.c on examples, and its theorems at concrete messages.
use rtos_kernel_from_scratch.Common.{
  ℕ, ◌≡◌, refl, false, some, none, List, [], ◌∷◌, ◌++◌, drop, pos, arith,
}
use rtos_kernel_from_scratch.Xrce.Cdr
use rtos_kernel_from_scratch.Xrce.Cdr.{
  read_i16, read_uint, align_reader, read_u8, read_bytes, le_value, write_u8, write_i16, write_uint,
  write_bytes, align_writer, le_bytes,
}
use rtos_kernel_from_scratch.Xrce.Session
use rtos_kernel_from_scratch.Xrce.Session.{
  enter_submessage, skip_message_header, read_object_id, build_message, build_submessage,
  write_message_header, submessage_header, write_payload, write_data_payload,
  write_base_object_request, write_object_id, backpatch_length, Session, ObjectId, object_id,
  session_init, build_create_participant, build_write_data, build_read_data, build_delete,
  build_heartbeat, build_create_client, parse_create_client_reply, parse_create_reply,
  parse_delete_reply, parse_data, parse_acknack, submsg_status_agent, submsg_status, submsg_data,
  submsg_acknack, submsg_create_client, submsg_heartbeat,
}
use rtos_kernel_from_scratch.Xrce.Session.Headers.{fitting, header_bytes, submessage}
use rtos_kernel_from_scratch.Xrce.Session.Frames.{spent}
use rtos_kernel_from_scratch.Xrce.Session.Requests.{
  Request, create_participant, create_entity, write_data, delete, build, request_message,
  build-request_message,
}
use rtos_kernel_from_scratch.Xrce.Session.Numbers.{
  Issue, build_all, numbered, numbered_messages, build_all-numbered,
}
use rtos_kernel_from_scratch.Xrce.Session.Replies.{replies-contents, by_kind}
use rtos_kernel_from_scratch.Xrce.Session.Bodies.{is_ok, sample_in, acknack_in}
use rtos_kernel_from_scratch.Xrce.Session.Entering.{contents}
use rtos_kernel_from_scratch.Xrce.Session.Control.{control-messages, handshake, progress}

abbrev session : Session
session = session_init 77 (1 ∷ 2 ∷ 3 ∷ 4 ∷ []) 512

abbrev participant : ObjectId
participant = object_id 1 1

abbrev writer : ObjectId
writer = object_id 801 5

abbrev entity : Request
entity = create_entity writer participant (60 ∷ 97 ∷ 62 ∷ [])

abbrev requests : List Request
requests =
    create_participant participant (pos 0) (60 ∷ 62 ∷ [])
    ∷ entity
    ∷ write_data writer (7 ∷ 8 ∷ [])
    ∷ delete writer
    ∷ []

-- A DATA message from the agent, whose header has no key.
abbrev data_message : List ℕ
data_message = 129 ∷ 1 ∷ 0 ∷ 0 ∷ 9 ∷ 1 ∷ 6 ∷ 0 ∷ 0 ∷ 9 ∷ 50 ∷ 22 ∷ 7 ∷ 8 ∷ []

parse_data_test : parse_data data_message ≡ some (object_id 801 6, 7 ∷ 8 ∷ [])
unfolding parse_data enter_submessage skip_message_header Session.read_u16 read_i16 Cdr.read_u16
    read_uint align_reader read_u8 read_bytes read_object_id le_value
parse_data_test = refl

-- The whole message of a write: header with the key, submessage header, request id, object, sample.
build_write_data_test :
    (build_write_data session 1 writer (7 ∷ 8 ∷ []) 18).1
    ≡ some (77 ∷ 1 ∷ 0 ∷ 0 ∷ 1 ∷ 2 ∷ 3 ∷ 4 ∷ 7 ∷ 1 ∷ 6 ∷ 0 ∷ 0 ∷ 9 ∷ 50 ∷ 21 ∷ 7 ∷ 8 ∷ [])
unfolding build_write_data build_message build_submessage write_message_header submessage_header
    write_payload write_data_payload write_base_object_request write_object_id backpatch_length
    write_u8 Session.write_u16 write_i16 Cdr.write_u16 write_uint write_bytes align_writer le_bytes
build_write_data_test = refl

-- A buffer that is one byte too small spends both numbers and gives no message.
build_write_data_short_test :
    build_write_data session 1 writer (7 ∷ 8 ∷ []) 17
    ≡ (record session { out_seq_num = 1; next_request_id = 10 }, none)
unfolding build_write_data build_message build_submessage write_message_header submessage_header
    write_payload write_data_payload write_base_object_request write_object_id backpatch_length
    write_u8 Session.write_u16 write_i16 Cdr.write_u16 write_uint write_bytes align_writer le_bytes
build_write_data_short_test = refl

build-request_message_example :
    build session 1 entity 64 ≡ (spent session 64, fitting 64 (request_message session 1 entity))
build-request_message_example = build-request_message session 1 entity 64 refl (omega arith)

-- The second buffer is too small for its request, and the third request has a stream of its own.
abbrev issues : List Issue
issues =
    record { stream_id = 1; cap = 64; request = entity }
    ∷ record { stream_id = 1; cap = 16; request = entity }
    ∷ record { stream_id = 128; cap = 40; request = write_data writer (1 ∷ 2 ∷ []) }
    ∷ []

build_all-numbered_example :
    build_all session issues ≡ (numbered session 3, numbered_messages session 0 issues)
build_all-numbered_example =
    build_all-numbered 77 512 (1 ∷ 2 ∷ 3 ∷ 4 ∷ []) issues refl
      ((omega arith, omega arith), ((omega arith, omega arith), ((omega arith, tt), tt)))

replies-contents_example :
    (parse_create_client_reply data_message
      ≡ by_kind submsg_status_agent false is_ok (contents data_message))
    × (parse_create_reply data_message
        ≡ by_kind submsg_status false (λ body. is_ok (drop 4 body)) (contents data_message))
    × (parse_delete_reply data_message
        ≡ by_kind submsg_status false (λ body. is_ok (drop 4 body)) (contents data_message))
    × (parse_data data_message ≡ by_kind submsg_data none sample_in (contents data_message))
    × (parse_acknack data_message ≡ by_kind submsg_acknack none acknack_in (contents data_message))
replies-contents_example = replies-contents data_message

control-messages_test :
    (build_create_client session 28
      ≡ fitting 28 (
          header_bytes 0 0 0 session.client_key
          ++ submessage submsg_create_client (handshake session)))
    × (build_heartbeat session 128 3 5 28
        ≡ fitting 28 (
            header_bytes session.session_id 0 0 session.client_key
            ++ submessage submsg_heartbeat (progress 128 3 5)))
control-messages_test = control-messages session 128 3 5 28 refl
