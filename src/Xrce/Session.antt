-- ===== src/Xrce/Session.antt =====
-- xrce/src/session.c and xrce/include/xrce/session.h: the messages of an XRCE client session. A
-- builder returns the session and the bytes of `buf`, or `none` where it returns 0.
pub mod Layout
pub mod Headers
pub mod Frames
pub mod Requests
pub mod Numbers
pub mod Reading
pub mod Entering
pub mod Bodies
pub mod Replies
pub mod Control
use rtos_kernel_from_scratch.Common.{
  ℕ, ◌+◌, ◌-◌, ◌*◌, ◌/◌, ◌%◌, ◌^◌, Bool, true, false, ◌||◌, Option, none, some, List, [], ◌∷◌,
  length, get_or, set, drop, ℤ, pos, ◌==◌, ltb, if◌then◌else◌,
}
use rtos_kernel_from_scratch.Xrce.Cdr.{
  Writer, Reader, Write, Read, ◌>>◌, ◌>>=◌, pure, write_bytes, read_bytes, write_u8, read_u8,
  write_bool, write_i16, read_i16, write_string, writer_init, reader_init, to_word, of_word,
}

abbrev pub submsg_create_client : ℕ
submsg_create_client = 0

abbrev pub submsg_create : ℕ
submsg_create = 1

abbrev pub submsg_delete : ℕ
submsg_delete = 3

abbrev pub submsg_status_agent : ℕ
submsg_status_agent = 4

abbrev pub submsg_status : ℕ
submsg_status = 5

abbrev pub submsg_write_data : ℕ
submsg_write_data = 7

abbrev pub submsg_read_data : ℕ
submsg_read_data = 8

abbrev pub submsg_data : ℕ
submsg_data = 9

abbrev pub submsg_acknack : ℕ
submsg_acknack = 10

abbrev pub submsg_heartbeat : ℕ
submsg_heartbeat = 11

abbrev pub format_data : ℕ
format_data = 0

abbrev pub flag_endianness_le : ℕ
flag_endianness_le = 1

abbrev pub representation_as_xml_string : ℕ
representation_as_xml_string = 2

abbrev pub status_ok : ℕ
status_ok = 0

abbrev pub status_ok_matched : ℕ
status_ok_matched = 1

-- `xrce_object_id_t`
pub record ObjectId : Type 0 where
  pub id : ℕ
  pub kind : ℕ

-- `xrce_session_t`
pub record Session : Type 0 where
  pub session_id : ℕ
  pub client_key : List ℕ
  pub mtu : ℕ
  pub next_request_id : ℕ
  pub out_seq_num : ℕ

abbrev pub object_id : ℕ → ℕ → ObjectId
object_id i k = record { id = i; kind = k }

-- `xrce_reliable_stream_raw_id`
abbrev reliable_stream_raw_id : ℕ → ℕ
reliable_stream_raw_id index = (index + 128) % 2 ^ 8

-- The static `write_u16` and `read_u16`: the same bits as an `int16_t`.
unfoldable pub write_u16 : ℕ → Write
write_u16 v = write_i16 (of_word 16 (v % 2 ^ 16))

unfoldable pub read_u16 : Read ℕ
read_u16 = read_i16 >>= λ v. pure (to_word 16 v)

-- The two raw bytes of an object id: twelve bits of `id` and four of `kind`.
abbrev pub object_id_bytes : ObjectId → List ℕ
object_id_bytes oid = (oid.id / 16 % 256) ∷ (oid.id % 16 * 16 + oid.kind % 16) ∷ []

abbrev pub object_id_of : List ℕ → ObjectId
object_id_of raw = record {
  id = get_or raw 0 0 * 16 + get_or raw 1 0 / 16;
  kind = get_or raw 1 0 % 16;
}

unfoldable pub write_object_id : ObjectId → Write
write_object_id oid = write_bytes (object_id_bytes oid)

unfoldable pub read_object_id : Read ObjectId
read_object_id = read_bytes 2 >>= λ raw. pure (object_id_of raw)

-- The request id is big-endian.
unfoldable pub write_base_object_request : ℕ → ObjectId → Write
write_base_object_request request_id oid =
    write_bytes ((request_id / 256 % 256) ∷ (request_id % 256) ∷ []) >> write_object_id oid

unfoldable pub write_message_header : ℕ → ℕ → ℕ → List ℕ → Write
write_message_header session_id stream_id seq_num key =
    write_u8 session_id >> write_u8 stream_id >> write_u16 seq_num >> write_bytes key

-- `submessage_header_at`; the place of the header is the length of the writer before it.
unfoldable pub submessage_header : ℕ → ℕ → Write
submessage_header i flags = write_u8 i >> write_u8 flags >> write_u16 0

unfoldable pub backpatch_length : List ℕ → ℕ → ℕ → List ℕ
backpatch_length buf header_pos payload_len =
    set (set buf (header_pos + 2) (payload_len % 256)) (header_pos + 3) (payload_len / 256 % 256)

-- `xrce_session_init`
abbrev pub session_init : ℕ → List ℕ → ℕ → Session
session_init session_id client_key mtu = record {
  session_id = session_id;
  client_key = client_key;
  mtu = mtu;
  next_request_id = 9;
  out_seq_num = 0;
}

-- The payload behind the submessage header of `w`, which starts at `header_pos`, with its length
-- written into that header.
unfoldable pub write_payload : ℕ → Write → Writer → Option (List ℕ)
write_payload header_pos payload w = elim (payload w) [
  | none ↦ none
  | some w' ↦ some (backpatch_length w'.out header_pos (length w'.out - length w.out))
]

-- The submessage header and the payload of a message without numbers of the session.
pub write_control : ℕ → Write → Option Writer → Option (List ℕ)
write_control i payload none = none
write_control i payload (some w) = elim (submessage_header i flag_endianness_le w) [
  | none ↦ none
  | some w' ↦ write_payload (length w.out) payload w'
]

-- `xrce_session_build_create_client`
pub create_client_payload : Session → Write
create_client_payload s =
    write_bytes (88 ∷ 82 ∷ 67 ∷ 69 ∷ [])
    >> write_bytes (1 ∷ 0 ∷ [])
    >> write_bytes (1 ∷ 15 ∷ [])
    >> write_bytes s.client_key
    >> write_u8 s.session_id
    >> write_bool false
    >> write_u16 s.mtu

pub build_create_client : Session → ℕ → Option (List ℕ)
build_create_client s cap =
    write_control submsg_create_client (create_client_payload s)
      (write_message_header 0 0 0 s.client_key (writer_init cap))

-- `s->out_seq_num++` and `s->next_request_id++`, of 16 bits.
abbrev pub next_seq : Session → Session
next_seq s = record s { out_seq_num = (s.out_seq_num + 1) % 2 ^ 16 }

abbrev pub next_request : Session → Session
next_request s = record s { next_request_id = (s.next_request_id + 1) % 2 ^ 16 }

abbrev pub Built : Type 0
Built = Session × Option (List ℕ)

-- What the builders of numbered requests do behind the message header: the sequence number is
-- taken, and the request id once the submessage header is written.
unfoldable pub build_submessage : ℕ → (ℕ → Write) → Session → Option Writer → Built
build_submessage i payload s none = (s, none)
build_submessage i payload s (some w) = elim (submessage_header i flag_endianness_le w) [
  | none ↦ (next_seq s, none)
  | some w' ↦
      (next_request (next_seq s), write_payload (length w.out) (payload s.next_request_id) w')
]

unfoldable pub build_message : ℕ → (ℕ → Write) → Session → ℕ → ℕ → Built
build_message i payload s stream_id cap =
    build_submessage i payload s
      (write_message_header s.session_id stream_id s.out_seq_num s.client_key (writer_init cap))

-- `build_create`: a participant's representation ends in its domain, any other's in its parent.
pub create_tail : Bool → ℤ → ObjectId → Write
create_tail is_participant domain_id parent =
    if is_participant then write_i16 domain_id else write_object_id parent

pub create_payload : ObjectId → List ℕ → Bool → ℤ → ObjectId → ℕ → Write
create_payload oid xml is_participant domain_id parent request_id =
    write_base_object_request request_id oid
    >> write_u8 oid.kind
    >> write_u8 representation_as_xml_string
    >> write_string xml
    >> create_tail is_participant domain_id parent

pub build_create : Session → ℕ → ObjectId → List ℕ → Bool → ℤ → ObjectId → ℕ → Built
build_create s stream_id oid xml is_participant domain_id parent cap =
    build_message submsg_create (create_payload oid xml is_participant domain_id parent) s stream_id
      cap

-- `xrce_session_build_create_participant`
pub build_create_participant : Session → ℕ → ObjectId → ℤ → List ℕ → ℕ → Built
build_create_participant s stream_id oid domain_id xml cap =
    build_create s stream_id oid xml true domain_id (object_id 0 0) cap

-- `xrce_session_build_create_xml`
pub build_create_xml : Session → ℕ → ObjectId → ObjectId → List ℕ → ℕ → Built
build_create_xml s stream_id oid parent xml cap =
    build_create s stream_id oid xml false (pos 0) parent cap

-- `xrce_session_build_write_data`
unfoldable pub write_data_payload : ObjectId → List ℕ → ℕ → Write
write_data_payload oid sample request_id =
    write_base_object_request request_id oid >> write_bytes sample

unfoldable pub build_write_data : Session → ℕ → ObjectId → List ℕ → ℕ → Built
build_write_data s stream_id oid sample cap =
    build_message submsg_write_data (write_data_payload oid sample) s stream_id cap

-- `xrce_session_build_read_data`
pub read_data_payload : ObjectId → ℕ → ℕ → Write
read_data_payload oid preferred request_id =
    write_base_object_request request_id oid
    >> write_u8 preferred
    >> write_u8 format_data
    >> write_bool false
    >> write_bool true
    >> write_u16 65535
    >> write_u16 0
    >> write_u16 0
    >> write_u16 0

pub build_read_data : Session → ℕ → ObjectId → ℕ → ℕ → Built
build_read_data s stream_id oid preferred cap =
    build_message submsg_read_data (read_data_payload oid preferred) s stream_id cap

-- `xrce_session_build_delete`
pub delete_payload : ObjectId → ℕ → Write
delete_payload oid request_id = write_base_object_request request_id oid

pub build_delete : Session → ℕ → ObjectId → ℕ → Built
build_delete s stream_id oid cap = build_message submsg_delete (delete_payload oid) s stream_id cap

-- `xrce_session_build_heartbeat`; the stream that is asked about is named in the payload.
pub heartbeat_payload : ℕ → ℕ → ℕ → Write
heartbeat_payload first_unacked last_sent target_stream =
    write_u16 first_unacked >> write_u16 last_sent >> write_u8 target_stream

pub build_heartbeat : Session → ℕ → ℕ → ℕ → ℕ → Option (List ℕ)
build_heartbeat s target_stream first_unacked last_sent cap =
    write_control submsg_heartbeat (heartbeat_payload first_unacked last_sent target_stream)
      (write_message_header s.session_id 0 0 s.client_key (writer_init cap))

-- `skip_message_header`: a session id from 0x80 on has no key behind it.
abbrev pub header_len : List ℕ → ℕ
header_len buf = if ltb (get_or buf 0 0) 128 then 8 else 4

unfoldable pub skip_message_header : Read (Unit {0})
skip_message_header r =
    if ltb (length r.buf) 2
    then none
    else if ltb (length r.buf) (header_len r.buf)
    then none
    else some (tt, record r { pos = header_len r.buf })

-- The message header and the submessage header, whose kind must be `i`.
abbrev expect : ℕ → ℕ → Read (Unit {0})
expect i found r = if found == i then some (tt, r) else none

unfoldable pub enter_submessage : ℕ → Read (Unit {0})
enter_submessage i = skip_message_header >>= λ _.
    read_u8 >>= λ found. (read_u8 >>= λ flags. (read_u16 >>= λ sub_len. expect i found))

abbrev is_success : Option (ℕ × Reader) → Bool
is_success none = false
is_success (some (status, r)) = (status == status_ok) || (status == status_ok_matched)

-- `xrce_session_parse_create_client_reply`
pub parse_create_client_reply : List ℕ → Bool
parse_create_client_reply buf =
    is_success ((enter_submessage submsg_status_agent >>= λ _. read_u8) (reader_init buf))

-- `parse_status_reply`
pub parse_status_reply : List ℕ → Bool
parse_status_reply buf = is_success (
    (enter_submessage submsg_status >>= λ _. (read_bytes 4 >>= λ related_request. read_u8))
      (reader_init buf))

-- `xrce_session_parse_create_reply` and `xrce_session_parse_delete_reply`
pub parse_create_reply : List ℕ → Bool
parse_create_reply buf = parse_status_reply buf

pub parse_delete_reply : List ℕ → Bool
parse_delete_reply buf = parse_status_reply buf

-- `xrce_session_parse_data`: the object and the sample, which is all that is left of the buffer.
abbrev rest_of : Option (ObjectId × Reader) → Option (ObjectId × List ℕ)
rest_of none = none
rest_of (some (oid, r)) = some (oid, drop r.pos r.buf)

unfoldable pub parse_data : List ℕ → Option (ObjectId × List ℕ)
parse_data buf = rest_of (
    (enter_submessage submsg_data >>= λ _. (read_bytes 2 >>= λ request_id. read_object_id))
      (reader_init buf))

-- `xrce_session_parse_acknack`: the first unacknowledged number and the bitmap.
abbrev value_of : {A : Type 0} → Option (A × Reader) → Option A
value_of none = none
value_of (some (a, r)) = some a

pub acknack_payload : Read (ℕ × ℕ)
acknack_payload = read_u16 >>= λ first. read_bytes 2 >>= λ bitmap.
    read_u8 >>= λ target. pure (first, get_or bitmap 0 0 + 256 * get_or bitmap 1 0)

pub parse_acknack : List ℕ → Option (ℕ × ℕ)
parse_acknack buf =
    value_of ((enter_submessage submsg_acknack >>= λ _. acknack_payload) (reader_init buf))
