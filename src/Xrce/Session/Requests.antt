-- ===== src/Xrce/Session/Requests.antt =====
-- The abstract view of the builders of xrce/src/session.c: a client issues requests, and each of them
-- is a message with a fixed layout that carries the next numbers of the session.
use rtos_kernel_from_scratch.Common.{
  ◌≤◌, ℕ, ◌+◌, ◌/◌, ◌%◌, ◌^◌, ◌<◌, ◌≡◌, refl, ap, subst, Bool, true, false, List, [], ◌∷◌, ◌++◌,
  length, ◌==◌, arith, length-append, ℤ, pos, if◌then◌else◌, replicate,
}
use rtos_kernel_from_scratch.Xrce.Cdr.{le_bytes, to_word, write_i16, padding}
use rtos_kernel_from_scratch.Xrce.Cdr.Scalars.{length-le_bytes}
use rtos_kernel_from_scratch.Xrce.Session.{
  Session, ObjectId, object_id, object_id_bytes, Built, build_create, build_create_participant,
  build_create_xml, build_write_data, build_read_data, build_delete, create_payload, create_tail,
  submsg_create, submsg_delete, submsg_write_data, submsg_read_data, write_data_payload,
  read_data_payload, delete_payload, write_object_id, representation_as_xml_string, format_data,
}
use rtos_kernel_from_scratch.Xrce.Session.Layout.{
  Puts-int, Puts, Puts-seq, Puts-bytes, Puts-u8, Puts-u16, Puts-bool, Puts-string, Puts-eq,
  string_bytes, uint_bytes,
}
use rtos_kernel_from_scratch.Xrce.Session.Headers.{submessage, fitting, Puts-base_object_request}
use rtos_kernel_from_scratch.Xrce.Session.Frames.{spent, message, build_message-frame}

-- What a client can ask of the agent.
pub data Request : Type 0 where
  create_participant : ObjectId → ℤ → List ℕ → Request
  create_entity : ObjectId → ObjectId → List ℕ → Request
  write_data : ObjectId → List ℕ → Request
  read_data : ObjectId → ℕ → Request
  delete : ObjectId → Request

-- The builder that is called for a request.
abbrev pub build : Session → ℕ → Request → ℕ → Built
build s stream_id (create_participant oid domain xml) cap =
    build_create_participant s stream_id oid domain xml cap
build s stream_id (create_entity oid parent xml) cap =
    build_create_xml s stream_id oid parent xml cap
build s stream_id (write_data oid sample) cap = build_write_data s stream_id oid sample cap
build s stream_id (read_data oid preferred) cap = build_read_data s stream_id oid preferred cap
build s stream_id (delete oid) cap = build_delete s stream_id oid cap

abbrev kind_of : Request → ℕ
kind_of (create_participant oid domain xml) = submsg_create
kind_of (create_entity oid parent xml) = submsg_create
kind_of (write_data oid sample) = submsg_write_data
kind_of (read_data oid preferred) = submsg_read_data
kind_of (delete oid) = submsg_delete

abbrev base_request : ℕ → ObjectId → List ℕ
base_request request_id oid = (request_id / 256 % 256) ∷ (request_id % 256) ∷ object_id_bytes oid

-- The representation of an entity: its kind, two bytes of padding, and the description with its
-- length and its terminator.
abbrev representation : ObjectId → List ℕ → List ℕ
representation oid xml =
    oid.kind
    ∷ representation_as_xml_string
    ∷ 0
    ∷ 0
    ∷ (le_bytes 4 (length xml + 1) ++ (xml ++ (0 ∷ [])))

abbrev payload_of : ℕ → Request → List ℕ
payload_of request_id (create_participant oid domain xml) =
    base_request request_id oid
    ++ (representation oid xml
        ++ ((if length xml % 2 == 0 then 0 ∷ [] else []) ++ le_bytes 2 (to_word 16 domain)))
payload_of request_id (create_entity oid parent xml) =
    base_request request_id oid ++ (representation oid xml ++ object_id_bytes parent)
payload_of request_id (write_data oid sample) = base_request request_id oid ++ sample
payload_of request_id (read_data oid preferred) =
    base_request request_id oid
    ++ (preferred ∷ format_data ∷ 0 ∷ 1 ∷ 255 ∷ 255 ∷ 0 ∷ 0 ∷ 0 ∷ 0 ∷ 0 ∷ 0 ∷ [])
payload_of request_id (delete oid) = base_request request_id oid

-- A description has a length that its 32 bits can tell.
abbrev pub IsEncodable : Request → Type 0
IsEncodable (create_participant oid domain xml) = length xml + 1 < 2 ^ 32
IsEncodable (create_entity oid parent xml) = length xml + 1 < 2 ^ 32
IsEncodable (write_data oid sample) = Unit
IsEncodable (read_data oid preferred) = Unit
IsEncodable (delete oid) = Unit

-- The message of a request.
abbrev pub request_message : Session → ℕ → Request → List ℕ
request_message s stream_id r = message s stream_id (kind_of r) (payload_of s.next_request_id r)

Puts-read_data :
    (oid : ObjectId) (preferred request_id : ℕ)
    → Puts 12
        (read_data_payload oid preferred request_id)
        (payload_of request_id (read_data oid preferred))
unfolding read_data_payload le_bytes
Puts-read_data oid preferred request_id =
    Puts-seq 12 _ _ (base_request request_id oid) _ (Puts-base_object_request 12 request_id oid) (
      Puts-seq 16 _ _ (preferred ∷ []) _ (Puts-u8 16 preferred) (
        Puts-seq 17 _ _ (format_data ∷ []) _ (Puts-u8 17 format_data) (
          Puts-seq 18 _ _ (0 ∷ []) _ (Puts-bool 18 false) (
            Puts-seq 19 _ _ (1 ∷ []) _ (Puts-bool 19 true) (
              Puts-seq 20 _ _ (le_bytes 2 65535) _ (Puts-u16 20 65535 refl) (
                Puts-seq 22 _ _ (le_bytes 2 0) _ (Puts-u16 22 0 refl)
                  (Puts-seq 24 _ _ (le_bytes 2 0) _ (Puts-u16 24 0 refl) (Puts-u16 26 0 refl))))))))

Puts-write_data :
    (oid : ObjectId) (sample : List ℕ) (request_id : ℕ)
    → Puts 12
        (write_data_payload oid sample request_id)
        (payload_of request_id (write_data oid sample))
unfolding write_data_payload
Puts-write_data oid sample request_id =
    Puts-seq 12 _ _ (base_request request_id oid) _ (Puts-base_object_request 12 request_id oid)
      (Puts-bytes 16 sample)

Puts-delete :
    (oid : ObjectId) (request_id : ℕ)
    → Puts 12 (delete_payload oid request_id) (payload_of request_id (delete oid))
unfolding delete_payload
Puts-delete oid request_id = Puts-base_object_request 12 request_id oid

length-string_bytes : (xml : List ℕ) → length (string_bytes 18 xml) ≡ length xml + 7
length-string_bytes xml =
    let l1 = length-append {0} (uint_bytes 18 4 (length xml + 1)) (xml ++ (0 ∷ [])) in
    let l2 = length-append {0} xml (0 ∷ []) in
    let l3 = length-le_bytes 4 (length xml + 1) in omega arith

Puts-create :
    (oid parent : ObjectId) (xml : List ℕ) (is_participant : Bool) (domain : ℤ) (request_id : ℕ)
    (tail : List ℕ)
    → length xml + 1 < 2 ^ 32
    → Puts (length xml + 25) (create_tail is_participant domain parent) tail
    → Puts 12
        (create_payload oid xml is_participant domain parent request_id)
        (base_request request_id oid ++ (representation oid xml ++ tail))
unfolding create_payload
Puts-create oid parent xml is_participant domain request_id tail small puts =
    let place : length xml + 25 ≡ 18 + length (string_bytes 18 xml) =
      omega (arith, length-string_bytes xml) in
    Puts-seq 12 _ _ (base_request request_id oid) _ (Puts-base_object_request 12 request_id oid) (
      Puts-seq 16 _ _ (oid.kind ∷ []) _ (Puts-u8 16 oid.kind) (
        Puts-seq 17 _ _ (representation_as_xml_string ∷ []) _ (Puts-u8 17 2) (
          Puts-seq 18 _ _ (string_bytes 18 xml) tail (Puts-string 18 xml small)
            (subst (λ n. Puts n (create_tail is_participant domain parent) tail) place puts))))

Puts-domain :
    (n : ℕ) (domain : ℤ)
    → Puts
        (n + 25)
        (write_i16 domain)
        ((if n % 2 == 0 then 0 ∷ [] else []) ++ le_bytes 2 (to_word 16 domain))
Puts-domain n domain =
    let pad : replicate (padding (n + 25) 0 2) 0 ≡ (if n % 2 == 0 then 0 ∷ [] else []) =
      ground arith in
    Puts-eq (n + 25) (write_i16 domain) (uint_bytes (n + 25) 2 (to_word 16 domain)) _
      (ap (λ pad. pad ++ le_bytes 2 (to_word 16 domain)) pad) (Puts-int (n + 25) domain)

-- Every builder of a numbered request implements its specification, for a session whose key has four
-- bytes and a description of fewer than 2 ^ 32 - 1 bytes, into a buffer of any size: below 8 bytes it
-- spends no number, below 12 only the sequence number, else the request id as well; it gives the whole
-- message of the request, its length field and padding in place, if the buffer has room for it, and no
-- message otherwise.
pub build-request_message :
    (s : Session) (stream_id : ℕ) (r : Request) (cap : ℕ)
    → length s.client_key ≡ 4
    → IsEncodable r
    → build s stream_id r cap ≡ (spent s cap, fitting cap (request_message s stream_id r))
unfolding build_create build_create_participant build_create_xml build_write_data build_read_data
    build_delete create_tail write_object_id
build-request_message s stream_id (create_participant oid domain xml) cap key small =
    build_message-frame s stream_id submsg_create cap
      (create_payload oid xml true domain (object_id 0 0)) _ key
      (Puts-create oid (object_id 0 0) xml true domain s.next_request_id _ small
        (Puts-domain (length xml) domain))
build-request_message s stream_id (create_entity oid parent xml) cap key small =
    build_message-frame s stream_id submsg_create cap (create_payload oid xml false (pos 0) parent)
      _ key
      (Puts-create oid parent xml false (pos 0) s.next_request_id _ small
        (Puts-bytes (length xml + 25) (object_id_bytes parent)))
build-request_message s stream_id (write_data oid sample) cap key small =
    build_message-frame s stream_id submsg_write_data cap (write_data_payload oid sample) _ key
      (Puts-write_data oid sample s.next_request_id)
build-request_message s stream_id (read_data oid preferred) cap key small =
    build_message-frame s stream_id submsg_read_data cap (read_data_payload oid preferred) _ key
      (Puts-read_data oid preferred s.next_request_id)
build-request_message s stream_id (delete oid) cap key small =
    build_message-frame s stream_id submsg_delete cap (delete_payload oid) _ key
      (Puts-delete oid s.next_request_id)

-- The bytes that the message of a request takes at most.
abbrev pub room_of : Request → ℕ
room_of (create_participant oid domain xml) = length xml + 28
room_of (create_entity oid parent xml) = length xml + 27
room_of (write_data oid sample) = length sample + 16
room_of (read_data oid preferred) = 28
room_of (delete oid) = 16

length-payload_of : (id : ℕ) (r : Request) → length (payload_of id r) + 12 ≤ room_of r
unfolding le_bytes
length-payload_of id (create_participant oid domain xml) =
    let l1 = length-append {0} xml (0 ∷ []) in
    let tail = (if length xml % 2 == 0 then 0 ∷ [] else []) ++ le_bytes 2 (to_word 16 domain) in
    let l2 = length-append {0} (xml ++ (0 ∷ [])) tail in
    let l3 : length tail ≤ 3 = ground arith in omega arith
length-payload_of id (create_entity oid parent xml) =
    let l1 = length-append {0} xml (0 ∷ []) in
    let l2 = length-append {0} (xml ++ (0 ∷ [])) (object_id_bytes parent) in omega arith
length-payload_of id (write_data oid sample) = omega arith
length-payload_of id (read_data oid preferred) = omega arith
length-payload_of id (delete oid) = omega arith

pub length-request_message :
    (s : Session) (stream_id : ℕ) (r : Request)
    → length s.client_key ≡ 4
    → length (request_message s stream_id r) ≤ room_of r
length-request_message s stream_id r key =
    let payload = payload_of s.next_request_id r in
    let l = length-append {0} s.client_key (submessage (kind_of r) payload) in
    let p = length-payload_of s.next_request_id r in omega arith
