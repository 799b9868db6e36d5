-- ===== src/Xrce/Session/Headers.antt =====
-- The two headers of a message of xrce/src/session.c, and the payload with its length written back.
use rtos_kernel_from_scratch.Common.{
  ℕ, suc, ◌+◌, ◌-◌, ◌/◌, ◌%◌, ◌≤◌, ◌≡◌, refl, ap, ◌∙◌, some, none, Option, List, [], ◌∷◌, ◌++◌,
  append_assoc, length, set, arith, length-append, ltb, if◌then◌else◌, dec_le,
}
use rtos_kernel_from_scratch.Xrce.Cdr.{Writer, Write, le_bytes}
use rtos_kernel_from_scratch.Xrce.Session.{
  ObjectId, object_id_bytes, write_object_id, write_base_object_request, write_message_header,
  submessage_header, backpatch_length, write_payload, flag_endianness_le,
}
use rtos_kernel_from_scratch.Xrce.Session.Layout.{
  write_bytes-room, write_bytes-short, Puts, Puts-seq, Puts-bytes, Puts-u8, Puts-u16,
}

-- The message header, whose key is there for a session id below 0x80.
abbrev pub header_bytes : ℕ → ℕ → ℕ → List ℕ → List ℕ
header_bytes session_id stream_id seq_num key =
    session_id ∷ stream_id ∷ (seq_num % 256) ∷ (seq_num / 256 % 256) ∷ key

-- The submessage of kind `i`: the number of its bytes is written in 16 bits.
abbrev pub submessage : ℕ → List ℕ → List ℕ
submessage i payload =
    i ∷ flag_endianness_le ∷ (length payload % 256) ∷ (length payload / 256 % 256) ∷ payload

pub Puts-header :
    (session_id stream_id seq_num : ℕ) (key : List ℕ)
    → Puts 0
        (write_message_header session_id stream_id seq_num key)
        (header_bytes session_id stream_id seq_num key)
unfolding write_message_header le_bytes
Puts-header session_id stream_id seq_num key =
    Puts-seq 0 _ _ (session_id ∷ []) _ (Puts-u8 0 session_id) (
      Puts-seq 1 _ _ (stream_id ∷ []) _ (Puts-u8 1 stream_id)
        (Puts-seq 2 _ _ (le_bytes 2 seq_num) key (Puts-u16 2 seq_num refl) (Puts-bytes 4 key)))

pub Puts-submessage_header :
    (i : ℕ) → Puts 8 (submessage_header i flag_endianness_le) (i ∷ flag_endianness_le ∷ 0 ∷ 0 ∷ [])
unfolding submessage_header le_bytes
Puts-submessage_header i =
    Puts-seq 8 _ _ (i ∷ []) _ (Puts-u8 8 i) (
      Puts-seq 9 _ _ (flag_endianness_le ∷ []) _ (Puts-u8 9 flag_endianness_le)
        (Puts-u16 10 0 refl))

pub Puts-base_object_request :
    (n request_id : ℕ) (oid : ObjectId)
    → Puts n
        (write_base_object_request request_id oid)
        ((request_id / 256 % 256) ∷ (request_id % 256) ∷ object_id_bytes oid)
unfolding write_base_object_request write_object_id
Puts-base_object_request n request_id oid =
    Puts-seq n _ _ ((request_id / 256 % 256) ∷ (request_id % 256) ∷ []) (object_id_bytes oid)
      (Puts-bytes n _) (Puts-bytes _ (object_id_bytes oid))

suc-add : (m n : ℕ) → suc m + n ≡ suc (m + n)
suc-add m n = omega arith

set-append : (xs ys : List ℕ) (i v : ℕ) → set (xs ++ ys) (length xs + i) v ≡ xs ++ set ys i v
set-append [] ys i v = ap (λ j. set ys j v) (omega arith)
set-append (x ∷ xs) ys i v =
    ap (λ j. set (x ∷ (xs ++ ys)) j v) (suc-add (length xs) i)
    ∙ ap (λ l. x ∷ l) (set-append xs ys i v)

backpatch_length-lem :
    (front payload : List ℕ) (i flags : ℕ)
    → backpatch_length (front ++ (i ∷ flags ∷ 0 ∷ 0 ∷ payload)) (length front) (length payload)
      ≡ front ++ (i ∷ flags ∷ (length payload % 256) ∷ (length payload / 256 % 256) ∷ payload)
unfolding backpatch_length
backpatch_length-lem front payload i flags =
    ap (λ l. set l (length front + 3) (length payload / 256 % 256))
      (set-append front (i ∷ flags ∷ 0 ∷ 0 ∷ payload) 2 (length payload % 256))
    ∙ set-append front (i ∷ flags ∷ (length payload % 256) ∷ 0 ∷ payload) 3
        (length payload / 256 % 256)

-- What a payload and the length in front of it come to in a buffer of `cap` bytes.
abbrev pub fitting : ℕ → List ℕ → Option (List ℕ)
fitting cap message = if ltb cap (length message) then none else some message

abbrev pub submessage_start : List ℕ → ℕ → ℕ → Writer
submessage_start front i cap = record {
  out = front ++ (i ∷ flag_endianness_le ∷ 0 ∷ 0 ∷ []);
  cap = cap;
  align_base = 0;
}

write_payload-short :
    (header_pos : ℕ) (write : Write) (w : Writer)
    → write w ≡ none
    → write_payload header_pos write w ≡ none
unfolding write_payload
write_payload-short header_pos write w e = rw (e, write_payload)

write_payload-whole :
    (header_pos : ℕ) (write : Write) (w w' : Writer)
    → write w ≡ some w'
    → write_payload header_pos write w
      ≡ some (backpatch_length w'.out header_pos (length w'.out - length w.out))
unfolding write_payload
write_payload-whole header_pos write w w' e = rw (e, write_payload)

patched :
    (front payload : List ℕ) (i cap : ℕ)
    → (let w = submessage_start front i cap in
        backpatch_length
          (w.out ++ payload)
          (length front)
          (length (w.out ++ payload) - length w.out))
      ≡ front ++ submessage i payload
patched front payload i cap =
    let w = submessage_start front i cap in
    let l3 = length-append {0} w.out payload in
    let size : length (w.out ++ payload) - length w.out ≡ length payload = omega arith in
    ap (backpatch_length (w.out ++ payload) (length front)) size
    ∙ ap (λ l. backpatch_length l (length front) (length payload))
        (append_assoc front (i ∷ flag_endianness_le ∷ 0 ∷ 0 ∷ []) payload)
    ∙ backpatch_length-lem front payload i flag_endianness_le

pub write_payload-fitting :
    (front payload : List ℕ) (write : Write) (i cap : ℕ)
    → length front + 4 ≤ cap
    → Puts (length front + 4) write payload
    → write_payload (length front) write (submessage_start front i cap)
      ≡ fitting cap (front ++ submessage i payload)
write_payload-fitting front payload write i cap room puts =
    let w = submessage_start front i cap in
    let l1 = length-append {0} front (i ∷ flag_endianness_le ∷ 0 ∷ 0 ∷ []) in
    let l2 = length-append {0} front (submessage i payload) in
    let p = puts w (omega arith) refl room in
    elim (dec_le (length payload) (cap - length w.out)) [
      | yes le_ ↦
          let whole = p ∙ write_bytes-room payload w le_ in
          write_payload-whole (length front) write w _ whole
          ∙ ap some (patched front payload i cap)
          ∙ ground arith
      | no gt_ ↦
          write_payload-short (length front) write w (p ∙ write_bytes-short payload w (omega arith))
          ∙ ground arith
    ]
