-- ===== src/Xrce/Session/Frames.antt =====
-- The frame that every builder of xrce/src/session.c puts round its payload: the message header, the
-- submessage header with the length of the payload, and the numbers of the session that it takes.
use rtos_kernel_from_scratch.Common.{
  ℕ, ◌≤◌, ◌<◌, ◌≡◌, refl, ap, ◌∙◌, subst, some, none, List, ◌++◌, length, arith, length-append, ltb,
  if◌then◌else◌, dec_le,
}
use rtos_kernel_from_scratch.Xrce.Cdr.{Writer, Write, writer_init}
use rtos_kernel_from_scratch.Xrce.Session.{
  Session, write_message_header, submessage_header, write_payload, write_control,
  flag_endianness_le, next_seq, next_request, build_submessage, build_message,
}
use rtos_kernel_from_scratch.Xrce.Session.Layout.{write_bytes-room, write_bytes-short, Puts}
use rtos_kernel_from_scratch.Xrce.Session.Headers.{
  header_bytes, submessage, Puts-header, Puts-submessage_header, fitting, submessage_start,
  write_payload-fitting,
}

-- The session after a builder of numbered requests that had `cap` bytes: the sequence number is
-- spent where the message header fits, the request id where the submessage header fits.
abbrev pub spent : Session → ℕ → Session
spent s cap = if ltb cap 8 then s else if ltb cap 12 then next_seq s else next_request (next_seq s)

abbrev pub message : Session → ℕ → ℕ → List ℕ → List ℕ
message s stream_id i payload =
    header_bytes s.session_id stream_id s.out_seq_num s.client_key ++ submessage i payload

abbrev behind : List ℕ → ℕ → Writer
behind front cap = record { out = front; cap = cap; align_base = 0 }

submessage_header-room :
    (front : List ℕ) (i cap : ℕ)
    → length front ≡ 8
    → 12 ≤ cap
    → submessage_header i flag_endianness_le (behind front cap)
      ≡ some (submessage_start front i cap)
submessage_header-room front i cap e room =
    Puts-submessage_header i (behind front cap) e refl (omega arith)
    ∙ write_bytes-room _ (behind front cap) (omega arith)

submessage_header-short :
    (front : List ℕ) (i cap : ℕ)
    → length front ≡ 8
    → 8 ≤ cap
    → cap < 12
    → submessage_header i flag_endianness_le (behind front cap) ≡ none
submessage_header-short front i cap e room short =
    Puts-submessage_header i (behind front cap) e refl room
    ∙ write_bytes-short _ (behind front cap) (omega arith)

payload-fitting :
    (front payload : List ℕ) (write : Write) (i cap : ℕ)
    → length front ≡ 8
    → 12 ≤ cap
    → Puts 12 write payload
    → write_payload (length front) write (submessage_start front i cap)
      ≡ fitting cap (front ++ submessage i payload)
payload-fitting front payload write i cap e room puts =
    write_payload-fitting front payload write i cap (omega arith)
      (subst (λ n. Puts n write payload) (omega arith) puts)

build_submessage-lem :
    (s : Session) (front : List ℕ) (i cap : ℕ) (payload : ℕ → Write) (bytes : List ℕ)
    → length front ≡ 8
    → 8 ≤ cap
    → Puts 12 (payload s.next_request_id) bytes
    → build_submessage i payload s (some (behind front cap))
      ≡ (spent s cap, fitting cap (front ++ submessage i bytes))
unfolding build_submessage
build_submessage-lem s front i cap payload bytes e room puts =
    let l = length-append {0} front (submessage i bytes) in
    elim (dec_le 12 cap) [
      | yes le_ ↦
          let h = submessage_header-room front i cap e le_ in
          let p = payload-fitting front bytes (payload s.next_request_id) i cap e le_ puts in
          let after : next_request (next_seq s) ≡ spent s cap = ground arith in
          rw (h, build_submessage, p)
            (ap (λ s'. (s', fitting cap (front ++ submessage i bytes))) after)
      | no gt_ ↦
          let h = submessage_header-short front i cap e room (omega arith) in
          rw (h, build_submessage) (ground arith)
    ]

write_control-lem :
    (front : List ℕ) (i cap : ℕ) (payload : Write) (bytes : List ℕ)
    → length front ≡ 8
    → 8 ≤ cap
    → Puts 12 payload bytes
    → write_control i payload (some (behind front cap)) ≡ fitting cap (front ++ submessage i bytes)
unfolding write_control
write_control-lem front i cap payload bytes e room puts =
    let l = length-append {0} front (submessage i bytes) in
    elim (dec_le 12 cap) [
      | yes le_ ↦
          let h = submessage_header-room front i cap e le_ in
          rw (h, write_control) (payload-fitting front bytes payload i cap e le_ puts)
      | no gt_ ↦
          let h = submessage_header-short front i cap e room (omega arith) in
          rw (h, write_control) (ground arith)
    ]

-- A builder with a numbered request puts the frame round its payload if it fits, and nothing else.
pub build_message-frame :
    (s : Session) (stream_id i cap : ℕ) (payload : ℕ → Write) (bytes : List ℕ)
    → length s.client_key ≡ 4
    → Puts 12 (payload s.next_request_id) bytes
    → build_message i payload s stream_id cap
      ≡ (spent s cap, fitting cap (message s stream_id i bytes))
unfolding build_message build_submessage
build_message-frame s stream_id i cap payload bytes key puts =
    let front = header_bytes s.session_id stream_id s.out_seq_num s.client_key in
    let start = writer_init cap in
    let p =
      Puts-header s.session_id stream_id s.out_seq_num s.client_key start refl refl (omega arith) in
    let l = length-append {0} front (submessage i bytes) in
    elim (dec_le 8 cap) [
      | yes le_ ↦
          ap (build_submessage i payload s) (p ∙ write_bytes-room front start (omega arith))
          ∙ build_submessage-lem s front i cap payload bytes (omega arith) le_ puts
      | no gt_ ↦
          ap (build_submessage i payload s) (p ∙ write_bytes-short front start (omega arith))
          ∙ ground arith
    ]

-- So does a builder of a message without numbers of the session.
pub write_control-frame :
    (session_id : ℕ) (key : List ℕ) (i cap : ℕ) (payload : Write) (bytes : List ℕ)
    → length key ≡ 4
    → Puts 12 payload bytes
    → write_control i payload (write_message_header session_id 0 0 key (writer_init cap))
      ≡ fitting cap (header_bytes session_id 0 0 key ++ submessage i bytes)
unfolding write_control
write_control-frame session_id key i cap payload bytes e puts =
    let front = header_bytes session_id 0 0 key in
    let start = writer_init cap in
    let p = Puts-header session_id 0 0 key start refl refl (omega arith) in
    let l = length-append {0} front (submessage i bytes) in
    elim (dec_le 8 cap) [
      | yes le_ ↦
          ap (write_control i payload) (p ∙ write_bytes-room front start (omega arith))
          ∙ write_control-lem front i cap payload bytes (omega arith) le_ puts
      | no gt_ ↦
          ap (write_control i payload) (p ∙ write_bytes-short front start (omega arith))
          ∙ ground arith
    ]
