-- ===== src/Firmware/Speaking.antt =====
-- What rtos/arm/ros2_demo.c keeps while it talks: all that went out on its UART is heard.
use Prim.Native.String.{String}
use rtos_kernel_from_scratch.Common.{
  ◌<◌, length-take, ◌^◌, ◌++◌, ltb, false, ◌-◌, ℕ, zero, suc, ◌+◌, ◌/◌, ◌%◌, ◌≤◌, ◌≡◌, refl, sym,
  ap, ◌∙◌, subst, true, Option, none, some, List, [], ◌∷◌, length, take, arith, Bool-cases, inl,
  inr, ℤ, pos, negsuc,
}
use rtos_kernel_from_scratch.Xrce.Serial.{
  FrameReader, FeedResult, in_progress, frame_ready, feed_error, reader_feed,
}
use rtos_kernel_from_scratch.Xrce.Secure.{
  SecureCtx, SecureResult, secure_ok, too_short, bad_tag, replayed, secure_wrap, secure_unwrap,
  overhead, put_counter_be, tag_len, compute_tag, scratch_len, counter_len,
}
use rtos_kernel_from_scratch.Xrce.Secure.Replay.{length-wrapped}
use rtos_kernel_from_scratch.Xrce.Serial.Bounds.{frame_encode-fits}
use rtos_kernel_from_scratch.Xrce.Session.{Session, ObjectId, Built, parse_data}
use rtos_kernel_from_scratch.Xrce.Session.Headers.{fitting}
use rtos_kernel_from_scratch.Xrce.Session.Frames.{spent}
use rtos_kernel_from_scratch.Xrce.Session.Requests.{
  Request, write_data, build, IsEncodable, request_message, build-request_message, room_of,
  length-request_message,
}
use rtos_kernel_from_scratch.Firmware.Node.{
  Build, ascii, serial_addr, best_effort_stream, frame_room, send_frame_buf_len, Node, put_bytes,
  puts, digits_of, uint_text, put_uint, put_int, put_encoded, send_wrapped, send_frame, message_of,
  send_built, take_setpoint, is_from, take_data, handle_incoming_frame, take_unwrapped, take_frame,
  take_result, poll, pace_and_poll_rx,
}
use rtos_kernel_from_scratch.Firmware.Heard.{
  IsHeard, IsHeard-append, IsHeard-fewer, all_plain, IsHeard-text, IsHeard-frame,
}

-- The largest payload of a frame of the node, with the overhead of the secure transport.
abbrev pub frame_max : ℕ
frame_max = frame_room + overhead

-- The node has said at least `m` frames that are not empty, and nothing that a listener would take for an error, and its key
-- has four bytes.
pub record IsClear (m : ℕ) (n : Node) : Type 0 where
  pub heard : IsHeard frame_max m n.uart
  pub key : length n.session.client_key ≡ 4

put_bytes-IsClear :
    (out : List ℕ) (n : Node) {m : ℕ} (k : ℕ)
    → IsHeard frame_max k out
    → IsClear m n
    → IsClear (k + m) (put_bytes out n)
put_bytes-IsClear out n {m} k h c = record {
  heard = IsHeard-append frame_max m k n.uart out c.heard h;
  key = c.key;
}

-- Fewer frames than were said.
pub IsClear-fewer : (m k : ℕ) (n : Node) → k ≤ m → IsClear m n → IsClear k n
IsClear-fewer m k n le c = record {
  heard = IsHeard-fewer frame_max m k n.uart le c.heard;
  key = c.key;
}

put_text-IsClear :
    (out : List ℕ) (n : Node) {m : ℕ}
    → all_plain out ≡ true
    → IsClear m n
    → IsClear m (put_bytes out n)
put_text-IsClear out n {m} p c =
    IsClear-fewer (0 + m) m (put_bytes out n) (omega arith)
      (put_bytes-IsClear out n 0 (IsHeard-text frame_max out p) c)

pub puts-IsClear :
    (s : String) (n : Node) {m : ℕ}
    → all_plain (ascii s) ≡ true
    → IsClear m n
    → IsClear m (puts s n)
puts-IsClear s n p c = put_text-IsClear (ascii s) n p c

digits_of-all_plain :
    (room v : ℕ) (out : List ℕ) → all_plain out ≡ true → all_plain (digits_of room v out) ≡ true
unfolding digits_of
digits_of-all_plain zero v out p = p
digits_of-all_plain (suc room) v out p =
    let digit : all_plain ((48 + v % 10) ∷ out) ≡ true = ground arith in
    let more = digits_of-all_plain room (v / 10) ((48 + v % 10) ∷ out) digit in ground arith

pub put_uint-IsClear : (v : ℕ) (n : Node) {m : ℕ} → IsClear m n → IsClear m (put_uint v n)
unfolding uint_text
put_uint-IsClear v n c =
    let digits = digits_of-all_plain 10 v [] refl in
    put_text-IsClear (uint_text v) n (ground arith) c

put_int-IsClear : (v : ℤ) (n : Node) {m : ℕ} → IsClear m n → IsClear m (put_int v n)
unfolding put_int
put_int-IsClear (pos v) n c = put_uint-IsClear v n c
put_int-IsClear (negsuc v) n c = put_uint-IsClear (v + 1) (puts "-" n) (puts-IsClear "-" n refl c)

-- A payload of at most the room of a frame is always sent, as one frame.
put_encoded-IsClear :
    (payload : List ℕ) (n : Node) {m : ℕ}
    → 0 < length payload
    → length payload ≤ frame_max
    → IsClear m n
    → IsClear (suc m) (put_encoded payload n)
put_encoded-IsClear payload n {m} full short c =
    let (frame, e, small) =
      frame_encode-fits send_frame_buf_len serial_addr serial_addr payload (omega arith) in
    rw e (
      IsClear-fewer (1 + m) (suc m) (put_bytes frame n) (omega arith) (
        put_bytes-IsClear frame n 1
          (IsHeard-frame frame_max send_frame_buf_len payload frame full short (omega arith) e) c))

secure_wrap-some_room :
    (ctx : SecureCtx) (payload : List ℕ)
    → length payload ≤ frame_room
    → (ctx' : SecureCtx) × (wrapped : List ℕ) × (secure_wrap ctx payload frame_max
        ≡ (ctx', some wrapped))
unfolding secure_wrap
secure_wrap-some_room ctx payload short =
    let a : ltb (scratch_len - counter_len) (length payload) ≡ false = ground arith in
    let b : ltb frame_max (length payload + overhead) ≡ false = ground arith in
    (
      record ctx { send_counter = (ctx.send_counter + 1) % 2 ^ 32 },
      put_counter_be ctx.send_counter
          ++ (take tag_len (compute_tag ctx ctx.send_counter payload) ++ payload),
      simp (a, b) refl,
    )

send_frame-IsClear :
    (cfg : Build) (payload : List ℕ) (n : Node) {m : ℕ}
    → 0 < length payload
    → length payload ≤ frame_room
    → IsClear m n
    → IsClear (suc m) (send_frame cfg payload n)
unfolding send_frame
send_frame-IsClear cfg payload n {m} full short c = elim (Bool-cases cfg.secure_link) [
  | inl e ↦
      let (ctx, wrapped, made) = secure_wrap-some_room n.uplink payload short in
      let same = length-wrapped n.uplink ctx payload wrapped frame_max made in
      simp e (
        subst (λ x. IsClear (suc m) (send_wrapped x n)) (sym made)
          (put_encoded-IsClear wrapped (record n { uplink = ctx }) (omega arith) (omega arith)
            (record { heard = c.heard; key = c.key })))
  | inr e ↦ simp e (put_encoded-IsClear payload n full (omega arith) c)
]

-- A message that a builder made for a buffer of no more than a frame, of a session with its key.
pub record IsFitting (b : Built) : Type 0 where
  pub said : 0 < length (message_of b.1)
  pub short : length (message_of b.1) ≤ frame_room
  pub key : length b.0.client_key ≡ 4

pub fitting-some : (cap : ℕ) (msg : List ℕ) → length msg ≤ cap → fitting cap msg ≡ some msg
fitting-some cap msg le = ground arith

spent-key : (s : Session) (cap : ℕ) → (spent s cap).client_key ≡ s.client_key
spent-key s cap = ground arith

pub build-IsFitting :
    (s : Session) (stream : ℕ) (r : Request) (cap : ℕ)
    → length s.client_key ≡ 4
    → IsEncodable r
    → room_of r ≤ cap
    → cap ≤ frame_room
    → IsFitting (build s stream r cap)
build-IsFitting s stream r cap key enc room le =
    let msg = request_message s stream r in
    let small = length-request_message s stream r key in
    let made = fitting-some cap msg (omega arith) in
    subst IsFitting (sym (build-request_message s stream r cap key enc)) record {
      said = rw made (omega arith);
      short = rw made (omega arith);
      key = ap (λ l. length l) (spent-key s cap) ∙ key;
    }

pub send_built-IsClear :
    (cfg : Build) (b : Built) (n : Node) {m : ℕ}
    → IsFitting b
    → IsClear m n
    → IsClear (suc m) (send_built cfg b n)
send_built-IsClear cfg (s, msg) n f c =
    send_frame-IsClear cfg (message_of msg) (record n { session = s }) f.said f.short
      (record { heard = c.heard; key = f.key })

take_setpoint-IsClear :
    (cfg : Build) (sample : List ℕ) (n : Node) {m : ℕ}
    → IsClear m n
    → IsClear m (take_setpoint cfg sample n)
take_setpoint-IsClear cfg sample n {m} c =
    let c1 = puts-IsClear "setpoint updated: " n refl c in
    let c2 = put_int-IsClear _ (puts "setpoint updated: " n) c1 in
    let c3 = puts-IsClear "\r\n" _ refl c2 in
    IsClear-fewer (suc m) m _ (omega arith) (
      send_built-IsClear cfg _ _
        (build-IsFitting _ best_effort_stream (write_data _ (take 4 sample)) 64 c3.key tt
          (omega (arith, length-take {0} 4 sample)) (omega arith))
        c3)

take_data-IsClear :
    (cfg : Build) (datareader : ObjectId) (d : Option (ObjectId × List ℕ)) (n : Node) {m : ℕ}
    → IsClear m n
    → IsClear m (take_data cfg datareader d n)
take_data-IsClear cfg datareader none n c = c
take_data-IsClear cfg datareader (some (from, sample)) n c =
    elim (Bool-cases (is_from datareader from sample)) [
      | inl e ↦ simp e (take_setpoint-IsClear cfg sample n c)
      | inr e ↦ simp e c
    ]

-- Changes that are not heard.
pub quiet :
    (n n' : Node) {m : ℕ} → n'.uart ≡ n.uart → n'.session ≡ n.session → IsClear m n → IsClear m n'
quiet n n' {m} u s c = record {
  heard = subst (IsHeard frame_max m) (sym u) c.heard;
  key = ap (λ x. length x.client_key) s ∙ c.key;
}

take_unwrapped-IsClear :
    (cfg : Build) (datareader : ObjectId) (x : SecureCtx × SecureResult) (n : Node) {m : ℕ}
    → IsClear m n
    → IsClear m (take_unwrapped cfg datareader x n)
unfolding handle_incoming_frame
take_unwrapped-IsClear cfg datareader (ctx, secure_ok plain) n c =
    take_data-IsClear cfg datareader (parse_data plain) (record n { downlink = ctx })
      (quiet n (record n { downlink = ctx }) refl refl c)
take_unwrapped-IsClear cfg datareader (ctx, too_short) n c =
    puts-IsClear "REJECTED downlink frame (auth failed)\r\n" _ refl
      (quiet n (record n { downlink = ctx }) refl refl c)
take_unwrapped-IsClear cfg datareader (ctx, bad_tag) n c =
    puts-IsClear "REJECTED downlink frame (auth failed)\r\n" _ refl
      (quiet n (record n { downlink = ctx }) refl refl c)
take_unwrapped-IsClear cfg datareader (ctx, replayed) n c =
    puts-IsClear "REJECTED downlink frame (auth failed)\r\n" _ refl
      (quiet n (record n { downlink = ctx }) refl refl c)

take_frame-IsClear :
    (cfg : Build) (datareader : ObjectId) (payload : List ℕ) (n : Node) {m : ℕ}
    → IsClear m n
    → IsClear m (take_frame cfg datareader payload n)
unfolding take_frame handle_incoming_frame
take_frame-IsClear cfg datareader payload n c = elim (Bool-cases cfg.secure_link) [
  | inl e ↦ simp e (take_unwrapped-IsClear cfg datareader (secure_unwrap n.downlink payload) n c)
  | inr e ↦ simp e (take_data-IsClear cfg datareader (parse_data payload) n c)
]

take_result-IsClear :
    (cfg : Build) (datareader : ObjectId) (x : FrameReader × FeedResult) (n : Node) {m : ℕ}
    → IsClear m n
    → IsClear m (take_result cfg datareader x n)
take_result-IsClear cfg datareader (r, in_progress) n c = quiet n _ refl refl c
take_result-IsClear cfg datareader (r, feed_error) n c = quiet n _ refl refl c
take_result-IsClear cfg datareader (r, frame_ready src len) n c =
    take_frame-IsClear cfg datareader (take len r.payload_buf) (record n { rx_reader = r })
      (quiet n _ refl refl c)

poll-IsClear :
    (cfg : Build) (datareader : ObjectId) (arriving : List (Option ℕ)) (n : Node) {m : ℕ}
    → IsClear m n
    → IsClear m (poll cfg datareader arriving n)
poll-IsClear cfg datareader [] n c = c
poll-IsClear cfg datareader (none ∷ later) n c = quiet n _ refl refl c
poll-IsClear cfg datareader (some byte ∷ later) n c =
    take_result-IsClear cfg datareader (reader_feed n.rx_reader byte)
      (record n { arriving = later }) (quiet n _ refl refl c)

pub pace_and_poll_rx-IsClear :
    (cfg : Build) (datareader : ObjectId) (rounds : ℕ) (n : Node) {m : ℕ}
    → IsClear m n
    → IsClear m (pace_and_poll_rx cfg datareader rounds n)
unfolding pace_and_poll_rx
pace_and_poll_rx-IsClear cfg datareader zero n c = c
pace_and_poll_rx-IsClear cfg datareader (suc rounds) n c =
    pace_and_poll_rx-IsClear cfg datareader rounds _ (poll-IsClear cfg datareader n.arriving n c)
