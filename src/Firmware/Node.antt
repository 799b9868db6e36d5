-- ===== src/Firmware/Node.antt =====
-- rtos/arm/ros2_demo.c: the state of the node, its output, and what it does with incoming bytes.
use Prim.Native.Char.{code}
use Prim.Native.String.{String}
use rtos_kernel_from_scratch.Common.{
  ℕ, zero, suc, ◌+◌, ◌/◌, ◌%◌, Bool, ◌&&◌, not, Option, none, some, List, [], ◌∷◌, ◌++◌, length,
  take, ℤ, pos, negsuc, ◌==◌, ltb, if◌then◌else◌,
}
use rtos_kernel_from_scratch.Xrce.Cdr.{le_value, of_word}
use rtos_kernel_from_scratch.Xrce.Serial.{
  FrameReader, FeedResult, in_progress, frame_ready, feed_error, frame_encode, reader_feed,
}
use rtos_kernel_from_scratch.Xrce.Serial.Bounds.{max_encoded_len}
use rtos_kernel_from_scratch.Xrce.Secure.{
  SecureCtx, SecureResult, secure_ok, too_short, bad_tag, replayed, secure_wrap, secure_unwrap,
  overhead,
}
use rtos_kernel_from_scratch.Xrce.Session.{Session, ObjectId, Built, parse_data, build_write_data}

-- The characters of a string constant.
abbrev pub ascii : String → List ℕ
ascii String.[] = []
ascii (String.◌∷◌ c s) = code c ∷ ascii s

-- The macros that a build chooses: `SECURE_LINK`, `NODE_ID` and the text of `NODE_ID`.
pub record Build : Type 0 where
  pub secure_link : Bool
  pub node_id : ℕ
  pub node_id_str : List ℕ

-- `NODE_SUFFIX`
abbrev pub node_suffix : Build → List ℕ
node_suffix cfg = if cfg.node_id == 0 then [] else ascii "_" ++ cfg.node_id_str

abbrev pub serial_addr : ℕ
serial_addr = 0

abbrev pub best_effort_stream : ℕ
best_effort_stream = 1

abbrev pub frame_room : ℕ
frame_room = 256

-- `SEND_FRAME_BUF_LEN`
abbrev pub send_frame_buf_len : ℕ
send_frame_buf_len = max_encoded_len (frame_room + overhead)

-- The objects that `announce_entities` names.
pub record Entities : Type 0 where
  pub participant : ObjectId
  pub topic : ObjectId
  pub publisher : ObjectId
  pub datawriter : ObjectId
  pub cmd_topic : ObjectId
  pub subscriber : ObjectId
  pub datareader : ObjectId
  pub pong_topic : ObjectId
  pub pong_datawriter : ObjectId

pub record Node : Type 0 where
  pub session : Session
  pub uplink : SecureCtx
  pub downlink : SecureCtx
  pub rx_reader : FrameReader
  pub entities : Entities
  pub arriving : List (Option ℕ)
  pub uart : List ℕ

-- `uart_putc` over a row of bytes
abbrev pub put_bytes : List ℕ → Node → Node
put_bytes out n = record n { uart = n.uart ++ out }

-- `uart_puts`
abbrev pub puts : String → Node → Node
puts s = put_bytes (ascii s)

-- The first loop of `uart_put_uint`, of at most `room` digits, turned round as the second one does.
unfoldable pub digits_of : ℕ → ℕ → List ℕ → List ℕ
digits_of zero v out = out
digits_of (suc room) v out = if v == 0 then out else digits_of room (v / 10) ((48 + v % 10) ∷ out)

unfoldable pub uint_text : ℕ → List ℕ
uint_text v = if v == 0 then ascii "0" else digits_of 10 v []

-- `uart_put_uint`, `uart_put_int`
abbrev pub put_uint : ℕ → Node → Node
put_uint v = put_bytes (uint_text v)

unfoldable pub put_int : ℤ → Node → Node
put_int (pos v) n = put_uint v n
put_int (negsuc v) n = put_uint (v + 1) (puts "-" n)

-- `send_frame` behind the wrapping
abbrev put_frame : Option (List ℕ) → Node → Node
put_frame none n = puts "ERROR: send_frame buffer too small for this payload\r\n" n
put_frame (some frame) n = put_bytes frame n

abbrev pub put_encoded : List ℕ → Node → Node
put_encoded payload = put_frame (frame_encode send_frame_buf_len serial_addr serial_addr payload)

abbrev pub send_wrapped : SecureCtx × Option (List ℕ) → Node → Node
send_wrapped (ctx, none) n =
    puts "ERROR: secure wrap failed (payload too large)\r\n" (record n { uplink = ctx })
send_wrapped (ctx, some wrapped) n = put_encoded wrapped (record n { uplink = ctx })

-- `send_frame`
unfoldable pub send_frame : Build → List ℕ → Node → Node
send_frame cfg payload n =
    if cfg.secure_link
    then send_wrapped (secure_wrap n.uplink payload (frame_room + overhead)) n
    else put_encoded payload n

-- The bytes that a builder left in `msg`; its length is 0 where it failed.
abbrev pub message_of : Option (List ℕ) → List ℕ
message_of none = []
message_of (some msg) = msg

abbrev pub send_built : Build → Built → Node → Node
send_built cfg (s, msg) n = send_frame cfg (message_of msg) (record n { session = s })

-- `handle_incoming_frame`, for a sample from the given object.
abbrev pub take_setpoint : Build → List ℕ → Node → Node
take_setpoint cfg sample n =
    let setpoint = of_word 32 (le_value (take 4 sample)) in
    let n' = puts "\r\n" (put_int setpoint (puts "setpoint updated: " n)) in
    send_built cfg
      (build_write_data n'.session best_effort_stream n'.entities.pong_datawriter (take 4 sample)
        64)
      n'

abbrev pub is_from : ObjectId → ObjectId → List ℕ → Bool
is_from datareader from sample =
    (from.id == datareader.id) && (from.kind == datareader.kind) && not (ltb (length sample) 4)

abbrev pub take_data : Build → ObjectId → Option (ObjectId × List ℕ) → Node → Node
take_data cfg datareader none n = n
take_data cfg datareader (some (from, sample)) n =
    if is_from datareader from sample then take_setpoint cfg sample n else n

unfoldable pub handle_incoming_frame : Build → ObjectId → List ℕ → Node → Node
handle_incoming_frame cfg datareader payload n = take_data cfg datareader (parse_data payload) n

abbrev pub take_unwrapped : Build → ObjectId → SecureCtx × SecureResult → Node → Node
take_unwrapped cfg datareader (ctx, secure_ok plain) n =
    handle_incoming_frame cfg datareader plain (record n { downlink = ctx })
take_unwrapped cfg datareader (ctx, too_short) n =
    puts "REJECTED downlink frame (auth failed)\r\n" (record n { downlink = ctx })
take_unwrapped cfg datareader (ctx, bad_tag) n =
    puts "REJECTED downlink frame (auth failed)\r\n" (record n { downlink = ctx })
take_unwrapped cfg datareader (ctx, replayed) n =
    puts "REJECTED downlink frame (auth failed)\r\n" (record n { downlink = ctx })

unfoldable pub take_frame : Build → ObjectId → List ℕ → Node → Node
take_frame cfg datareader payload n =
    if cfg.secure_link
    then take_unwrapped cfg datareader (secure_unwrap n.downlink payload) n
    else handle_incoming_frame cfg datareader payload n

-- A round of the loop of `pace_and_poll_rx` behind `uart_getc_nonblocking`
abbrev pub take_result : Build → ObjectId → FrameReader × FeedResult → Node → Node
take_result cfg datareader (r, in_progress) n = record n { rx_reader = r }
take_result cfg datareader (r, feed_error) n = record n { rx_reader = r }
take_result cfg datareader (r, frame_ready src len) n =
    take_frame cfg datareader (take len r.payload_buf) (record n { rx_reader = r })

abbrev pub poll : Build → ObjectId → List (Option ℕ) → Node → Node
poll cfg datareader [] n = n
poll cfg datareader (none ∷ later) n = record n { arriving = later }
poll cfg datareader (some byte ∷ later) n =
    take_result cfg datareader (reader_feed n.rx_reader byte) (record n { arriving = later })

-- `pace_and_poll_rx`
unfoldable pub pace_and_poll_rx : Build → ObjectId → ℕ → Node → Node
pace_and_poll_rx cfg datareader zero n = n
pace_and_poll_rx cfg datareader (suc rounds) n =
    pace_and_poll_rx cfg datareader rounds (poll cfg datareader n.arriving n)
