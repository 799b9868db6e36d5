-- ===== src/Xrce/Serial.antt =====
-- xrce/src/serial_transport.c: frames on a serial line. A frame is a flag byte and stuffed bytes:
-- two addresses, the length, the payload and its CRC.
pub mod Feeding
pub mod RoundTrip
pub mod Bounds
use rtos_kernel_from_scratch.Common.{
  ℕ, zero, suc, ◌+◌, ◌*◌, ◌/◌, ◌%◌, ◌^◌, Bool, true, false, not, ◌&&◌, ◌||◌, Option, none, some,
  List, [], ◌∷◌, ◌++◌, length, set, bit_xor, ◌==◌, ltb, leb, if◌then◌else◌,
}

-- `XRCE_SERIAL_FLAG`, `XRCE_SERIAL_ESC` and `XRCE_SERIAL_XOR`
abbrev pub flag_byte : ℕ
flag_byte = 0x7E

abbrev pub esc_byte : ℕ
esc_byte = 0x7D

abbrev pub xor_byte : ℕ
xor_byte = 0x20

-- The loop of `crc16_update`, `n` rounds of it.
unfoldable pub crc16_shift : ℕ → ℕ → ℕ
crc16_shift zero crc = crc
crc16_shift (suc n) crc =
    crc16_shift n (if crc % 2 == 1 then bit_xor (crc / 2) 0xA001 % 2 ^ 16 else crc / 2 % 2 ^ 16)

-- `crc16_update`
unfoldable pub crc16_update : ℕ → ℕ → ℕ
crc16_update crc byte = crc16_shift 8 (bit_xor crc byte % 2 ^ 16)

-- The loop of `xrce_serial_crc16`, from a CRC so far.
pub crc16_from : ℕ → List ℕ → ℕ
crc16_from crc [] = crc
crc16_from crc (b ∷ bs) = crc16_from (crc16_update crc b) bs

-- `xrce_serial_crc16`
pub crc16 : List ℕ → ℕ
crc16 bytes = crc16_from 0 bytes

-- `put_stuffed`; `out` is what has been written, so `*pos` is its length.
unfoldable pub put_stuffed : ℕ → List ℕ → ℕ → Option (List ℕ)
put_stuffed cap out byte =
    if (byte == flag_byte) || (byte == esc_byte)
    then (if ltb cap (length out + 2)
        then none
        else some (out ++ (esc_byte ∷ (bit_xor byte xor_byte % 256) ∷ [])))
    else (if ltb cap (length out + 1) then none else some (out ++ (byte ∷ [])))

-- A row of `put_stuffed`, up to the first that fails.
unfoldable pub put_all : ℕ → List ℕ → List ℕ → Option (List ℕ)
put_all cap out [] = some out
put_all cap out (b ∷ bs) = elim (put_stuffed cap out b) [
  | none ↦ none
  | some out' ↦ put_all cap out' bs
]

-- The loop over the payload, which also runs the CRC.
unfoldable pub put_payload : ℕ → ℕ → List ℕ → List ℕ → Option (ℕ × List ℕ)
put_payload cap crc out [] = some (crc, out)
put_payload cap crc out (b ∷ bs) = elim (put_stuffed cap out b) [
  | none ↦ none
  | some out' ↦ put_payload cap (crc16_update crc b) out' bs
]

-- The two bytes of a 16 bit number, the low one first.
abbrev pub two_bytes : ℕ → List ℕ
two_bytes n = (n % 256) ∷ (n / 256 % 256) ∷ []

abbrev pub put_crc : ℕ → Option (ℕ × List ℕ) → Option (List ℕ)
put_crc cap none = none
put_crc cap (some (crc, out)) = put_all cap out (two_bytes crc)

abbrev pub put_body : ℕ → List ℕ → Option (List ℕ) → Option (List ℕ)
put_body cap payload none = none
put_body cap payload (some out) = put_crc cap (put_payload cap 0 out payload)

-- `xrce_serial_frame_encode`: the frame, or `none` for 0.
unfoldable pub frame_encode : ℕ → ℕ → ℕ → List ℕ → Option (List ℕ)
frame_encode cap local remote payload =
    if ltb cap 1
    then none
    else put_body cap payload
        (put_all cap (flag_byte ∷ []) (local ∷ remote ∷ two_bytes (length payload)))

-- `xrce_serial_state_t`
pub data ReadState : Type 0 where
  wait_flag read_src read_dst read_len_lsb read_len_msb read_payload read_crc_lsb read_crc_msb :
      ReadState

-- `xrce_serial_reader_t`; the payload buffer of the caller is a list of at least `payload_cap` bytes.
pub record FrameReader : Type 0 where
  pub state : ReadState
  pub local_addr : ℕ
  pub src_addr : ℕ
  pub len : ℕ
  pub at : ℕ
  pub crc : ℕ
  pub rx_crc : ℕ
  pub have_escape : Bool
  pub payload_buf : List ℕ
  pub payload_cap : ℕ

-- `xrce_serial_feed_result_t`, with what goes through `out_src_addr` and `out_len`.
pub data FeedResult : Type 0 where
  in_progress : FeedResult
  frame_ready : (src_addr len : ℕ) → FeedResult
  feed_error : FeedResult

-- `xrce_serial_reader_init`
unfoldable pub reader_init : ℕ → List ℕ → ℕ → FrameReader
reader_init local_addr buf cap = record {
  state = wait_flag;
  local_addr = local_addr;
  src_addr = 0;
  len = 0;
  at = 0;
  crc = 0;
  rx_crc = 0;
  have_escape = false;
  payload_buf = buf;
  payload_cap = cap;
}

-- `reset_to_wait`
abbrev reset_to_wait : FrameReader → FrameReader
reset_to_wait r = record r { state = wait_flag; have_escape = false }

-- The `switch` of `xrce_serial_reader_feed` on a decoded byte. The low byte of a 16 bit number is in
-- place when the high one is joined to it, so its `|` is a sum.
abbrev pub take_byte : ReadState → FrameReader → ℕ → FrameReader × FeedResult
take_byte wait_flag r b = (r, in_progress)
take_byte read_src r b = (record r { src_addr = b; state = read_dst }, in_progress)
take_byte read_dst r b =
    if b == r.local_addr
    then (record r { state = read_len_lsb }, in_progress)
    else (reset_to_wait r, feed_error)
take_byte read_len_lsb r b = (record r { len = b; state = read_len_msb }, in_progress)
take_byte read_len_msb r b =
    let len = (r.len + b * 256) % 2 ^ 16 in
    if ltb r.payload_cap len
    then (reset_to_wait (record r { len = len; at = 0; crc = 0 }), feed_error)
    else (
      record r {
        len = len;
        at = 0;
        crc = 0;
        state = if len == 0 then read_crc_lsb else read_payload;
      },
      in_progress,
    )
take_byte read_payload r b = (
  record r {
    payload_buf = set r.payload_buf r.at b;
    at = (r.at + 1) % 2 ^ 16;
    crc = crc16_update r.crc b;
    state = if (r.at + 1) % 2 ^ 16 == r.len then read_crc_lsb else read_payload;
  },
  in_progress,
)
take_byte read_crc_lsb r b = (record r { rx_crc = b; state = read_crc_msb }, in_progress)
take_byte read_crc_msb r b =
    let rx = (r.rx_crc + b * 256) % 2 ^ 16 in
    let r' = reset_to_wait (record r { rx_crc = rx }) in
    if rx == r.crc then (r', frame_ready r.src_addr r.len) else (r', feed_error)

-- `unstuff`, and the `switch` on the byte that it decodes.
unfoldable pub feed_stuffed : FrameReader → ℕ → FrameReader × FeedResult
feed_stuffed r raw =
    if r.have_escape
    then take_byte r.state (record r { have_escape = false }) (bit_xor raw xor_byte % 256)
    else if raw == esc_byte
    then (record r { have_escape = true }, in_progress)
    else take_byte r.state r raw

abbrev pub is_waiting : ReadState → Bool
is_waiting wait_flag = true
is_waiting _ = false

-- `xrce_serial_reader_feed`
unfoldable pub reader_feed : FrameReader → ℕ → FrameReader × FeedResult
reader_feed r byte =
    if not r.have_escape && (byte == flag_byte)
    then (record r { state = read_src; have_escape = false }, in_progress)
    else if is_waiting r.state
    then (r, in_progress)
    else feed_stuffed r byte

-- What a caller of `xrce_serial_reader_feed` acts on.
abbrev pub report : FeedResult → List FeedResult → List FeedResult
report in_progress rest = rest
report (frame_ready src len) rest = frame_ready src len ∷ rest
report feed_error rest = feed_error ∷ rest

abbrev pub reported : FeedResult → FrameReader × List FeedResult → FrameReader × List FeedResult
reported res (r, rest) = (r, report res rest)

-- A caller's loop over received bytes: the reader behind them, and the frames and errors reported.
unfoldable pub feed_all : FrameReader → List ℕ → FrameReader × List FeedResult
feed_all r [] = (r, [])
feed_all r (b ∷ bs) = let (r', res) = reader_feed r b in reported res (feed_all r' bs)
