-- ===== src/Xrce/Serial/Bounds.antt =====
-- Bounds of xrce/src/serial_transport.c: the reader never writes outside the payload buffer, and the
-- writer has room enough in a buffer of `XRCE_SERIAL_MAX_ENCODED_LEN`.
use rtos_kernel_from_scratch.Common.{
  ℕ, ◌+◌, ◌*◌, ◌%◌, ◌^◌, ◌≤◌, ◌<◌, ◌≡◌, refl, Bool, true, false, not, ◌&&◌, some, List, [], ◌∷◌,
  ◌++◌, length, bit_xor, ◌==◌, if◌then◌else◌, arith, length-append, length-set,
}
use rtos_kernel_from_scratch.Xrce.Serial.Feeding.{is_special}
use rtos_kernel_from_scratch.Xrce.Serial.{
  flag_byte, esc_byte, xor_byte, crc16_update, two_bytes, put_stuffed, put_all, put_payload,
  frame_encode, ReadState, wait_flag, read_src, read_dst, read_len_lsb, read_len_msb, read_payload,
  read_crc_lsb, read_crc_msb, FrameReader, FeedResult, take_byte, feed_stuffed, reader_feed,
  reader_init, is_waiting,
}

-- Where the reader would write next is inside the buffer that the caller gave it.
pub record InBounds (r : FrameReader) : Type 0 where
  pub storage : r.payload_cap ≤ length r.payload_buf
  pub next_in : r.state ≡ read_payload → r.at < r.len
  pub len_in : r.state ≡ read_payload → r.len ≤ r.payload_cap
  pub len_small : r.len < 2 ^ 16

take_byte-InBounds :
    (s : ReadState) (r : FrameReader) (b : ℕ)
    → r.state ≡ s
    → b < 256
    → InBounds r
    → InBounds (take_byte s r b).0
take_byte-InBounds wait_flag r b st lt v = ground arith
take_byte-InBounds read_src r b st lt v = ground arith
take_byte-InBounds read_dst r b st lt v = ground arith
take_byte-InBounds read_len_lsb r b st lt v = ground arith
take_byte-InBounds read_len_msb r b st lt v = ground arith
take_byte-InBounds read_payload r b st lt v = ground (arith, length-set {0} r.payload_buf r.at b)
take_byte-InBounds read_crc_lsb r b st lt v = ground arith
take_byte-InBounds read_crc_msb r b st lt v = ground arith

escape-InBounds :
    (r : FrameReader) (e : Bool) → InBounds r → InBounds (record r { have_escape = e })
escape-InBounds r e v = record {
  storage = v.storage;
  next_in = v.next_in;
  len_in = v.len_in;
  len_small = v.len_small;
}

either-InBounds :
    (t : Bool) (x y : FrameReader × FeedResult)
    → InBounds x.0
    → InBounds y.0
    → InBounds (if t then x else y).0
either-InBounds true x y h k = h
either-InBounds false x y h k = k

feed_stuffed-InBounds :
    (r : FrameReader) (byte : ℕ) → byte < 256 → InBounds r → InBounds (feed_stuffed r byte).0
unfolding feed_stuffed
feed_stuffed-InBounds r byte lt v =
    either-InBounds r.have_escape _ _
      (take_byte-InBounds r.state (record r { have_escape = false }) (bit_xor byte xor_byte % 256)
        refl (omega arith) (escape-InBounds r false v))
      (either-InBounds (byte == esc_byte) _ _ (escape-InBounds r true v)
        (take_byte-InBounds r.state r byte refl lt v))

-- Every byte that the line delivers, in any state of a reader that is in bounds, leaves the next
-- write of the reader inside the buffer of its caller.
pub reader_feed-InBounds :
    (r : FrameReader) (byte : ℕ) → byte < 256 → InBounds r → InBounds (reader_feed r byte).0
unfolding reader_feed
reader_feed-InBounds r byte lt v =
    either-InBounds (not r.have_escape && (byte == flag_byte)) _ _
      (record {
        storage = v.storage;
        next_in = λ e. absurd (cc);
        len_in = λ e. absurd (cc);
        len_small = v.len_small;
      })
      (either-InBounds (is_waiting r.state) _ _ v (feed_stuffed-InBounds r byte lt v))

-- A reader as `xrce_serial_reader_init` leaves it is in bounds.
pub reader_init-InBounds :
    (addr cap : ℕ) (buf : List ℕ) → cap ≤ length buf → InBounds (reader_init addr buf cap)
unfolding reader_init
reader_init-InBounds addr cap buf h = record {
  storage = h;
  next_in = λ e. absurd (cc);
  len_in = λ e. absurd (cc);
  len_small = omega arith;
}

-- What a put needs and takes: at most two bytes on the line for each byte.
put_stuffed-fits :
    (cap : ℕ) (out : List ℕ) (b : ℕ)
    → length out + 2 ≤ cap
    → (out' : List ℕ) × (put_stuffed cap out b ≡ some out') × (length out' ≤ length out + 2)
unfolding put_stuffed
put_stuffed-fits cap out b h = (
  if is_special b then out ++ (esc_byte ∷ (bit_xor b xor_byte % 256) ∷ []) else out ++ (b ∷ []),
  ground arith,
  ground (
    arith,
    length-append {0} out (esc_byte ∷ (bit_xor b xor_byte % 256) ∷ []),
    length-append {0} out (b ∷ []),
  ),
)

put_all-fits :
    (cap : ℕ) (out bs : List ℕ)
    → length out + 2 * length bs ≤ cap
    → (out' : List ℕ) × (put_all cap out bs ≡ some out')
      × (length out' ≤ length out + 2 * length bs)
unfolding put_all
put_all-fits cap out [] h = (out, refl, omega arith)
put_all-fits cap out (b ∷ bs) h =
    let (mid, e, l) = put_stuffed-fits cap out b (omega arith) in
    let (out', e', l') = put_all-fits cap mid bs (omega arith) in (out', ground arith, omega arith)

put_payload-fits :
    (cap crc : ℕ) (out bs : List ℕ)
    → length out + 2 * length bs ≤ cap
    → (c : ℕ) × (out' : List ℕ) × (put_payload cap crc out bs ≡ some (c, out'))
      × (length out' ≤ length out + 2 * length bs)
unfolding put_payload
put_payload-fits cap crc out [] h = (crc, out, refl, omega arith)
put_payload-fits cap crc out (b ∷ bs) h =
    let (mid, e, l) = put_stuffed-fits cap out b (omega arith) in
    let (c, out', e', l') = put_payload-fits cap (crc16_update crc b) mid bs (omega arith) in
    (c, out', ground arith, omega arith)

-- `XRCE_SERIAL_MAX_ENCODED_LEN`
abbrev pub max_encoded_len : ℕ → ℕ
max_encoded_len n = 1 + 2 * (4 + n + 2)

-- A buffer of `XRCE_SERIAL_MAX_ENCODED_LEN` is enough for any payload: the frame is encoded, and is
-- no longer than that.
pub frame_encode-fits :
    (cap local remote : ℕ) (payload : List ℕ)
    → max_encoded_len (length payload) ≤ cap
    → (frame : List ℕ) × (frame_encode cap local remote payload ≡ some frame)
      × (length frame ≤ max_encoded_len (length payload))
unfolding frame_encode
frame_encode-fits cap local remote payload h =
    let (a, ea, la) =
      put_all-fits cap (flag_byte ∷ []) (local ∷ remote ∷ two_bytes (length payload))
        (omega arith) in
    let (crc, b, eb, lb) = put_payload-fits cap 0 a payload (omega arith) in
    let (frame, ef, lf) = put_all-fits cap b (two_bytes crc) (omega arith) in
    (frame, ground arith, omega arith)
