-- ===== src/Xrce/Serial/RoundTrip.antt =====
-- A reader of xrce/src/serial_transport.c that is fed a whole frame reports it, from any state.
use rtos_kernel_from_scratch.Common.{
  ℕ, zero, suc, ◌+◌, ◌/◌, ◌%◌, ◌^◌, ◌≤◌, ◌<◌, ◌≡◌, refl, sym, ap, ◌∙◌, false, some, List, [], ◌∷◌,
  ◌++◌, append_assoc, append-nil, length, take, set, bit_xor, ◌==◌, if◌then◌else◌, arith, subst,
  take-set_last, length-set,
}
use rtos_kernel_from_scratch.Xrce.Serial.{
  flag_byte, crc16_shift, crc16_update, crc16_from, crc16, two_bytes, frame_encode, wait_flag,
  read_src, read_dst, read_len_lsb, read_len_msb, read_payload, read_crc_lsb, read_crc_msb,
  FrameReader, in_progress, frame_ready, take_byte, reader_feed, feed_all,
}
use rtos_kernel_from_scratch.Xrce.Serial.Feeding.{
  stuff_all, frame_bytes, frame_encode-some, take_all, feed_all-stuff_all,
}

-- The loop of `payload_buf[pos++] = decoded` over a row of bytes.
unfoldable fill : List ℕ → ℕ → List ℕ → List ℕ
fill buf i [] = buf
fill buf i (b ∷ bs) = fill (set buf i b) (suc i) bs

take-fill :
    (bs buf : List ℕ) (i : ℕ)
    → i + length bs ≤ length buf
    → take (i + length bs) (fill buf i bs) ≡ take i buf ++ bs
unfolding fill
take-fill [] buf i h = let same : i + 0 ≡ i = omega arith in rw same (sym (append-nil (take i buf)))
take-fill (b ∷ bs) buf i h =
    let shift : i + suc (length bs) ≡ suc i + length bs = omega arith in
    rw shift (
      take-fill bs (set buf i b) (suc i) (omega (arith, length-set {0} buf i b))
      ∙ ap (λ l. l ++ bs) (take-set_last buf i b (omega arith))
      ∙ append_assoc (take i buf) (b ∷ []) bs)

crc16_shift-lt : (n crc : ℕ) → crc < 2 ^ 16 → crc16_shift n crc < 2 ^ 16
unfolding crc16_shift
crc16_shift-lt zero crc h = h
crc16_shift-lt (suc n) crc h = crc16_shift-lt n _ (ground arith)

crc16_from-lt : (bs : List ℕ) (crc : ℕ) → crc < 2 ^ 16 → crc16_from crc bs < 2 ^ 16
unfolding crc16_from crc16_update
crc16_from-lt [] crc h = h
crc16_from-lt (b ∷ bs) crc h =
    crc16_from-lt bs (crc16_update crc b) (crc16_shift-lt 8 (bit_xor crc b % 2 ^ 16) (omega arith))

-- The reader when the last byte of a payload has come in.
abbrev after_payload : FrameReader → List ℕ → FrameReader
after_payload r bs = record r {
  state = read_crc_lsb;
  at = r.len;
  crc = crc16_from r.crc bs;
  payload_buf = fill r.payload_buf r.at bs;
}

take_all_cons :
    (r : FrameReader) (b : ℕ) (more : List ℕ) (out : FrameReader)
    → take_byte r.state r b ≡ (out, in_progress)
    → take_all r (b ∷ more) ≡ take_all out more
unfolding take_all
take_all_cons r b more out e = rw e

-- The reader behind a byte of the payload that is not its last.
abbrev in_payload : FrameReader → ℕ → FrameReader
in_payload r b = record r {
  state = read_payload;
  at = r.at + 1;
  crc = crc16_update r.crc b;
  payload_buf = set r.payload_buf r.at b;
}

after_in_payload :
    (r : FrameReader) (b : ℕ) (bs : List ℕ)
    → after_payload (in_payload r b) bs ≡ after_payload r (b ∷ bs)
unfolding crc16_from fill
after_in_payload r b bs =
    ap
      (λ i. record r {
        state = read_crc_lsb;
        at = r.len;
        crc = crc16_from (crc16_update r.crc b) bs;
        payload_buf = fill (set r.payload_buf r.at b) i bs;
      })
      (omega arith)

take_byte-last :
    (r : FrameReader) (b : ℕ)
    → r.state ≡ read_payload
    → r.at + 1 ≡ r.len
    → r.len < 2 ^ 16
    → take_byte r.state r b ≡ (after_payload r (b ∷ []), in_progress)
unfolding crc16_from fill
take_byte-last r b st e lt = ground arith

take_byte-middle :
    (r : FrameReader) (b : ℕ)
    → r.state ≡ read_payload
    → r.at + 1 < r.len
    → r.len < 2 ^ 16
    → take_byte r.state r b ≡ (in_payload r b, in_progress)
take_byte-middle r b st e lt = ground arith

-- Reading the rest of a payload, of at least one byte.
take_all-payload :
    (bs : List ℕ) (b : ℕ) (r : FrameReader) (more : List ℕ)
    → r.state ≡ read_payload
    → r.at + suc (length bs) ≡ r.len
    → r.len < 2 ^ 16
    → take_all r ((b ∷ bs) ++ more) ≡ take_all (after_payload r (b ∷ bs)) more
take_all-payload [] b r more st e lt =
    take_all_cons r b more _ (take_byte-last r b st (omega arith) lt)
take_all-payload (c ∷ bs) b r more st e lt =
    take_all_cons r b ((c ∷ bs) ++ more) (in_payload r b) (take_byte-middle r b st (omega arith) lt)
    ∙ take_all-payload bs c (in_payload r b) more refl (omega arith) lt
    ∙ ap (λ x. take_all x more) (after_in_payload r b (c ∷ bs))

-- The reader behind the four bytes of the header of a frame for it.
abbrev after_header : FrameReader → ℕ → ℕ → FrameReader
after_header r local n = record r {
  src_addr = local;
  len = n;
  at = 0;
  crc = 0;
  state = if n == 0 then read_crc_lsb else read_payload;
}

take_byte-len :
    (r : FrameReader) (local n : ℕ)
    → n < 2 ^ 16
    → n ≤ r.payload_cap
    → take_byte read_len_msb
        (record r { src_addr = local; len = n % 256; state = read_len_msb })
        (n / 256 % 256)
      ≡ (after_header r local n, in_progress)
take_byte-len r local n lt room = ground arith

take_byte-dst :
    (r : FrameReader) (local : ℕ)
    → take_byte read_dst (record r { src_addr = local; state = read_dst }) r.local_addr
      ≡ (record r { src_addr = local; state = read_len_lsb }, in_progress)
take_byte-dst r local = ground arith

take_all-header :
    (r : FrameReader) (local n : ℕ) (more : List ℕ)
    → r.state ≡ read_src
    → n < 2 ^ 16
    → n ≤ r.payload_cap
    → take_all r ((local ∷ r.local_addr ∷ two_bytes n) ++ more)
      ≡ take_all (after_header r local n) more
take_all-header r local n more st lt room =
    take_all_cons r local _ (record r { src_addr = local; state = read_dst }) (simp st refl)
    ∙ take_all_cons (record r { src_addr = local; state = read_dst }) r.local_addr _
        (record r { src_addr = local; state = read_len_lsb }) (take_byte-dst r local)
    ∙ take_all_cons (record r { src_addr = local; state = read_len_lsb }) (n % 256) _
        (record r { src_addr = local; len = n % 256; state = read_len_msb }) refl
    ∙ take_all_cons (record r { src_addr = local; len = n % 256; state = read_len_msb })
        (n / 256 % 256) more (after_header r local n) (take_byte-len r local n lt room)

-- The reader behind a frame that it has accepted.
abbrev accepted : FrameReader → FrameReader
accepted r = record r { state = wait_flag; have_escape = false; rx_crc = r.crc }

take_all-crc_msb :
    (r : FrameReader)
    → r.crc < 2 ^ 16
    → take_all (record r { state = read_crc_msb; rx_crc = r.crc % 256 }) ((r.crc / 256 % 256) ∷ [])
      ≡ (accepted r, frame_ready r.src_addr r.len ∷ [])
unfolding take_all
take_all-crc_msb r lt = ground arith

take_all-crc :
    (r : FrameReader)
    → r.state ≡ read_crc_lsb
    → r.crc < 2 ^ 16
    → take_all r (two_bytes r.crc) ≡ (accepted r, frame_ready r.src_addr r.len ∷ [])
take_all-crc r st lt =
    take_all_cons r (r.crc % 256) _ (record r { state = read_crc_msb; rx_crc = r.crc % 256 })
      (simp st refl)
    ∙ take_all-crc_msb r lt

-- The reader behind the flag of a frame.
abbrev flagged : FrameReader → FrameReader
flagged r = record r { state = read_src; have_escape = false }

-- The reader behind the payload, before the CRC.
abbrev behind_payload : FrameReader → ℕ → List ℕ → FrameReader
behind_payload r local payload = record (after_header (flagged r) local (length payload)) {
  state = read_crc_lsb;
  at = length payload;
  crc = crc16 payload;
  payload_buf = fill r.payload_buf 0 payload;
}

crc16_lem : (bs : List ℕ) → crc16_from 0 bs ≡ crc16 bs
unfolding crc16
crc16_lem bs = refl

no_payload :
    (r : FrameReader) (local : ℕ) → after_header (flagged r) local 0 ≡ behind_payload r local []
unfolding crc16 crc16_from fill
no_payload r local = refl

take_all-body :
    (r : FrameReader) (local : ℕ) (payload more : List ℕ)
    → length payload < 2 ^ 16
    → take_all (after_header (flagged r) local (length payload)) (payload ++ more)
      ≡ take_all (behind_payload r local payload) more
take_all-body r local [] more lt = ap (λ x. take_all x more) (no_payload r local)
take_all-body r local (b ∷ bs) more lt =
    take_all-payload bs b (after_header (flagged r) local (suc (length bs))) more (ground arith)
      (omega arith) lt
    ∙ ap (λ c. take_all (record (behind_payload r local (b ∷ bs)) { crc = c }) more)
        (crc16_lem (b ∷ bs))

feed_all_flag :
    (r : FrameReader) (bs : List ℕ)
    → r.have_escape ≡ false
    → feed_all r (flag_byte ∷ bs) ≡ feed_all (flagged r) bs
unfolding feed_all reader_feed
feed_all_flag r bs h = simp h refl

-- What is left of a frame for `r` behind its flag is read to its end.
feed_all_frame :
    (r : FrameReader) (cap local : ℕ) (payload frame : List ℕ)
    → r.have_escape ≡ false
    → length payload < 2 ^ 16
    → length payload ≤ r.payload_cap
    → frame_encode cap local r.local_addr payload ≡ some frame
    → feed_all r frame
      ≡ (accepted (behind_payload r local payload), frame_ready local (length payload) ∷ [])
feed_all_frame r cap local payload frame esc lt room e =
    ap (feed_all r) (frame_encode-some cap local r.local_addr payload frame e)
    ∙ feed_all_flag r (stuff_all (frame_bytes local r.local_addr payload)) esc
    ∙ feed_all-stuff_all (flagged r) (frame_bytes local r.local_addr payload) refl
    ∙ take_all-header (flagged r) local (length payload) (payload ++ two_bytes (crc16 payload)) refl
        lt room
    ∙ take_all-body r local payload (two_bytes (crc16 payload)) lt
    ∙ take_all-crc (behind_payload r local payload) refl
        (subst (λ c. c < 2 ^ 16) (crc16_lem payload) (crc16_from-lt payload 0 (omega arith)))

-- A reader that is not in the middle of an escape, in whatever state, is fed a frame that
-- `xrce_serial_frame_encode` made for its address, with a payload that fits its buffer and a 16 bit
-- length. It reports that one frame, with the sender's address and the length; its buffer starts with
-- the payload; and it waits for the next flag.
pub feed_all-frame_encode :
    (r : FrameReader) (cap local : ℕ) (payload frame : List ℕ)
    → r.have_escape ≡ false
    → length payload < 2 ^ 16
    → length payload ≤ r.payload_cap
    → r.payload_cap ≤ length r.payload_buf
    → frame_encode cap local r.local_addr payload ≡ some frame
    → let (r', reports) = feed_all r frame in
      (reports ≡ frame_ready local (length payload) ∷ [])
      × (take (length payload) r'.payload_buf ≡ payload)
      × (r'.state ≡ wait_flag)
      × (r'.have_escape ≡ false)
feed_all-frame_encode r cap local payload frame esc lt room size e =
    rw (feed_all_frame r cap local payload frame esc lt room e) (
      refl,
      ap (λ n. take n (fill r.payload_buf 0 payload)) (omega arith)
          ∙ take-fill payload r.payload_buf 0 (omega arith),
      refl,
      refl,
    )
