-- ===== src/Xrce/Serial/Feeding.antt =====
-- Stuffing of xrce/src/serial_transport.c, and how the reader undoes it byte by byte.
use rtos_kernel_from_scratch.Common.{
  ℕ, ◌%◌, ◌≡◌, refl, sym, ap, ◌∙◌, Bool, true, false, ◌||◌, Option, none, some, List, [], ◌∷◌, ◌++◌,
  append_assoc, append-nil, length, bit_xor, ◌==◌, if◌then◌else◌, arith, Bool-cases, Option-cases,
  inl, inr,
}
use rtos_kernel_from_scratch.Xrce.Serial.{
  flag_byte, esc_byte, xor_byte, crc16_update, crc16_from, crc16, put_stuffed, put_all, put_payload,
  two_bytes, put_crc, put_body, frame_encode, ReadState, wait_flag, FrameReader, FeedResult,
  in_progress, take_byte, feed_stuffed, is_waiting, reader_feed, reported, feed_all,
}

abbrev pub is_special : ℕ → Bool
is_special b = (b == flag_byte) || (b == esc_byte)

-- The bytes on the line for one byte, and for a row.
unfoldable pub stuffed : ℕ → List ℕ
stuffed b = if is_special b then esc_byte ∷ (bit_xor b xor_byte % 256) ∷ [] else b ∷ []

unfoldable pub stuff_all : List ℕ → List ℕ
stuff_all [] = []
stuff_all (b ∷ bs) = stuffed b ++ stuff_all bs

put_stuffed-some :
    (cap : ℕ) (out : List ℕ) (b : ℕ) (out' : List ℕ)
    → put_stuffed cap out b ≡ some out'
    → out' ≡ out ++ stuffed b
unfolding put_stuffed stuffed
put_stuffed-some cap out b out' e = ground arith

stuff_all-append : (xs ys : List ℕ) → stuff_all (xs ++ ys) ≡ stuff_all xs ++ stuff_all ys
unfolding stuff_all
stuff_all-append [] ys = refl
stuff_all-append (x ∷ xs) ys =
    ap (λ l. stuffed x ++ l) (stuff_all-append xs ys)
    ∙ sym (append_assoc (stuffed x) (stuff_all xs) (stuff_all ys))

put_all-some :
    (cap : ℕ) (out bs out' : List ℕ) → put_all cap out bs ≡ some out' → out' ≡ out ++ stuff_all bs
unfolding put_all stuff_all
put_all-some cap out [] out' e = ground (arith, append-nil out)
put_all-some cap out (b ∷ bs) out' e = elim (Option-cases (put_stuffed cap out b)) [
  | inl n ↦ absurd (ground arith)
  | inr (mid, s) ↦
      put_all-some cap mid bs out' (ground arith)
      ∙ ap (λ l. l ++ stuff_all bs) (put_stuffed-some cap out b mid s)
      ∙ append_assoc out (stuffed b) (stuff_all bs)
]

put_payload-some :
    (cap crc : ℕ) (out bs : List ℕ) (crc' : ℕ) (out' : List ℕ)
    → put_payload cap crc out bs ≡ some (crc', out')
    → (crc' ≡ crc16_from crc bs) × (out' ≡ out ++ stuff_all bs)
unfolding put_payload stuff_all crc16_from
put_payload-some cap crc out [] crc' out' e = (ground arith, ground (arith, append-nil out))
put_payload-some cap crc out (b ∷ bs) crc' out' e = elim (Option-cases (put_stuffed cap out b)) [
  | inl n ↦ absurd (ground arith)
  | inr (mid, s) ↦
      let (c, o) = put_payload-some cap (crc16_update crc b) mid bs crc' out' (ground arith) in
      (
        c,
        o
            ∙ ap (λ l. l ++ stuff_all bs) (put_stuffed-some cap out b mid s)
            ∙ append_assoc out (stuffed b) (stuff_all bs),
      )
]

-- The bytes of a frame before stuffing, behind the flag.
abbrev pub frame_bytes : ℕ → ℕ → List ℕ → List ℕ
frame_bytes local remote payload =
    (local ∷ remote ∷ two_bytes (length payload)) ++ (payload ++ two_bytes (crc16 payload))

-- What `xrce_serial_frame_encode` puts out, when it does not run out of room.
pub frame_encode-some :
    (cap local remote : ℕ) (payload frame : List ℕ)
    → frame_encode cap local remote payload ≡ some frame
    → frame ≡ flag_byte ∷ stuff_all (frame_bytes local remote payload)
unfolding frame_encode crc16
frame_encode-some cap local remote payload frame e =
    body (put_all cap (flag_byte ∷ []) head) refl (ground arith)
  where
    head : List ℕ
    head = local ∷ remote ∷ two_bytes (length payload)

    tail :
        (mid : List ℕ) (o : Option (ℕ × List ℕ))
        → mid ≡ (flag_byte ∷ []) ++ stuff_all head
        → put_payload cap 0 mid payload ≡ o
        → put_crc cap o ≡ some frame
        → frame ≡ flag_byte ∷ stuff_all (frame_bytes local remote payload)
    tail mid none m p q = absurd (cc)
    tail mid (some (crc, out)) m p q =
        let (c, o) = put_payload-some cap 0 mid payload crc out p in
        let f = put_all-some cap out (two_bytes crc) frame q in
        f ∙ simp (o, m, c, stuff_all-append, append_assoc)

    body :
        (o : Option (List ℕ))
        → put_all cap (flag_byte ∷ []) head ≡ o
        → put_body cap payload o ≡ some frame
        → frame ≡ flag_byte ∷ stuff_all (frame_bytes local remote payload)
    body none m q = absurd (cc)
    body (some mid) m q =
        tail mid (put_payload cap 0 mid payload) (put_all-some cap (flag_byte ∷ []) head mid m) refl
          q

-- The reader on decoded bytes.
unfoldable pub take_all : FrameReader → List ℕ → FrameReader × List FeedResult
take_all r [] = (r, [])
take_all r (b ∷ bs) = let (r', res) = take_byte r.state r b in reported res (take_all r' bs)

take_byte-have_escape :
    (s : ReadState) (r : FrameReader) (b : ℕ)
    → r.have_escape ≡ false
    → (take_byte s r b).0.have_escape ≡ false
take_byte-have_escape wait_flag r b h = h
take_byte-have_escape s r b h = ground arith

unescaped : (r : FrameReader) → r.have_escape ≡ false → record r { have_escape = false } ≡ r
unescaped r h = ap (λ e. record r { have_escape = e }) (sym h)

-- A reader that waits for a flag ignores any other byte.
pub reader_feed_waiting :
    (r : FrameReader) (b : ℕ)
    → r.have_escape ≡ false
    → (b == flag_byte) ≡ false
    → is_waiting r.state ≡ true
    → reader_feed r b ≡ (r, in_progress)
unfolding reader_feed
reader_feed_waiting r b h nf w = rw (h, nf, w) refl

reader_feed_plain :
    (r : FrameReader) (b : ℕ)
    → r.have_escape ≡ false
    → (b == flag_byte) ≡ false
    → (b == esc_byte) ≡ false
    → is_waiting r.state ≡ false
    → reader_feed r b ≡ take_byte r.state r b
unfolding reader_feed feed_stuffed
reader_feed_plain r b h nf ne w = simp (h, nf, ne, w)

reader_feed_escape :
    (r : FrameReader)
    → r.have_escape ≡ false
    → is_waiting r.state ≡ false
    → reader_feed r esc_byte ≡ (record r { have_escape = true }, in_progress)
unfolding reader_feed feed_stuffed
reader_feed_escape r h w = simp (h, w)

reader_feed_escaped :
    (r : FrameReader) (b : ℕ)
    → r.have_escape ≡ false
    → is_waiting r.state ≡ false
    → reader_feed (record r { have_escape = true }) b
      ≡ take_byte r.state r (bit_xor b xor_byte % 256)
unfolding reader_feed feed_stuffed
reader_feed_escaped r b h w =
    simp w (ap (λ x. take_byte r.state x (bit_xor b xor_byte % 256)) (unescaped r h))

waiting_state : (s : ReadState) → is_waiting s ≡ true → s ≡ wait_flag
waiting_state s h = ground arith

feed_all_cons :
    (r : FrameReader) (b : ℕ) (bs : List ℕ) (out : FrameReader × FeedResult)
    → reader_feed r b ≡ out
    → feed_all r (b ∷ bs) ≡ reported out.1 (feed_all out.0 bs)
unfolding feed_all
feed_all_cons r b bs out e = rw e

-- An escaped pair of bytes does to the reader what the byte itself would, decoded.
feed_all_pair :
    (r : FrameReader) (b : ℕ) (rest : List ℕ)
    → r.have_escape ≡ false
    → (b == flag_byte) ≡ false
    → feed_all r (esc_byte ∷ b ∷ rest) ≡ (
        let (r', res) = take_byte r.state r (bit_xor b xor_byte % 256) in
        reported res (feed_all r' rest))
feed_all_pair r b rest h nf = elim (Bool-cases (is_waiting r.state)) [
  | inl w ↦
      feed_all_cons r esc_byte (b ∷ rest) _ (reader_feed_waiting r esc_byte h refl w)
      ∙ feed_all_cons r b rest _ (reader_feed_waiting r b h nf w)
      ∙ rw (waiting_state r.state w) refl
  | inr w ↦
      feed_all_cons r esc_byte (b ∷ rest) _ (reader_feed_escape r h w)
      ∙ feed_all_cons (record r { have_escape = true }) b rest _ (reader_feed_escaped r b h w)
]

feed_all_single :
    (r : FrameReader) (b : ℕ) (rest : List ℕ)
    → r.have_escape ≡ false
    → (b == flag_byte) ≡ false
    → (b == esc_byte) ≡ false
    → feed_all r (b ∷ rest)
      ≡ (let (r', res) = take_byte r.state r b in reported res (feed_all r' rest))
feed_all_single r b rest h nf ne = elim (Bool-cases (is_waiting r.state)) [
  | inl w ↦
      feed_all_cons r b rest _ (reader_feed_waiting r b h nf w) ∙ rw (waiting_state r.state w) refl
  | inr w ↦ feed_all_cons r b rest _ (reader_feed_plain r b h nf ne w)
]

eq_of_test : (a b : ℕ) → (a == b) ≡ true → a ≡ b
eq_of_test a b h = ground arith

-- One stuffed byte does to the reader what the byte itself would, decoded.
feed_all-stuffed :
    (r : FrameReader) (b : ℕ) (rest : List ℕ)
    → r.have_escape ≡ false
    → feed_all r (stuffed b ++ rest)
      ≡ (let (r', res) = take_byte r.state r b in reported res (feed_all r' rest))
unfolding stuffed
feed_all-stuffed r b rest h = elim (Bool-cases (b == flag_byte)) [
  | inl e ↦ rw (eq_of_test b flag_byte e) (feed_all_pair r 0x5E rest h refl)
  | inr nf ↦ elim (Bool-cases (b == esc_byte)) [
    | inl e ↦ rw (eq_of_test b esc_byte e) (feed_all_pair r 0x5D rest h refl)
    | inr ne ↦ rw (nf, ne) (feed_all_single r b rest h nf ne)
  ]
]

feed_all_nil : (r : FrameReader) → feed_all r [] ≡ (r, [])
unfolding feed_all
feed_all_nil r = refl

pub feed_all-stuff_all :
    (r : FrameReader) (bs : List ℕ)
    → r.have_escape ≡ false
    → feed_all r (stuff_all bs) ≡ take_all r bs
unfolding stuff_all take_all
feed_all-stuff_all r [] h = feed_all_nil r
feed_all-stuff_all r (b ∷ bs) h =
    feed_all-stuffed r b (stuff_all bs) h
    ∙ ap (reported (take_byte r.state r b).1)
        (feed_all-stuff_all (take_byte r.state r b).0 bs (take_byte-have_escape r.state r b h))
