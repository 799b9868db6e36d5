-- ===== src/Gateway/Relaying.antt =====
-- What one direction of host/secure_gateway.c makes of a whole frame, byte by byte.
use rtos_kernel_from_scratch.Common.{
  ℕ, ◌^◌, ◌≤◌, ◌<◌, ◌≡◌, inl, inr, refl, sym, ap, ◌∙◌, subst, Bool, true, false, some, List, [],
  ◌∷◌, ◌++◌, append-nil, length, ◌==◌, arith, Bool-cases, bit_xor, ◌%◌, All, if◌then◌else◌, ◌&&◌,
  not,
}
use rtos_kernel_from_scratch.Xrce.Serial.{
  flag_byte, esc_byte, xor_byte, ReadState, wait_flag, FrameReader, FeedResult, in_progress,
  frame_ready, feed_error, take_byte, is_waiting, feed_stuffed, reader_feed, feed_all, reported,
  frame_encode,
}
use rtos_kernel_from_scratch.Xrce.Serial.Feeding.{
  stuffed, stuff_all, frame_bytes, frame_encode-some, reader_feed_waiting,
}
use rtos_kernel_from_scratch.Xrce.Serial.RoundTrip.{feed_all-frame_encode}
use rtos_kernel_from_scratch.Xrce.Secure.{SecureCtx}
use rtos_kernel_from_scratch.Gateway.{Link, act, relay_byte, addr}

abbrev Handler : Type 0
Handler = SecureCtx → List ℕ → SecureCtx × List ℕ

-- One direction alone.
unfoldable pub relay_all : Handler → Link → List ℕ → Link × List ℕ
relay_all handle l [] = (l, [])
relay_all handle l (b ∷ bs) =
    let (l', out) = relay_byte handle l b in
    let (l'', rest) = relay_all handle l' bs in (l'', out ++ rest)

IsPlain : ℕ → Type 0
IsPlain b = (b == flag_byte) ≡ false

IsIdle : FrameReader → Type 0
IsIdle r = (r.have_escape ≡ false) × (is_waiting r.state ≡ true)

relay_all_idle :
    (handle : Handler) (l : Link) (bs : List ℕ)
    → IsIdle l.reader
    → All IsPlain bs
    → (relay_all handle l bs ≡ (l, [])) × (feed_all l.reader bs ≡ (l.reader, []))
unfolding relay_all relay_byte feed_all IsPlain IsIdle
relay_all_idle handle l [] i p = (refl, refl)
relay_all_idle handle l (b ∷ bs) i p =
    let e = reader_feed_waiting l.reader b i.0 p.0 i.1 in
    let (a, f) = relay_all_idle handle l bs i p.1 in (rw e a, rw e f)

-- The reader that has reported a frame waits for the next flag.
take_byte-IsIdle :
    (s : ReadState) (r : FrameReader) (b src len : ℕ)
    → (take_byte s r b).1 ≡ frame_ready src len
    → IsIdle (take_byte s r b).0
unfolding IsIdle
take_byte-IsIdle s r b src len e = ground arith

-- A result that reports a frame belongs to a reader that is idle.
abbrev IsSettled : FrameReader × FeedResult → Type 0
IsSettled x = (src len : ℕ) → x.1 ≡ frame_ready src len → IsIdle x.0

either-IsSettled :
    (t : Bool) (x y : FrameReader × FeedResult)
    → IsSettled x
    → IsSettled y
    → IsSettled (if t then x else y)
either-IsSettled true x y h k = h
either-IsSettled false x y h k = k

reader_feed-IsSettled : (r : FrameReader) (b : ℕ) → IsSettled (reader_feed r b)
unfolding reader_feed feed_stuffed
reader_feed-IsSettled r b =
    either-IsSettled (not r.have_escape && (b == flag_byte)) _ _ (λ src len e. absurd (cc))
      (either-IsSettled (is_waiting r.state) _ _ (λ src len e. absurd (cc))
        (either-IsSettled r.have_escape _ _
          (take_byte-IsIdle r.state (record r { have_escape = false }) (bit_xor b xor_byte % 256))
          (either-IsSettled (b == esc_byte) _ _ (λ src len e. absurd (cc))
            (take_byte-IsIdle r.state r b))))

-- A row that is read as one frame has this frame handled, with the buffer as the reader has it.
abbrev IsOneFrame : FrameReader → List ℕ → FrameReader → ℕ → ℕ → Type 0
IsOneFrame r bs r' src len = feed_all r bs ≡ (r', frame_ready src len ∷ [])

relay_rest :
    (handle : Handler) (l : Link) (b : ℕ) (bs : List ℕ) (res : FrameReader × FeedResult)
    (r' : FrameReader) (src len : ℕ)
    → reader_feed l.reader b ≡ res
    → IsSettled res
    → All IsPlain bs
    → ((l' : Link)
        → IsOneFrame l'.reader bs r' src len
        → relay_all handle l' bs ≡ act handle l'.ctx (r', frame_ready src len))
    → reported res.1 (feed_all res.0 bs) ≡ (r', frame_ready src len ∷ [])
    → (let (l', out) = act handle l.ctx res in
        let (l'', rest) = relay_all handle l' bs in (l'', out ++ rest))
      ≡ act handle l.ctx (r', frame_ready src len)
relay_rest handle l b bs (r, in_progress) r' src len e st p again one =
    again (record { reader = r; ctx = l.ctx }) one
relay_rest handle l b bs (r, feed_error) r' src len e st p again one =
    let reports = ap (λ x. x.1) one in absurd (cc)
relay_rest handle l b bs (r, frame_ready src' len') r' src len e st p again one =
    let (l', out) = act handle l.ctx (r, frame_ready src' len') in
    let (a, f) = relay_all_idle handle l' bs (st src' len' refl) p in
    let one' : (r, frame_ready src' len' ∷ []) ≡ (r', frame_ready src len ∷ []) =
      ap (reported (frame_ready src' len')) (sym f) ∙ one in
    let same : (r, frame_ready src' len') ≡ (r', frame_ready src len) = cc one' in
    rw a (ap (λ o. (l', o)) (append-nil out)) ∙ ap (act handle l.ctx) same

relay_all-one :
    (handle : Handler) (bs : List ℕ) (l : Link) (r' : FrameReader) (src len : ℕ)
    → All IsPlain bs
    → IsOneFrame l.reader bs r' src len
    → relay_all handle l bs ≡ act handle l.ctx (r', frame_ready src len)
unfolding relay_all relay_byte feed_all
relay_all-one handle [] l r' src len p one = absurd (let reports = ap (λ x. x.1) one in cc)
relay_all-one handle (b ∷ bs) l r' src len p one =
    relay_rest handle l b bs (reader_feed l.reader b) r' src len refl
      (reader_feed-IsSettled l.reader b) p.1 (λ l' h. relay_all-one handle bs l' r' src len p.1 h)
      one

stuffed-IsPlain : (b : ℕ) (rest : List ℕ) → All IsPlain rest → All IsPlain (stuffed b ++ rest)
unfolding stuffed IsPlain
stuffed-IsPlain b rest p = elim (Bool-cases (b == flag_byte)) [
  | inl e ↦ let same : b ≡ flag_byte = ground arith in rw same (refl, (refl, p))
  | inr nf ↦ elim (Bool-cases (b == esc_byte)) [
    | inl e ↦ let same : b ≡ esc_byte = ground arith in rw same (refl, (refl, p))
    | inr ne ↦ rw (nf, ne) (nf, p)
  ]
]

stuff_all-IsPlain : (bs : List ℕ) → All IsPlain (stuff_all bs)
unfolding stuff_all
stuff_all-IsPlain [] = tt
stuff_all-IsPlain (b ∷ bs) = stuffed-IsPlain b (stuff_all bs) (stuff_all-IsPlain bs)

-- The first byte of a frame is a flag, and there is no other.
relay_all-frame :
    (handle : Handler) (l : Link) (bs : List ℕ) (r' : FrameReader) (src len : ℕ)
    → IsOneFrame l.reader (flag_byte ∷ stuff_all bs) r' src len
    → relay_all handle l (flag_byte ∷ stuff_all bs) ≡ act handle l.ctx (r', frame_ready src len)
unfolding relay_all relay_byte feed_all
relay_all-frame handle l bs r' src len one =
    relay_rest handle l flag_byte (stuff_all bs) (reader_feed l.reader flag_byte) r' src len refl
      (reader_feed-IsSettled l.reader flag_byte) (stuff_all-IsPlain bs)
      (λ l' h. relay_all-one handle (stuff_all bs) l' r' src len (stuff_all-IsPlain bs) h) one

-- A reader that can take a frame for its address with `n` bytes of payload.
pub record CanTake (r : FrameReader) (n : ℕ) : Type 0 where
  pub no_escape : r.have_escape ≡ false
  pub for_addr : r.local_addr ≡ addr
  pub room : n ≤ r.payload_cap
  pub storage : r.payload_cap ≤ length r.payload_buf

-- A whole frame has its payload handled once, whatever the direction does with it.
pub relay_all-frame_encode :
    (handle : Handler) (l : Link) (cap : ℕ) (payload frame : List ℕ)
    → CanTake l.reader (length payload)
    → length payload < 2 ^ 16
    → frame_encode cap addr addr payload ≡ some frame
    → let (l', out) = relay_all handle l frame in
      ((l'.ctx, out) ≡ handle l.ctx payload)
      × (l'.reader.state ≡ wait_flag)
      × (l'.reader.have_escape ≡ false)
relay_all-frame_encode handle l cap payload frame can lt e =
    let (reports, got, waits, free) =
      feed_all-frame_encode l.reader cap addr payload frame can.no_escape lt can.room can.storage
        (subst (λ a. frame_encode cap addr a payload ≡ some frame) (sym can.for_addr) e) in
    let bytes = frame_encode-some cap addr addr payload frame e in
    let r' = (feed_all l.reader frame).0 in
    let whole : feed_all l.reader frame ≡ (r', frame_ready addr (length payload) ∷ []) =
      ap (λ x. (r', x)) reports in
    let step : relay_all handle l frame ≡ act handle l.ctx (r', frame_ready addr (length payload)) =
      subst
        (λ fr.
          IsOneFrame l.reader fr r' addr (length payload)
          → relay_all handle l fr ≡ act handle l.ctx (r', frame_ready addr (length payload)))
        (sym bytes)
        (relay_all-frame handle l (frame_bytes addr addr payload) r' addr (length payload)) whole in
    rw step (ap (handle l.ctx) got, waits, free)
