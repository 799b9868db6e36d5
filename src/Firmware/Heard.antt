-- ===== src/Firmware/Heard.antt =====
-- What a reader of xrce/src/serial_transport.c at the other end of the UART of rtos/arm/ros2_demo.c
-- makes of frames with lines of text between them.
use rtos_kernel_from_scratch.Common.{
  ℕ, ◌+◌, ◌^◌, ◌≤◌, ◌<◌, ◌≡◌, refl, sym, ap, ◌∙◌, subst, Bool, true, false, ◌&&◌, not, some, List,
  [], ◌∷◌, ◌++◌, length, ◌==◌, arith, bit_xor, ◌%◌, All, if◌then◌else◌, length-set, ltb,
}
use rtos_kernel_from_scratch.Xrce.Serial.{
  flag_byte, esc_byte, xor_byte, ReadState, FrameReader, FeedResult, in_progress, frame_ready,
  feed_error, take_byte, is_waiting, feed_stuffed, reader_feed, feed_all, report, reported,
  frame_encode,
}
use rtos_kernel_from_scratch.Xrce.Serial.Feeding.{reader_feed_waiting}
use rtos_kernel_from_scratch.Xrce.Serial.RoundTrip.{feed_all-frame_encode}
use rtos_kernel_from_scratch.Firmware.Node.{serial_addr}

-- What a reader never changes.
abbrev IsKept : FrameReader → FrameReader → Type 0
IsKept r r' =
    (r'.local_addr ≡ r.local_addr)
    × (r'.payload_cap ≡ r.payload_cap)
    × (length r'.payload_buf ≡ length r.payload_buf)

take_byte-IsKept : (s : ReadState) (r : FrameReader) (b : ℕ) → IsKept r (take_byte s r b).0
take_byte-IsKept s r b = ground (arith, length-set {0} r.payload_buf r.at b)

either-IsKept :
    (r : FrameReader) (t : Bool) (x y : FrameReader × FeedResult)
    → IsKept r x.0
    → IsKept r y.0
    → IsKept r (if t then x else y).0
either-IsKept r true x y h k = h
either-IsKept r false x y h k = k

reader_feed-IsKept : (r : FrameReader) (b : ℕ) → IsKept r (reader_feed r b).0
unfolding reader_feed feed_stuffed
reader_feed-IsKept r b =
    let same : IsKept r r = (refl, refl, refl) in
    either-IsKept r (not r.have_escape && (b == flag_byte)) _ _ same (
      either-IsKept r (is_waiting r.state) _ _ same (
        either-IsKept r r.have_escape _ _
          (take_byte-IsKept r.state (record r { have_escape = false }) (bit_xor b xor_byte % 256))
          (either-IsKept r (b == esc_byte) _ _ same (take_byte-IsKept r.state r b))))

feed_all-IsKept : (bs : List ℕ) (r : FrameReader) → IsKept r (feed_all r bs).0
unfolding feed_all
feed_all-IsKept [] r = (refl, refl, refl)
feed_all-IsKept (b ∷ bs) r =
    let (a1, a2, a3) = reader_feed-IsKept r b in
    let (b1, b2, b3) = feed_all-IsKept bs (reader_feed r b).0 in (b1 ∙ a1, b2 ∙ a2, b3 ∙ a3)

report-append :
    (res : FeedResult) (xs ys : List FeedResult) → report res (xs ++ ys) ≡ report res xs ++ ys
report-append in_progress xs ys = refl
report-append feed_error xs ys = refl
report-append (frame_ready src len) xs ys = refl

feed_all-append :
    (xs ys : List ℕ) (r : FrameReader)
    → let first = feed_all r xs in
      let second = feed_all first.0 ys in feed_all r (xs ++ ys) ≡ (second.0, first.1 ++ second.1)
unfolding feed_all
feed_all-append [] ys r = refl
feed_all-append (b ∷ xs) ys r =
    let (r', res) = reader_feed r b in
    ap (reported res) (feed_all-append xs ys r')
    ∙ ap (λ l. ((feed_all (feed_all r' xs).0 ys).0, l))
        (report-append res (feed_all r' xs).1 (feed_all (feed_all r' xs).0 ys).1)

-- A reader between two frames, with room for `n` bytes of payload.
pub record IsListening (n : ℕ) (r : FrameReader) : Type 0 where
  pub no_escape : r.have_escape ≡ false
  pub waits : is_waiting r.state ≡ true
  pub for_addr : r.local_addr ≡ serial_addr
  pub room : n ≤ r.payload_cap
  pub storage : r.payload_cap ≤ length r.payload_buf

-- A result that is a whole frame of at most `n` bytes, and no error.
abbrev pub IsFrame : ℕ → FeedResult → Type 0
IsFrame n in_progress = ⊥
IsFrame n feed_error = ⊥
IsFrame n (frame_ready src len) = (src ≡ serial_addr) × (len ≤ n)

-- How many results are frames that carry something.
abbrev carries : FeedResult → ℕ
carries in_progress = 0
carries feed_error = 0
carries (frame_ready src len) = if ltb 0 len then 1 else 0

abbrev pub carried : List FeedResult → ℕ
carried [] = 0
carried (res ∷ rest) = carries res + carried rest

carried-append : (xs ys : List FeedResult) → carried (xs ++ ys) ≡ carried xs + carried ys
carried-append [] ys = omega arith
carried-append (x ∷ xs) ys = let rest = carried-append xs ys in omega arith

-- Bytes that every listening reader takes for whole frames, at least `m` of them not empty, and
-- listens again.
unfoldable pub IsHeard : ℕ → ℕ → List ℕ → Type 0
IsHeard n m bs =
    (r : FrameReader)
    → IsListening n r
    → IsListening n (feed_all r bs).0
      × All (IsFrame n) (feed_all r bs).1
      × (m ≤ carried (feed_all r bs).1)

All-append : {A : Type 0} (P : A → Type 0) (xs ys : List A) → All P xs → All P ys → All P (xs ++ ys)
All-append P [] ys a b = b
All-append P (x ∷ xs) ys a b = (a.0, All-append P xs ys a.1 b)

pub IsHeard-append :
    (n m k : ℕ) (xs ys : List ℕ) → IsHeard n m xs → IsHeard n k ys → IsHeard n (k + m) (xs ++ ys)
unfolding IsHeard
IsHeard-append n m k xs ys hx hy r l =
    let (l1, f1, c1) = hx r l in
    let (l2, f2, c2) = hy (feed_all r xs).0 l1 in
    let second = (feed_all (feed_all r xs).0 ys).1 in
    let total = carried-append (feed_all r xs).1 second in
    rw (feed_all-append xs ys r)
      (l2, All-append (IsFrame n) (feed_all r xs).1 second f1 f2, omega arith)

pub IsHeard-fewer : (n m k : ℕ) (bs : List ℕ) → k ≤ m → IsHeard n m bs → IsHeard n k bs
unfolding IsHeard
IsHeard-fewer n m k bs le h r l = let (a, b, c) = h r l in (a, b, omega arith)

-- Text without a flag byte.
abbrev pub all_plain : List ℕ → Bool
all_plain [] = true
all_plain (b ∷ bs) = not (b == flag_byte) && all_plain bs

feed_all_waiting :
    (bs : List ℕ) (r : FrameReader)
    → r.have_escape ≡ false
    → is_waiting r.state ≡ true
    → all_plain bs ≡ true
    → feed_all r bs ≡ (r, [])
unfolding feed_all
feed_all_waiting [] r e w p = refl
feed_all_waiting (b ∷ bs) r e w p =
    let plain : (b == flag_byte) ≡ false = ground arith in
    rw (reader_feed_waiting r b e plain w) (feed_all_waiting bs r e w (ground arith))

pub IsHeard-text : (n : ℕ) (bs : List ℕ) → all_plain bs ≡ true → IsHeard n 0 bs
unfolding IsHeard
IsHeard-text n bs p r l = rw (feed_all_waiting bs r l.no_escape l.waits p) (l, tt, omega arith)

pub IsHeard-frame :
    (n cap : ℕ) (payload frame : List ℕ)
    → 0 < length payload
    → length payload ≤ n
    → n < 2 ^ 16
    → frame_encode cap serial_addr serial_addr payload ≡ some frame
    → IsHeard n 1 frame
unfolding IsHeard
IsHeard-frame n cap payload frame full short small e r l =
    let (reports, got, waits, free) =
      feed_all-frame_encode r cap serial_addr payload frame l.no_escape (omega arith)
        (let room = l.room in omega arith) l.storage
        (subst (λ a. frame_encode cap serial_addr a payload ≡ some frame) (sym l.for_addr) e) in
    let (k1, k2, k3) = feed_all-IsKept frame r in
    let room = l.room in
    let storage = l.storage in
    (
      record {
        no_escape = free;
        waits = ap is_waiting waits;
        for_addr = k1 ∙ l.for_addr;
        room = omega arith;
        storage = omega arith;
      },
      rw reports ((refl, short), tt),
      rw reports (ground arith),
    )
