-- ===== src/Firmware/Running.antt =====
-- The rounds of `main` of rtos/arm/ros2_demo.c, and the frames that they send.
use rtos_kernel_from_scratch.Common.{
  ℕ, zero, suc, ◌+◌, ◌/◌, ◌%◌, ◌^◌, ◌<◌, ◌≤◌, length, ◌≡◌, refl, ap, ◌∙◌, ◌&&◌, Option, none, some,
  List, [], ◌∷◌, drop, ◌==◌, arith, ltb, Bool-cases, inl, inr, pos, All,
}
use rtos_kernel_from_scratch.Xrce.Cdr.{
  write_header, write_i32, write_u32, write_uint, align_writer, write_bytes, le_bytes,
}
use rtos_kernel_from_scratch.Xrce.Serial.{FrameReader, feed_all}
use rtos_kernel_from_scratch.Xrce.Msgs.Basic.{int32_encode}
use rtos_kernel_from_scratch.Xrce.Session.Requests.{write_data}
use rtos_kernel_from_scratch.Firmware.Node.{Build, best_effort_stream, Node}
use rtos_kernel_from_scratch.Firmware.Announce.{
  publish_cap, pace_busy_loops, node_init, say_secure, boot_node, publish_sample, reannounce,
  reannounce_every, publish, publish_encoded, publish_from, run_main,
}
use rtos_kernel_from_scratch.Firmware.Heard.{IsHeard, carried, IsHeard-text, IsListening, IsFrame}
use rtos_kernel_from_scratch.Firmware.Speaking.{
  frame_max, IsClear, IsClear-fewer, puts-IsClear, put_uint-IsClear, build-IsFitting,
  send_built-IsClear, pace_and_poll_rx-IsClear,
}
use rtos_kernel_from_scratch.Firmware.Announcing.{IsSensible, Keeps, announce_entities-IsClear}

publish_sample-IsClear :
    (cfg : Build) (i : ℕ) (sample : List ℕ) (n : Node) {m : ℕ}
    → length (drop 4 sample) ≤ 48
    → IsClear m n
    → IsClear (suc m) (publish_sample cfg i sample n)
publish_sample-IsClear cfg i sample n small c =
    let made =
      build-IsFitting n.session best_effort_stream
        (write_data n.entities.datawriter (drop 4 sample)) publish_cap c.key tt (omega arith)
        (omega arith) in
    let c1 = send_built-IsClear cfg _ n made c in
    let c2 = puts-IsClear "published data=" _ refl c1 in
    let c3 = put_uint-IsClear i _ c2 in
    let c4 = puts-IsClear "\r\n" _ refl c3 in pace_and_poll_rx-IsClear cfg _ pace_busy_loops _ c4

reannounce-Keeps : (cfg : Build) (i : ℕ) → IsSensible cfg → Keeps (reannounce cfg i)
reannounce-Keeps cfg i h n m c = elim (Bool-cases (ltb 0 i && (i % reannounce_every == 0))) [
  | inl e ↦ simp e (IsClear-fewer (11 + m) m _ (omega arith) (announce_entities-IsClear cfg n h c))
  | inr e ↦ simp e c
]

sample_of : ℕ → List ℕ
sample_of i =
    0
    ∷ 1
    ∷ 0
    ∷ 0
    ∷ (i % 256)
    ∷ (i / 256 % 256)
    ∷ (i / 256 / 256 % 256)
    ∷ (i / 256 / 256 / 256 % 256)
    ∷ []

-- The sample of a number below 2 ^ 31 is encoded.
int32_encode-sample_of : (i : ℕ) → i < 2 ^ 31 → int32_encode (pos i) 16 ≡ some (sample_of i)
unfolding int32_encode sample_of write_header write_i32 write_u32 write_uint align_writer
    write_bytes le_bytes
int32_encode-sample_of i h = let same : i % 2 ^ 32 ≡ i = omega arith in rw same refl

publish-some :
    (cfg : Build) (i : ℕ) (n : Node)
    → i < 2 ^ 31
    → publish cfg i n ≡ some (publish_sample cfg i (sample_of i) (reannounce cfg i n))
unfolding publish
publish-some cfg i n h =
    ap (λ o. publish_encoded cfg i o (reannounce cfg i n)) (int32_encode-sample_of i h)

publish_from-step :
    (cfg : Build) (rounds i : ℕ) (n n' : Node)
    → publish cfg i n ≡ some n'
    → publish_from cfg (suc rounds) i n ≡ publish_from cfg rounds (i + 1) n'
unfolding publish_from
publish_from-step cfg rounds i n n' e =
    ap (λ o. elim o [ none ↦ none | some x ↦ publish_from cfg rounds (i + 1) x ]) e

publish_from-IsClear :
    (cfg : Build) (rounds i : ℕ) (n : Node) {m : ℕ}
    → IsSensible cfg
    → i + rounds < 2 ^ 31
    → IsClear m n
    → (n' : Node) × (publish_from cfg rounds i n ≡ some n') × IsClear (rounds + m) n'
unfolding publish_from sample_of
publish_from-IsClear cfg zero i n {m} h lt c = (n, refl, IsClear-fewer m (0 + m) n (omega arith) c)
publish_from-IsClear cfg (suc rounds) i n {m} h lt c =
    let step = publish_from-step cfg rounds i n _ (publish-some cfg i n (omega arith)) in
    let c' =
      publish_sample-IsClear cfg i (sample_of i) _ (omega arith) (reannounce-Keeps cfg i h n _ c) in
    let (n', run, c'') = publish_from-IsClear cfg rounds (i + 1) _ h (omega arith) c' in
    (n', step ∙ run, IsClear-fewer (rounds + suc m) (suc rounds + m) n' (omega arith) c'')

node_init-IsClear : (cfg : Build) (arriving : List (Option ℕ)) → IsClear 0 (node_init cfg arriving)
node_init-IsClear cfg arriving = record { heard = IsHeard-text frame_max [] refl; key = refl }

say_secure-Keeps : (cfg : Build) → Keeps (say_secure cfg)
say_secure-Keeps cfg n m c = elim (Bool-cases cfg.secure_link) [
  | inl e ↦ simp e (
      puts-IsClear
        "SECURE_LINK enabled: every frame HMAC-authenticated, point this at host/secure_gateway.c, not a bare agent\r\n"
        n refl c)
  | inr e ↦ simp e c
]

boot_node-IsClear :
    (cfg : Build) (arriving : List (Option ℕ))
    → IsSensible cfg
    → IsClear 11 (boot_node cfg arriving)
unfolding boot_node
boot_node-IsClear cfg arriving h =
    let c0 = node_init-IsClear cfg arriving in
    let c1 = puts-IsClear "RTOS ROS2 demo: booting, sending XRCE frames over UART1\r\n" _ refl c0 in
    let c2 = say_secure-Keeps cfg _ _ c1 in
    let c3 = announce_entities-IsClear cfg _ h c2 in
    puts-IsClear "Publishing std_msgs/Int32 on rt/chatter, watching rt/setpoint...\r\n" _ refl c3

-- Whatever bytes arrive at the board, for any build whose node id has a text of at most 20
-- characters, and for any number of rounds below 2 ^ 31: `main` gets through these rounds without
-- hanging on an error, and a reader with the node's address that listens from the start, with room for
-- the largest frame of the node, reports frames that are not empty, at least 11 of them for the
-- announcements and one for each round; all that it reports are whole frames from that address of at most this size, and no error, and
-- it is listening again behind all that went out on the UART.
pub run_main-IsHeard :
    (cfg : Build) (arriving : List (Option ℕ)) (rounds : ℕ) (r : FrameReader)
    → IsSensible cfg
    → rounds < 2 ^ 31
    → IsListening frame_max r
    → (n : Node) × (run_main cfg arriving rounds ≡ some n)
      × IsListening frame_max (feed_all r n.uart).0
      × All (IsFrame frame_max) (feed_all r n.uart).1
      × (rounds + 11 ≤ carried (feed_all r n.uart).1)
unfolding run_main IsHeard
run_main-IsHeard cfg arriving rounds r h lt l =
    let (n, run, c) =
      publish_from-IsClear cfg rounds 0 (boot_node cfg arriving) h (omega arith)
        (boot_node-IsClear cfg arriving h) in
    let (l', frames, count) = c.heard r l in (n, run, l', frames, count)
