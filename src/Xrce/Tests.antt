-- ===== src/Xrce/Tests.antt =====
-- Runs of the serial transport and of the reliable stream on small examples.
use rtos_kernel_from_scratch.Common.{
  ℕ, ◌+◌, ◌-◌, ◌^◌, ◌≤◌, ◌≡◌, refl, true, false, not, Option, none, some, List, [], ◌∷◌, length,
  replicate, take, ◌==◌, arith,
}
use rtos_kernel_from_scratch.Xrce.Serial.{
  crc16_shift, crc16_update, put_stuffed, put_all, put_payload, frame_encode, wait_flag, read_dst,
  FrameReader, frame_ready, feed_all, reader_init, reader_feed,
}
use rtos_kernel_from_scratch.Xrce.Serial.RoundTrip.{feed_all-frame_encode}
use rtos_kernel_from_scratch.Xrce.Serial.Bounds.{
  InBounds, reader_init-InBounds, reader_feed-InBounds, frame_encode-fits,
}
use rtos_kernel_from_scratch.Xrce.Reliable.{
  ReliableOut, slot_for, u16, reliable_out_init, reliable_out_track, free_until,
  reliable_out_on_acknack, reliable_out_next_retransmit,
}
use rtos_kernel_from_scratch.Xrce.Reliable.Window.{
  track_keeps_outstanding, on_acknack_ends, on_acknack_frees, on_acknack_keeps,
  on_acknack_drops_newest,
}
use rtos_kernel_from_scratch.Xrce.Reliable.Sweeping.{next_retransmit_lem, Swept}

abbrev from_some : {A : Type 0} → A → Option A → A
from_some d none = d
from_some d (some a) = a

-- A payload with a flag and an escape in it, from address 1 to address 2, read in the middle of
-- another frame.
abbrev payload : List ℕ
payload = 0x7E ∷ 5 ∷ 0x7D ∷ []

abbrev frame : List ℕ
frame = from_some [] (frame_encode 64 1 2 payload)

abbrev reader : FrameReader
reader = record (reader_init 2 (replicate 8 0) 8) { state = read_dst; src_addr = 9 }

feed_all-frame_encode_example :
    let (r', reports) = feed_all reader frame in
    (reports ≡ frame_ready 1 3 ∷ [])
    × (take 3 r'.payload_buf ≡ payload)
    × (r'.state ≡ wait_flag)
    × (r'.have_escape ≡ false)
unfolding frame_encode put_all put_payload put_stuffed crc16_update crc16_shift reader_init
feed_all-frame_encode_example =
    feed_all-frame_encode reader 64 1 payload frame refl (omega arith) (omega arith) (omega arith)
      refl

reader_feed-InBounds_example : InBounds (reader_feed (reader_init 2 (replicate 8 0) 8) 0x7E).0
reader_feed-InBounds_example =
    reader_feed-InBounds (reader_init 2 (replicate 8 0) 8) 0x7E (omega arith)
      (reader_init-InBounds 2 8 (replicate 8 0) (omega arith))

frame_encode-fits_example :
    (out : List ℕ) × (frame_encode 19 1 2 payload ≡ some out) × (length out ≤ 19)
frame_encode-fits_example = frame_encode-fits 19 1 2 payload (omega arith)

-- Messages 2 to 33 are outstanding behind 1, so the window is full; and the same without 33.
abbrev full : ReliableOut
full = record reliable_out_init {
  slots = λ i. record { msg = i ∷ []; occupied = true };
  last_acknown = 1;
  last_sent = 33;
  any_sent = true;
}

abbrev room : ReliableOut
room = record full { last_sent = 32 }

track_keeps_outstanding_example :
    let ro' = (reliable_out_track room 33 (5 ∷ [])).0 in
    (ro'.slots (slot_for 20) ≡ record { msg = 20 ∷ []; occupied = true })
    × (ro'.slots (slot_for 33) ≡ record { msg = 5 ∷ []; occupied = true })
unfolding reliable_out_init reliable_out_track
track_keeps_outstanding_example =
    track_keeps_outstanding room (reliable_out_track room 33 (5 ∷ [])).0 33 20 (5 ∷ []) refl
      (omega arith) (omega arith) (omega arith) refl (omega arith) (omega arith) (omega arith)
      (omega arith)

-- An ACKNACK for everything before 5, with 5 lost.
abbrev acknacked : ReliableOut
acknacked = from_some full (reliable_out_on_acknack full 5 1)

on_acknack_ends_example :
    (ro' : ReliableOut) × (reliable_out_on_acknack full 5 1 ≡ some ro')
    × (ro'.last_acknown ≡ u16 (5 + 2 ^ 16 - 1))
    × (ro'.send_lost ≡ not (1 == 0))
unfolding reliable_out_init
on_acknack_ends_example = on_acknack_ends full 5 1 refl (omega arith) (omega arith)

on_acknack_frees_example : (acknacked.slots (slot_for 3)).occupied ≡ false
unfolding reliable_out_init reliable_out_on_acknack free_until
on_acknack_frees_example =
    on_acknack_frees full acknacked 5 1 3 refl (omega arith) (omega arith) (omega arith)
      (omega arith) refl

on_acknack_keeps_example : acknacked.slots (slot_for 6) ≡ full.slots (slot_for 6)
unfolding reliable_out_init reliable_out_on_acknack free_until
on_acknack_keeps_example =
    on_acknack_keeps full acknacked 5 1 6 refl (omega arith) (omega arith) (omega arith)
      (omega arith) (omega arith) refl

on_acknack_drops_newest_example : (acknacked.slots (slot_for 33)).occupied ≡ false
unfolding reliable_out_init reliable_out_on_acknack free_until
on_acknack_drops_newest_example =
    on_acknack_drops_newest full acknacked 5 1 33 refl (omega arith) (omega arith) (omega arith)
      refl (omega arith) refl

abbrev sweeping : ReliableOut
sweeping = record full { send_lost = true; retransmit_cursor = 4 }

next_retransmit_lem_example :
    (ro' : ReliableOut) × (o : Option (List ℕ)) × (reliable_out_next_retransmit sweeping
      ≡ some (ro', o))
    × Swept sweeping ro' o
unfolding reliable_out_init
next_retransmit_lem_example = next_retransmit_lem sweeping (omega arith) (omega arith) refl
