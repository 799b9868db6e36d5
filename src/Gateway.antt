-- ===== src/Gateway.antt =====
-- host/secure_gateway.c: the gateway between a board that authenticates its frames and an agent that
-- does not. Each direction has a reader for the bytes that come in and a context of the secure transport.
pub mod Relaying
pub mod Forwarding
mod Tests
use rtos_kernel_from_scratch.Common.{
  ℕ, zero, suc, ◌+◌, ◌/◌, ◌%◌, ◌||◌, not, Option, none, some, List, [], ◌∷◌, ◌++◌, length, take,
  drop, replicate, ◌==◌, ltb, if◌then◌else◌,
}
use rtos_kernel_from_scratch.Xrce.Serial.{
  FrameReader, FeedResult, in_progress, frame_ready, feed_error, frame_encode, reader_init,
  reader_feed,
}
use rtos_kernel_from_scratch.Xrce.Serial.Bounds.{max_encoded_len}
use rtos_kernel_from_scratch.Xrce.Secure.{
  SecureCtx, SecureResult, secure_ok, too_short, bad_tag, replayed, secure_init, secure_wrap,
  secure_unwrap, overhead,
}

abbrev pub max_payload : ℕ
max_payload = 512

abbrev pub addr : ℕ
addr = 0

abbrev pub default_key : List ℕ
default_key =
    0xDE ∷ 0xAD ∷ 0xBE ∷ 0xEF ∷ 0xCA ∷ 0xFE ∷ 0xBA ∷ 0xBE ∷ 0x13 ∷ 0x37 ∷ 0xC0 ∷ 0xDE ∷ 0xF0 ∷ 0x0D
    ∷ 0x5E ∷ 0xED ∷ []

-- One direction of the gateway.
pub record Link : Type 0 where
  pub reader : FrameReader
  pub ctx : SecureCtx

-- The state of `main`: from the board to the agent, and back.
pub record Gateway : Type 0 where
  pub uplink : Link
  pub downlink : Link

-- The written bytes; nothing is written for a frame of length 0.
abbrev pub encoded : Option (List ℕ) → List ℕ
encoded none = []
encoded (some out) = out

-- `parse_hex_key`, over what `sscanf` with "%2x" makes of the text at a place.
abbrev scan_pairs : (List ℕ → Option ℕ) → ℕ → List ℕ → Option (List ℕ)
scan_pairs scan zero hex = some []
scan_pairs scan (suc n) hex = elim (scan hex) [
  | none ↦ none
  | some byte ↦ elim (scan_pairs scan n (drop 2 hex)) [
    | none ↦ none
    | some key ↦ some ((byte % 256) ∷ key)
  ]
]

pub parse_hex_key : (List ℕ → Option ℕ) → ℕ → List ℕ → Option (List ℕ)
parse_hex_key scan out_cap hex =
    if (length hex == 0) || not (length hex % 2 == 0) || ltb out_cap (length hex / 2)
    then none
    else scan_pairs scan (length hex / 2) hex

-- `process_secure_frame`, less its log
abbrev pub forward_plain : ℕ → SecureCtx × SecureResult → SecureCtx × List ℕ
forward_plain out_cap (ctx, secure_ok plain) = (ctx, encoded (frame_encode out_cap addr addr plain))
forward_plain out_cap (ctx, too_short) = (ctx, [])
forward_plain out_cap (ctx, bad_tag) = (ctx, [])
forward_plain out_cap (ctx, replayed) = (ctx, [])

pub process_secure_frame : ℕ → SecureCtx → List ℕ → SecureCtx × List ℕ
process_secure_frame out_cap ctx frame_payload =
    forward_plain out_cap (secure_unwrap ctx frame_payload)

-- `wrap_and_encode`
abbrev encode_wrapped : ℕ → SecureCtx × Option (List ℕ) → SecureCtx × List ℕ
encode_wrapped out_cap (ctx, none) = (ctx, [])
encode_wrapped out_cap (ctx, some wrapped) = (ctx, encoded (frame_encode out_cap addr addr wrapped))

unfoldable pub wrap_and_encode : ℕ → SecureCtx → List ℕ → SecureCtx × List ℕ
wrap_and_encode out_cap ctx plain =
    encode_wrapped out_cap (secure_wrap ctx plain (max_payload + overhead))

-- What is done with the result of `xrce_serial_reader_feed`: a whole frame goes through `handle`.
abbrev pub act :
    (SecureCtx → List ℕ → SecureCtx × List ℕ) → SecureCtx → FrameReader × FeedResult → Link × List ℕ
act handle ctx (r, in_progress) = (record { reader = r; ctx = ctx }, [])
act handle ctx (r, feed_error) = (record { reader = r; ctx = ctx }, [])
act handle ctx (r, frame_ready src len) =
    let (ctx', out) = handle ctx (take len r.payload_buf) in
    (record { reader = r; ctx = ctx' }, out)

pub relay_byte : (SecureCtx → List ℕ → SecureCtx × List ℕ) → Link → ℕ → Link × List ℕ
relay_byte handle l byte = act handle l.ctx (reader_feed l.reader byte)

-- The two branches of the loop of `main`, and the bytes that they write.
pub board_byte : Gateway → ℕ → Gateway × List ℕ
board_byte g byte =
    let (l, out) = relay_byte (process_secure_frame (max_encoded_len max_payload)) g.uplink byte in
    (record g { uplink = l }, out)

pub agent_byte : Gateway → ℕ → Gateway × List ℕ
agent_byte g byte =
    let (l, out) =
      relay_byte (wrap_and_encode (max_encoded_len (max_payload + overhead))) g.downlink byte in
    (record g { downlink = l }, out)

-- `main` before its loop
abbrev link_init : List ℕ → ℕ → Link
link_init key cap = record {
  reader = reader_init addr (replicate cap 0) cap;
  ctx = secure_init key;
}

abbrev pub gateway_init : List ℕ → Gateway
gateway_init key = record {
  uplink = link_init key (max_payload + overhead);
  downlink = link_init key max_payload;
}

-- What `poll` finds: a byte of one of the two sides.
pub data Event : Type 0 where
  from_board from_agent : ℕ → Event

pub record Written : Type 0 where
  pub to_agent : List ℕ
  pub to_board : List ℕ

abbrev pub wrote_agent : List ℕ → Gateway × Written → Gateway × Written
wrote_agent out (g, w) = (g, record w { to_agent = out ++ w.to_agent })

abbrev pub wrote_board : List ℕ → Gateway × Written → Gateway × Written
wrote_board out (g, w) = (g, record w { to_board = out ++ w.to_board })

-- The loop of `main` over the events in the order in which they come.
pub gateway_run : Gateway → List Event → Gateway × Written
gateway_run g [] = (g, record { to_agent = []; to_board = [] })
gateway_run g (from_board b ∷ es) =
    let (g', out) = board_byte g b in wrote_agent out (gateway_run g' es)
gateway_run g (from_agent b ∷ es) =
    let (g', out) = agent_byte g b in wrote_board out (gateway_run g' es)
