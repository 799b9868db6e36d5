-- ===== src/Gateway/Forwarding.antt =====
-- What host/secure_gateway.c forwards between its two sides, in any order of their bytes.
use rtos_kernel_from_scratch.Common.{
  ℕ, ◌+◌, ◌^◌, ◌<◌, ◌≡◌, ◌⊎◌, refl, sym, ap, ◌∙◌, true, false, some, List, [], ◌∷◌, length, arith,
}
use rtos_kernel_from_scratch.Xrce.Serial.{frame_encode, wait_flag}
use rtos_kernel_from_scratch.Xrce.Serial.Bounds.{max_encoded_len, frame_encode-fits}
use rtos_kernel_from_scratch.Xrce.Secure.{SecureCtx, secure_wrap, overhead}
use rtos_kernel_from_scratch.Xrce.Secure.Replay.{
  length-wrapped, secure_wrap-some, secure_unwrap-secure_wrap,
}
use rtos_kernel_from_scratch.Gateway.{
  Link, Gateway, Event, from_board, from_agent, Written, relay_byte, board_byte, agent_byte,
  gateway_run, process_secure_frame, forward_plain, encoded, wrote_agent, wrote_board,
  wrap_and_encode, max_payload, addr,
}
use rtos_kernel_from_scratch.Gateway.Relaying.{relay_all, CanTake, relay_all-frame_encode}

-- The bytes of each side, in their order.
abbrev board_bytes : List Event → List ℕ
board_bytes [] = []
board_bytes (from_board b ∷ es) = b ∷ board_bytes es
board_bytes (from_agent b ∷ es) = board_bytes es

abbrev agent_bytes : List Event → List ℕ
agent_bytes [] = []
agent_bytes (from_board b ∷ es) = agent_bytes es
agent_bytes (from_agent b ∷ es) = b ∷ agent_bytes es

abbrev verify : SecureCtx → List ℕ → SecureCtx × List ℕ
verify = process_secure_frame (max_encoded_len max_payload)

abbrev protect : SecureCtx → List ℕ → SecureCtx × List ℕ
protect = wrap_and_encode (max_encoded_len (max_payload + overhead))

-- The two directions side by side.
abbrev both : Link × List ℕ → Link × List ℕ → Gateway × Written
both (up, to_agent) (down, to_board) =
    (record { uplink = up; downlink = down }, record { to_agent = to_agent; to_board = to_board })

-- The directions do not disturb one another, however their bytes are interleaved.
gateway_run-both :
    (g : Gateway) (es : List Event)
    → gateway_run g es
      ≡ both
          (relay_all verify g.uplink (board_bytes es))
          (relay_all protect g.downlink (agent_bytes es))
unfolding gateway_run relay_all board_byte agent_byte
gateway_run-both g [] = refl
gateway_run-both g (from_board b ∷ es) =
    let (l, out) = relay_byte verify g.uplink b in
    let rest = gateway_run-both (record g { uplink = l }) es in ap (wrote_agent out) rest
gateway_run-both g (from_agent b ∷ es) =
    let (l, out) = relay_byte protect g.downlink b in
    let rest = gateway_run-both (record g { downlink = l }) es in ap (wrote_board out) rest

verify-secure_wrap :
    (rx tx tx' : SecureCtx) (payload wrapped : List ℕ) (out_cap : ℕ)
    → rx.key ≡ tx.key
    → tx.send_counter < 2 ^ 32
    → (rx.have_received ≡ false) ⊎ (rx.last_recv_counter < tx.send_counter)
    → secure_wrap tx payload out_cap ≡ (tx', some wrapped)
    → verify rx wrapped ≡ (
      record rx { last_recv_counter = tx.send_counter; have_received = true },
      encoded (frame_encode (max_encoded_len max_payload) addr addr payload),
    )
unfolding process_secure_frame
verify-secure_wrap rx tx tx' payload wrapped out_cap key lt new e =
    ap (forward_plain (max_encoded_len max_payload))
      (secure_unwrap-secure_wrap tx tx' rx payload wrapped out_cap key lt new e)

-- Whatever the agent sends meanwhile, and in any order of the bytes of the two sides: when the bytes of
-- the board are one frame round a payload that a sender with the gateway's key wrapped, with a 32 bit
-- counter that is above the last one accepted from the board, if any was, and the gateway's reader for
-- the board is not in the middle of an escape and has the address and the room that the gateway gives
-- it, then the agent gets exactly the plain frame of this payload, which does not fail to be encoded,
-- and the gateway remembers the counter and waits for the next frame of the board.
pub gateway_forwards :
    (g : Gateway) (es : List Event) (tx tx' : SecureCtx) (payload wrapped frame : List ℕ)
    (out_cap cap : ℕ)
    → CanTake g.uplink.reader (max_payload + overhead)
    → g.uplink.ctx.key ≡ tx.key
    → tx.send_counter < 2 ^ 32
    → (g.uplink.ctx.have_received ≡ false) ⊎ (g.uplink.ctx.last_recv_counter < tx.send_counter)
    → secure_wrap tx payload out_cap ≡ (tx', some wrapped)
    → frame_encode cap addr addr wrapped ≡ some frame
    → board_bytes es ≡ frame
    → let (g', written) = gateway_run g es in
      (some written.to_agent ≡ frame_encode (max_encoded_len max_payload) addr addr payload)
      × (g'.uplink.ctx
          ≡ record g.uplink.ctx { last_recv_counter = tx.send_counter; have_received = true })
      × (g'.uplink.reader.state ≡ wait_flag)
      × (g'.uplink.reader.have_escape ≡ false)
gateway_forwards g es tx tx' payload wrapped frame out_cap cap can key lt new e f b =
    let (room, made) = secure_wrap-some tx tx' payload wrapped out_cap e in
    let size = length-wrapped tx tx' payload wrapped out_cap e in
    let can' : CanTake g.uplink.reader (length wrapped) = record {
      no_escape = can.no_escape;
      for_addr = can.for_addr;
      room = (let r = can.room in omega arith);
      storage = can.storage;
    } in
    let (done_, waits, free) =
      relay_all-frame_encode verify g.uplink cap wrapped frame can' (omega arith) f in
    let checked =
      done_ ∙ verify-secure_wrap g.uplink.ctx tx tx' payload wrapped out_cap key lt new e in
    let (plain, fits, short) =
      frame_encode-fits (max_encoded_len max_payload) addr addr payload (omega arith) in
    rw (gateway_run-both g es, b)
      (
        ap (λ x. some x.1) checked ∙ ap (λ o. some (encoded o)) fits ∙ sym fits,
        ap (λ x. x.0) checked,
        waits,
        free,
      )
