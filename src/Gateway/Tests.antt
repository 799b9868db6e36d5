-- ===== src/Gateway/Tests.antt =====
-- host/secure_gateway.c on examples, and its theorem at a concrete frame.
use rtos_kernel_from_scratch.Common.{ℕ, ◌≡◌, inl, refl, false, true, some, List, [], ◌∷◌, arith}
use rtos_kernel_from_scratch.Xrce.Serial.{
  frame_encode, put_all, put_payload, put_stuffed, crc16_update, crc16_shift, wait_flag,
  reader_init,
}
use rtos_kernel_from_scratch.Xrce.Serial.Bounds.{max_encoded_len}
use rtos_kernel_from_scratch.Xrce.Sha256.{
  rotr, block_words, extend, round, rounds, process_block, sha256_init, top_up, absorb,
  sha256_update, pad_zeros, sha256_final, hmac_sha256,
}
use rtos_kernel_from_scratch.Xrce.Secure.{compute_tag, SecureCtx, secure_init, secure_wrap}
use rtos_kernel_from_scratch.Gateway.{
  Gateway, Event, from_board, from_agent, gateway_init, gateway_run, default_key, max_payload, addr,
  encoded, parse_hex_key,
}
use rtos_kernel_from_scratch.Gateway.Forwarding.{gateway_forwards}

abbrev gateway : Gateway
gateway = gateway_init default_key

abbrev board : SecureCtx
board = secure_init default_key

abbrev wrapped : List ℕ
wrapped = encoded (secure_wrap board (126 ∷ 6 ∷ []) 64).1

abbrev frame : List ℕ
frame = encoded (frame_encode 64 addr addr wrapped)

-- The agent sends a flag meanwhile.
abbrev events : List ℕ → List Event
events [] = []
events (b ∷ bs) = from_agent 126 ∷ from_board b ∷ events bs

parse_hex_key_test :
    parse_hex_key (λ hex. some 171) 64 (65 ∷ 66 ∷ 65 ∷ 66 ∷ []) ≡ some (171 ∷ 171 ∷ [])
unfolding parse_hex_key
parse_hex_key_test = refl

gateway_forwards_example :
    let (g', written) = gateway_run gateway (events frame) in
    (some written.to_agent ≡ frame_encode (max_encoded_len max_payload) addr addr (126 ∷ 6 ∷ []))
    × (g'.uplink.ctx ≡ record gateway.uplink.ctx { last_recv_counter = 0; have_received = true })
    × (g'.uplink.reader.state ≡ wait_flag)
    × (g'.uplink.reader.have_escape ≡ false)
unfolding secure_wrap secure_init reader_init frame_encode put_all put_payload put_stuffed
    crc16_update crc16_shift compute_tag hmac_sha256 sha256_final sha256_update sha256_init top_up
    absorb pad_zeros process_block rounds round extend block_words rotr
gateway_forwards_example =
    gateway_forwards gateway (events frame) board (record board { send_counter = 1 }) (126 ∷ 6 ∷ [])
      wrapped frame 64 64
      record { no_escape = refl; for_addr = refl; room = omega arith; storage = omega arith } refl
      (omega arith) (inl refl) refl refl refl
