-- ===== src/Xrce/SecureTests.antt =====
-- Runs of the hashes and of the secure transport, with the vectors of xrce/tests/test_sha256.c and
-- xrce/tests/test_hmac.c.
use rtos_kernel_from_scratch.Common.{
  ℕ, ◌<◌, ◌≡◌, inr, refl, true, false, Option, none, some, List, [], ◌∷◌, ◌++◌, length, replicate,
  take, drop, arith,
}
use rtos_kernel_from_scratch.Xrce.Sha256.{
  rotr, block_words, extend, round, rounds, process_block, sha256_init, top_up, absorb,
  sha256_update, pad_zeros, sha256_final, sha256, hmac_sha256,
}
use rtos_kernel_from_scratch.Xrce.Sha256.Streaming.{sha256_update-append}
use rtos_kernel_from_scratch.Xrce.Sha256.Padding.{pad_zeros-ends}
use rtos_kernel_from_scratch.Xrce.Secure.{
  SecureCtx, secure_ok, too_short, compute_tag, get_counter_be, secure_wrap, secure_unwrap,
  counter_len, overhead, tag_len,
}
use rtos_kernel_from_scratch.Xrce.Secure.Replay.{
  secure_unwrap-fresh, secure_unwrap-drops, secure_unwrap-authentic, secure_unwrap-secure_wrap,
}

-- The digest of "abc".
sha256_abc :
    sha256 (97 ∷ 98 ∷ 99 ∷ [])
    ≡ 0xba ∷ 0x78 ∷ 0x16 ∷ 0xbf ∷ 0x8f ∷ 0x01 ∷ 0xcf ∷ 0xea ∷ 0x41 ∷ 0x41 ∷ 0x40 ∷ 0xde ∷ 0x5d
      ∷ 0xae ∷ 0x22 ∷ 0x23 ∷ 0xb0 ∷ 0x03 ∷ 0x61 ∷ 0xa3 ∷ 0x96 ∷ 0x17 ∷ 0x7a ∷ 0x9c ∷ 0xb4 ∷ 0x10
      ∷ 0xff ∷ 0x61 ∷ 0xf2 ∷ 0x00 ∷ 0x15 ∷ 0xad ∷ []
unfolding sha256 sha256_final sha256_update sha256_init top_up absorb pad_zeros process_block rounds
    round extend block_words rotr
sha256_abc = refl

-- The first bytes of the HMAC of "Hi There" under twenty bytes 0x0b.
hmac_hi_there :
    take 4 (hmac_sha256 (replicate 20 0x0b) (72 ∷ 105 ∷ 32 ∷ 84 ∷ 104 ∷ 101 ∷ 114 ∷ 101 ∷ []))
    ≡ 0xb0 ∷ 0x34 ∷ 0x4c ∷ 0x61 ∷ []
unfolding hmac_sha256 sha256_final sha256_update sha256_init top_up absorb pad_zeros process_block
    rounds round extend block_words rotr
hmac_hi_there = refl

sha256_update-append_example :
    sha256_update (sha256_update sha256_init (replicate 70 1)) (2 ∷ 3 ∷ [])
    ≡ sha256_update sha256_init (replicate 70 1 ++ (2 ∷ 3 ∷ []))
unfolding sha256_init
sha256_update-append_example =
    sha256_update-append sha256_init (replicate 70 1) (2 ∷ 3 ∷ []) (omega arith)

pad_zeros-ends_example : length (pad_zeros 64 sha256_init).buf ≡ 56
unfolding sha256_init
pad_zeros-ends_example = pad_zeros-ends 64 sha256_init (omega arith) (omega arith)

-- A sender with two frames behind it, and a receiver that has accepted the first.
abbrev sender : SecureCtx
sender = record {
  key = 1 ∷ 2 ∷ 3 ∷ [];
  send_counter = 2;
  last_recv_counter = 0;
  have_received = false;
}

abbrev receiver : SecureCtx
receiver = record sender { last_recv_counter = 1; have_received = true; send_counter = 0 }

abbrev wrapped : Option (List ℕ) → List ℕ
wrapped none = []
wrapped (some bytes) = bytes

abbrev secured : List ℕ
secured = wrapped (secure_wrap sender (5 ∷ 6 ∷ []) 64).1

abbrev accepted : SecureCtx
accepted = record receiver { last_recv_counter = 2 }

secure_unwrap-secure_wrap_example :
    secure_unwrap receiver secured ≡ (accepted, secure_ok (5 ∷ 6 ∷ []))
unfolding secure_wrap
secure_unwrap-secure_wrap_example =
    secure_unwrap-secure_wrap sender (record sender { send_counter = 3 }) receiver (5 ∷ 6 ∷ [])
      secured 64 refl (omega arith) (inr (omega arith)) refl

secure_unwrap-fresh_example : (1 < 2) × (2 ≡ get_counter_be secured) × (true ≡ true)
unfolding secure_wrap
secure_unwrap-fresh_example =
    secure_unwrap-fresh receiver accepted secured (5 ∷ 6 ∷ []) secure_unwrap-secure_wrap_example
      refl

secure_unwrap-authentic_example :
    (5 ∷ 6 ∷ [] ≡ drop overhead secured)
    × (take tag_len (drop counter_len secured)
        ≡ take tag_len (compute_tag receiver (get_counter_be secured) (5 ∷ 6 ∷ [])))
secure_unwrap-authentic_example =
    secure_unwrap-authentic receiver accepted secured (5 ∷ 6 ∷ []) secure_unwrap-secure_wrap_example

secure_unwrap-drops_example : (secure_unwrap receiver (1 ∷ 2 ∷ [])).0 ≡ receiver
unfolding secure_unwrap
secure_unwrap-drops_example =
    secure_unwrap-drops receiver (secure_unwrap receiver (1 ∷ 2 ∷ [])).0 (1 ∷ 2 ∷ []) too_short refl
      (λ e. absurd (cc))
