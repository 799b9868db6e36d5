-- ===== src/Xrce/Sha256.antt =====
-- xrce/src/sha256.c and xrce/src/hmac.c: the streaming SHA-256 and the HMAC over it.
pub mod Absorb
pub mod Streaming
pub mod Padding
use rtos_kernel_from_scratch.Common.{
  ℕ, zero, suc, ◌+◌, ◌-◌, ◌*◌, ◌/◌, ◌%◌, ◌^◌, min, bit_xor, bit_and, bit_or, List, [], ◌∷◌, ◌++◌,
  map, length, get_or, take, drop, replicate, ◌==◌, ltb, leb, if◌then◌else◌,
}

-- `XRCE_SHA256_BLOCK_LEN` and `XRCE_SHA256_DIGEST_LEN`
abbrev pub block_len : ℕ
block_len = 64

abbrev digest_len : ℕ
digest_len = 32

-- The eight words of `state`, and of the working variables `a` to `h`.
pub record Words : Type 0 where
  pub a : ℕ
  pub b : ℕ
  pub c : ℕ
  pub d : ℕ
  pub e : ℕ
  pub f : ℕ
  pub g : ℕ
  pub h : ℕ

-- `xrce_sha256_ctx_t`; `buf` is the bytes held in the buffer, so `buf_len` is their number.
pub record Sha256 : Type 0 where
  pub state : Words
  pub total_len : ℕ
  pub buf : List ℕ

-- `K`
abbrev round_constants : List ℕ
round_constants =
    0x428a2f98 ∷ 0x71374491 ∷ 0xb5c0fbcf ∷ 0xe9b5dba5 ∷ 0x3956c25b ∷ 0x59f111f1 ∷ 0x923f82a4
    ∷ 0xab1c5ed5 ∷ 0xd807aa98 ∷ 0x12835b01 ∷ 0x243185be ∷ 0x550c7dc3 ∷ 0x72be5d74 ∷ 0x80deb1fe
    ∷ 0x9bdc06a7 ∷ 0xc19bf174 ∷ 0xe49b69c1 ∷ 0xefbe4786 ∷ 0x0fc19dc6 ∷ 0x240ca1cc ∷ 0x2de92c6f
    ∷ 0x4a7484aa ∷ 0x5cb0a9dc ∷ 0x76f988da ∷ 0x983e5152 ∷ 0xa831c66d ∷ 0xb00327c8 ∷ 0xbf597fc7
    ∷ 0xc6e00bf3 ∷ 0xd5a79147 ∷ 0x06ca6351 ∷ 0x14292967 ∷ 0x27b70a85 ∷ 0x2e1b2138 ∷ 0x4d2c6dfc
    ∷ 0x53380d13 ∷ 0x650a7354 ∷ 0x766a0abb ∷ 0x81c2c92e ∷ 0x92722c85 ∷ 0xa2bfe8a1 ∷ 0xa81a664b
    ∷ 0xc24b8b70 ∷ 0xc76c51a3 ∷ 0xd192e819 ∷ 0xd6990624 ∷ 0xf40e3585 ∷ 0x106aa070 ∷ 0x19a4c116
    ∷ 0x1e376c08 ∷ 0x2748774c ∷ 0x34b0bcb5 ∷ 0x391c0cb3 ∷ 0x4ed8aa4a ∷ 0x5b9cca4f ∷ 0x682e6ff3
    ∷ 0x748f82ee ∷ 0x78a5636f ∷ 0x84c87814 ∷ 0x8cc70208 ∷ 0x90befffa ∷ 0xa4506ceb ∷ 0xbef9a3f7
    ∷ 0xc67178f2 ∷ []

-- `rotr`
unfoldable pub rotr : ℕ → ℕ → ℕ
rotr x n = bit_or (x / 2 ^ n) (x * 2 ^ (32 - n) % 2 ^ 32)

-- A 32 bit word from four bytes, the high one first.
abbrev word_at : List ℕ → ℕ → ℕ
word_at bytes i =
    ((get_or bytes i 0 * 256 + get_or bytes (i + 1) 0) * 256 + get_or bytes (i + 2) 0) * 256
    + get_or bytes (i + 3) 0

-- The loop that reads the block into `w[0]` to `w[15]`, `n` rounds of it.
unfoldable pub block_words : ℕ → List ℕ → List ℕ
block_words zero block = []
block_words (suc n) block = word_at block 0 ∷ block_words n (drop 4 block)

-- The loop that extends `w`, `n` rounds of it; `w` is `w[0 .. t)`.
unfoldable pub extend : ℕ → List ℕ → List ℕ
unfolding rotr
extend zero w = w
extend (suc n) w =
    let t = length w in
    let x = get_or w (t - 15) 0 in
    let y = get_or w (t - 2) 0 in
    let s0 = bit_xor (bit_xor (rotr x 7) (rotr x 18)) (x / 2 ^ 3) in
    let s1 = bit_xor (bit_xor (rotr y 17) (rotr y 19)) (y / 2 ^ 10) in
    extend n (w ++ ((get_or w (t - 16) 0 + s0 + get_or w (t - 7) 0 + s1) % 2 ^ 32 ∷ []))

-- The body of the loop of 64 rounds, with the round's constant and word.
unfoldable pub round : ℕ → ℕ → Words → Words
unfolding rotr
round k w v =
    let s1 = bit_xor (bit_xor (rotr v.e 6) (rotr v.e 11)) (rotr v.e 25) in
    let ch = bit_xor (bit_and v.e v.f) (bit_and (2 ^ 32 - 1 - v.e) v.g) in
    let temp1 = v.h + s1 + ch + k + w in
    let s0 = bit_xor (bit_xor (rotr v.a 2) (rotr v.a 13)) (rotr v.a 22) in
    let maj = bit_xor (bit_xor (bit_and v.a v.b) (bit_and v.a v.c)) (bit_and v.b v.c) in
    record {
      a = (temp1 + s0 + maj) % 2 ^ 32;
      b = v.a;
      c = v.b;
      d = v.c;
      e = (v.d + temp1) % 2 ^ 32;
      f = v.e;
      g = v.f;
      h = v.g;
    }

unfoldable pub rounds : List ℕ → List ℕ → Words → Words
rounds [] ws v = v
rounds (k ∷ ks) [] v = v
rounds (k ∷ ks) (w ∷ ws) v = rounds ks ws (round k w v)

abbrev add_words : Words → Words → Words
add_words s v = record {
  a = (s.a + v.a) % 2 ^ 32;
  b = (s.b + v.b) % 2 ^ 32;
  c = (s.c + v.c) % 2 ^ 32;
  d = (s.d + v.d) % 2 ^ 32;
  e = (s.e + v.e) % 2 ^ 32;
  f = (s.f + v.f) % 2 ^ 32;
  g = (s.g + v.g) % 2 ^ 32;
  h = (s.h + v.h) % 2 ^ 32;
}

-- `process_block`
unfoldable pub process_block : Words → List ℕ → Words
process_block s block = add_words s (rounds round_constants (extend 48 (block_words 16 block)) s)

-- `xrce_sha256_init`
unfoldable pub sha256_init : Sha256
sha256_init = record {
  state = record {
    a = 0x6a09e667;
    b = 0xbb67ae85;
    c = 0x3c6ef372;
    d = 0xa54ff53a;
    e = 0x510e527f;
    f = 0x9b05688c;
    g = 0x1f83d9ab;
    h = 0x5be0cd19;
  };
  total_len = 0;
  buf = [];
}

-- The top-up of a partial block in `xrce_sha256_update`: the context, and the data that is left.
unfoldable pub top_up : Sha256 → List ℕ → Sha256 × List ℕ
top_up ctx data_in =
    let need = block_len - length ctx.buf in
    let filled = ctx.buf ++ take need data_in in
    if length ctx.buf == 0
    then (ctx, data_in)
    else if length filled == block_len
    then (record ctx { state = process_block ctx.state filled; buf = [] }, drop need data_in)
    else (record ctx { buf = filled }, drop need data_in)

-- The loop over whole blocks, with fuel: the state, and the bytes that are left.
unfoldable pub absorb : ℕ → Words → List ℕ → Words × List ℕ
absorb zero s data_in = (s, data_in)
absorb (suc fuel) s data_in =
    let rest = absorb fuel (process_block s (take block_len data_in)) (drop block_len data_in) in
    if leb block_len (length data_in) then rest else (s, data_in)

-- The end of `xrce_sha256_update`: what is left goes to the start of the buffer.
abbrev pub keep_rest : Sha256 → Words × List ℕ → Sha256
keep_rest ctx (s, rest) =
    if ltb 0 (length rest) then record ctx { state = s; buf = rest } else record ctx { state = s }

abbrev pub absorb_rest : Sha256 × List ℕ → Sha256
absorb_rest (ctx, data_in) = keep_rest ctx (absorb (length data_in) ctx.state data_in)

-- `xrce_sha256_update`
unfoldable pub sha256_update : Sha256 → List ℕ → Sha256
sha256_update ctx data_in =
    absorb_rest
      (top_up (record ctx { total_len = (ctx.total_len + length data_in) % 2 ^ 64 }) data_in)

abbrev pub uncount : Sha256 → Sha256
uncount ctx = record ctx { total_len = (ctx.total_len + 2 ^ 64 - 1) % 2 ^ 64 }

-- The loop of `xrce_sha256_final` that pads with zeros, with fuel.
unfoldable pub pad_zeros : ℕ → Sha256 → Sha256
pad_zeros zero ctx = ctx
pad_zeros (suc fuel) ctx =
    let rest = pad_zeros fuel (uncount (sha256_update ctx (0 ∷ []))) in
    if length ctx.buf == block_len - 8 then ctx else rest

abbrev word_bytes : ℕ → List ℕ
word_bytes w = (w / 2 ^ 24 % 256) ∷ (w / 2 ^ 16 % 256) ∷ (w / 2 ^ 8 % 256) ∷ (w % 256) ∷ []

abbrev length_bytes : ℕ → List ℕ
length_bytes n = word_bytes (n / 2 ^ 32) ++ word_bytes n

abbrev digest_of : Words → List ℕ
digest_of s =
    word_bytes s.a
    ++ (word_bytes s.b
        ++ (word_bytes s.c
            ++ (word_bytes s.d
                ++ (word_bytes s.e ++ (word_bytes s.f ++ (word_bytes s.g ++ word_bytes s.h))))))

-- `xrce_sha256_final`
unfoldable pub sha256_final : Sha256 → List ℕ
sha256_final ctx =
    let bit_len = ctx.total_len * 8 % 2 ^ 64 in
    let padded = pad_zeros block_len (uncount (sha256_update ctx (0x80 ∷ []))) in
    digest_of (sha256_update padded (length_bytes bit_len)).state

-- `xrce_sha256`
unfoldable pub sha256 : List ℕ → List ℕ
sha256 data_in = sha256_final (sha256_update sha256_init data_in)

-- The key of `xrce_hmac_sha256` as a block: hashed if it is longer, and filled up with zeros.
abbrev key_block : List ℕ → List ℕ
key_block key =
    if ltb block_len (length key)
    then sha256 key ++ replicate (block_len - digest_len) 0
    else key ++ replicate (block_len - length key) 0

-- `xrce_hmac_sha256`
unfoldable pub hmac_sha256 : List ℕ → List ℕ → List ℕ
hmac_sha256 key data_in =
    let ipad = map (λ x. bit_xor x 0x36) (key_block key) in
    let opad = map (λ x. bit_xor x 0x5c) (key_block key) in
    let inner = sha256_final (sha256_update (sha256_update sha256_init ipad) data_in) in
    sha256_final (sha256_update (sha256_update sha256_init opad) inner)
