-- ===== src/Xrce/Secure.antt =====
-- xrce/src/secure_transport.c: frames with a counter and a truncated HMAC in front of the payload.
pub mod Replay
use rtos_kernel_from_scratch.Common.{
  ℕ, zero, suc, ◌+◌, ◌-◌, ◌*◌, ◌/◌, ◌%◌, ◌^◌, bit_xor, bit_or, Bool, true, false, ◌&&◌, ◌||◌,
  Option, none, some, List, [], ◌∷◌, ◌++◌, length, get_or, take, drop, ◌==◌, ltb, leb,
  if◌then◌else◌,
}
use rtos_kernel_from_scratch.Xrce.Sha256.{hmac_sha256}

-- `XRCE_SECURE_COUNTER_LEN`, `XRCE_SECURE_TAG_LEN` and `XRCE_SECURE_OVERHEAD`
abbrev pub counter_len : ℕ
counter_len = 4

abbrev pub tag_len : ℕ
tag_len = 8

abbrev pub overhead : ℕ
overhead = counter_len + tag_len

-- `MAC_INPUT_SCRATCH_LEN`
abbrev pub scratch_len : ℕ
scratch_len = 320

-- `xrce_secure_ctx_t`
pub record SecureCtx : Type 0 where
  pub key : List ℕ
  pub send_counter : ℕ
  pub last_recv_counter : ℕ
  pub have_received : Bool

-- `xrce_secure_result_t`, with the payload that goes through `out_plain` and `out_plain_len`.
pub data SecureResult : Type 0 where
  secure_ok : List ℕ → SecureResult
  too_short bad_tag replayed : SecureResult

-- `xrce_secure_init`
unfoldable pub secure_init : List ℕ → SecureCtx
secure_init key = record {
  key = key;
  send_counter = 0;
  last_recv_counter = 0;
  have_received = false;
}

-- `put_counter_be`
abbrev pub put_counter_be : ℕ → List ℕ
put_counter_be n = (n / 2 ^ 24 % 256) ∷ (n / 2 ^ 16 % 256) ∷ (n / 2 ^ 8 % 256) ∷ (n % 256) ∷ []

-- `get_counter_be`; the bits of bytes at different places are disjoint.
abbrev pub get_counter_be : List ℕ → ℕ
get_counter_be bytes =
    get_or bytes 0 0 * 2 ^ 24
    + get_or bytes 1 0 * 2 ^ 16
    + get_or bytes 2 0 * 2 ^ 8
    + get_or bytes 3 0

-- `compute_tag`
unfoldable pub compute_tag : SecureCtx → ℕ → List ℕ → List ℕ
compute_tag ctx counter payload = hmac_sha256 ctx.key (put_counter_be counter ++ payload)

-- `xrce_secure_wrap`: the context behind it, and the frame, or `none` for 0.
unfoldable pub secure_wrap : SecureCtx → List ℕ → ℕ → SecureCtx × Option (List ℕ)
secure_wrap ctx payload out_cap =
    if ltb (scratch_len - counter_len) (length payload) || ltb out_cap (length payload + overhead)
    then (ctx, none)
    else (
      record ctx { send_counter = (ctx.send_counter + 1) % 2 ^ 32 },
      some (
          put_counter_be ctx.send_counter
          ++ (take tag_len (compute_tag ctx ctx.send_counter payload) ++ payload)),
    )

-- The loop of `xrce_secure_unwrap` over the first `n` bytes of two tags.
pub tag_diff : ℕ → List ℕ → List ℕ → ℕ → ℕ
tag_diff zero xs ys diff = diff
tag_diff (suc n) xs ys diff =
    tag_diff n (drop 1 xs) (drop 1 ys) (bit_or diff (bit_xor (get_or xs 0 0) (get_or ys 0 0)))

-- The end of `xrce_secure_unwrap`, behind the check of the tag.
abbrev pub accept : SecureCtx → ℕ → List ℕ → SecureCtx × SecureResult
accept ctx counter plain =
    if ctx.have_received && leb counter ctx.last_recv_counter
    then (ctx, replayed)
    else (record ctx { last_recv_counter = counter; have_received = true }, secure_ok plain)

-- `xrce_secure_unwrap`
unfoldable pub secure_unwrap : SecureCtx → List ℕ → SecureCtx × SecureResult
secure_unwrap ctx frame =
    let counter = get_counter_be frame in
    let plain = drop overhead frame in
    if ltb (length frame) overhead || ltb (scratch_len - counter_len) (length frame - overhead)
    then (ctx, too_short)
    else if tag_diff tag_len (drop counter_len frame) (compute_tag ctx counter plain) 0 == 0
    then accept ctx counter plain
    else (ctx, bad_tag)
