-- ===== src/Xrce/Secure/Replay.antt =====
-- What xrce/src/secure_transport.c promises: a frame of the sender is accepted once.
use rtos_kernel_from_scratch.Common.{
  ℕ, zero, suc, ◌+◌, ◌-◌, ◌^◌, ◌≤◌, ◌<◌, ◌≡◌, ◌≢◌, ◌⊎◌, inl, inr, bit_xor, refl, ap, sym, ◌∙◌, true,
  false, some, List, [], ◌∷◌, ◌++◌, length, take, drop, arith, length-append, subst, length-drop,
  length-take, bit_xor_self, bit_xor-eq, bit_or-zero, drop-append,
}
use rtos_kernel_from_scratch.Xrce.Sha256.{sha256_final, hmac_sha256}
use rtos_kernel_from_scratch.Xrce.Secure.{
  SecureCtx, SecureResult, secure_ok, put_counter_be, get_counter_be, compute_tag, secure_wrap,
  tag_diff, accept, secure_unwrap, scratch_len, counter_len, overhead, tag_len,
}

length-hmac_sha256 : (key data_in : List ℕ) → length (hmac_sha256 key data_in) ≡ 32
unfolding hmac_sha256 sha256_final
length-hmac_sha256 key data_in = refl

length-compute_tag :
    (ctx : SecureCtx) (counter : ℕ) (payload : List ℕ)
    → length (compute_tag ctx counter payload) ≡ 32
unfolding compute_tag
length-compute_tag ctx counter payload =
    length-hmac_sha256 ctx.key (put_counter_be counter ++ payload)

accept_new :
    (ctx : SecureCtx) (counter : ℕ) (plain : List ℕ)
    → (ctx.have_received ≡ false) ⊎ (ctx.last_recv_counter < counter)
    → accept ctx counter plain
      ≡ (record ctx { last_recv_counter = counter; have_received = true }, secure_ok plain)
accept_new ctx counter plain (inl h) = rw h refl
accept_new ctx counter plain (inr h) = ground arith

-- The loop over two tags finds no difference exactly where they agree on the bytes it looks at.
tag_diff_same : (n : ℕ) (xs rest : List ℕ) → n ≤ length xs → tag_diff n (take n xs ++ rest) xs 0 ≡ 0
unfolding tag_diff
tag_diff_same zero xs rest h = refl
tag_diff_same (suc n) [] rest h = absurd (omega arith)
tag_diff_same (suc n) (x ∷ xs) rest h = rw (bit_xor_self x) (tag_diff_same n xs rest (omega arith))

tag_diff-take :
    (n : ℕ) (xs ys : List ℕ) (diff : ℕ)
    → n ≤ length xs
    → n ≤ length ys
    → tag_diff n xs ys diff ≡ 0
    → (diff ≡ 0) × (take n xs ≡ take n ys)
unfolding tag_diff
tag_diff-take zero xs ys diff h k e = (e, refl)
tag_diff-take (suc n) [] ys diff h k e = absurd (omega arith)
tag_diff-take (suc n) (x ∷ xs) [] diff h k e = absurd (omega arith)
tag_diff-take (suc n) (x ∷ xs) (y ∷ ys) diff h k e =
    let (both, rest) = tag_diff-take n xs ys _ (omega arith) (omega arith) e in
    let (zeros, same) = bit_or-zero diff (bit_xor x y) both in
    let head = bit_xor-eq x y same in (zeros, cc (head, rest))

get_counter_be-put_counter_be :
    (n : ℕ) (rest : List ℕ) → n < 2 ^ 32 → get_counter_be (put_counter_be n ++ rest) ≡ n
get_counter_be-put_counter_be n rest lt = omega arith

-- Once a frame was accepted, another is accepted only if its counter is above the last accepted
-- one, and its counter is then the last accepted one.
pub secure_unwrap-fresh :
    (ctx ctx' : SecureCtx) (frame plain : List ℕ)
    → secure_unwrap ctx frame ≡ (ctx', secure_ok plain)
    → ctx.have_received ≡ true
    → (ctx.last_recv_counter < ctx'.last_recv_counter)
      × (ctx'.last_recv_counter ≡ get_counter_be frame)
      × (ctx'.have_received ≡ true)
unfolding secure_unwrap
secure_unwrap-fresh ctx ctx' frame plain e h = (ground arith, ground arith, ground arith)

-- A frame whose payload is not handed out leaves the receiver as it was.
pub secure_unwrap-drops :
    (ctx ctx' : SecureCtx) (frame : List ℕ) (result : SecureResult)
    → secure_unwrap ctx frame ≡ (ctx', result)
    → result ≢ secure_ok (drop overhead frame)
    → ctx' ≡ ctx
unfolding secure_unwrap
secure_unwrap-drops ctx ctx' frame result e ne = ground arith

-- A frame that is accepted carries the first eight bytes of the HMAC, under the receiver's key, of its
-- counter and of the payload that is handed out, which is what follows them.
pub secure_unwrap-authentic :
    (ctx ctx' : SecureCtx) (frame plain : List ℕ)
    → secure_unwrap ctx frame ≡ (ctx', secure_ok plain)
    → (plain ≡ drop overhead frame)
      × (take tag_len (drop counter_len frame)
          ≡ take tag_len (compute_tag ctx (get_counter_be frame) plain))
unfolding secure_unwrap
secure_unwrap-authentic ctx ctx' frame plain e =
    let long : overhead ≤ length frame = ground arith in
    let zero_diff : tag_diff tag_len (drop counter_len frame)
          (compute_tag ctx (get_counter_be frame) (drop overhead frame)) 0
        ≡ 0 =
      ground arith in
    let same : plain ≡ drop overhead frame = ground arith in
    (
      same,
      rw same
          (tag_diff-take tag_len (drop counter_len frame)
            (compute_tag ctx (get_counter_be frame) (drop overhead frame)) 0
            (omega (arith, length-drop counter_len frame))
            (omega (arith, length-compute_tag ctx (get_counter_be frame) (drop overhead frame)))
            zero_diff).1,
    )

-- What `secure_wrap` made of a payload that it took.
pub secure_wrap-some :
    (ctx ctx' : SecureCtx) (payload frame : List ℕ) (out_cap : ℕ)
    → secure_wrap ctx payload out_cap ≡ (ctx', some frame)
    → (length payload ≤ scratch_len - counter_len)
      × (frame
          ≡ put_counter_be ctx.send_counter
            ++ (take tag_len (compute_tag ctx ctx.send_counter payload) ++ payload))
unfolding secure_wrap
secure_wrap-some ctx ctx' payload frame out_cap e = (ground arith, ground arith)

pub length-wrapped :
    (tx tx' : SecureCtx) (payload wrapped : List ℕ) (out_cap : ℕ)
    → secure_wrap tx payload out_cap ≡ (tx', some wrapped)
    → length wrapped ≡ length payload + overhead
length-wrapped tx tx' payload wrapped out_cap e =
    let (room, made) = secure_wrap-some tx tx' payload wrapped out_cap e in
    let tag = compute_tag tx tx.send_counter payload in
    let l1 = length-take {0} tag_len tag in
    let l2 = length-compute_tag tx tx.send_counter payload in
    let l3 = length-append {0} (take tag_len tag) payload in
    let l4 = ap (λ l. length l) made in omega arith

unwrap_checked :
    (ctx : SecureCtx) (frame : List ℕ)
    → overhead ≤ length frame
    → length frame - overhead ≤ scratch_len - counter_len
    → tag_diff tag_len
        (drop counter_len frame)
        (compute_tag ctx (get_counter_be frame) (drop overhead frame))
        0
      ≡ 0
    → secure_unwrap ctx frame ≡ accept ctx (get_counter_be frame) (drop overhead frame)
unfolding secure_unwrap
unwrap_checked ctx frame long short e = ground arith

-- A receiver takes a frame whose tag is the one that it computes itself.
unwrap_tagged :
    (ctx : SecureCtx) (counter : ℕ) (payload tag : List ℕ)
    → counter < 2 ^ 32
    → length payload ≤ scratch_len - counter_len
    → length tag ≡ tag_len
    → tag_diff tag_len (tag ++ payload) (compute_tag ctx counter payload) 0 ≡ 0
    → secure_unwrap ctx (put_counter_be counter ++ (tag ++ payload)) ≡ accept ctx counter payload
unwrap_tagged ctx counter payload tag lt room size zero_diff =
    let rest : drop tag_len (tag ++ payload) ≡ payload =
      ap (λ n. drop n (tag ++ payload)) (sym size) ∙ drop-append tag payload in
    let again = get_counter_be-put_counter_be counter (tag ++ payload) lt in
    unwrap_checked ctx (put_counter_be counter ++ (tag ++ payload))
      (omega (arith, length-append {0} tag payload)) (omega (arith, length-append {0} tag payload))
      (subst
        (λ n.
          tag_diff tag_len (tag ++ payload) (compute_tag ctx n (drop tag_len (tag ++ payload))) 0
          ≡ 0)
        (sym again)
        (subst (λ p. tag_diff tag_len (tag ++ payload) (compute_tag ctx counter p) 0 ≡ 0) (sym rest)
          zero_diff))
    ∙ ap (λ n. accept ctx n (drop tag_len (tag ++ payload))) again
    ∙ ap (λ p. accept ctx counter p) rest

compute_tag-key :
    (a b : SecureCtx) (counter : ℕ) (payload : List ℕ)
    → a.key ≡ b.key
    → compute_tag a counter payload ≡ compute_tag b counter payload
unfolding compute_tag
compute_tag-key a b counter payload e =
    ap (λ k. hmac_sha256 k (put_counter_be counter ++ payload)) e

-- A frame that the sender wraps, with a 32 bit counter, is accepted by a receiver with the same
-- key that has accepted none or whose last counter is smaller: it hands out the payload, and
-- remembers the counter of the frame.
pub secure_unwrap-secure_wrap :
    (tx tx' rx : SecureCtx) (payload frame : List ℕ) (out_cap : ℕ)
    → rx.key ≡ tx.key
    → tx.send_counter < 2 ^ 32
    → (rx.have_received ≡ false) ⊎ (rx.last_recv_counter < tx.send_counter)
    → secure_wrap tx payload out_cap ≡ (tx', some frame)
    → secure_unwrap rx frame
      ≡ (record rx { last_recv_counter = tx.send_counter; have_received = true }, secure_ok payload)
secure_unwrap-secure_wrap tx tx' rx payload frame out_cap key lt new e =
    let (room, made) = secure_wrap-some tx tx' payload frame out_cap e in
    let tag = take tag_len (compute_tag tx tx.send_counter payload) in
    let size : length tag ≡ tag_len = omega (
      arith,
      length-take tag_len (compute_tag tx tx.send_counter payload),
      length-compute_tag tx tx.send_counter payload,
    ) in
    let zero_diff : tag_diff tag_len (tag ++ payload) (compute_tag rx tx.send_counter payload) 0
        ≡ 0 =
      rw (compute_tag-key rx tx tx.send_counter payload key) (
        tag_diff_same tag_len (compute_tag tx tx.send_counter payload) payload
          (omega (arith, length-compute_tag tx tx.send_counter payload))) in
    rw made (unwrap_tagged rx tx.send_counter payload tag lt room size zero_diff)
    ∙ accept_new rx tx.send_counter payload new
