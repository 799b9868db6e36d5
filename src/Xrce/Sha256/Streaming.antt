-- ===== src/Xrce/Sha256/Streaming.antt =====
-- The streaming of xrce/src/sha256.c: how the data is cut into calls of `xrce_sha256_update` does not
-- matter.
use rtos_kernel_from_scratch.Common.{
  ℕ, zero, suc, ◌+◌, ◌-◌, ◌%◌, ◌^◌, ◌≤◌, ◌<◌, ◌≡◌, refl, sym, ap, ◌∙◌, true, false, List, [], ◌∷◌,
  ◌++◌, append_assoc, length, take, drop, ◌==◌, leb, arith, Bool-cases, inl, inr, length-append,
  length-take, length-drop,
}
use rtos_kernel_from_scratch.Xrce.Sha256.{
  Words, Sha256, block_len, process_block, top_up, absorb, keep_rest, absorb_rest, sha256_update,
}
use rtos_kernel_from_scratch.Xrce.Sha256.Absorb.{
  absorb_short, absorb_block, absorb_fuel, absorb-rest, absorb_shrinks, absorb-append,
}

take_over :
    (k : ℕ) (xs ys : List ℕ) → length xs ≤ k → take k (xs ++ ys) ≡ xs ++ take (k - length xs) ys
take_over k [] ys h = ap (λ i. take i ys) (omega arith)
take_over zero (x ∷ xs) ys h = absurd (omega arith)
take_over (suc k) (x ∷ xs) ys h =
    ap (λ l. x ∷ l) (take_over k xs ys (omega arith))
    ∙ ap (λ i. x ∷ (xs ++ take i ys)) (omega arith)

drop_over : (k : ℕ) (xs ys : List ℕ) → length xs ≤ k → drop k (xs ++ ys) ≡ drop (k - length xs) ys
drop_over k [] ys h = ap (λ i. drop i ys) (omega arith)
drop_over zero (x ∷ xs) ys h = absurd (omega arith)
drop_over (suc k) (x ∷ xs) ys h =
    drop_over k xs ys (omega arith) ∙ ap (λ i. drop i ys) (omega arith)

take_all : (k : ℕ) (xs : List ℕ) → length xs ≤ k → take k xs ≡ xs
take_all zero [] h = refl
take_all zero (x ∷ xs) h = absurd (omega arith)
take_all (suc k) [] h = refl
take_all (suc k) (x ∷ xs) h = ap (λ l. x ∷ l) (take_all k xs (omega arith))

drop_all : (k : ℕ) (xs : List ℕ) → length xs ≤ k → drop k xs ≡ []
drop_all zero [] h = refl
drop_all zero (x ∷ xs) h = absurd (omega arith)
drop_all (suc k) [] h = refl
drop_all (suc k) (x ∷ xs) h = drop_all k xs (omega arith)

-- A context from its fields.
abbrev context : ℕ → List ℕ → Words → Sha256
context n buf s = record { state = s; total_len = n; buf = buf }

abbrev result_of : ℕ → Words × List ℕ → Sha256
result_of n (s, rest) = context n rest s

keep_rest_empty :
    (n : ℕ) (s : Words) (p : Words × List ℕ) → keep_rest (context n [] s) p ≡ result_of n p
keep_rest_empty n s (s', []) = refl
keep_rest_empty n s (s', x ∷ xs) = ground arith

abbrev need : List ℕ → ℕ
need buf = block_len - length buf

top_up_filled :
    (n : ℕ) (buf data_in : List ℕ) (s : Words)
    → 0 < length buf
    → length (buf ++ take (need buf) data_in) ≡ block_len
    → top_up (context n buf s) data_in
      ≡ (context n [] (process_block s (buf ++ take (need buf) data_in)), drop (need buf) data_in)
unfolding top_up
top_up_filled n buf data_in s lo full =
    let partial : (length buf == 0) ≡ false = ground arith in
    let whole : (length (buf ++ take (need buf) data_in) == block_len) ≡ true = ground arith in
    simp (partial, whole)

top_up_unfilled :
    (n : ℕ) (buf data_in : List ℕ) (s : Words)
    → 0 < length buf
    → length (buf ++ take (need buf) data_in) < block_len
    → top_up (context n buf s) data_in
      ≡ (context n (buf ++ take (need buf) data_in) s, drop (need buf) data_in)
unfolding top_up
top_up_unfilled n buf data_in s lo less =
    let partial : (length buf == 0) ≡ false = ground arith in
    let open_block : (length (buf ++ take (need buf) data_in) == block_len) ≡ false =
      ground arith in
    simp (partial, open_block)

-- A call that fills the block in the buffer, and one that does not.
top_up_full :
    (n : ℕ) (buf data_in : List ℕ) (s : Words)
    → 0 < length buf
    → length buf < block_len
    → block_len ≤ length buf + length data_in
    → absorb_rest (top_up (context n buf s) data_in)
      ≡ result_of n (absorb (length (buf ++ data_in)) s (buf ++ data_in))
top_up_full n buf data_in s lo hi full =
    let front = take_over block_len buf data_in (omega arith) in
    let back = drop_over block_len buf data_in (omega arith) in
    let all = length-append {0} buf data_in in
    let left = length-drop (need buf) data_in in
    let block = length-append {0} buf (take (need buf) data_in) in
    let taken = length-take (need buf) data_in in
    let state' = process_block s (buf ++ take (need buf) data_in) in
    ap absorb_rest (top_up_filled n buf data_in s lo (omega arith))
    ∙ keep_rest_empty n state'
        (absorb (length (drop (need buf) data_in)) state' (drop (need buf) data_in))
    ∙ ap (result_of n) (
        absorb_fuel (length (drop (need buf) data_in)) (length (buf ++ data_in)) state'
          (drop (need buf) data_in) (omega arith) (omega arith)
        ∙ ap (λ xs. absorb (length (buf ++ data_in)) state' xs) (sym back)
        ∙ ap
            (λ b.
              absorb (length (buf ++ data_in)) (process_block s b)
                (drop block_len (buf ++ data_in)))
            (sym front)
        ∙ sym (absorb_block (length (buf ++ data_in)) s (buf ++ data_in) (omega arith))
        ∙ absorb_fuel (suc (length (buf ++ data_in))) (length (buf ++ data_in)) s (buf ++ data_in)
            (omega arith) (omega arith))

top_up_part :
    (n : ℕ) (buf data_in : List ℕ) (s : Words)
    → 0 < length buf
    → length buf + length data_in < block_len
    → absorb_rest (top_up (context n buf s) data_in)
      ≡ result_of n (absorb (length (buf ++ data_in)) s (buf ++ data_in))
top_up_part n buf data_in s lo part =
    let all = length-append {0} buf data_in in
    let block = length-append {0} buf (take (need buf) data_in) in
    let taken = length-take (need buf) data_in in
    ap absorb_rest (top_up_unfilled n buf data_in s lo (omega arith))
    ∙ ap (λ xs. absorb_rest (context n (buf ++ take (need buf) data_in) s, xs))
        (drop_all (need buf) data_in (omega arith))
    ∙ ap (λ xs. absorb_rest (context n (buf ++ xs) s, []))
        (take_all (need buf) data_in (omega arith))
    ∙ ap (keep_rest (context n (buf ++ data_in) s)) (absorb_short 0 s [] (omega arith))
    ∙ ap (result_of n)
        (sym (absorb_short (length (buf ++ data_in)) s (buf ++ data_in) (omega arith)))

top_up_lem :
    (n : ℕ) (buf data_in : List ℕ) (s : Words)
    → length buf < block_len
    → absorb_rest (top_up (context n buf s) data_in)
      ≡ result_of n (absorb (length (buf ++ data_in)) s (buf ++ data_in))
unfolding top_up
top_up_lem n [] data_in s lt = keep_rest_empty n s (absorb (length data_in) s data_in)
top_up_lem n (b ∷ bs) data_in s lt =
    elim (Bool-cases (leb block_len (length (b ∷ bs) + length data_in))) [
      | inl e ↦ top_up_full n (b ∷ bs) data_in s (omega arith) lt (ground arith)
      | inr e ↦ top_up_part n (b ∷ bs) data_in s (omega arith) (ground arith)
    ]

pub update_lem :
    (ctx : Sha256) (data_in : List ℕ)
    → length ctx.buf < block_len
    → sha256_update ctx data_in
      ≡ result_of
          ((ctx.total_len + length data_in) % 2 ^ 64)
          (absorb (length (ctx.buf ++ data_in)) ctx.state (ctx.buf ++ data_in))
unfolding sha256_update
update_lem ctx data_in lt =
    top_up_lem ((ctx.total_len + length data_in) % 2 ^ 64) ctx.buf data_in ctx.state lt

-- A call leaves less than a block in the buffer.
update-buf :
    (ctx : Sha256) (data_in : List ℕ)
    → length ctx.buf < block_len
    → length (sha256_update ctx data_in).buf < block_len
update-buf ctx data_in lt =
    rw (update_lem ctx data_in lt)
      (absorb-rest (length (ctx.buf ++ data_in)) ctx.state (ctx.buf ++ data_in) (omega arith))

-- With less than a block in the buffer, two calls of `xrce_sha256_update` are one call on the two
-- pieces of data, one behind the other, wherever the data is cut.
pub sha256_update-append :
    (ctx : Sha256) (xs ys : List ℕ)
    → length ctx.buf < block_len
    → sha256_update (sha256_update ctx xs) ys ≡ sha256_update ctx (xs ++ ys)
sha256_update-append ctx xs ys lt =
    let before = ctx.buf ++ xs in
    let (s', rest) = absorb (length before) ctx.state before in
    let size = length (ctx.buf ++ (xs ++ ys)) in
    let sizes = length-append {0} ctx.buf xs in
    let both = length-append {0} xs ys in
    let all = length-append {0} ctx.buf (xs ++ ys) in
    let left = length-append {0} rest ys in
    let shrunk = absorb_shrinks (length before) ctx.state before in
    let n = (ctx.total_len + length xs) % 2 ^ 64 in
    let counts : (n + length ys) % 2 ^ 64 ≡ (ctx.total_len + length (xs ++ ys)) % 2 ^ 64 =
      omega arith in
    ap (λ c. sha256_update c ys) (update_lem ctx xs lt)
    ∙ update_lem (context n rest s') ys (absorb-rest (length before) ctx.state before (omega arith))
    ∙ ap (λ m. result_of m (absorb (length (rest ++ ys)) s' (rest ++ ys))) counts
    ∙ ap (result_of ((ctx.total_len + length (xs ++ ys)) % 2 ^ 64)) (
        absorb_fuel (length (rest ++ ys)) size s' (rest ++ ys) (omega arith) (omega arith)
        ∙ sym (absorb-append (length before) size ctx.state before ys (omega arith) (omega arith))
        ∙ ap (absorb size ctx.state) (append_assoc ctx.buf xs ys))
    ∙ sym (update_lem ctx (xs ++ ys) lt)
