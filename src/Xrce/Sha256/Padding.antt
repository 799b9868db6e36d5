-- ===== src/Xrce/Sha256/Padding.antt =====
-- The padding loop of `xrce_sha256_final` in xrce/src/sha256.c.
use rtos_kernel_from_scratch.Common.{
  ℕ, zero, suc, ◌+◌, ◌-◌, ◌%◌, ◌<◌, ◌≤◌, ◌≡◌, ◌≢◌, ap, ◌∙◌, List, [], ◌∷◌, ◌++◌, length, drop, take,
  ◌==◌, leb, arith, Bool-cases, inl, inr, length-append, length-drop,
}
use rtos_kernel_from_scratch.Xrce.Sha256.{
  Words, Sha256, block_len, process_block, absorb, uncount, sha256_update, pad_zeros,
}
use rtos_kernel_from_scratch.Xrce.Sha256.Absorb.{absorb_short, absorb_block}
use rtos_kernel_from_scratch.Xrce.Sha256.Streaming.{update_lem}

absorb_one :
    (s : Words) (xs : List ℕ)
    → 0 < length xs
    → length xs ≤ block_len
    → length (absorb (length xs) s xs).1 ≡ length xs % block_len
absorb_one s [] lo h = absurd (omega arith)
absorb_one s (x ∷ xs) lo h = elim (Bool-cases (leb block_len (length (x ∷ xs)))) [
  | inl e ↦
      let left = length-drop block_len (x ∷ xs) in
      let rest =
        absorb_short (length xs) (process_block s (take block_len (x ∷ xs)))
          (drop block_len (x ∷ xs)) (omega arith) in
      rw (absorb_block (length xs) s (x ∷ xs) (ground arith), rest) (ground arith)
  | inr e ↦ rw (absorb_short (suc (length xs)) s (x ∷ xs) (ground arith)) (ground arith)
]

update_one :
    (ctx : Sha256) (b : ℕ)
    → length ctx.buf < block_len
    → length (sha256_update ctx (b ∷ [])).buf ≡ (length ctx.buf + 1) % block_len
update_one ctx b lt =
    let all = length-append {0} ctx.buf (b ∷ []) in
    ap (λ c. length c.buf) (update_lem ctx (b ∷ []) lt)
    ∙ absorb_one ctx.state (ctx.buf ++ (b ∷ [])) (omega arith) (omega arith)
    ∙ ap (λ n. n % block_len) all

-- The loop that pads with zeros ends: with as many rounds to go as it is steps to 56 bytes, round the
-- end of the block, it stops with 56 bytes in the buffer, so 64 rounds are always enough.
pub pad_zeros-ends :
    (fuel : ℕ) (ctx : Sha256)
    → length ctx.buf < block_len
    → (block_len + 56 - length ctx.buf) % block_len < fuel
    → length (pad_zeros fuel ctx).buf ≡ 56
unfolding pad_zeros
pad_zeros-ends zero ctx lt enough = absurd (omega arith)
pad_zeros-ends (suc fuel) ctx lt enough = elim (Bool-cases (length ctx.buf == 56)) [
  | inl e ↦ rw e (ground arith)
  | inr e ↦
      let one = update_one ctx 0 lt in
      let other : length ctx.buf ≢ 56 = ground arith in
      rw e (pad_zeros-ends fuel (uncount (sha256_update ctx (0 ∷ []))) (omega arith) (omega arith))
]
