-- ===== src/Xrce/Sha256/Absorb.antt =====
-- The loop over whole blocks in `xrce_sha256_update` of xrce/src/sha256.c.
use rtos_kernel_from_scratch.Common.{
  ℕ, zero, suc, ◌+◌, ◌≤◌, ◌<◌, ◌≡◌, refl, sym, ap, ◌∙◌, true, List, [], ◌∷◌, ◌++◌, length, take,
  drop, leb, arith, Bool-cases, inl, inr, length-append, length-drop,
}
use rtos_kernel_from_scratch.Xrce.Sha256.{Words, block_len, process_block, absorb}

-- A block at the front of a row of data.
take-append_le : (n : ℕ) (xs ys : List ℕ) → n ≤ length xs → take n (xs ++ ys) ≡ take n xs
take-append_le zero xs ys h = refl
take-append_le (suc n) [] ys h = absurd (omega arith)
take-append_le (suc n) (x ∷ xs) ys h = ap (λ l. x ∷ l) (take-append_le n xs ys (omega arith))

drop-append_le : (n : ℕ) (xs ys : List ℕ) → n ≤ length xs → drop n (xs ++ ys) ≡ drop n xs ++ ys
drop-append_le zero xs ys h = refl
drop-append_le (suc n) [] ys h = absurd (omega arith)
drop-append_le (suc n) (x ∷ xs) ys h = drop-append_le n xs ys (omega arith)

pub absorb_short :
    (fuel : ℕ) (s : Words) (xs : List ℕ) → length xs < block_len → absorb fuel s xs ≡ (s, xs)
unfolding absorb
absorb_short zero s xs h = refl
absorb_short (suc fuel) s xs h = ground arith

pub absorb_block :
    (fuel : ℕ) (s : Words) (xs : List ℕ)
    → block_len ≤ length xs
    → absorb (suc fuel) s xs ≡ absorb fuel (process_block s (take block_len xs)) (drop block_len xs)
unfolding absorb
absorb_block fuel s xs h = let whole : leb block_len (length xs) ≡ true = ground arith in simp whole

-- Enough fuel is as good as any more.
pub absorb_fuel :
    (n m : ℕ) (s : Words) (xs : List ℕ)
    → length xs ≤ n
    → length xs ≤ m
    → absorb n s xs ≡ absorb m s xs
absorb_fuel zero m s xs h k =
    absorb_short zero s xs (omega arith) ∙ sym (absorb_short m s xs (omega arith))
absorb_fuel (suc n) zero s xs h k =
    absorb_short (suc n) s xs (omega arith) ∙ sym (absorb_short zero s xs (omega arith))
absorb_fuel (suc n) (suc m) s xs h k = elim (Bool-cases (leb block_len (length xs))) [
  | inl e ↦
      let le : block_len ≤ length xs = ground arith in
      let left = length-drop block_len xs in
      absorb_block n s xs le
      ∙ absorb_fuel n m (process_block s (take block_len xs)) (drop block_len xs) (omega arith)
          (omega arith)
      ∙ sym (absorb_block m s xs le)
  | inr e ↦
      let lt : length xs < block_len = ground arith in
      absorb_short (suc n) s xs lt ∙ sym (absorb_short (suc m) s xs lt)
]

-- What is left is less than a block.
pub absorb-rest :
    (n : ℕ) (s : Words) (xs : List ℕ) → length xs ≤ n → length (absorb n s xs).1 < block_len
absorb-rest zero s xs h = rw (absorb_short zero s xs (omega arith)) (omega arith)
absorb-rest (suc n) s xs h = elim (Bool-cases (leb block_len (length xs))) [
  | inl e ↦
      let le : block_len ≤ length xs = ground arith in
      let left = length-drop block_len xs in
      rw (absorb_block n s xs le)
        (absorb-rest n (process_block s (take block_len xs)) (drop block_len xs) (omega arith))
  | inr e ↦ let lt : length xs < block_len = ground arith in rw (absorb_short (suc n) s xs lt) lt
]

pub absorb_shrinks : (n : ℕ) (s : Words) (xs : List ℕ) → length (absorb n s xs).1 ≤ length xs
unfolding absorb
absorb_shrinks zero s xs = omega arith
absorb_shrinks (suc n) s xs = elim (Bool-cases (leb block_len (length xs))) [
  | inl e ↦
      let left = length-drop block_len xs in
      rw (absorb_block n s xs (ground arith))
        (omega (arith, absorb_shrinks n (process_block s (take block_len xs)) (drop block_len xs)))
  | inr e ↦ rw (absorb_short (suc n) s xs (ground arith)) (omega arith)
]

-- Absorbing in two parts: what the first leaves goes in front of the second.
pub absorb-append :
    (n m : ℕ) (s : Words) (xs ys : List ℕ)
    → length xs ≤ n
    → length xs + length ys ≤ m
    → absorb m s (xs ++ ys) ≡ absorb m (absorb n s xs).0 ((absorb n s xs).1 ++ ys)
absorb-append zero m s xs ys h k = let same = absorb_short zero s xs (omega arith) in rw same refl
absorb-append (suc n) zero s xs ys h k =
    let same = absorb_short (suc n) s xs (omega arith) in rw same refl
absorb-append (suc n) (suc m) s xs ys h k = elim (Bool-cases (leb block_len (length xs))) [
  | inl e ↦
      let le : block_len ≤ length xs = ground arith in
      let left = length-drop block_len xs in
      let s' = process_block s (take block_len xs) in
      let xs' = drop block_len xs in
      let shrunk = absorb_shrinks n s' xs' in
      let all = length-append {0} xs ys in
      let all' = length-append {0} (absorb n s' xs').1 ys in
      absorb_block m s (xs ++ ys) (omega arith)
      ∙ ap (λ b. absorb m (process_block s b) (drop block_len (xs ++ ys)))
          (take-append_le block_len xs ys le)
      ∙ ap (λ r. absorb m s' r) (drop-append_le block_len xs ys le)
      ∙ absorb-append n m s' xs' ys (omega arith) (omega arith)
      ∙ absorb_fuel m (suc m) (absorb n s' xs').0 ((absorb n s' xs').1 ++ ys) (omega arith)
          (omega arith)
      ∙ sym (ap (λ p. absorb (suc m) p.0 (p.1 ++ ys)) (absorb_block n s xs le))
  | inr e ↦ let same = absorb_short (suc n) s xs (ground arith) in rw same refl
]
