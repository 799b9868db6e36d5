-- ===== src/Xrce/Session/Layout.antt =====
-- Which bytes the writes of xrce/src/cdr.c and xrce/src/session.c put into a buffer: a write that
-- stands at a known place behaves, in room and without room, xs one write of known bytes.
use rtos_kernel_from_scratch.Common.{
  ℕ, ◌+◌, ◌-◌, ◌%◌, ◌^◌, ◌≤◌, ◌<◌, ◌≡◌, refl, sym, ap, ◌∙◌, min, Bool, false, some, none, List, [],
  ◌∷◌, ◌++◌, append_assoc, length, replicate, arith, length-append, length-replicate, ℤ,
  if◌then◌else◌, Option-cases, inl, inr, dec_le, ltb,
}
use rtos_kernel_from_scratch.Xrce.Cdr
use rtos_kernel_from_scratch.Xrce.Cdr.{
  Writer, Write, ◌>>◌, padding, align_writer, write_bytes, le_bytes, write_uint, write_u8,
  write_bool, write_i16, write_u32, write_string, to_word, of_word,
}
use rtos_kernel_from_scratch.Xrce.Cdr.Scalars.{length-le_bytes}
use rtos_kernel_from_scratch.Xrce.Cdr.Trip.{Wrote-bytes, bytes-fit}
use rtos_kernel_from_scratch.Xrce.Session

-- At `n` bytes from the start of a message, the write puts down just `bytes`.
abbrev pub Puts : ℕ → Write → List ℕ → Type 0
Puts n write bytes =
    (w : Writer) → length w.out ≡ n → w.align_base ≡ 0 → n ≤ w.cap → write w ≡ write_bytes bytes w

pub Puts-bytes : (n : ℕ) (bytes : List ℕ) → Puts n (write_bytes bytes) bytes
Puts-bytes n bytes w e b h = refl

write_bytes-more :
    (xs ys : List ℕ) (w : Writer)
    → length w.out ≤ w.cap
    → (write_bytes xs >> write_bytes ys) w ≡ write_bytes (xs ++ ys) w
unfolding write_bytes
write_bytes-more xs ys w h =
    let l1 = length-append {0} w.out xs in
    let l2 = length-append {0} xs ys in
    let a = append_assoc w.out xs ys in ground (arith, l1, l2, a)

>>-cong :
    (a a' b b' : Write) (w : Writer)
    → a w ≡ a' w
    → ((w' : Writer) → a' w ≡ some w' → b w' ≡ b' w')
    → (a >> b) w ≡ (a' >> b') w
>>-cong a a' b b' w e f = elim (Option-cases (a' w)) [
  | inl n ↦ ground arith
  | inr (w', s) ↦ let t = f w' s in ground arith
]

-- Writes one behind the other put down their bytes one behind the other.
pub Puts-seq :
    (n : ℕ) (a b : Write) (xs ys : List ℕ)
    → Puts n a xs
    → Puts (n + length xs) b ys
    → Puts n (a >> b) (xs ++ ys)
Puts-seq n a b xs ys pa pb w e base h =
    >>-cong a (write_bytes xs) b (write_bytes ys) w (pa w e base h) (λ w' s.
      let same = Wrote-bytes xs w w' s in
      let out = ap (λ x. length x.out) same in
      let cap = ap Writer.cap same in
      let fit = bytes-fit xs w w' s in
      let l = length-append {0} w.out xs in
      pb w' (omega arith) (ap Writer.align_base same ∙ base) (omega arith))
    ∙ write_bytes-more xs ys w (omega arith)

pub write_bytes-short :
    (bytes : List ℕ) (w : Writer) → w.cap - length w.out < length bytes → write_bytes bytes w ≡ none
unfolding write_bytes
write_bytes-short bytes w h = ground arith

pub write_bytes-room :
    (bytes : List ℕ) (w : Writer)
    → length bytes ≤ w.cap - length w.out
    → write_bytes bytes w ≡ some (record w { out = w.out ++ bytes })
unfolding write_bytes
write_bytes-room bytes w h = ground arith

-- Padding that stops at the end of the buffer leaves no room for what is to stand behind it.
write_bytes-padded :
    (bytes : List ℕ) (pad : ℕ) (w : Writer)
    → 0 < length bytes
    → length w.out ≤ w.cap
    → write_bytes bytes (record w { out = w.out ++ replicate (min pad (w.cap - length w.out)) 0 })
      ≡ write_bytes (replicate pad 0 ++ bytes) w
write_bytes-padded bytes pad w some_bytes h =
    let room = w.cap - length w.out in
    let l1 = length-append {0} (replicate pad 0) bytes in
    let l2 = length-replicate {A = ℕ} pad 0 in
    let l3 = length-replicate {A = ℕ} (min pad room) 0 in
    let front = length-append {0} w.out (replicate (min pad room) 0) in
    elim (dec_le pad (w.cap - length w.out)) [
      | yes le_ ↦
          let whole : min pad room ≡ pad = omega arith in
          let put = write_bytes-room (replicate pad 0) w (omega (arith, l2)) in
          ap (λ m. write_bytes bytes (record w { out = w.out ++ replicate m 0 })) whole
          ∙ sym (ap (λ o. elim o [ none ↦ none | some w' ↦ write_bytes bytes w' ]) put)
          ∙ write_bytes-more (replicate pad 0) bytes w h
      | no gt_ ↦
          write_bytes-short bytes _ (omega (arith, front))
          ∙ sym (write_bytes-short (replicate pad 0 ++ bytes) w (omega (arith, l1, l2)))
    ]

-- A number of `k` bytes stands behind the padding for `k`.
abbrev pub uint_bytes : ℕ → ℕ → ℕ → List ℕ
uint_bytes n k v = replicate (padding n 0 k) 0 ++ le_bytes k v

Puts-uint : (n k v : ℕ) → 0 < k → Puts n (write_uint k v) (uint_bytes n k v)
unfolding write_uint align_writer
Puts-uint n k v pos_k w e base h =
    let same : padding (length w.out) w.align_base k ≡ padding n 0 k = rw (e, base) refl in
    write_bytes-padded (le_bytes k v) (padding (length w.out) w.align_base k) w
      (rw (length-le_bytes k v) pos_k) (omega arith)
    ∙ ap (λ pad. write_bytes (replicate pad 0 ++ le_bytes k v) w) same

pub Puts-eq : (n : ℕ) (write : Write) (xs ys : List ℕ) → xs ≡ ys → Puts n write xs → Puts n write ys
Puts-eq n write xs ys e p w l b h = p w l b h ∙ ap (λ zs. write_bytes zs w) e

le_bytes-word : (v : ℕ) → le_bytes 2 (to_word 16 (of_word 16 (v % 2 ^ 16))) ≡ le_bytes 2 v
unfolding le_bytes
le_bytes-word v = ground arith

pub Puts-int : (n : ℕ) (v : ℤ) → Puts n (write_i16 v) (uint_bytes n 2 (to_word 16 v))
unfolding write_i16 Cdr.write_u16
Puts-int n v = Puts-uint n 2 (to_word 16 v) (omega arith)

-- Behind an even number of bytes a number of 16 bits has no padding.
Puts-i16 : (n : ℕ) (v : ℤ) → n % 2 ≡ 0 → Puts n (write_i16 v) (le_bytes 2 (to_word 16 v))
Puts-i16 n v even =
    let none_needed : padding n 0 2 ≡ 0 = ground arith in
    Puts-eq n (write_i16 v) (uint_bytes n 2 (to_word 16 v)) (le_bytes 2 (to_word 16 v))
      (ap (λ pad. replicate pad 0 ++ le_bytes 2 (to_word 16 v)) none_needed) (Puts-int n v)

pub Puts-u16 : (n v : ℕ) → n % 2 ≡ 0 → Puts n (Session.write_u16 v) (le_bytes 2 v)
unfolding Session.write_u16
Puts-u16 n v even =
    Puts-eq n (Session.write_u16 v) _ (le_bytes 2 v) (le_bytes-word v)
      (Puts-i16 n (of_word 16 (v % 2 ^ 16)) even)

pub Puts-u8 : (n v : ℕ) → Puts n (write_u8 v) (v ∷ [])
unfolding write_u8
Puts-u8 n v = Puts-bytes n (v ∷ [])

pub Puts-bool : (n : ℕ) (v : Bool) → Puts n (write_bool v) ((if v then 1 else 0) ∷ [])
unfolding write_bool
Puts-bool n v = Puts-u8 n (if v then 1 else 0)

-- A string stands behind its length, and before its terminator.
abbrev pub string_bytes : ℕ → List ℕ → List ℕ
string_bytes n s = uint_bytes n 4 (length s + 1) ++ (s ++ (0 ∷ []))

pub Puts-string :
    (n : ℕ) (s : List ℕ) → length s + 1 < 2 ^ 32 → Puts n (write_string s) (string_bytes n s)
unfolding write_string write_u32
Puts-string n s small w e base h =
    let fits : ltb (2 ^ 32 - 1) (length s + 1) ≡ false = ground arith in
    ap (λ t. if t then none else (write_u32 (length s + 1) >> write_bytes (s ++ (0 ∷ []))) w) fits
    ∙ Puts-seq n (write_uint 4 (length s + 1)) (write_bytes (s ++ (0 ∷ [])))
        (uint_bytes n 4 (length s + 1)) (s ++ (0 ∷ [])) (Puts-uint n 4 (length s + 1) (omega arith))
        (Puts-bytes (n + length (uint_bytes n 4 (length s + 1))) (s ++ (0 ∷ []))) w e base h
