-- ===== src/Xrce/Session/Reading.antt =====
-- What the reads of xrce/src/cdr.c give at a place in a buffer, with bytes before it and behind it.
use rtos_kernel_from_scratch.Common.{
  ℕ, ◌+◌, ◌*◌, ◌%◌, ◌<◌, ◌≡◌, refl, sym, ap, ◌∙◌, some, none, List, [], ◌∷◌, ◌++◌, append_assoc,
  length, arith, length-append,
}
use rtos_kernel_from_scratch.Xrce.Cdr
use rtos_kernel_from_scratch.Xrce.Cdr.{
  Reader, Read, ◌>>=◌, pure, read_bytes, read_u8, read_uint, read_i16, align_reader, read_aligned,
  le_value, to_word, of_word,
}
use rtos_kernel_from_scratch.Xrce.Cdr.Scalars.{read_aligned-some}
use rtos_kernel_from_scratch.Xrce.Cdr.Trip.{>>=-step, read_bytes-at}
use rtos_kernel_from_scratch.Xrce.Session
use rtos_kernel_from_scratch.Xrce.Session.{read_object_id, object_id_of}

pub >>=-end :
    {A B : Type 0} (ra : Read A) (rb : A → Read B) {r : Reader} → ra r ≡ none → (ra >>= rb) r ≡ none
>>=-end ra rb e = rw (e, ◌>>=◌) refl

-- The reader that stands behind `front` and before `rest`.
abbrev pub over : List ℕ → List ℕ → Reader
over front rest = record { buf = front ++ rest; pos = length front; align_base = 0 }

pub read_bytes-over :
    (front bytes rest : List ℕ)
    → read_bytes (length bytes) (over front (bytes ++ rest))
      ≡ some (bytes, over (front ++ bytes) rest)
read_bytes-over front bytes rest =
    let whole = append_assoc front bytes rest in
    let behind = length-append front bytes in
    ap (λ buf. read_bytes (length bytes) (record { buf = buf; pos = length front; align_base = 0 }))
      (sym whole)
    ∙ read_bytes-at front bytes rest 0
    ∙ ap (λ n. some (bytes, record { buf = (front ++ bytes) ++ rest; pos = n; align_base = 0 }))
        (sym behind)

pub read_bytes-end :
    (front rest : List ℕ) (n : ℕ) → length rest < n → read_bytes n (over front rest) ≡ none
unfolding read_bytes
read_bytes-end front rest n h = ground (arith, length-append {0} front rest)

pub read_u8-over :
    (front rest : List ℕ) (x : ℕ)
    → read_u8 (over front (x ∷ rest)) ≡ some (x, over (front ++ (x ∷ [])) rest)
unfolding read_u8
read_u8-over front rest x = rw (read_bytes-over front (x ∷ []) rest) refl

pub read_u8-end : (front : List ℕ) → read_u8 (over front []) ≡ none
unfolding read_u8
read_u8-end front = rw (read_bytes-end front [] 1 (omega arith)) refl

read_uint-over :
    (front rest : List ℕ) (a b : ℕ)
    → length front % 2 ≡ 0
    → read_uint 2 (over front (a ∷ b ∷ rest))
      ≡ some (le_value (a ∷ b ∷ []), over (front ++ (a ∷ b ∷ [])) rest)
unfolding read_uint align_reader
read_uint-over front rest a b even =
    let here : align_reader 2 (over front (a ∷ b ∷ rest)) ≡ some (over front (a ∷ b ∷ rest)) =
      ground arith in
    ap (read_aligned 2) here
    ∙ read_aligned-some 2 (over front (a ∷ b ∷ rest)) (read_bytes-over front (a ∷ b ∷ []) rest)

read_uint-end :
    (front rest : List ℕ)
    → length front % 2 ≡ 0
    → length rest < 2
    → read_uint 2 (over front rest) ≡ none
unfolding read_uint align_reader
read_uint-end front rest even short =
    let here : align_reader 2 (over front rest) ≡ some (over front rest) = ground arith in
    let ended = read_bytes-end front rest 2 short in
    ap (read_aligned 2) here ∙ rw (ended, read_aligned) refl

-- Two bytes as a number of 16 bits, by way of the signed read of xrce/src/session.c.
pub u16_of : ℕ → ℕ → ℕ
u16_of a b = to_word 16 (of_word 16 (le_value (a ∷ b ∷ [])))

u16_of-bytes : (a b : ℕ) → a < 256 → b < 256 → u16_of a b ≡ a + 256 * b
unfolding u16_of le_value
u16_of-bytes a b ha hb = ground arith

pub read_u16-over :
    (front rest : List ℕ) (a b : ℕ)
    → length front % 2 ≡ 0
    → Session.read_u16 (over front (a ∷ b ∷ rest))
      ≡ some (u16_of a b, over (front ++ (a ∷ b ∷ [])) rest)
unfolding Session.read_u16 read_i16 Cdr.read_u16 u16_of
read_u16-over front rest a b even =
    let signed =
      >>=-step (read_uint 2) (λ u. pure (of_word 16 u)) (read_uint-over front rest a b even) in
    >>=-step read_i16 (λ v. pure (to_word 16 v)) signed

pub read_u16-end :
    (front rest : List ℕ)
    → length front % 2 ≡ 0
    → length rest < 2
    → Session.read_u16 (over front rest) ≡ none
unfolding Session.read_u16 read_i16 Cdr.read_u16
read_u16-end front rest even short =
    let signed =
      >>=-end (read_uint 2) (λ u. pure (of_word 16 u)) (read_uint-end front rest even short) in
    >>=-end read_i16 (λ v. pure (to_word 16 v)) signed

pub read_object_id-over :
    (front rest : List ℕ) (a b : ℕ)
    → read_object_id (over front (a ∷ b ∷ rest))
      ≡ some (object_id_of (a ∷ b ∷ []), over (front ++ (a ∷ b ∷ [])) rest)
unfolding read_object_id
read_object_id-over front rest a b =
    >>=-step (read_bytes 2) (λ raw. pure (object_id_of raw))
      (read_bytes-over front (a ∷ b ∷ []) rest)

pub read_object_id-end :
    (front rest : List ℕ) → length rest < 2 → read_object_id (over front rest) ≡ none
unfolding read_object_id
read_object_id-end front rest short =
    >>=-end (read_bytes 2) (λ raw. pure (object_id_of raw)) (read_bytes-end front rest 2 short)
