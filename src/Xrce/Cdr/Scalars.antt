-- ===== src/Xrce/Cdr/Scalars.antt =====
-- Round trips of the numbers, flags and the header of xrce/src/cdr.c.
use native.Mathlib.Nat.{pow-suc}
use rtos_kernel_from_scratch.Common.{
  ℕ, zero, suc, ◌+◌, ◌-◌, ◌/◌, ◌^◌, ◌≤◌, ◌<◌, ◌≡◌, refl, sym, ap, ◌∙◌, min, Bool, true, false,
  Option, some, List, [], ◌∷◌, ◌++◌, append_assoc, append-nil, length, replicate, ◌==◌, arith,
  length-append, length-replicate, subst, ℤ, pos, negsuc, get_or, not, ◌&&◌,
}
use rtos_kernel_from_scratch.Xrce.Cdr.{
  Writer, Reader, Write, Read, ◌>>=◌, pure, padding, align_writer, align_reader, write_bytes,
  read_bytes, le_bytes, le_value, write_uint, read_uint, read_aligned, to_word, of_word, write_u8,
  read_u8, write_bool, read_bool, write_u16, read_u16, write_i16, read_i16, write_u32, read_u32,
  write_i32, read_i32, write_f64, read_f64, write_header, read_header, first_byte, check_header,
}
use rtos_kernel_from_scratch.Xrce.Cdr.Trip.{
  at, Wrote, Trip, Trip-bind, >>=-step, Wrote-bytes, bytes-fit, read_bytes-at, Trip-bytes, Trip-via,
}

pub length-le_bytes : (n v : ℕ) → length (le_bytes n v) ≡ n
unfolding le_bytes
length-le_bytes zero v = refl
length-le_bytes (suc n) v = ap suc (length-le_bytes n (v / 256))

-- The bytes of a number that fits make up that number.
le_value-le_bytes : (n v : ℕ) → v < 256 ^ n → le_value (le_bytes n v) ≡ v
unfolding le_bytes le_value
le_value-le_bytes zero v lt = omega arith
le_value-le_bytes (suc n) v lt =
    omega (arith, le_value-le_bytes n (v / 256) (omega (arith, pow-suc 256 n)))

-- The padding of an aligned write that has room behind it is whole.
align_writer-whole :
    (n : ℕ) (w : Writer) (len : ℕ)
    → 0 < len
    → len ≤ (align_writer n w).cap - length (align_writer n w).out
    → align_writer n w
      ≡ record w { out = w.out ++ replicate (padding (length w.out) w.align_base n) 0 }
unfolding align_writer
align_writer-whole n w len p h =
    ap (λ m. record w { out = w.out ++ replicate m 0 })
      (omega (
        arith,
        length-append {0} w.out (replicate (min pad (w.cap - length w.out)) 0),
        length-replicate {A = ℕ} (min pad (w.cap - length w.out)) 0,
      ))
  where
    pad : ℕ
    pad = padding (length w.out) w.align_base n

align_reader-at :
    (n : ℕ) (w : Writer) (buf : List ℕ)
    → length w.out + padding (length w.out) w.align_base n ≤ length buf
    → align_reader n (at buf w)
      ≡ some (record (at buf w) { pos = length w.out + padding (length w.out) w.align_base n })
unfolding align_reader
align_reader-at n w buf h = ground arith

-- The writer behind an aligned write of `bytes` that has succeeded.
abbrev aligned : ℕ → List ℕ → Writer → Writer
aligned n bytes w = record w {
  out = (w.out ++ replicate (padding (length w.out) w.align_base n) 0) ++ bytes;
}

aligned-lem :
    (n : ℕ) (bytes : List ℕ) (w w' : Writer)
    → 0 < length bytes
    → write_bytes bytes (align_writer n w) ≡ some w'
    → (w' ≡ aligned n bytes w) × (length (aligned n bytes w).out ≤ w.cap)
aligned-lem n bytes w w' h e =
    let whole = align_writer-whole n w (length bytes) h (bytes-fit bytes _ w' e) in
    let e' = subst (λ x. write_bytes bytes x ≡ some w') whole e in
    let front = w.out ++ replicate (padding (length w.out) w.align_base n) 0 in
    (
      Wrote-bytes bytes _ w' e',
      omega (arith, length-append {0} front bytes, bytes-fit bytes _ w' e', h),
    )

length-front :
    (n : ℕ) (w : Writer)
    → length (w.out ++ replicate (padding (length w.out) w.align_base n) 0)
      ≡ length w.out + padding (length w.out) w.align_base n
length-front n w =
    length-append w.out (replicate (padding (length w.out) w.align_base n) 0)
    ∙ ap (λ m. length w.out + m) (length-replicate (padding (length w.out) w.align_base n) 0)

pub read_aligned-some :
    (n : ℕ) (r : Reader) {bs : List ℕ} {r' : Reader}
    → read_bytes n r ≡ some (bs, r')
    → read_aligned n (some r) ≡ some (le_value bs, r')
read_aligned-some n r e = rw (e, read_aligned)

read_uint-aligned :
    (n : ℕ) (bytes rest : List ℕ) (w : Writer)
    → length bytes ≡ n
    → read_uint n (at ((aligned n bytes w).out ++ rest) w)
      ≡ some (le_value bytes, at ((aligned n bytes w).out ++ rest) (aligned n bytes w))
unfolding read_uint
read_uint-aligned n bytes rest w e =
    ap (read_aligned n) (align_reader-at n w buf room) ∙ read_aligned-some n _ bytes_read
  where
    pad : ℕ
    pad = padding (length w.out) w.align_base n

    front : List ℕ
    front = w.out ++ replicate pad 0

    buf : List ℕ
    buf = (front ++ bytes) ++ rest

    room : length w.out + pad ≤ length buf
    room = omega (
      arith,
      length-append {0} (front ++ bytes) rest,
      length-append {0} front bytes,
      length-front n w,
    )

    behind : length front + length bytes ≡ length (front ++ bytes)
    behind = sym (length-append front bytes)

    bytes_read :
        read_bytes n (record { buf = buf; pos = length w.out + pad; align_base = w.align_base })
        ≡ some (bytes, at buf (aligned n bytes w))
    bytes_read =
        subst
          (λ m.
            read_bytes n (record { buf = buf; pos = m; align_base = w.align_base })
            ≡ some (bytes, at buf (aligned n bytes w)))
          (length-front n w)
          (subst
            (λ m.
              read_bytes m (record { buf = buf; pos = length front; align_base = w.align_base })
              ≡ some (bytes, at buf (aligned n bytes w)))
            e
            (read_bytes-at front bytes rest w.align_base
              ∙ ap (λ m. some (bytes, record { buf = buf; pos = m; align_base = w.align_base }))
                  behind))

-- An aligned write of a number is read back by an aligned read of as many bytes.
Trip-uint : (n v : ℕ) → 0 < n → v < 256 ^ n → Trip (write_uint n v) (read_uint n) v
unfolding write_uint
Trip-uint n v h lt w w' le e =
    let bytes = le_bytes n v in
    let (same, fit) = aligned-lem n bytes w w' (rw (length-le_bytes n v) h) e in
    subst (Wrote (read_uint n) v w) (sym same) record {
      more = replicate (padding (length w.out) w.align_base n) 0 ++ bytes;
      extends = append_assoc w.out (replicate (padding (length w.out) w.align_base n) 0) bytes;
      same_cap = refl;
      within = fit;
      back = λ rest.
          read_uint-aligned n bytes rest w (length-le_bytes n v)
          ∙ ap (λ x. some (x, at ((aligned n bytes w).out ++ rest) (aligned n bytes w)))
              (le_value-le_bytes n v lt);
    }

first_byte-some :
    {o : Option (List ℕ × Reader)} {bs : List ℕ} {r : Reader}
    → o ≡ some (bs, r)
    → first_byte o ≡ some (get_or bs 0 0, r)
first_byte-some e = rw e

pub Trip-u8 : (v : ℕ) → Trip (write_u8 v) read_u8 v
unfolding write_u8 read_u8
Trip-u8 v =
    Trip-via (write_bytes (v ∷ [])) (read_bytes 1) read_u8 (v ∷ []) v (λ r r' e. first_byte-some e)
      (Trip-bytes (v ∷ []))

-- A value that is read through a function that undoes the one it was written through.
pub Trip-map :
    {A B : Type 0} (write : Write) (read : Read A) (f : A → B) (a : A) (b : B)
    → f a ≡ b
    → Trip write read a
    → Trip write (read >>= λ x. pure (f x)) b
Trip-map write read f a b e =
    Trip-via write read (read >>= λ x. pure (f x)) a b
      (λ r r' h. >>=-step read (λ x. pure (f x)) h ∙ ap (λ y. some (y, r')) e)

pub Trip-bool : (v : Bool) → Trip (write_bool v) read_bool v
unfolding write_bool read_bool
Trip-bool true = Trip-map (write_u8 1) read_u8 (λ v. not (v == 0)) 1 true refl (Trip-u8 1)
Trip-bool false = Trip-map (write_u8 0) read_u8 (λ v. not (v == 0)) 0 false refl (Trip-u8 0)

Trip-u16 : (v : ℕ) → v < 2 ^ 16 → Trip (write_u16 v) read_u16 v
unfolding write_u16 read_u16
Trip-u16 v h = Trip-uint 2 v (omega arith) (omega arith)

pub Trip-u32 : (v : ℕ) → v < 2 ^ 32 → Trip (write_u32 v) read_u32 v
unfolding write_u32 read_u32
Trip-u32 v h = Trip-uint 4 v (omega arith) (omega arith)

pub Trip-f64 : (bits : ℕ) → bits < 2 ^ 64 → Trip (write_f64 bits) read_f64 bits
unfolding write_f64 read_f64
Trip-f64 bits h = Trip-uint 8 bits (omega arith) (omega arith)

-- The range of a signed integer of `w` bits.
abbrev pub InRange : ℕ → ℤ → Type 0
InRange w (pos n) = n < 2 ^ w / 2
InRange w (negsuc n) = n < 2 ^ w / 2

word16 : (v : ℤ) → InRange 16 v → (to_word 16 v < 2 ^ 16) × (of_word 16 (to_word 16 v) ≡ v)
word16 (pos n) h = (omega arith, ground arith)
word16 (negsuc n) h = (omega arith, ground arith)

word32 : (v : ℤ) → InRange 32 v → (to_word 32 v < 2 ^ 32) × (of_word 32 (to_word 32 v) ≡ v)
word32 (pos n) h = (omega arith, ground arith)
word32 (negsuc n) h = (omega arith, ground arith)

Trip-i16 : (v : ℤ) → InRange 16 v → Trip (write_i16 v) read_i16 v
unfolding write_i16 read_i16
Trip-i16 v h =
    let (small, same) = word16 v h in
    Trip-map (write_u16 (to_word 16 v)) read_u16 (of_word 16) (to_word 16 v) v same
      (Trip-u16 (to_word 16 v) small)

pub Trip-i32 : (v : ℤ) → InRange 32 v → Trip (write_i32 v) read_i32 v
unfolding write_i32 read_i32
Trip-i32 v h =
    let (small, same) = word32 v h in
    Trip-map (write_u32 (to_word 32 v)) read_u32 (of_word 32) (to_word 32 v) v same
      (Trip-u32 (to_word 32 v) small)

-- Moving the base of the alignment behind the header, on both sides.
Trip-rebase :
    (bs : List ℕ)
    → ((get_or bs 0 0 == 0) && (get_or bs 1 0 == 1)) ≡ true
    → Trip (λ w. some (record w { align_base = length w.out })) (check_header bs) tt
Trip-rebase bs h w w' le e =
    let same : w' ≡ record w { align_base = length w.out } = cc in
    subst (Wrote (check_header bs) tt w) (sym same) record {
      more = [];
      extends = sym (append-nil w.out);
      same_cap = refl;
      within = le;
      back = λ rest. rw h;
    }

pub Trip-header : Trip write_header read_header tt
unfolding write_header read_header
Trip-header =
    let magic = 0 ∷ 1 ∷ 0 ∷ 0 ∷ [] in
    Trip-bind (write_bytes magic) (λ w. some (record w { align_base = length w.out }))
      (read_bytes 4) check_header magic tt (Trip-bytes magic) (Trip-rebase magic refl)
