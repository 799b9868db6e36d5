-- ===== src/Xrce/Cdr.antt =====
-- xrce/src/cdr.c: CDR_LE serialisation into a bounded buffer, and back.
-- A writer that has failed is dropped by every caller, so failure is `none`.
pub mod Trip
pub mod Scalars
pub mod Strings
use rtos_kernel_from_scratch.Common.{
  ℕ, zero, suc, ◌+◌, ◌-◌, ◌*◌, ◌/◌, ◌%◌, ◌^◌, min, Bool, true, false, not, ◌&&◌, ◌||◌, Option, none,
  some, List, [], ◌∷◌, ◌++◌, length, get_or, take, drop, replicate, ℤ, pos, negsuc, ◌==◌, ltb, leb,
  if◌then◌else◌,
}

-- `xrce_cdr_writer_t`: `out` is `buf[0 .. pos)`, so `pos` is its length.
pub record Writer : Type 0 where
  pub out : List ℕ
  pub cap : ℕ
  pub align_base : ℕ

-- `xrce_cdr_reader_t`: `len` is the length of `buf`.
pub record Reader : Type 0 where
  pub buf : List ℕ
  pub pos : ℕ
  pub align_base : ℕ

abbrev pub Write : Type 0
Write = Writer → Option Writer

abbrev pub Read : Type 0 → Type 0
Read A = Reader → Option (A × Reader)

-- One write behind another, each only if the one before succeeded: `a(&w) && b(&w)`.
infixr 6 ◌>>◌
abbrev pub ◌>>◌ : Write → Write → Write
◌>>◌ a b w = elim (a w) [ none ↦ none | some w' ↦ b w' ]

-- One read behind another, each only if the one before succeeded.
infixl 5 ◌>>=◌
abbrev pub ◌>>=◌ : {A B : Type 0} → Read A → (A → Read B) → Read B
◌>>=◌ a f r = elim (a r) [ none ↦ none | some (x, r') ↦ f x r' ]

abbrev pub done : Write
done w = some w

abbrev pub pure : {A : Type 0} → A → Read A
pure a r = some (a, r)

-- `ensure`
abbrev ensure : ℕ → ℕ → ℕ → Bool
ensure size at n = leb n (size - at)

-- The bytes up to the next multiple of `n` behind the base.
abbrev pub padding : ℕ → ℕ → ℕ → ℕ
padding at base n = if (at - base) % n == 0 then 0 else n - (at - base) % n

-- `align_writer`; the loop stops at the end of the buffer.
unfoldable pub align_writer : ℕ → Writer → Writer
align_writer n w =
    let pad = padding (length w.out) w.align_base n in
    record w { out = w.out ++ replicate (min pad (w.cap - length w.out)) 0 }

-- `align_reader`
unfoldable pub align_reader : ℕ → Reader → Option Reader
align_reader n r =
    let pad = padding r.pos r.align_base n in
    if (r.pos - r.align_base) % n == 0
    then some r
    else if ensure (length r.buf) r.pos pad
    then some (record r { pos = r.pos + pad })
    else none

-- `xrce_cdr_writer_init` and `xrce_cdr_reader_init`
abbrev pub writer_init : ℕ → Writer
writer_init cap = record { out = []; cap = cap; align_base = 0 }

abbrev pub reader_init : List ℕ → Reader
reader_init buf = record { buf = buf; pos = 0; align_base = 0 }

-- `xrce_cdr_write_bytes`
unfoldable pub write_bytes : List ℕ → Write
write_bytes bytes w =
    if ensure w.cap (length w.out) (length bytes)
    then some (record w { out = w.out ++ bytes })
    else none

-- `xrce_cdr_read_bytes`
unfoldable pub read_bytes : ℕ → Read (List ℕ)
read_bytes n r =
    if ensure (length r.buf) r.pos n
    then some (take n (drop r.pos r.buf), record r { pos = r.pos + n })
    else none

-- The loop `(uint8_t)(v >> (8 * i))` for `n` bytes.
unfoldable pub le_bytes : ℕ → ℕ → List ℕ
le_bytes zero v = []
le_bytes (suc n) v = (v % 256) ∷ le_bytes n (v / 256)

-- The loop `v |= buf[i] << (8 * i)`; the bits of bytes at different places are disjoint.
unfoldable pub le_value : List ℕ → ℕ
le_value [] = 0
le_value (b ∷ bs) = b + 256 * le_value bs

-- `n` little-endian bytes behind the padding for `n`.
unfoldable pub write_uint : ℕ → ℕ → Write
write_uint n v w = write_bytes (le_bytes n v) (align_writer n w)

abbrev pub read_aligned : ℕ → Option Reader → Option (ℕ × Reader)
read_aligned n none = none
read_aligned n (some r) = elim (read_bytes n r) [
  | none ↦ none
  | some (bs, r') ↦ some (le_value bs, r')
]

unfoldable pub read_uint : ℕ → Read ℕ
read_uint n r = read_aligned n (align_reader n r)

-- A signed integer as its two's complement in `w` bits, and back.
abbrev pub to_word : ℕ → ℤ → ℕ
to_word w (pos n) = n % 2 ^ w
to_word w (negsuc n) = 2 ^ w - 1 - n % 2 ^ w

abbrev pub of_word : ℕ → ℕ → ℤ
of_word w u = if ltb u (2 ^ w / 2) then pos u else negsuc (2 ^ w - 1 - u)

-- `xrce_cdr_write_u8`, `xrce_cdr_read_u8`
unfoldable pub write_u8 : ℕ → Write
write_u8 v = write_bytes (v ∷ [])

abbrev pub first_byte : Option (List ℕ × Reader) → Option (ℕ × Reader)
first_byte none = none
first_byte (some (bs, r)) = some (get_or bs 0 0, r)

unfoldable pub read_u8 : Read ℕ
read_u8 r = first_byte (read_bytes 1 r)

-- `xrce_cdr_write_bool`, `xrce_cdr_read_bool`
unfoldable pub write_bool : Bool → Write
write_bool v = write_u8 (if v then 1 else 0)

pub read_bool : Read Bool
read_bool = read_u8 >>= λ v. pure (not (v == 0))

-- `xrce_cdr_write_i16`, `xrce_cdr_read_i16`, and the unsigned reading of the same bytes.
unfoldable pub write_u16 : ℕ → Write
write_u16 v = write_uint 2 v

unfoldable pub read_u16 : Read ℕ
read_u16 = read_uint 2

unfoldable pub write_i16 : ℤ → Write
write_i16 v = write_u16 (to_word 16 v)

unfoldable pub read_i16 : Read ℤ
read_i16 = read_u16 >>= λ v. pure (of_word 16 v)

-- `xrce_cdr_write_u32`, `xrce_cdr_read_u32`
unfoldable pub write_u32 : ℕ → Write
write_u32 v = write_uint 4 v

pub read_u32 : Read ℕ
read_u32 = read_uint 4

-- `xrce_cdr_write_i32`, `xrce_cdr_read_i32`
unfoldable pub write_i32 : ℤ → Write
write_i32 v = write_u32 (to_word 32 v)

pub read_i32 : Read ℤ
read_i32 = read_u32 >>= λ u. pure (of_word 32 u)

-- `xrce_cdr_write_f64`, `xrce_cdr_read_f64`: a `double` is the 64 bits that `memcpy` reads from it.
unfoldable pub write_f64 : ℕ → Write
write_f64 bits = write_uint 8 bits

pub read_f64 : Read ℕ
read_f64 = read_uint 8

-- `xrce_cdr_write_header`
unfoldable pub write_header : Write
write_header =
    write_bytes (0 ∷ 1 ∷ 0 ∷ 0 ∷ []) >> λ w. some (record w { align_base = length w.out })

-- `xrce_cdr_read_header`; the last two of its four bytes are skipped.
abbrev pub check_header : List ℕ → Read (Unit {0})
check_header bs r =
    if (get_or bs 0 0 == 0) && (get_or bs 1 0 == 1)
    then some (tt, record r { align_base = r.pos })
    else none

pub read_header : Read (Unit {0})
read_header = read_bytes 4 >>= check_header

-- `xrce_cdr_write_string`: the bytes of the string and its terminator behind their number.
unfoldable pub write_string : List ℕ → Write
write_string s w =
    let n = length s + 1 in
    if ltb (2 ^ 32 - 1) n then none else (write_u32 n >> write_bytes (s ++ (0 ∷ []))) w

-- The string in an array of `n` bytes that ends in its terminator.
abbrev check_string : ℕ → List ℕ → Read (List ℕ)
check_string n bs r = if get_or bs (n - 1) 1 == 0 then some (take (n - 1) bs, r) else none

abbrev pub string_body : ℕ → ℕ → Read (List ℕ)
string_body out_cap n r =
    if (n == 0) || ltb out_cap n then none else (read_bytes n >>= check_string n) r

-- `xrce_cdr_read_string`
pub read_string : ℕ → Read (List ℕ)
read_string out_cap = read_u32 >>= string_body out_cap

-- A loop of writes over an array, and of `n` reads into one.
unfoldable pub write_each : {A : Type 0} → (A → Write) → List A → Write
write_each f [] = done
write_each f (x ∷ xs) = f x >> write_each f xs

pub read_each : {A : Type 0} → Read A → ℕ → Read (List A)
read_each f zero = pure []
read_each f (suc n) = f >>= λ x. (read_each f n >>= λ xs. pure (x ∷ xs))

-- `xrce_cdr_write_seq_i32`, with the array's `count` elements as a list.
unfoldable pub write_seq_i32 : List ℤ → Write
write_seq_i32 elems = write_u32 (length elems) >> write_each write_i32 elems

-- The check of a count against the room for the elements, and the loop.
abbrev pub read_counted : {A : Type 0} → Read A → ℕ → ℕ → Read (List A)
read_counted f max n r = if ltb max n then none else read_each f n r

-- `xrce_cdr_read_seq_i32`
pub read_seq_i32 : ℕ → Read (List ℤ)
read_seq_i32 out_cap = read_u32 >>= read_counted read_i32 out_cap
