-- ===== src/Xrce/Msgs.antt =====
-- xrce/src/msgs.c: the ROS 2 messages as CDR. A message is the header and its fields in order; a
-- `char[]` field is the list of the bytes before its terminator.
pub mod Basic
pub mod Geometry
pub mod Actions
pub mod Goals
pub mod Diagnostics
use rtos_kernel_from_scratch.Common.{
  ℕ, Bool, Option, none, some, List, ◌++◌, ℤ, ◌≡◌, ◌≤◌, ◌<◌, ◌^◌, refl, arith, append-nil, subst,
  sym, ap,
}
use rtos_kernel_from_scratch.Xrce.Cdr.{
  Writer, Reader, Write, Read, ◌>>◌, ◌>>=◌, pure, writer_init, reader_init, write_header,
  read_header, write_i32, read_i32, write_u32, read_u32, write_string, read_string, write_bool,
  read_bool,
}
use rtos_kernel_from_scratch.Xrce.Cdr.Trip.{Wrote, Trip, Trip-bind}
use rtos_kernel_from_scratch.Xrce.Cdr.Scalars.{Trip-header}

-- What every `..._encode` does round its fields: the bytes written, or `none` for `false`.
abbrev written : Option Writer → Option (List ℕ)
written none = none
written (some w) = some w.out

abbrev pub encode : Write → ℕ → Option (List ℕ)
encode fields cap = written ((write_header >> fields) (writer_init cap))

-- What every `..._decode` does round its fields.
abbrev value_read : {A : Type 0} → Option (A × Reader) → Option A
value_read none = none
value_read (some (a, r)) = some a

abbrev pub decode : {A : Type 0} → Read A → List ℕ → Option A
decode fields buf = value_read ((read_header >>= λ _. fields) (reader_init buf))

written-eq-some :
    (o : Option Writer) (bytes : List ℕ)
    → written o ≡ some bytes
    → (w : Writer) × (o ≡ some w) × (w.out ≡ bytes)
written-eq-some none bytes e = absurd (cc)
written-eq-some (some w) bytes e = (w, refl, cc)

-- Fields that fit together make a message that fits: what was encoded is decoded, whatever follows
-- it, and never exceeds the buffer.
pub decode-encode :
    {A : Type 0} (write : Write) (read : Read A) (a : A) (cap : ℕ) (bytes rest : List ℕ)
    → Trip write read a
    → encode write cap ≡ some bytes
    → decode read (bytes ++ rest) ≡ some a
decode-encode write read a cap bytes rest t e =
    let (w, ew, same) = written-eq-some _ bytes e in
    let trip =
      Trip-bind write_header write read_header (λ _. read) tt a Trip-header t (writer_init cap) w
        (omega arith) ew in
    subst (λ b. decode read (b ++ rest) ≡ some a) same (ap value_read (trip.back rest))
