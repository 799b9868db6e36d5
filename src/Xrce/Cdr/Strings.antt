-- ===== src/Xrce/Cdr/Strings.antt =====
-- Round trips of the strings and sequences of xrce/src/cdr.c.
use rtos_kernel_from_scratch.Common.{
  ℕ, ◌+◌, ◌-◌, ◌^◌, ◌≤◌, ◌<◌, ◌≡◌, refl, ap, ◌∙◌, some, List, [], ◌∷◌, ◌++◌, length, take, arith,
  length-append, subst, ℤ, get_or, All, take-append,
}
use rtos_kernel_from_scratch.Xrce.Cdr.{
  Reader, Write, Read, ◌>>=◌, pure, write_bytes, read_bytes, write_u32, read_u32, write_i32,
  read_i32, write_string, read_string, string_body, write_each, read_each, read_counted,
  write_seq_i32, read_seq_i32,
}
use rtos_kernel_from_scratch.Xrce.Cdr.Trip.{Trip, Trip-pure, Trip-bind, Trip-bytes, Trip-via}
use rtos_kernel_from_scratch.Xrce.Cdr.Scalars.{Trip-u32, Trip-i32, InRange, Trip-map}

get_or-last : (s : List ℕ) (b d : ℕ) → get_or (s ++ (b ∷ [])) (length s) d ≡ b
get_or-last [] b d = refl
get_or-last (x ∷ s) b d = get_or-last s b d

string_body-read :
    (s : List ℕ) (cap : ℕ) (r r' : Reader)
    → length s < cap
    → read_bytes (length (s ++ (0 ∷ []))) r ≡ some (s ++ (0 ∷ []), r')
    → string_body cap (length s + 1) r ≡ some (s, r')
string_body-read s cap r r' lt e =
    let size : length (s ++ (0 ∷ [])) ≡ length s + 1 = length-append s (0 ∷ []) in
    let less : length s + 1 - 1 ≡ length s = omega arith in
    let last : get_or (s ++ (0 ∷ [])) (length s + 1 - 1) 1 ≡ 0 =
      ap (λ i. get_or (s ++ (0 ∷ [])) i 1) less ∙ get_or-last s 0 1 in
    let body : take (length s + 1 - 1) (s ++ (0 ∷ [])) ≡ s =
      ap (λ i. take i (s ++ (0 ∷ []))) less ∙ take-append s (0 ∷ []) in
    let raw : read_bytes (length s + 1) r ≡ some (s ++ (0 ∷ []), r') =
      subst (λ n. read_bytes n r ≡ some (s ++ (0 ∷ []), r')) size e in
    ground arith

string_body-Trip :
    (s : List ℕ) (cap : ℕ)
    → length s < cap
    → Trip (write_bytes (s ++ (0 ∷ []))) (string_body cap (length s + 1)) s
string_body-Trip s cap lt =
    Trip-via (write_bytes (s ++ (0 ∷ []))) (read_bytes (length (s ++ (0 ∷ []))))
      (string_body cap (length s + 1)) (s ++ (0 ∷ [])) s
      (λ r r' e. string_body-read s cap r r' lt e) (Trip-bytes (s ++ (0 ∷ [])))

-- A string that leaves room for its terminator in the array of the reader is read back.
pub Trip-string :
    (s : List ℕ) (cap : ℕ)
    → length s < cap
    → length s < 2 ^ 32 - 1
    → Trip (write_string s) (read_string cap) s
unfolding write_string read_string
Trip-string s cap lt small w w' le e =
    Trip-bind (write_u32 (length s + 1)) (write_bytes (s ++ (0 ∷ []))) read_u32 (string_body cap)
      (length s + 1) s (Trip-u32 (length s + 1) (omega arith)) (string_body-Trip s cap lt) w w' le
      (ground arith)

pub Trip-each :
    {A : Type 0} (write : A → Write) (read : Read A) (P : A → Type 0) (xs : List A)
    → ((a : A) → P a → Trip (write a) read a)
    → All P xs
    → Trip (write_each write xs) (read_each read (length xs)) xs
unfolding write_each read_each
Trip-each write read P [] t a = Trip-pure []
Trip-each write read P (x ∷ xs) t a =
    Trip-bind (write x) (write_each write xs) read
      (λ y. (read_each read (length xs) >>= λ ys. pure (y ∷ ys))) x (x ∷ xs) (t x a.0)
      (Trip-map (write_each write xs) (read_each read (length xs)) (λ ys. x ∷ ys) xs (x ∷ xs) refl
        (Trip-each write read P xs t a.1))

pub Trip-counted :
    {A : Type 0} (write : A → Write) (read : Read A) (P : A → Type 0) (xs : List A) (cap : ℕ)
    → length xs ≤ cap
    → ((a : A) → P a → Trip (write a) read a)
    → All P xs
    → Trip (write_each write xs) (read_counted read cap (length xs)) xs
Trip-counted write read P xs cap le t a =
    Trip-via (write_each write xs) (read_each read (length xs)) (read_counted read cap (length xs))
      xs xs (λ r r' e. ground arith) (Trip-each write read P xs t a)

-- A sequence that fits the array of the reader is read back.
pub Trip-seq_i32 :
    (xs : List ℤ) (cap : ℕ)
    → length xs ≤ cap
    → length xs < 2 ^ 32
    → All (InRange 32) xs
    → Trip (write_seq_i32 xs) (read_seq_i32 cap) xs
unfolding write_seq_i32 read_seq_i32
Trip-seq_i32 xs cap le small all =
    Trip-bind (write_u32 (length xs)) (write_each write_i32 xs) read_u32 (read_counted read_i32 cap)
      (length xs) xs (Trip-u32 (length xs) small)
      (Trip-counted write_i32 read_i32 (InRange 32) xs cap le Trip-i32 all)
