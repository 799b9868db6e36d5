-- ===== src/Xrce/Cdr/Trip.antt =====
-- The contract of a write and the read that mirrors it in xrce/src/cdr.c, with anything behind the
-- bytes, and how contracts compose.
use rtos_kernel_from_scratch.Common.{
  ℕ, ◌+◌, ◌-◌, ◌≤◌, ◌≡◌, refl, sym, ap, ◌∙◌, some, List, [], ◌++◌, append_assoc, append-nil, length,
  take, drop, arith, length-append, drop-append, take-append, Option-cases, inl, inr, subst,
}
use rtos_kernel_from_scratch.Xrce.Cdr.{
  Writer, Reader, Write, Read, ◌>>◌, ◌>>=◌, done, pure, write_bytes, read_bytes,
}

-- The reader over a buffer, at the place where the writer stands.
abbrev pub at : List ℕ → Writer → Reader
at buf w = record { buf = buf; pos = length w.out; align_base = w.align_base }

-- What a write has done, if it succeeded: it extended the buffer within its bounds, and the read
-- gives back `a` and stands behind it.
pub record Wrote {A : Type 0} (read : Read A) (a : A) (w w' : Writer) : Type 0 where
  pub more : List ℕ
  pub extends : w'.out ≡ w.out ++ more
  pub same_cap : w'.cap ≡ w.cap
  pub within : length w'.out ≤ w'.cap
  pub back : (rest : List ℕ) → read (at (w'.out ++ rest) w) ≡ some (a, at (w'.out ++ rest) w')

-- A write and a read fit together at `a`.
abbrev pub Trip : {A : Type 0} → Write → Read A → A → Type 0
Trip write read a = (w w' : Writer) → length w.out ≤ w.cap → write w ≡ some w' → Wrote read a w w'

pub Trip-pure : {A : Type 0} (a : A) → Trip done (pure a) a
Trip-pure a w w' le e = record {
  more = [];
  extends = rw (append-nil w.out) (ap Writer.out same);
  same_cap = ap Writer.cap same;
  within = subst (λ x. length x.out ≤ x.cap) (sym same) le;
  back = λ rest. ap (λ x. some (a, at (w'.out ++ rest) x)) (sym same);
}
  where
    same : w' ≡ w
    same = cc

>>-eq-some :
    (a b : Write) (w w'' : Writer)
    → (a >> b) w ≡ some w''
    → (w' : Writer) × (a w ≡ some w') × (b w' ≡ some w'')
>>-eq-some a b w w'' e = elim (Option-cases (a w)) [
  | inl n ↦ absurd (ground arith)
  | inr (w', s) ↦ (w', s, ground arith)
]

pub >>=-step :
    {A B : Type 0} (ra : Read A) (rb : A → Read B) {a : A} {r r' : Reader}
    → ra r ≡ some (a, r')
    → (ra >>= rb) r ≡ rb a r'
>>=-step ra rb e = rw (e, ◌>>=◌)

-- A write behind a write is read by a read behind a read.
pub Trip-bind :
    {A B : Type 0} (wa wb : Write) (ra : Read A) (rb : A → Read B) (a : A) (b : B)
    → Trip wa ra a
    → Trip wb (rb a) b
    → Trip (wa >> wb) (ra >>= rb) b
Trip-bind wa wb ra rb a b ta tb w w'' le e =
    let (w', ea, eb) = >>-eq-some wa wb w w'' e in
    let first = ta w w' le ea in
    let second = tb w' w'' first.within eb in
    record {
      more = first.more ++ second.more;
      extends =
          second.extends
          ∙ ap (λ l. l ++ second.more) first.extends
          ∙ append_assoc w.out first.more second.more;
      same_cap = second.same_cap ∙ first.same_cap;
      within = second.within;
      back = λ rest.
          let whole : w'.out ++ (second.more ++ rest) ≡ w''.out ++ rest =
            sym (append_assoc w'.out second.more rest) ∙ ap (λ l. l ++ rest) (sym second.extends) in
          >>=-step ra rb (
            subst (λ buf. ra (at buf w) ≡ some (a, at buf w')) whole
              (first.back (second.more ++ rest)))
          ∙ second.back rest;
    }

-- A write that leaves the buffer as it is and reads nothing may stand in front.
pub Wrote-bytes :
    (bytes : List ℕ) (w w' : Writer)
    → write_bytes bytes w ≡ some w'
    → w' ≡ record w { out = w.out ++ bytes }
unfolding write_bytes
Wrote-bytes bytes w w' e = ground arith

pub bytes-fit :
    (bytes : List ℕ) (w w' : Writer)
    → write_bytes bytes w ≡ some w'
    → length bytes ≤ w.cap - length w.out
unfolding write_bytes
bytes-fit bytes w w' e = ground arith

-- Reading as many bytes as were written gives them back.
pub read_bytes-at :
    (front bytes rest : List ℕ) (base : ℕ)
    → read_bytes
        (length bytes)
        (record { buf = (front ++ bytes) ++ rest; pos = length front; align_base = base })
      ≡ some (
        bytes,
        record {
          buf = (front ++ bytes) ++ rest;
          pos = length front + length bytes;
          align_base = base;
        },
      )
unfolding read_bytes
read_bytes-at front bytes rest base =
    let whole = append_assoc front bytes rest in
    let here = ap (drop (length front)) whole ∙ drop-append front (bytes ++ rest) in
    let there = ap (take (length bytes)) here ∙ take-append bytes rest in
    ground (arith, there, length-append {0} (front ++ bytes) rest, length-append {0} front bytes)

-- `xrce_cdr_read_bytes` gives back what `xrce_cdr_write_bytes` wrote.
pub Trip-bytes : (bytes : List ℕ) → Trip (write_bytes bytes) (read_bytes (length bytes)) bytes
Trip-bytes bytes w w' le e =
    subst (Wrote (read_bytes (length bytes)) bytes w) (sym (Wrote-bytes bytes w w' e)) record {
      more = bytes;
      extends = refl;
      same_cap = refl;
      within = omega (arith, length-append {0} w.out bytes, bytes-fit bytes w w' e, le);
      back = λ rest.
          read_bytes-at w.out bytes rest w.align_base
          ∙ ap
              (λ n. some (
                bytes,
                record { buf = (w.out ++ bytes) ++ rest; pos = n; align_base = w.align_base },
              ))
              (sym (length-append w.out bytes));
    }

-- A read that makes something else of what another one reads.
pub Trip-via :
    {A B : Type 0} (write : Write) (ra : Read A) (rb : Read B) (a : A) (b : B)
    → ((r r' : Reader) → ra r ≡ some (a, r') → rb r ≡ some (b, r'))
    → Trip write ra a
    → Trip write rb b
Trip-via write ra rb a b same t w w' le e =
    let done_ = t w w' le e in
    record {
      more = done_.more;
      extends = done_.extends;
      same_cap = done_.same_cap;
      within = done_.within;
      back = λ rest. same _ _ (done_.back rest);
    }

-- The last field: its read is followed by the making of the whole.
pub Trip-last :
    {A B : Type 0} (write : Write) (read : Read A) (f : A → B) (a : A)
    → Trip write read a
    → Trip write (read >>= λ x. pure (f x)) (f a)
Trip-last write read f a =
    Trip-via write read (read >>= λ x. pure (f x)) a (f a)
      (λ r r' h. >>=-step read (λ x. pure (f x)) h)
