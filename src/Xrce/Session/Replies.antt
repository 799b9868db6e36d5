-- ===== src/Xrce/Session/Replies.antt =====
-- What the parsers of xrce/src/session.c accept and give back.
use rtos_kernel_from_scratch.Common.{
  ℕ, ◌%◌, ◌≡◌, refl, sym, ap, ◌∙◌, Bool, true, false, some, none, Option, List, length, drop, ◌==◌,
  if◌then◌else◌, Bool-cases, inl, inr,
}
use rtos_kernel_from_scratch.Xrce.Cdr.{Reader, Read, ◌>>=◌, read_u8, reader_init}
use rtos_kernel_from_scratch.Xrce.Session.{
  submsg_status_agent, submsg_status, submsg_data, submsg_acknack, is_success, rest_of, value_of,
  expect, enter_submessage, parse_create_client_reply, parse_status_reply, parse_create_reply,
  parse_delete_reply, parse_data, parse_acknack, acknack_payload,
}
use rtos_kernel_from_scratch.Xrce.Session.Reading.{over, >>=-end}
use rtos_kernel_from_scratch.Xrce.Session.Bodies.{
  is_ok, sample_in, acknack_in, read_status, read_related, read_status_behind, read_requested,
  read_sample, read_acknack,
}
use rtos_kernel_from_scratch.Xrce.Session.Entering.{contents, Inside, IsTruncated, inside}

-- A read behind the headers of a message.
abbrev parsed : {A : Type 0} → ℕ → Read A → List ℕ → Option (A × Reader)
parsed i read buf = (enter_submessage i >>= λ _. read) (reader_init buf)

parsed-IsTruncated :
    {A : Type 0} (i : ℕ) (read : Read A) (buf : List ℕ)
    → IsTruncated i buf
    → parsed i read buf ≡ none
parsed-IsTruncated i read buf t = >>=-end (enter_submessage i) (λ _. read) t.1

expect-then :
    {A : Type 0} (i j : ℕ) (read : Read A) (r : Reader)
    → (expect i j >>= λ _. read) r ≡ (if j == i then read r else none)
expect-then i j read r = elim (Bool-cases (j == i)) [
  | inl e ↦ rw (e, ◌>>=◌) refl
  | inr e ↦ rw (e, ◌>>=◌) refl
]

parsed-Inside :
    {A : Type 0} (i : ℕ) (read : Read A) (buf : List ℕ) (at_ : Inside i buf)
    → parsed i read buf ≡ (if at_.kind == i then read (over at_.front at_.body) else none)
parsed-Inside i read buf at_ =
    ap (λ o. elim o [ none ↦ none | some (x, r) ↦ read r ]) at_.entered
    ∙ expect-then i at_.kind read (over at_.front at_.body)

-- What a message of kind `i` is taken for by its body, and `otherwise` for any other buffer.
abbrev pub by_kind : {B : Type 0} → ℕ → B → (List ℕ → B) → Option (ℕ × List ℕ) → B
by_kind i otherwise f none = otherwise
by_kind i otherwise f (some (j, body)) = if j == i then f body else otherwise

if-ap :
    {B C : Type 0} (f : B → C) (t : Bool) (x y : B)
    → f (if t then x else y) ≡ (if t then f x else f y)
if-ap f true x y = refl
if-ap f false x y = refl

parsed-by_kind :
    {A B : Type 0} (i : ℕ) (read : Read A) (out : Option (A × Reader) → B) (f : List ℕ → B)
    (buf : List ℕ)
    → ((front body : List ℕ) → length front % 2 ≡ 0 → out (read (over front body)) ≡ f body)
    → out (parsed i read buf) ≡ by_kind i (out none) f (contents buf)
parsed-by_kind i read out f buf h = elim (inside i buf) [
  | inl t ↦ ap out (parsed-IsTruncated i read buf t) ∙ ap (by_kind i (out none) f) (sym t.0)
  | inr at_ ↦
      ap out (parsed-Inside i read buf at_)
      ∙ if-ap out (at_.kind == i) (read (over at_.front at_.body)) none
      ∙ ap (λ b. if at_.kind == i then b else out none) (h at_.front at_.body at_.even)
      ∙ ap (by_kind i (out none) f) (sym at_.found)
]

parse_data-contents :
    (buf : List ℕ) → parse_data buf ≡ by_kind submsg_data none sample_in (contents buf)
unfolding parse_data read_requested
parse_data-contents buf =
    parsed-by_kind submsg_data read_requested rest_of sample_in buf
      (λ front body even. read_sample front body)

parse_create_client_reply-contents :
    (buf : List ℕ)
    → parse_create_client_reply buf ≡ by_kind submsg_status_agent false is_ok (contents buf)
unfolding parse_create_client_reply
parse_create_client_reply-contents buf =
    parsed-by_kind submsg_status_agent read_u8 is_success is_ok buf
      (λ front body even. read_status front body)

parse_status_reply-contents :
    (buf : List ℕ)
    → parse_status_reply buf
      ≡ by_kind submsg_status false (λ body. is_ok (drop 4 body)) (contents buf)
unfolding parse_status_reply read_related
parse_status_reply-contents buf =
    parsed-by_kind submsg_status read_related is_success (λ body. is_ok (drop 4 body)) buf
      (λ front body even. read_status_behind front body)

parse_acknack-contents :
    (buf : List ℕ) → parse_acknack buf ≡ by_kind submsg_acknack none acknack_in (contents buf)
unfolding parse_acknack
parse_acknack-contents buf =
    parsed-by_kind submsg_acknack acknack_payload value_of acknack_in buf read_acknack

-- Every parser is determined by the kind of the submessage of a buffer and the bytes behind its header,
-- for any buffer: the handshake succeeds on a STATUS_AGENT whose status is a success, a create or
-- delete on a STATUS whose fifth byte is one, DATA gives its object and all the bytes behind it, and
-- ACKNACK its two numbers; each of them refuses a buffer of another kind, or one that is too short.
pub replies-contents :
    (buf : List ℕ)
    → (parse_create_client_reply buf ≡ by_kind submsg_status_agent false is_ok (contents buf))
      × (parse_create_reply buf
          ≡ by_kind submsg_status false (λ body. is_ok (drop 4 body)) (contents buf))
      × (parse_delete_reply buf
          ≡ by_kind submsg_status false (λ body. is_ok (drop 4 body)) (contents buf))
      × (parse_data buf ≡ by_kind submsg_data none sample_in (contents buf))
      × (parse_acknack buf ≡ by_kind submsg_acknack none acknack_in (contents buf))
unfolding parse_create_reply parse_delete_reply
replies-contents buf = (
  parse_create_client_reply-contents buf,
  parse_status_reply-contents buf,
  parse_status_reply-contents buf,
  parse_data-contents buf,
  parse_acknack-contents buf,
)
