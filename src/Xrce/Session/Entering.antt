-- ===== src/Xrce/Session/Entering.antt =====
-- How the parsers of xrce/src/session.c get behind the headers of a message, by the places of its
-- parts.
use rtos_kernel_from_scratch.Common.{
  ℕ, zero, suc, ◌%◌, ◌≤◌, ◌<◌, ◌≡◌, refl, sym, ap, ◌∙◌, subst, some, none, Option, List, [], ◌∷◌,
  ◌++◌, length, take, drop, drop-append, arith, length-append, ltb, get_or, if◌then◌else◌, dec_le,
  Bool-cases, inl, inr, ◌⊎◌, length-take,
}
use rtos_kernel_from_scratch.Xrce.Cdr.{read_u8, reader_init}
use rtos_kernel_from_scratch.Xrce.Cdr.Trip.{>>=-step}
use rtos_kernel_from_scratch.Xrce.Session.{
  header_len, skip_message_header, expect, enter_submessage, read_u16,
}
use rtos_kernel_from_scratch.Xrce.Session.Reading.{
  over, >>=-end, read_u8-over, read_u8-end, read_u16-over, read_u16-end,
}

-- The kind of a submessage and what is behind its header.
abbrev submessage_of : List ℕ → Option (ℕ × List ℕ)
submessage_of [] = none
submessage_of (j ∷ []) = none
submessage_of (j ∷ f ∷ []) = none
submessage_of (j ∷ f ∷ a ∷ []) = none
submessage_of (j ∷ f ∷ a ∷ b ∷ body) = some (j, body)

-- A session id below 0x80 has a key of four bytes in the header of four more.
abbrev pub contents : List ℕ → Option (ℕ × List ℕ)
contents buf = submessage_of (if ltb (get_or buf 0 0) 128 then drop 8 buf else drop 4 buf)

contents-header_len : (buf : List ℕ) → contents buf ≡ submessage_of (drop (header_len buf) buf)
contents-header_len buf = elim (Bool-cases (ltb (get_or buf 0 0) 128)) [
  | inl e ↦ simp e refl
  | inr e ↦ simp e refl
]

skip-over :
    (front rest : List ℕ)
    → length front ≡ header_len (front ++ rest)
    → skip_message_header (reader_init (front ++ rest)) ≡ some (tt, over front rest)
unfolding skip_message_header
skip-over front rest e = ground (arith, length-append {0} front rest)

skip-short :
    (buf : List ℕ) → length buf < header_len buf → skip_message_header (reader_init buf) ≡ none
unfolding skip_message_header
skip-short buf h = ground arith

header_len-IsEven : (buf : List ℕ) → header_len buf % 2 ≡ 0
header_len-IsEven buf = ground arith

-- The reader is behind both headers if the kind is the expected one.
enter-over :
    (i j f a b : ℕ) (front body : List ℕ)
    → length front ≡ header_len (front ++ (j ∷ f ∷ a ∷ b ∷ body))
    → enter_submessage i (reader_init (front ++ (j ∷ f ∷ a ∷ b ∷ body)))
      ≡ expect i j (over (((front ++ (j ∷ [])) ++ (f ∷ [])) ++ (a ∷ b ∷ [])) body)
unfolding enter_submessage
enter-over i j f a b front body e =
    let l1 = length-append {0} front (j ∷ []) in
    let l2 = length-append {0} (front ++ (j ∷ [])) (f ∷ []) in
    >>=-step skip_message_header _ (skip-over front (j ∷ f ∷ a ∷ b ∷ body) e)
    ∙ >>=-step read_u8 _ (read_u8-over front (f ∷ a ∷ b ∷ body) j)
    ∙ >>=-step read_u8 _ (read_u8-over (front ++ (j ∷ [])) (a ∷ b ∷ body) f)
    ∙ >>=-step read_u16 _ (
        read_u16-over ((front ++ (j ∷ [])) ++ (f ∷ [])) body a b
          (omega (arith, header_len-IsEven (front ++ (j ∷ f ∷ a ∷ b ∷ body)))))

enter-short :
    (i : ℕ) (front rest : List ℕ)
    → length front ≡ header_len (front ++ rest)
    → length rest < 4
    → enter_submessage i (reader_init (front ++ rest)) ≡ none
unfolding enter_submessage
enter-short i front [] e h =
    >>=-step skip_message_header _ (skip-over front [] e) ∙ >>=-end read_u8 _ (read_u8-end front)
enter-short i front (j ∷ []) e h =
    >>=-step skip_message_header _ (skip-over front (j ∷ []) e)
    ∙ >>=-step read_u8 _ (read_u8-over front [] j)
    ∙ >>=-end read_u8 _ (read_u8-end (front ++ (j ∷ [])))
enter-short i front (j ∷ f ∷ rest) e h =
    let l1 = length-append {0} front (j ∷ []) in
    let l2 = length-append {0} (front ++ (j ∷ [])) (f ∷ []) in
    >>=-step skip_message_header _ (skip-over front (j ∷ f ∷ rest) e)
    ∙ >>=-step read_u8 _ (read_u8-over front (f ∷ rest) j)
    ∙ >>=-step read_u8 _ (read_u8-over (front ++ (j ∷ [])) rest f)
    ∙ >>=-end read_u16 _ (
        read_u16-end ((front ++ (j ∷ [])) ++ (f ∷ [])) rest
          (omega (arith, header_len-IsEven (front ++ (j ∷ f ∷ rest)))) (omega arith))

-- Where a reader stands that has entered the submessage of a message.
pub record Inside (i : ℕ) (buf : List ℕ) : Type 0 where
  pub kind : ℕ
  pub front : List ℕ
  pub body : List ℕ
  pub found : contents buf ≡ some (kind, body)
  pub even : length front % 2 ≡ 0
  pub entered : enter_submessage i (reader_init buf) ≡ expect i kind (over front body)

abbrev pub IsTruncated : ℕ → List ℕ → Type 0
IsTruncated i buf = (contents buf ≡ none) × (enter_submessage i (reader_init buf) ≡ none)

contents-over :
    (front rest : List ℕ)
    → length front ≡ header_len (front ++ rest)
    → contents (front ++ rest) ≡ submessage_of rest
contents-over front rest e =
    contents-header_len (front ++ rest)
    ∙ ap (λ n. submessage_of (drop n (front ++ rest))) (sym e)
    ∙ ap submessage_of (drop-append front rest)

Inside-over :
    (i : ℕ) (front rest : List ℕ)
    → length front ≡ header_len (front ++ rest)
    → IsTruncated i (front ++ rest) ⊎ Inside i (front ++ rest)
Inside-over i front [] e = inl (contents-over front [] e, enter-short i front [] e (omega arith))
Inside-over i front (j ∷ []) e =
    inl (contents-over front (j ∷ []) e, enter-short i front (j ∷ []) e (omega arith))
Inside-over i front (j ∷ f ∷ []) e =
    inl (contents-over front (j ∷ f ∷ []) e, enter-short i front (j ∷ f ∷ []) e (omega arith))
Inside-over i front (j ∷ f ∷ a ∷ []) e =
    inl
      (contents-over front (j ∷ f ∷ a ∷ []) e, enter-short i front (j ∷ f ∷ a ∷ []) e (omega arith))
Inside-over i front (j ∷ f ∷ a ∷ b ∷ body) e =
    let l1 = length-append {0} front (j ∷ []) in
    let l2 = length-append {0} (front ++ (j ∷ [])) (f ∷ []) in
    let l3 = length-append {0} ((front ++ (j ∷ [])) ++ (f ∷ [])) (a ∷ b ∷ []) in
    let even = header_len-IsEven (front ++ (j ∷ f ∷ a ∷ b ∷ body)) in
    inr record {
      kind = j;
      front = ((front ++ (j ∷ [])) ++ (f ∷ [])) ++ (a ∷ b ∷ []);
      body = body;
      found = contents-over front (j ∷ f ∷ a ∷ b ∷ body) e;
      even = omega arith;
      entered = enter-over i j f a b front body e;
    }

take-drop : (n : ℕ) (xs : List ℕ) → take n xs ++ drop n xs ≡ xs
take-drop zero xs = refl
take-drop (suc n) [] = refl
take-drop (suc n) (x ∷ xs) = ap (λ l. x ∷ l) (take-drop n xs)

drop-all : (n : ℕ) (xs : List ℕ) → length xs ≤ n → drop n xs ≡ []
drop-all zero [] h = refl
drop-all zero (x ∷ xs) h = absurd (omega arith)
drop-all (suc n) [] h = refl
drop-all (suc n) (x ∷ xs) h = drop-all n xs (omega arith)

enter-none :
    (i : ℕ) (buf : List ℕ)
    → length buf < header_len buf
    → enter_submessage i (reader_init buf) ≡ none
unfolding enter_submessage
enter-none i buf h = >>=-end skip_message_header _ (skip-short buf h)

-- Any buffer is either too short for both headers, or has a kind and a body.
pub inside : (i : ℕ) (buf : List ℕ) → IsTruncated i buf ⊎ Inside i buf
inside i buf = elim (dec_le (header_len buf) (length buf)) [
  | yes le_ ↦
      let whole = take-drop (header_len buf) buf in
      subst (λ b. IsTruncated i b ⊎ Inside i b) whole
        (Inside-over i (take (header_len buf) buf) (drop (header_len buf) buf) (
          length-take (header_len buf) buf
          ∙ (let h = le_ in omega arith)
          ∙ ap header_len (sym whole)))
  | no gt_ ↦ inl (
    contents-header_len buf ∙ ap submessage_of (drop-all (header_len buf) buf (omega arith)),
    enter-none i buf (omega arith),
  )
]
