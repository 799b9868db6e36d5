-- ===== src/Xrce/Session/Bodies.antt =====
-- What xrce/src/session.c reads of a body behind the headers: a status, a sample, an acknowledgement.
use rtos_kernel_from_scratch.Common.{
  ℕ, ◌+◌, ◌*◌, ◌%◌, ◌≡◌, ap, ◌∙◌, Bool, false, ◌||◌, some, none, Option, List, [], ◌∷◌, ◌++◌,
  length, drop, drop-append, ◌==◌, arith, get_or,
}
use rtos_kernel_from_scratch.Xrce.Cdr.{Read, ◌>>=◌, pure, read_bytes, read_u8}
use rtos_kernel_from_scratch.Xrce.Cdr.Trip.{>>=-step}
use rtos_kernel_from_scratch.Xrce.Session.{
  ObjectId, object_id_of, status_ok, status_ok_matched, is_success, rest_of, value_of, read_u16,
  read_object_id, acknack_payload,
}
use rtos_kernel_from_scratch.Xrce.Session.Reading.{
  over, >>=-end, read_bytes-over, read_bytes-end, read_u8-over, read_u8-end, u16_of, read_u16-over,
  read_u16-end, read_object_id-over, read_object_id-end,
}

-- A status, and whether it tells of success.
abbrev pub is_ok : List ℕ → Bool
is_ok [] = false
is_ok (status ∷ rest) = (status == status_ok) || (status == status_ok_matched)

abbrev pub sample_in : List ℕ → Option (ObjectId × List ℕ)
sample_in [] = none
sample_in (q ∷ []) = none
sample_in (q ∷ q' ∷ []) = none
sample_in (q ∷ q' ∷ a ∷ []) = none
sample_in (q ∷ q' ∷ a ∷ b ∷ sample) = some (object_id_of (a ∷ b ∷ []), sample)

pub read_status : (front body : List ℕ) → is_success (read_u8 (over front body)) ≡ is_ok body
read_status front [] = ap is_success (read_u8-end front)
read_status front (x ∷ rest) = ap is_success (read_u8-over front rest x)

unfoldable pub read_related : Read ℕ
read_related = read_bytes 4 >>= λ related_request. read_u8

pub read_status_behind :
    (front body : List ℕ) → is_success (read_related (over front body)) ≡ is_ok (drop 4 body)
unfolding read_related
read_status_behind front (a ∷ b ∷ c ∷ d ∷ rest) =
    ap is_success
      (>>=-step (read_bytes 4) (λ _. read_u8) (read_bytes-over front (a ∷ b ∷ c ∷ d ∷ []) rest))
    ∙ read_status (front ++ (a ∷ b ∷ c ∷ d ∷ [])) rest
read_status_behind front [] =
    ap is_success (>>=-end (read_bytes 4) (λ _. read_u8) (read_bytes-end front [] 4 (omega arith)))
read_status_behind front (a ∷ []) =
    ap is_success
      (>>=-end (read_bytes 4) (λ _. read_u8) (read_bytes-end front (a ∷ []) 4 (omega arith)))
read_status_behind front (a ∷ b ∷ []) =
    ap is_success
      (>>=-end (read_bytes 4) (λ _. read_u8) (read_bytes-end front (a ∷ b ∷ []) 4 (omega arith)))
read_status_behind front (a ∷ b ∷ c ∷ []) =
    ap is_success (
      >>=-end (read_bytes 4) (λ _. read_u8) (read_bytes-end front (a ∷ b ∷ c ∷ []) 4 (omega arith)))

unfoldable pub read_requested : Read ObjectId
read_requested = read_bytes 2 >>= λ request_id. read_object_id

pub read_sample :
    (front body : List ℕ) → rest_of (read_requested (over front body)) ≡ sample_in body
unfolding read_requested
read_sample front [] =
    ap rest_of
      (>>=-end (read_bytes 2) (λ _. read_object_id) (read_bytes-end front [] 2 (omega arith)))
read_sample front (q ∷ []) =
    ap rest_of
      (>>=-end (read_bytes 2) (λ _. read_object_id) (read_bytes-end front (q ∷ []) 2 (omega arith)))
read_sample front (q ∷ q' ∷ rest) =
    ap rest_of
      (>>=-step (read_bytes 2) (λ _. read_object_id) (read_bytes-over front (q ∷ q' ∷ []) rest))
    ∙ read_object (front ++ (q ∷ q' ∷ [])) rest
  where
    read_object :
        (before behind : List ℕ)
        → rest_of (read_object_id (over before behind)) ≡ sample_in (q ∷ q' ∷ behind)
    read_object before [] = ap rest_of (read_object_id-end before [] (omega arith))
    read_object before (a ∷ []) = ap rest_of (read_object_id-end before (a ∷ []) (omega arith))
    read_object before (a ∷ b ∷ sample) =
        ap rest_of (read_object_id-over before sample a b)
        ∙ ap (λ l. some (object_id_of (a ∷ b ∷ []), l))
            (drop-append (before ++ (a ∷ b ∷ [])) sample)

-- The first unacknowledged number and the bitmap, both little-endian; the stream comes last.
abbrev pub acknack_in : List ℕ → Option (ℕ × ℕ)
acknack_in [] = none
acknack_in (a ∷ []) = none
acknack_in (a ∷ b ∷ []) = none
acknack_in (a ∷ b ∷ c ∷ []) = none
acknack_in (a ∷ b ∷ c ∷ d ∷ []) = none
acknack_in (a ∷ b ∷ c ∷ d ∷ stream ∷ rest) = some (u16_of a b, c + 256 * d)

read_bitmap : ℕ → Read (ℕ × ℕ)
read_bitmap first = read_bytes 2 >>= λ bitmap.
    read_u8 >>= λ target. pure (first, get_or bitmap 0 0 + 256 * get_or bitmap 1 0)

pub read_acknack :
    (front body : List ℕ)
    → length front % 2 ≡ 0
    → value_of (acknack_payload (over front body)) ≡ acknack_in body
unfolding acknack_payload read_bitmap
read_acknack front [] even =
    ap value_of (>>=-end read_u16 read_bitmap (read_u16-end front [] even (omega arith)))
read_acknack front (a ∷ []) even =
    ap value_of (>>=-end read_u16 read_bitmap (read_u16-end front (a ∷ []) even (omega arith)))
read_acknack front (a ∷ b ∷ rest) even =
    ap value_of (>>=-step read_u16 read_bitmap (read_u16-over front rest a b even))
    ∙ behind_first (front ++ (a ∷ b ∷ [])) rest
  where
    make : List ℕ → ℕ → Read (ℕ × ℕ)
    make bitmap target = pure (u16_of a b, get_or bitmap 0 0 + 256 * get_or bitmap 1 0)

    behind_first :
        (before behind : List ℕ)
        → value_of (read_bitmap (u16_of a b) (over before behind)) ≡ acknack_in (a ∷ b ∷ behind)
    behind_first before [] = ap value_of (
        >>=-end (read_bytes 2) (λ l. read_u8 >>= make l) (read_bytes-end before [] 2 (omega arith)))
    behind_first before (c ∷ []) = ap value_of (
        >>=-end (read_bytes 2) (λ l. read_u8 >>= make l)
          (read_bytes-end before (c ∷ []) 2 (omega arith)))
    behind_first before (c ∷ d ∷ []) = ap value_of (
        >>=-step (read_bytes 2) (λ l. read_u8 >>= make l) (read_bytes-over before (c ∷ d ∷ []) [])
        ∙ >>=-end read_u8 (make (c ∷ d ∷ [])) (read_u8-end (before ++ (c ∷ d ∷ []))))
    behind_first before (c ∷ d ∷ stream ∷ more) = ap value_of (
        >>=-step (read_bytes 2) (λ l. read_u8 >>= make l)
          (read_bytes-over before (c ∷ d ∷ []) (stream ∷ more))
        ∙ >>=-step read_u8 (make (c ∷ d ∷ [])) (read_u8-over (before ++ (c ∷ d ∷ [])) more stream))
