-- ===== src/Xrce/Session/Numbers.antt =====
-- The numbers that the messages of a session of xrce/src/session.c carry, over a whole conversation.
use rtos_kernel_from_scratch.Common.{
  ℕ, ◌+◌, ◌%◌, ◌^◌, ◌≤◌, ◌≡◌, ap, ◌∙◌, Option, List, [], ◌∷◌, length, arith, All,
}
use rtos_kernel_from_scratch.Xrce.Session.{Session, session_init}
use rtos_kernel_from_scratch.Xrce.Session.Headers.{fitting}
use rtos_kernel_from_scratch.Xrce.Session.Frames.{spent}
use rtos_kernel_from_scratch.Xrce.Session.Requests.{
  Request, build, IsEncodable, request_message, build-request_message,
}

-- The session of `start` when `n` requests have been issued.
abbrev pub numbered : Session → ℕ → Session
numbered start n = record start { out_seq_num = n % 2 ^ 16; next_request_id = (n + 9) % 2 ^ 16 }

-- A request with its stream and the size of the buffer that it is built in.
pub record Issue : Type 0 where
  pub stream_id : ℕ
  pub cap : ℕ
  pub request : Request

-- Requests are issued one behind the other.
abbrev pub build_all : Session → List Issue → Session × List (Option (List ℕ))
build_all s [] = (s, [])
build_all s (r ∷ rs) =
    let (s', m) = build s r.stream_id r.request r.cap in
    let (s'', ms) = build_all s' rs in (s'', m ∷ ms)

-- A request that can be described, in a buffer with room for the headers.
abbrev IsIssuable : Issue → Type 0
IsIssuable r = (12 ≤ r.cap) × IsEncodable r.request

abbrev pub numbered_messages : Session → ℕ → List Issue → List (Option (List ℕ))
numbered_messages start n [] = []
numbered_messages start n (r ∷ rs) =
    fitting r.cap (request_message (numbered start n) r.stream_id r.request)
    ∷ numbered_messages start (n + 1) rs

spent-numbered :
    (start : Session) (n cap : ℕ) → 12 ≤ cap → spent (numbered start n) cap ≡ numbered start (n + 1)
spent-numbered start n cap h =
    let e1 : (n % 2 ^ 16 + 1) % 2 ^ 16 ≡ (n + 1) % 2 ^ 16 = omega arith in
    let e2 : ((n + 9) % 2 ^ 16 + 1) % 2 ^ 16 ≡ (n + 1 + 9) % 2 ^ 16 = omega arith in ground arith

build_all-from :
    (start : Session) (n : ℕ) (rs : List Issue)
    → length start.client_key ≡ 4
    → All IsIssuable rs
    → build_all (numbered start n) rs
      ≡ (numbered start (n + length rs), numbered_messages start n rs)
build_all-from start n [] key all = ap (λ m. (numbered start m, [])) (omega arith)
build_all-from start n (r ∷ rs) key ((room, enc), all) =
    let first = build-request_message (numbered start n) r.stream_id r.request r.cap key enc in
    let step = spent-numbered start n r.cap room in
    let rest = build_all-from start (n + 1) rs key all in
    let m = fitting r.cap (request_message (numbered start n) r.stream_id r.request) in
    ap (λ b. let (s', ms) = build_all b.0 rs in (s', b.1 ∷ ms)) (first ∙ ap (λ s'. (s', m)) step)
    ∙ ap (λ x. (x.0, m ∷ x.1)) rest
    ∙ ap (λ k. (numbered start k, m ∷ numbered_messages start (n + 1) rs)) (omega arith)

-- Over any conversation of a new session whose key has four bytes, with any streams, with descriptions of
-- fewer than 2 ^ 32 - 1 bytes and each in a buffer of at least 12 bytes of its own, the message of the
-- n-th request carries the sequence number n and the request id n + 9, both modulo 2 ^ 16, also behind
-- requests that did not fit, and the session ends with the numbers that come next.
pub build_all-numbered :
    (session_id mtu : ℕ) (key : List ℕ) (rs : List Issue)
    → length key ≡ 4
    → All IsIssuable rs
    → build_all (session_init session_id key mtu) rs ≡ (
      numbered (session_init session_id key mtu) (length rs),
      numbered_messages (session_init session_id key mtu) 0 rs,
    )
build_all-numbered session_id mtu key rs k all =
    let start = session_init session_id key mtu in
    build_all-from start 0 rs k all
    ∙ ap (λ n. (numbered start n, numbered_messages start 0 rs)) (omega arith)
