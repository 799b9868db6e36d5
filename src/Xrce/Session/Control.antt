-- ===== src/Xrce/Session/Control.antt =====
-- The messages of xrce/src/session.c that carry no numbers of the session: the handshake and the
-- HEARTBEAT of a reliable stream.
use rtos_kernel_from_scratch.Common.{
  arith, length-append, ℕ, ◌+◌, ◌/◌, ◌%◌, ◌≡◌, refl, sym, subst, false, List, [], ◌∷◌, ◌++◌, length,
}
use rtos_kernel_from_scratch.Xrce.Cdr.{◌>>◌, le_bytes, write_u8, write_bool}
use rtos_kernel_from_scratch.Xrce.Session.{
  Session, build_heartbeat, build_create_client, submsg_heartbeat, submsg_create_client,
  heartbeat_payload, create_client_payload, write_u16,
}
use rtos_kernel_from_scratch.Xrce.Session.Layout.{
  Puts, Puts-seq, Puts-bytes, Puts-u8, Puts-u16, Puts-bool,
}
use rtos_kernel_from_scratch.Xrce.Session.Headers.{fitting, header_bytes, submessage}
use rtos_kernel_from_scratch.Xrce.Session.Frames.{write_control-frame}

abbrev u16_bytes : ℕ → List ℕ
u16_bytes v = (v % 256) ∷ (v / 256 % 256) ∷ []

-- The cookie, the version and the vendor, then what the session wants to be.
abbrev pub handshake : Session → List ℕ
handshake s =
    (88 ∷ 82 ∷ 67 ∷ 69 ∷ 1 ∷ 0 ∷ 1 ∷ 15 ∷ [])
    ++ (s.client_key ++ (s.session_id ∷ 0 ∷ u16_bytes s.mtu))

abbrev pub progress : ℕ → ℕ → ℕ → List ℕ
progress target_stream first_unacked last_sent =
    u16_bytes first_unacked ++ (u16_bytes last_sent ++ (target_stream ∷ []))

Puts-heartbeat :
    (target_stream first_unacked last_sent : ℕ)
    → Puts 12
        (heartbeat_payload first_unacked last_sent target_stream)
        (progress target_stream first_unacked last_sent)
unfolding heartbeat_payload le_bytes
Puts-heartbeat target_stream first_unacked last_sent =
    Puts-seq 12 _ _ (le_bytes 2 first_unacked) _ (Puts-u16 12 first_unacked refl) (
      Puts-seq 14 _ _ (le_bytes 2 last_sent) _ (Puts-u16 14 last_sent refl)
        (Puts-u8 16 target_stream))

Puts-create_client :
    (s : Session) → length s.client_key ≡ 4 → Puts 12 (create_client_payload s) (handshake s)
unfolding create_client_payload le_bytes
Puts-create_client s key = Puts-seq 12 _ _ (88 ∷ 82 ∷ 67 ∷ 69 ∷ []) _ (Puts-bytes 12 _) (
    Puts-seq 16 _ _ (1 ∷ 0 ∷ []) _ (Puts-bytes 16 _) (
      Puts-seq 18 _ _ (1 ∷ 15 ∷ []) _ (Puts-bytes 18 _) (
        Puts-seq 20 _ _ s.client_key _ (Puts-bytes 20 s.client_key) (
          subst
            (λ n.
              Puts (20 + n) (write_u8 s.session_id >> write_bool false >> write_u16 s.mtu)
                (s.session_id ∷ 0 ∷ u16_bytes s.mtu))
            (sym key)
            (Puts-seq 24 _ _ (s.session_id ∷ []) _ (Puts-u8 24 s.session_id)
              (Puts-seq 25 _ _ (0 ∷ []) _ (Puts-bool 25 false) (Puts-u16 26 s.mtu refl)))))))

-- A session whose key has four bytes sends its handshake with session id, stream and sequence number 0,
-- and a HEARTBEAT with its own session id and stream and sequence number 0: each is the whole message,
-- the length of its payload and its numbers in place, if the buffer has room for it, and no message
-- otherwise.
pub control-messages :
    (s : Session) (target_stream first_unacked last_sent cap : ℕ)
    → length s.client_key ≡ 4
    → (build_create_client s cap
        ≡ fitting cap
            (header_bytes 0 0 0 s.client_key ++ submessage submsg_create_client (handshake s)))
      × (build_heartbeat s target_stream first_unacked last_sent cap
          ≡ fitting cap (
              header_bytes s.session_id 0 0 s.client_key
              ++ submessage submsg_heartbeat (progress target_stream first_unacked last_sent)))
unfolding build_create_client build_heartbeat
control-messages s target_stream first_unacked last_sent cap key = (
  write_control-frame 0 s.client_key submsg_create_client cap (create_client_payload s) _ key
      (Puts-create_client s key),
  write_control-frame s.session_id s.client_key submsg_heartbeat cap
      (heartbeat_payload first_unacked last_sent target_stream) _ key
      (Puts-heartbeat target_stream first_unacked last_sent),
)

pub length-handshake : (s : Session) → length s.client_key ≡ 4 → length (handshake s) ≡ 16
length-handshake s key =
    let l = length-append {0} s.client_key (s.session_id ∷ 0 ∷ u16_bytes s.mtu) in omega arith
