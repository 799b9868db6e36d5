-- ===== src/Xrce/Reliable/Sweeping.antt =====
-- What a retransmission sweep of xrce/src/reliable_stream.c finds.
use rtos_kernel_from_scratch.Common.{
  ℕ, zero, suc, ◌+◌, ◌-◌, ◌%◌, ◌^◌, ◌≤◌, ◌<◌, ◌≡◌, ◌≢◌, refl, ap, ◌∙◌, true, false, Option, none,
  some, List, ◌==◌, arith, Bool-cases, inl, inr,
}
use rtos_kernel_from_scratch.Xrce.Reliable.{
  u16, Slot, ReliableOut, slot_for, sweep, reliable_out_next_retransmit,
}

-- What the sweep finds from the cursor on: the first occupied slot up to the last sent number, or that
-- there is none.
abbrev distance : ReliableOut → ℕ
distance ro = u16 (ro.last_sent + 2 ^ 16 - ro.retransmit_cursor)

abbrev ahead : ReliableOut → ℕ → Slot
ahead ro e = ro.slots (slot_for (u16 (ro.retransmit_cursor + e)))

abbrev pub Swept : ReliableOut → ReliableOut → Option (List ℕ) → Type 0
Swept ro ro' none =
    (ro'.send_lost ≡ false)
    × ((e : ℕ)
        → 0 < e
        → e ≤ u16 (ro.last_sent + 2 ^ 16 - ro.retransmit_cursor)
        → (ro.slots (slot_for (u16 (ro.retransmit_cursor + e)))).occupied ≡ false)
Swept ro ro' (some m) =
    (ro'.send_lost ≡ ro.send_lost)
    × (e : ℕ) × (0 < e)
    × (e ≤ u16 (ro.last_sent + 2 ^ 16 - ro.retransmit_cursor))
    × (ro'.retransmit_cursor ≡ u16 (ro.retransmit_cursor + e))
    × (ro.slots (slot_for (u16 (ro.retransmit_cursor + e))) ≡ record { msg = m; occupied = true })
    × ((e' : ℕ)
        → 0 < e'
        → e' < e
        → (ro.slots (slot_for (u16 (ro.retransmit_cursor + e')))).occupied ≡ false)

abbrev advanced : ReliableOut → ReliableOut
advanced ro = record ro { retransmit_cursor = u16 (ro.retransmit_cursor + 1) }

Swept-next :
    (ro ro' : ReliableOut) (o : Option (List ℕ))
    → ro.retransmit_cursor < 2 ^ 16
    → ro.last_sent < 2 ^ 16
    → ro.retransmit_cursor ≢ ro.last_sent
    → (ahead ro 1).occupied ≡ false
    → Swept (advanced ro) ro' o
    → Swept ro ro' o
Swept-next ro ro' none a b ne free (lost, rest) = (lost, unoccupied)
  where
    unoccupied : (e : ℕ) → 0 < e → e ≤ distance ro → (ahead ro e).occupied ≡ false
    unoccupied zero h le = absurd (omega arith)
    unoccupied (suc zero) h le = free
    unoccupied (suc (suc e)) h le =
        let same : u16 (u16 (ro.retransmit_cursor + 1) + suc e)
            ≡ u16 (ro.retransmit_cursor + suc (suc e)) =
          omega arith in
        rw same at (rest (suc e) (omega arith) (omega arith))
Swept-next ro ro' (some m) a b ne free (goes_on, e, lo, hi, cursor, slot, before) =
    let same : u16 (u16 (ro.retransmit_cursor + 1) + e) ≡ u16 (ro.retransmit_cursor + suc e) =
      omega arith in
    (goes_on, suc e, omega arith, omega arith, cursor ∙ same, rw same at slot, unoccupied)
  where
    unoccupied : (x : ℕ) → 0 < x → x < suc e → (ahead ro x).occupied ≡ false
    unoccupied zero h le = absurd (omega arith)
    unoccupied (suc zero) h le = free
    unoccupied (suc (suc x)) h le =
        let same : u16 (u16 (ro.retransmit_cursor + 1) + suc x)
            ≡ u16 (ro.retransmit_cursor + suc (suc x)) =
          omega arith in
        rw same at (before (suc x) (omega arith) (omega arith))

-- A sweep that stops at the next slot.
Swept-here :
    (ro : ReliableOut)
    → ro.retransmit_cursor < 2 ^ 16
    → ro.last_sent < 2 ^ 16
    → ro.retransmit_cursor ≢ ro.last_sent
    → (ahead ro 1).occupied ≡ true
    → Swept ro
        (record (advanced ro) { retransmit_count = (ro.retransmit_count + 1) % 2 ^ 32 })
        (some (ahead ro 1).msg)
Swept-here ro a b ne o = (
  refl,
  1,
  omega arith,
  omega arith,
  refl,
  ap (λ x. record { msg = (ahead ro 1).msg; occupied = x }) o,
  λ e lo hi. absurd (omega arith),
)

sweep-Swept :
    (fuel : ℕ) (ro : ReliableOut)
    → ro.retransmit_cursor < 2 ^ 16
    → ro.last_sent < 2 ^ 16
    → distance ro < fuel
    → (ro' : ReliableOut) × (o : Option (List ℕ)) × (sweep fuel ro ≡ some (ro', o)) × Swept ro ro' o
unfolding sweep
sweep-Swept zero ro a b lt = absurd (omega arith)
sweep-Swept (suc fuel) ro a b lt = elim (Bool-cases (ro.retransmit_cursor == ro.last_sent)) [
  | inl e ↦
      (record ro { send_lost = false }, none, simp e, (refl, λ x lo hi. absurd (ground arith)))
  | inr e ↦ elim (Bool-cases (ahead ro 1).occupied) [
    | inl o ↦ (
      record (advanced ro) { retransmit_count = (ro.retransmit_count + 1) % 2 ^ 32 },
      some (ahead ro 1).msg,
      simp (e, o),
      Swept-here ro a b (ground arith) o,
    )
    | inr o ↦
        let (ro', out, run, swept) =
          sweep-Swept fuel (advanced ro) (omega arith) b (ground arith) in
        (ro', out, simp (e, o, run), Swept-next ro ro' out a b (ground arith) o swept)
  ]
]

-- A call of `xrce_reliable_out_next_retransmit` during a sweep always ends. It returns the first
-- message behind the cursor, up to the last one sent, that is still occupied, and moves the cursor to
-- it, and the sweep goes on; if there is no such message it ends the sweep.
pub next_retransmit_lem :
    (ro : ReliableOut)
    → ro.retransmit_cursor < 2 ^ 16
    → ro.last_sent < 2 ^ 16
    → ro.send_lost ≡ true
    → (ro' : ReliableOut) × (o : Option (List ℕ)) × (reliable_out_next_retransmit ro
        ≡ some (ro', o))
      × Swept ro ro' o
unfolding reliable_out_next_retransmit
next_retransmit_lem ro a b lost =
    let (ro', o, run, swept) = sweep-Swept (2 ^ 16) ro a b (omega arith) in
    (ro', o, simp (lost, run), swept)
