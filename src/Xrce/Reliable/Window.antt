-- ===== src/Xrce/Reliable/Window.antt =====
-- What the window of xrce/src/reliable_stream.c keeps and what an ACKNACK frees.
use rtos_kernel_from_scratch.Common.{
  ℕ, zero, suc, ◌+◌, ◌-◌, ◌^◌, ◌≤◌, ◌<◌, ◌≡◌, ◌≢◌, refl, ◌∙◌, true, false, not, some, List, ◌==◌,
  arith, Bool-cases, inl, inr,
}
use rtos_kernel_from_scratch.Xrce.Reliable.{
  window, u16, Slot, ReliableOut, slot_for, outstanding, reliable_out_track, free_slot, free_until,
  reliable_out_on_acknack,
}

-- A message that is tracked behind others, with a number that is not the last acknowledged one,
-- goes to its slot and overwrites no other message that is outstanding, from one to 32 behind the
-- last acknowledged number.
pub track_keeps_outstanding :
    (ro ro' : ReliableOut) (seq s : ℕ) (msg : List ℕ)
    → ro.any_sent ≡ true
    → ro.last_acknown < 2 ^ 16
    → seq < 2 ^ 16
    → s < 2 ^ 16
    → reliable_out_track ro seq msg ≡ (ro', true)
    → seq ≢ ro.last_acknown
    → 0 < outstanding ro s
    → outstanding ro s ≤ window
    → s ≢ seq
    → (ro'.slots (slot_for s) ≡ ro.slots (slot_for s))
      × (ro'.slots (slot_for seq) ≡ record { msg = msg; occupied = true })
unfolding reliable_out_track
track_keeps_outstanding ro ro' seq s msg any la sq ss e ne lo hi other =
    (ground arith, ground arith)

-- What the loop of an ACKNACK does, from `seq` up to `first`.
record Freed (slots : ℕ → Slot) (seq first : ℕ) (slots' : ℕ → Slot) : Type 0 where
  kept :
      (j : ℕ)
      → ((e : ℕ) → e < u16 (first + 2 ^ 16 - seq) → slot_for (u16 (seq + e)) ≢ j)
      → slots' j ≡ slots j
  stays_free : (j : ℕ) → (slots j).occupied ≡ false → (slots' j).occupied ≡ false
  freed :
      (e : ℕ)
      → e < u16 (first + 2 ^ 16 - seq)
      → (slots' (slot_for (u16 (seq + e)))).occupied ≡ false

Freed-next :
    (slots slots' : ℕ → Slot) (seq first : ℕ)
    → seq < 2 ^ 16
    → first < 2 ^ 16
    → seq ≢ first
    → Freed (free_slot slots (slot_for seq)) (u16 (seq + 1)) first slots'
    → Freed slots seq first slots'
Freed-next slots slots' seq first sq ft ne f = record {
  kept = kept_at;
  stays_free = λ j h. f.stays_free j (ground arith);
  freed = freed_at;
}
  where
    kept_at :
        (j : ℕ)
        → ((e : ℕ) → e < u16 (first + 2 ^ 16 - seq) → slot_for (u16 (seq + e)) ≢ j)
        → slots' j ≡ slots j
    kept_at j h =
        let here : slot_for seq ≢ j =
          let same : u16 (seq + 0) ≡ seq = omega arith in rw same at (h 0 (omega arith)) in
        f.kept j (λ e lt.
          let same : u16 (u16 (seq + 1) + e) ≡ u16 (seq + suc e) = omega arith in
          rw same (h (suc e) (omega arith)))
        ∙ ground arith

    freed_at :
        (e : ℕ)
        → e < u16 (first + 2 ^ 16 - seq)
        → (slots' (slot_for (u16 (seq + e)))).occupied ≡ false
    freed_at zero lt =
        let same : u16 (seq + 0) ≡ seq = omega arith in
        rw same (f.stays_free (slot_for seq) (ground arith))
    freed_at (suc e) lt =
        let same : u16 (seq + suc e) ≡ u16 (u16 (seq + 1) + e) = omega arith in
        rw same (f.freed e (omega arith))

free_until-Freed :
    (fuel : ℕ) (slots : ℕ → Slot) (seq first : ℕ)
    → seq < 2 ^ 16
    → first < 2 ^ 16
    → u16 (first + 2 ^ 16 - seq) < fuel
    → (slots' : ℕ → Slot) × (free_until fuel slots seq first ≡ some slots')
      × Freed slots seq first slots'
unfolding free_until
free_until-Freed zero slots seq first sq ft lt = absurd (omega arith)
free_until-Freed (suc fuel) slots seq first sq ft lt = elim (Bool-cases (seq == first)) [
  | inl e ↦ (
    slots,
    rw e,
    record { kept = λ j h. refl; stays_free = λ j h. h; freed = λ x h. absurd (ground arith) },
  )
  | inr e ↦
      let (slots', run, f) =
        free_until-Freed fuel (free_slot slots (slot_for seq)) (u16 (seq + 1)) first (omega arith)
          ft (ground arith) in
      (slots', rw e run, Freed-next slots slots' seq first sq ft (ground arith) f)
]

-- An ACKNACK always ends. It moves the last acknowledged number to just before `first`, arms a sweep
-- exactly for a nonzero bitmap, frees every message before `first`, and keeps those from `first` on
-- that are less than 32 behind the last acknowledged one.
on_acknack_lem :
    (ro : ReliableOut) (first bitmap : ℕ)
    → ro.any_sent ≡ true
    → ro.last_acknown < 2 ^ 16
    → first < 2 ^ 16
    → (ro' : ReliableOut) × (reliable_out_on_acknack ro first bitmap ≡ some ro')
      × (ro'.last_acknown ≡ u16 (first + 2 ^ 16 - 1))
      × (ro'.send_lost ≡ not (bitmap == 0))
      × ((s : ℕ)
          → s < 2 ^ 16
          → outstanding ro s < outstanding ro first
          → (ro'.slots (slot_for s)).occupied ≡ false)
      × ((s : ℕ)
          → s < 2 ^ 16
          → outstanding ro first ≤ outstanding ro s
          → outstanding ro s < window
          → ro'.slots (slot_for s) ≡ ro.slots (slot_for s))
unfolding reliable_out_on_acknack
on_acknack_lem ro first bitmap any la ft =
    let (slots', run, f) =
      free_until-Freed (2 ^ 16) ro.slots ro.last_acknown first la ft (omega arith) in
    (
      record ro {
        slots = slots';
        last_acknown = u16 (first + 2 ^ 16 - 1);
        send_lost = not (bitmap == 0);
        retransmit_cursor = u16 (first + 2 ^ 16 - 1);
      },
      simp (any, run),
      refl,
      refl,
      λ s ss lt.
          let same : u16 (ro.last_acknown + outstanding ro s) ≡ s = omega arith in
          rw same at (f.freed (outstanding ro s) lt),
      λ s ss le lt. f.kept (slot_for s) (λ e d. omega arith),
    )

-- A call of `xrce_reliable_out_on_acknack` always ends, once a message was sent: it moves the last
-- acknowledged number to just before `first`, and arms a sweep exactly for a nonzero bitmap.
pub on_acknack_ends :
    (ro : ReliableOut) (first bitmap : ℕ)
    → ro.any_sent ≡ true
    → ro.last_acknown < 2 ^ 16
    → first < 2 ^ 16
    → (ro' : ReliableOut) × (reliable_out_on_acknack ro first bitmap ≡ some ro')
      × (ro'.last_acknown ≡ u16 (first + 2 ^ 16 - 1))
      × (ro'.send_lost ≡ not (bitmap == 0))
on_acknack_ends ro first bitmap any la ft =
    let (r, run, a, b, freed, kept) = on_acknack_lem ro first bitmap any la ft in (r, run, a, b)

-- An ACKNACK frees the slot of every message from the last acknowledged number up to just before
-- `first`.
pub on_acknack_frees :
    (ro ro' : ReliableOut) (first bitmap s : ℕ)
    → ro.any_sent ≡ true
    → ro.last_acknown < 2 ^ 16
    → first < 2 ^ 16
    → s < 2 ^ 16
    → outstanding ro s < outstanding ro first
    → reliable_out_on_acknack ro first bitmap ≡ some ro'
    → (ro'.slots (slot_for s)).occupied ≡ false
on_acknack_frees ro ro' first bitmap s any la ft sb lt e =
    let (r, run, a, b, freed, kept) = on_acknack_lem ro first bitmap any la ft in
    let same : r ≡ ro' = cc run in rw (← same) (freed s sb lt)

-- An ACKNACK leaves alone the slot of every message from `first` on that is less than 32 numbers
-- ahead of the last acknowledged one.
pub on_acknack_keeps :
    (ro ro' : ReliableOut) (first bitmap s : ℕ)
    → ro.any_sent ≡ true
    → ro.last_acknown < 2 ^ 16
    → first < 2 ^ 16
    → s < 2 ^ 16
    → outstanding ro first ≤ outstanding ro s
    → outstanding ro s < window
    → reliable_out_on_acknack ro first bitmap ≡ some ro'
    → ro'.slots (slot_for s) ≡ ro.slots (slot_for s)
on_acknack_keeps ro ro' first bitmap s any la ft sb le lt e =
    let (r, run, a, b, freed, kept) = on_acknack_lem ro first bitmap any la ft in
    let same : r ≡ ro' = cc run in rw (← same) (kept s sb le lt)

-- When the window is full, any ACKNACK that moves it also frees the newest message, the one 32 behind
-- the last acknowledged number, which shares the slot of that number.
pub on_acknack_drops_newest :
    (ro ro' : ReliableOut) (first bitmap s : ℕ)
    → ro.any_sent ≡ true
    → ro.last_acknown < 2 ^ 16
    → first < 2 ^ 16
    → s < 2 ^ 16
    → outstanding ro s ≡ window
    → first ≢ ro.last_acknown
    → reliable_out_on_acknack ro first bitmap ≡ some ro'
    → (ro'.slots (slot_for s)).occupied ≡ false
on_acknack_drops_newest ro ro' first bitmap s any la ft sb full ne e =
    let (r, run, a, b, freed, c) = on_acknack_lem ro first bitmap any la ft in
    let same : r ≡ ro' = cc run in
    let shared : slot_for ro.last_acknown ≡ slot_for s = omega arith in
    rw (← same, ← shared) (freed ro.last_acknown la (omega arith))
