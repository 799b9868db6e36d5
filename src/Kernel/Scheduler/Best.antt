-- ===== src/Kernel/Scheduler/Best.antt =====
-- The first loop of `pick_next_ready` in rtos/src/scheduler.c: the highest priority of a READY task.
use rtos_kernel_from_scratch.Common.{
  ℕ, zero, suc, ◌<◌, ◌≡◌, ◌≢◌, ◌⊎◌, inl, inr, ◌&&◌, Option, none, some, List, [], ◌∷◌, length,
  get_or, ℤ, ◌≤ℤ◌, ltb_ℤ, arith, Bool-cases,
}
use rtos_kernel_from_scratch.Kernel.State.{Task, TaskRef, ready, is_ready}
use rtos_kernel_from_scratch.Kernel.Scheduler.{beats, improve, best_priority}

module _ (heap : TaskRef → Task) where
  -- Every READY task of the list has a priority of at most `p`.
  abbrev pub Bounded : ℤ → List TaskRef → Type 0
  Bounded p rs =
      (i : ℕ)
      → i < length rs
      → (heap (get_or rs i 0)).state ≡ ready
      → (heap (get_or rs i 0)).priority ≤ℤ p

  -- Some READY task of the list has the priority `p`.
  abbrev pub Attained : ℤ → List TaskRef → Type 0
  Attained p rs =
      (i : ℕ) × (i < length rs)
      × ((heap (get_or rs i 0)).state ≡ ready)
      × ((heap (get_or rs i 0)).priority ≡ p)

  abbrev pub AtMost : Option ℤ → ℤ → Type 0
  AtMost none p = Unit {0}
  AtMost (some q) p = q ≤ℤ p

  AtMost-improve :
      (t : Task) (b : Option ℤ) (p : ℤ)
      → AtMost (improve t b) p
      → AtMost b p × (t.state ≡ ready → t.priority ≤ℤ p)
  AtMost-improve t none p h = ground arith
  AtMost-improve t (some q) p h = ground arith

  pub best_priority-AtMost :
      (rs : List TaskRef) (b : Option ℤ) (p : ℤ)
      → best_priority heap rs b ≡ some p
      → AtMost b p × Bounded p rs
  unfolding best_priority
  best_priority-AtMost [] none p e = (tt, λ i h. absurd (omega arith))
  best_priority-AtMost [] (some q) p e = (ground arith, λ i h. absurd (omega arith))
  best_priority-AtMost (r ∷ rs) b p e =
      let (h, rest) = best_priority-AtMost rs (improve (heap r) b) p e in
      let (low, here) = AtMost-improve (heap r) b p h in (low, bounded rest here)
    where
      bounded :
          Bounded p rs → ((heap r).state ≡ ready → (heap r).priority ≤ℤ p) → Bounded p (r ∷ rs)
      bounded rest here zero lt st = here st
      bounded rest here (suc i) lt st = rest i (omega arith) st

  pub best_priority-Attained :
      (rs : List TaskRef) (b : Option ℤ) (p : ℤ)
      → best_priority heap rs b ≡ some p
      → (b ≡ some p) ⊎ Attained p rs
  unfolding best_priority
  best_priority-Attained [] b p e = inl e
  best_priority-Attained (r ∷ rs) b p e =
      elim (best_priority-Attained rs (improve (heap r) b) p e) [
        | inl here ↦ elim (Bool-cases (is_ready (heap r).state && beats (heap r).priority b)) [
          | inl yes_ ↦ inr (0, omega arith, ground arith, ground arith)
          | inr no_ ↦ inl (ground arith)
        ]
        | inr (i, lt, st, pr) ↦ inr (suc i, omega arith, st, pr)
      ]

  best_priority-some : (rs : List TaskRef) (q : ℤ) → best_priority heap rs (some q) ≢ none
  unfolding best_priority
  best_priority-some [] q e = cc
  best_priority-some (r ∷ rs) q e =
      elim (Bool-cases (is_ready (heap r).state && ltb_ℤ q (heap r).priority)) [
        | inl h ↦ best_priority-some rs (heap r).priority (ground arith)
        | inr h ↦ best_priority-some rs q (ground arith)
      ]

  -- Without a candidate no task of the list is READY.
  pub best_priority-none :
      (rs : List TaskRef)
      → best_priority heap rs none ≡ none
      → (i : ℕ) → i < length rs
      → (heap (get_or rs i 0)).state ≢ ready
  unfolding best_priority
  best_priority-none [] e i lt = absurd (omega arith)
  best_priority-none (r ∷ rs) e zero lt =
      λ st. best_priority-some rs (heap r).priority (ground arith)
  best_priority-none (r ∷ rs) e (suc i) lt = elim (Bool-cases (is_ready (heap r).state)) [
    | inl h ↦ absurd (best_priority-some rs (heap r).priority (ground arith))
    | inr h ↦ best_priority-none rs (ground arith) i (omega arith)
  ]
