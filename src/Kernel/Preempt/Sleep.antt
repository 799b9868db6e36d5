-- ===== src/Kernel/Preempt/Sleep.antt =====
-- `task_sleep` and the wake-ups of `update_tick_bookkeeping` in rtos/src/scheduler.c.
use rtos_kernel_from_scratch.Common.{
  ℕ, zero, suc, ◌≤◌, ◌<◌, ◌≡◌, ◌≢◌, ◌⊎◌, refl, false, List, [], ◌∷◌, get_or, length, inl, inr,
  Bool-cases, ◌==◌, arith, ◌∙◌,
}
use rtos_kernel_from_scratch.Kernel.State.{Task, TaskRef, Kernel, blocked, ready, store}
use rtos_kernel_from_scratch.Kernel.Preempt.{tick_task, update_tick_bookkeeping}

-- What a sampled task may become, whether the loop meets it once or more.
record IsDue (now : ℕ) (t t' : Task) : Type 0 where
  awake : t'.state ≡ ready
  cleared : t'.wake_tick ≡ 0

tick_task-IsDue :
    (now : ℕ) (t : Task)
    → t.state ≡ blocked
    → t.wake_tick ≢ 0
    → t.wake_tick ≤ now
    → IsDue now t (tick_task now t)
unfolding tick_task
tick_task-IsDue now t st ne le = ground arith

IsDue-tick_task : (now : ℕ) (t t' : Task) → IsDue now t t' → IsDue now t (tick_task now t')
unfolding tick_task
IsDue-tick_task now t t' d = ground arith

not_due-tick_task :
    (now : ℕ) (t : Task)
    → t.state ≡ blocked
    → ((t.wake_tick ≡ 0) ⊎ (now < t.wake_tick))
    → tick_task now t ≡ t
unfolding tick_task
not_due-tick_task now t st (inl e) = ground arith
not_due-tick_task now t st (inr e) = ground arith

IsDue-bookkeeping :
    (now : ℕ) (rs : List TaskRef) (heap : TaskRef → Task) (r : TaskRef) (t : Task)
    → IsDue now t (heap r)
    → IsDue now t (update_tick_bookkeeping now rs heap r)
unfolding update_tick_bookkeeping
IsDue-bookkeeping now [] heap r t d = d
IsDue-bookkeeping now (q ∷ rs) heap r t d =
    IsDue-bookkeeping now rs (store heap q (tick_task now (heap q))) r t
      (elim (Bool-cases (q == r)) [
        | inl e ↦ let same : q ≡ r = ground arith in rw (e, same) (IsDue-tick_task now t (heap r) d)
        | inr e ↦ rw e d
      ])

store_self : (heap : TaskRef → Task) (q : TaskRef) (t : Task) → store heap q t q ≡ t
store_self heap q t = ground arith

store_ne :
    (heap : TaskRef → Task) (q r : TaskRef) (t : Task)
    → (q == r) ≡ false
    → store heap q t r ≡ heap r
store_ne heap q r t e = rw e

-- A registered task that sleeps until `wake_tick` is READY, its deadline cleared, behind the first
-- tick that reaches the deadline.
pub bookkeeping_wakes :
    (now : ℕ) (rs : List TaskRef) (heap : TaskRef → Task) (i : ℕ)
    → i < length rs
    → (heap (get_or rs i 0)).state ≡ blocked
    → (heap (get_or rs i 0)).wake_tick ≢ 0
    → (heap (get_or rs i 0)).wake_tick ≤ now
    → ((update_tick_bookkeeping now rs heap (get_or rs i 0)).state ≡ ready)
      × ((update_tick_bookkeeping now rs heap (get_or rs i 0)).wake_tick ≡ 0)
unfolding update_tick_bookkeeping
bookkeeping_wakes now [] heap i lt st ne le = absurd (omega arith)
bookkeeping_wakes now (q ∷ rs) heap zero lt st ne le =
    let d =
      IsDue-bookkeeping now rs (store heap q (tick_task now (heap q))) q (heap q)
        (rw (store_self heap q (tick_task now (heap q))) (tick_task-IsDue now (heap q) st ne le)) in
    (d.awake, d.cleared)
bookkeeping_wakes now (q ∷ rs) heap (suc i) lt st ne le = elim (Bool-cases (q == r)) [
  | inl e ↦
      let same : q ≡ r = ground arith in
      let d =
        IsDue-bookkeeping now rs heap' r (heap r)
          (rw (e, same) (tick_task-IsDue now (heap r) st ne le)) in
      (d.awake, d.cleared)
  | inr e ↦
      let kept = store_ne heap q r (tick_task now (heap q)) e in
      bookkeeping_wakes now rs heap' i (omega arith) (rw kept st) (rw kept ne) (rw kept le)
]
  where
    r : TaskRef
    r = get_or rs i 0

    heap' : TaskRef → Task
    heap' = store heap q (tick_task now (heap q))

-- A task that is BLOCKED with no deadline, or before its deadline, is left as it is by a tick.
pub bookkeeping_waits :
    (now : ℕ) (rs : List TaskRef) (heap : TaskRef → Task) (r : TaskRef)
    → (heap r).state ≡ blocked
    → ((heap r).wake_tick ≡ 0) ⊎ (now < (heap r).wake_tick)
    → update_tick_bookkeeping now rs heap r ≡ heap r
unfolding update_tick_bookkeeping
bookkeeping_waits now [] heap r st h = refl
bookkeeping_waits now (q ∷ rs) heap r st h = elim (Bool-cases (q == r)) [
  | inl e ↦
      let same : q ≡ r = ground arith in
      let kept : store heap q (tick_task now (heap q)) r ≡ heap r =
        rw (e, same) (not_due-tick_task now (heap r) st h) in
      bookkeeping_waits now rs _ r (rw kept st) (rw kept h) ∙ kept
  | inr e ↦
      let kept = store_ne heap q r (tick_task now (heap q)) e in
      bookkeeping_waits now rs _ r (rw kept st) (rw kept h) ∙ kept
]
