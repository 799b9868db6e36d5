-- ===== src/Kernel/Sync/Turns.antt =====
-- The semaphores and the lock in `queue_send` and `queue_receive` of rtos/src/sync.c: each of these rounds
-- keeps the queue sound. A round that leaves the processor changes no count.
use rtos_kernel_from_scratch.Common.{
  ℕ, zero, suc, ◌+◌, ◌-◌, ◌<◌, ◌≡◌, refl, sym, ap, ◌∙◌, subst, Bool, true, false, arith, pos,
  if◌then◌else◌, ◌⊎◌, Bool-cases, inl, inr, ltb_ℤ,
}
use rtos_kernel_from_scratch.Kernel.State.{inc_ℤ, dec_ℤ, TaskRef, Kernel}
use rtos_kernel_from_scratch.Kernel.Sync.{
  Mutex, Semaphore, Round, returned, left_cpu, mutex_lock_round, mutex_unlock, sem_wait_round,
  sem_post,
}
use rtos_kernel_from_scratch.Kernel.Sync.Queues.{
  Phase, send_slot, send_lock, receive_item, receive_lock, Channel, lock_on, goes_on, queue_round,
  with_lock, with_empty, with_filled,
}
use rtos_kernel_from_scratch.Kernel.Sync.Channels.{
  critical, holding, owed, Sound, lock-IsSound, empty-IsSound, filled-IsSound,
}

-- A round of `sem_wait` takes one off a count, or leaves with the count at 0.
sem_wait_round-cases :
    (k : Kernel) (s : Semaphore) (cur : TaskRef) (n : ℕ)
    → s.count ≡ pos n
    → let (k', s', round) = sem_wait_round k s cur in
      ((round ≡ returned) × (s'.count ≡ pos (n - 1)) × (0 < n))
      ⊎ ((round ≡ left_cpu) × (s'.count ≡ pos n))
unfolding sem_wait_round
sem_wait_round-cases k s cur zero e =
    let test : ltb_ℤ (pos 0) s.count ≡ false = ground arith in simp test (inr (refl, e))
sem_wait_round-cases k s cur (suc n) e =
    let test : ltb_ℤ (pos 0) s.count ≡ true = ground arith in
    let less : n ≡ suc n - 1 = omega arith in
    simp test (inl (refl, ap dec_ℤ e ∙ ap pos less, omega arith))

-- A round of `mutex_lock` locks a free mutex, or leaves it locked.
mutex_lock_round-cases :
    (k : Kernel) (m : Mutex) (cur : TaskRef)
    → let (k', m', round) = mutex_lock_round k m cur in
      ((round ≡ returned) × (m'.locked ≡ true) × (m.locked ≡ false))
      ⊎ ((round ≡ left_cpu) × (m'.locked ≡ true) × (m.locked ≡ true))
unfolding mutex_lock_round
mutex_lock_round-cases k m cur = elim (Bool-cases m.locked) [
  | inl e ↦ simp e (inr (refl, refl, refl))
  | inr e ↦ simp e (inl (refl, refl, refl))
]

pub sem_post-count :
    (k : Kernel) (s : Semaphore) (n : ℕ) → s.count ≡ pos n → (sem_post k s).1.count ≡ pos (suc n)
unfolding sem_post
sem_post-count k s n e = ap inc_ℤ e

abbrev locked_count : Bool → ℕ
locked_count b = if b then 1 else 0

pub lock_round-IsSound :
    (cap : ℕ) (k : Kernel) (cur : TaskRef) (c : Channel) (next same : Phase) (crit held owing : ℕ)
    → critical next ≡ 1
    → critical same ≡ 0
    → holding next ≡ holding same
    → owed next ≡ owed same
    → Sound cap c same crit held owing
    → let (k', c', p) = lock_on (mutex_lock_round k c.queue.lock cur) c next same in
      Sound cap c' p crit held owing
lock_round-IsSound cap k cur c next same crit held owing one none_ h o s =
    let m = (mutex_lock_round k c.queue.lock cur).1 in
    let count : crit + critical same ≡ locked_count c.queue.lock.locked = s.lock_count in
    let goal : Round → Type 0 =
      (λ r. Sound cap (with_lock c m) (goes_on r next same) crit held owing) in
    let moved_to : (p : Phase)
        → crit + critical p ≡ locked_count m.locked
        → holding p ≡ holding same
        → owed p ≡ owed same
        → Sound cap (with_lock c m) p crit held owing =
      (λ p e h' o'.
        lock-IsSound cap c m (crit + critical same) (crit + critical p) (held + holding same)
          (held + holding p) (owing + owed same) (owing + owed p) e (ap (λ n. held + n) h')
          (ap (λ n. owing + n) o') s) in
    elim (mutex_lock_round-cases k c.queue.lock cur) [
      | inl (round, new, old) ↦
          let free : crit + critical same ≡ 0 = count ∙ ap locked_count old in
          let at : crit + critical next ≡ 1 = omega arith in
          subst goal (sym round) (moved_to next (at ∙ sym (ap locked_count new)) h o)
      | inr (round, new, old) ↦
          subst goal (sym round) (moved_to same (count ∙ ap locked_count (old ∙ sym new)) refl refl)
    ]

pub unlock-IsSound :
    (cap : ℕ) (k : Kernel) (cur : TaskRef) (c : Channel) (p p' : Phase) (crit held owing : ℕ)
    → critical p ≡ 1
    → critical p' ≡ 0
    → holding p' ≡ holding p
    → owed p' ≡ owed p
    → Sound cap c p crit held owing
    → Sound cap (with_lock c (mutex_unlock k c.queue.lock cur).1) p' crit held owing
unfolding mutex_unlock
unlock-IsSound cap k cur c p p' crit held owing one zero_ h o s =
    let count : crit + critical p ≡ locked_count c.queue.lock.locked = s.lock_count in
    let free : crit + critical p' ≡ 0 = elim (Bool-cases c.queue.lock.locked) [
      | inl e ↦ let count' : crit + critical p ≡ 1 = count ∙ ap locked_count e in omega arith
      | inr e ↦ let count' : crit + critical p ≡ 0 = count ∙ ap locked_count e in omega arith
    ] in
    lock-IsSound cap c (mutex_unlock k c.queue.lock cur).1 (crit + critical p) (crit + critical p')
      (held + holding p) (held + holding p') (owing + owed p) (owing + owed p') free
      (ap (λ n. held + n) h) (ap (λ n. owing + n) o) s

pub wait_empty-IsSound :
    (cap : ℕ) (k : Kernel) (cur : TaskRef) (c : Channel) (item crit held owing : ℕ)
    → Sound cap c (send_slot item) crit held owing
    → let (k', c', p) = queue_round k cur c (send_slot item) in Sound cap c' p crit held owing
unfolding queue_round
wait_empty-IsSound cap k cur c item crit held owing s =
    let sem = (sem_wait_round k c.queue.slots_empty cur).1 in
    let goal : Round → Type 0 = (λ r.
      Sound cap (with_empty c sem) (goes_on r (send_lock item) (send_slot item)) crit held owing) in
    let slots = s.slots in
    elim (sem_wait_round-cases k c.queue.slots_empty cur s.empty s.empty_count) [
      | inl (round, new, some_) ↦ subst goal (sym round) (
          empty-IsSound cap c sem (s.empty - 1) (crit + 0) (held + 0) (held + 1) (owing + 0) new s
            (omega arith))
      | inr (round, new) ↦
          subst goal (sym round) (
            empty-IsSound cap c sem s.empty (crit + 0) (held + 0) (held + 0) (owing + 0) new s
              slots)
    ]

pub wait_filled-IsSound :
    (cap : ℕ) (k : Kernel) (cur : TaskRef) (c : Channel) (crit held owing : ℕ)
    → Sound cap c receive_item crit held owing
    → let (k', c', p) = queue_round k cur c receive_item in Sound cap c' p crit held owing
unfolding queue_round
wait_filled-IsSound cap k cur c crit held owing s =
    let sem = (sem_wait_round k c.queue.slots_filled cur).1 in
    let goal : Round → Type 0 =
      (λ r. Sound cap (with_filled c sem) (goes_on r receive_lock receive_item) crit held owing) in
    let slots = s.slots in
    let count = s.stored_count in
    elim (sem_wait_round-cases k c.queue.slots_filled cur s.filled s.filled_count) [
      | inl (round, new, some_) ↦ subst goal (sym round) (
          filled-IsSound cap c sem (s.filled - 1) (crit + 0) (held + 0) (held + 1) (owing + 0)
            (owing + 1) new s (omega arith) (omega arith))
      | inr (round, new) ↦ subst goal (sym round) (
          filled-IsSound cap c sem s.filled (crit + 0) (held + 0) (held + 0) (owing + 0) (owing + 0)
            new s slots count)
    ]
