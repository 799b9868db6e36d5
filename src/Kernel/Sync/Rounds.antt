-- ===== src/Kernel/Sync/Rounds.antt =====
-- The rounds of `queue_send` and `queue_receive` of rtos/src/sync.c, one case for each statement.
use rtos_kernel_from_scratch.Common.{ℕ, suc, ◌+◌, ◌≤◌, ◌≡◌, refl, arith, ◌⊎◌, inl, inr}
use rtos_kernel_from_scratch.Kernel.State.{TaskRef, Kernel}
use rtos_kernel_from_scratch.Kernel.Sync.{
  Round, Ring, returned, left_cpu, mutex_lock_round, sem_wait_round, sem_post,
}
use rtos_kernel_from_scratch.Kernel.Sync.Queues.{
  send_advance, receive_advance, Phase, outside, send_slot, send_lock, send_put, send_unlock,
  send_post, receive_item, receive_lock, receive_take, receive_unlock, receive_post, Channel,
  goes_on, queue_round,
}
use rtos_kernel_from_scratch.Kernel.Sync.Channels.{
  critical, Sound, store-IsSound, advance-IsSound, Inside, take-IsSound, empty-IsSound,
  filled-IsSound,
}
use rtos_kernel_from_scratch.Kernel.Sync.Turns.{
  sem_post-count, lock_round-IsSound, unlock-IsSound, wait_empty-IsSound, wait_filled-IsSound,
}

goes_on-Inside :
    (r : Ring) (round : Round) (next same : Phase)
    → Inside r next
    → Inside r same
    → Inside r (goes_on round next same)
goes_on-Inside r returned next same a b = a
goes_on-Inside r left_cpu next same a b = b

-- A round of a task keeps a queue sound, when the other tasks owe no more than they hold.
pub round-IsSound :
    (cap : ℕ) (k : Kernel) (cur : TaskRef) (c : Channel) (p : Phase) (crit held owing : ℕ)
    → owing ≤ held
    → Inside c.queue.ring p
    → Sound cap c p crit held owing
    → let (k', c', p') = queue_round k cur c p in Sound cap c' p' crit held owing
unfolding queue_round
round-IsSound cap k cur c outside crit held owing le at s = s
round-IsSound cap k cur c (send_slot item) crit held owing le at s =
    wait_empty-IsSound cap k cur c item crit held owing s
round-IsSound cap k cur c (send_lock item) crit held owing le at s =
    lock_round-IsSound cap k cur c (send_put item) (send_lock item) crit held owing refl refl refl
      refl s
round-IsSound cap k cur c (send_put item) crit held owing le at s =
    (store-IsSound cap k cur c item crit held owing le s).0
round-IsSound cap k cur c (send_advance item) crit held owing le at s =
    advance-IsSound cap k cur c item crit held owing at s
round-IsSound cap k cur c send_unlock crit held owing le at s =
    unlock-IsSound cap k cur c send_unlock send_post crit held owing refl refl refl refl s
round-IsSound cap k cur c send_post crit held owing le at s =
    let slots = s.slots in
    let count = s.stored_count in
    filled-IsSound cap c (sem_post k c.queue.slots_filled).1 (suc s.filled) (crit + 0) (held + 1)
      (held + 0) (owing + 1) (owing + 0)
      (sem_post-count k c.queue.slots_filled s.filled s.filled_count) s (omega arith) (omega arith)
round-IsSound cap k cur c receive_item crit held owing le at s =
    wait_filled-IsSound cap k cur c crit held owing s
round-IsSound cap k cur c receive_lock crit held owing le at s =
    lock_round-IsSound cap k cur c receive_take receive_lock crit held owing refl refl refl refl s
round-IsSound cap k cur c receive_take crit held owing le at s = record {
  empty = s.empty;
  filled = s.filled;
  stored = s.stored;
  empty_count = s.empty_count;
  filled_count = s.filled_count;
  lock_count = s.lock_count;
  slots = s.slots;
  stored_count = s.stored_count;
  ring = s.ring;
  capacity = s.capacity;
  order = s.order;
}
round-IsSound cap k cur c (receive_advance got) crit held owing le at s =
    take-IsSound cap k cur c got crit held owing at s
round-IsSound cap k cur c receive_unlock crit held owing le at s =
    unlock-IsSound cap k cur c receive_unlock receive_post crit held owing refl refl refl refl s
round-IsSound cap k cur c receive_post crit held owing le at s =
    let slots = s.slots in
    empty-IsSound cap c (sem_post k c.queue.slots_empty).1 (suc s.empty) (crit + 0) (held + 1)
      (held + 0) (owing + 0) (sem_post-count k c.queue.slots_empty s.empty s.empty_count) s
      (omega arith)

-- A round leaves its task with what it knows of the ring.
pub round-Inside :
    (cap : ℕ) (k : Kernel) (cur : TaskRef) (c : Channel) (p : Phase) (crit held owing : ℕ)
    → owing ≤ held
    → Sound cap c p crit held owing
    → let (k', c', p') = queue_round k cur c p in Inside c'.queue.ring p'
unfolding queue_round
round-Inside cap k cur c outside crit held owing le s = omega arith
round-Inside cap k cur c (send_slot item) crit held owing le s =
    goes_on-Inside c.queue.ring (sem_wait_round k c.queue.slots_empty cur).2 (send_lock item)
      (send_slot item) (omega arith) (omega arith)
round-Inside cap k cur c (send_lock item) crit held owing le s =
    goes_on-Inside c.queue.ring (mutex_lock_round k c.queue.lock cur).2 (send_put item)
      (send_lock item) (omega arith) (omega arith)
round-Inside cap k cur c (send_put item) crit held owing le s =
    (store-IsSound cap k cur c item crit held owing le s).1
round-Inside cap k cur c (send_advance item) crit held owing le s = omega arith
round-Inside cap k cur c send_unlock crit held owing le s = omega arith
round-Inside cap k cur c send_post crit held owing le s = omega arith
round-Inside cap k cur c receive_item crit held owing le s =
    goes_on-Inside c.queue.ring (sem_wait_round k c.queue.slots_filled cur).2 receive_lock
      receive_item (omega arith) (omega arith)
round-Inside cap k cur c receive_lock crit held owing le s =
    goes_on-Inside c.queue.ring (mutex_lock_round k c.queue.lock cur).2 receive_take receive_lock
      (omega arith) (omega arith)
round-Inside cap k cur c receive_take crit held owing le s = refl
round-Inside cap k cur c (receive_advance got) crit held owing le s = omega arith
round-Inside cap k cur c receive_unlock crit held owing le s = omega arith
round-Inside cap k cur c receive_post crit held owing le s = omega arith

-- The ring is changed by critical tasks only.
pub round_ring :
    (k : Kernel) (cur : TaskRef) (c : Channel) (p : Phase)
    → let (k', c', p') = queue_round k cur c p in (critical p ≡ 1) ⊎ (c.queue.ring ≡ c'.queue.ring)
unfolding queue_round
round_ring k cur c outside = inr refl
round_ring k cur c (send_slot item) = inr refl
round_ring k cur c (send_lock item) = inr refl
round_ring k cur c (send_put item) = inl refl
round_ring k cur c (send_advance item) = inl refl
round_ring k cur c send_unlock = inr refl
round_ring k cur c send_post = inr refl
round_ring k cur c receive_item = inr refl
round_ring k cur c receive_lock = inr refl
round_ring k cur c receive_take = inr refl
round_ring k cur c (receive_advance got) = inl refl
round_ring k cur c receive_unlock = inr refl
round_ring k cur c receive_post = inr refl
