-- ===== src/Kernel/Sync/Channels.antt =====
-- What a queue of rtos/src/sync.c keeps from round to round: the counts of its semaphores and the state
-- of its lock, by what its tasks are at, and the order of its items. The rounds that move an item.
use rtos_kernel_from_scratch.Common.{
  ℕ, suc, ◌+◌, ◌≤◌, ◌≡◌, sym, ap, ◌∙◌, subst, Option, [], ◌∷◌, ◌++◌, append_assoc, get_or, arith,
  pos, if◌then◌else◌,
}
use rtos_kernel_from_scratch.Kernel.State.{TaskRef, Kernel}
use rtos_kernel_from_scratch.Kernel.Sync.{
  Mutex, Semaphore, Ring, ring_store, advance_tail, ring_item, advance_head,
}
use rtos_kernel_from_scratch.Kernel.Sync.Rings.{
  IsRing, items, ring_store-items, advance_tail-items, advance_head-items,
}
use rtos_kernel_from_scratch.Kernel.Sync.Queues.{
  Phase, send_lock, send_put, send_unlock, send_post, receive_lock, receive_take, receive_unlock,
  receive_post, Channel, queue_round, with_lock, with_empty, with_filled, handed, send_advance,
  receive_advance,
}

-- Whether a task is between `mutex_lock` and `mutex_unlock`.
abbrev pub critical : Phase → ℕ
critical (send_put item) = 1
critical send_unlock = 1
critical receive_take = 1
critical (send_advance item) = 1
critical (receive_advance got) = 1
critical receive_unlock = 1
critical p = 0

-- Whether a task is between its `sem_wait` and its `sem_post`.
abbrev pub holding : Phase → ℕ
holding (send_lock item) = 1
holding (send_put item) = 1
holding (send_advance item) = 1
holding (receive_advance got) = 1
holding send_unlock = 1
holding send_post = 1
holding receive_lock = 1
holding receive_take = 1
holding receive_unlock = 1
holding receive_post = 1
holding p = 0

-- Whether an item is in the ring without being counted in `slots_filled`, on account of the task.
abbrev pub owed : Phase → ℕ
owed send_unlock = 1
owed send_post = 1
owed receive_lock = 1
owed receive_take = 1
owed (receive_advance got) = 1
owed p = 0

-- A queue of `cap` slots that tasks use of which so many are critical, holding and owing.
pub record IsSound (cap : ℕ) (c : Channel) (crit held owing : ℕ) : Type 0 where
  pub empty : ℕ
  pub filled : ℕ
  pub stored : ℕ
  pub empty_count : c.queue.slots_empty.count ≡ pos empty
  pub filled_count : c.queue.slots_filled.count ≡ pos filled
  pub lock_count : crit ≡ (if c.queue.lock.locked then 1 else 0)
  pub slots : empty + filled + held ≡ cap
  pub stored_count : stored ≡ filled + owing
  pub ring : IsRing c.queue.ring stored
  pub capacity : c.queue.ring.capacity ≡ cap
  pub order : c.sent ≡ c.received ++ items c.queue.ring stored

-- A round of a task in phase `p`, when the others make up the rest of the counts.
abbrev pub Sound : ℕ → Channel → Phase → ℕ → ℕ → ℕ → Type 0
Sound cap c p crit held owing =
    IsSound cap c (crit + critical p) (held + holding p) (owing + owed p)

-- What a task between the two statements on the ring knows of it.
abbrev pub Inside : Ring → Phase → Type 0
Inside r (send_advance item) = get_or r.buffer r.tail 0 ≡ item
Inside r (receive_advance got) = ring_item r ≡ got
Inside r p = 0 ≤ 1

pub store-IsSound :
    (cap : ℕ) (k : Kernel) (cur : TaskRef) (c : Channel) (item crit held owing : ℕ)
    → owing ≤ held
    → Sound cap c (send_put item) crit held owing
    → let (k', c', p) = queue_round k cur c (send_put item) in
      Sound cap c' p crit held owing × Inside c'.queue.ring p
unfolding queue_round ring_store
store-IsSound cap k cur c item crit held owing le s =
    let slots = s.slots in
    let count = s.stored_count in
    let capacity = s.capacity in
    let (ring, same, at) = ring_store-items c.queue.ring s.stored item s.ring (omega arith) in
    (
      record {
        empty = s.empty;
        filled = s.filled;
        stored = s.stored;
        empty_count = s.empty_count;
        filled_count = s.filled_count;
        lock_count = s.lock_count;
        slots = s.slots;
        stored_count = s.stored_count;
        ring = ring;
        capacity = s.capacity;
        order = s.order ∙ ap (λ l. c.received ++ l) (sym same);
      },
      at,
    )

pub advance-IsSound :
    (cap : ℕ) (k : Kernel) (cur : TaskRef) (c : Channel) (item crit held owing : ℕ)
    → Inside c.queue.ring (send_advance item)
    → Sound cap c (send_advance item) crit held owing
    → let (k', c', p) = queue_round k cur c (send_advance item) in Sound cap c' p crit held owing
unfolding queue_round advance_tail
advance-IsSound cap k cur c item crit held owing at s =
    let count = s.stored_count in
    let (ring, last) = advance_tail-items c.queue.ring s.stored s.ring in
    let same = last ∙ ap (λ x. items c.queue.ring s.stored ++ (x ∷ [])) at in
    record {
      empty = s.empty;
      filled = s.filled;
      stored = suc s.stored;
      empty_count = s.empty_count;
      filled_count = s.filled_count;
      lock_count = s.lock_count;
      slots = s.slots;
      stored_count = omega arith;
      ring = ring;
      capacity = s.capacity;
      order =
          ap (λ l. l ++ (item ∷ [])) s.order
          ∙ append_assoc c.received (items c.queue.ring s.stored) (item ∷ [])
          ∙ ap (λ l. c.received ++ l) (sym same);
    }

pub take-IsSound :
    (cap : ℕ) (k : Kernel) (cur : TaskRef) (c : Channel) (got : Option ℕ) (crit held owing : ℕ)
    → Inside c.queue.ring (receive_advance got)
    → Sound cap c (receive_advance got) crit held owing
    → let (k', c', p) = queue_round k cur c (receive_advance got) in Sound cap c' p crit held owing
unfolding queue_round advance_head
take-IsSound cap k cur c got crit held owing at s =
    let count = s.stored_count in
    let n = s.filled + owing in
    let size : s.stored ≡ suc n = omega arith in
    let r = c.queue.ring in
    let (item, ring, first) = advance_head-items r n (subst (IsRing r) size s.ring) in
    let whole = subst (λ m. c.sent ≡ c.received ++ items r m) size s.order in
    let x = get_or r.buffer r.head 0 in
    let left = items (advance_head r) n in
    let split : c.sent ≡ (c.received ++ (x ∷ [])) ++ left =
      whole ∙ ap (λ l. c.received ++ l) first ∙ sym (append_assoc c.received (x ∷ []) left) in
    record {
      empty = s.empty;
      filled = s.filled;
      stored = n;
      empty_count = s.empty_count;
      filled_count = s.filled_count;
      lock_count = s.lock_count;
      slots = s.slots;
      stored_count = omega arith;
      ring = ring;
      capacity = s.capacity;
      order = split ∙ ap (λ o. handed c.received o ++ left) (sym item ∙ at);
    }

pub lock-IsSound :
    (cap : ℕ) (c : Channel) (m : Mutex) (crit crit' held held' owing owing' : ℕ)
    → crit' ≡ (if m.locked then 1 else 0)
    → held' ≡ held
    → owing' ≡ owing
    → IsSound cap c crit held owing
    → IsSound cap (with_lock c m) crit' held' owing'
lock-IsSound cap c m crit crit' held held' owing owing' e h o s =
    let slots = s.slots in
    let count = s.stored_count in
    record {
      empty = s.empty;
      filled = s.filled;
      stored = s.stored;
      empty_count = s.empty_count;
      filled_count = s.filled_count;
      lock_count = e;
      slots = omega arith;
      stored_count = omega arith;
      ring = s.ring;
      capacity = s.capacity;
      order = s.order;
    }

pub empty-IsSound :
    (cap : ℕ) (c : Channel) (sem : Semaphore) (n crit held held' owing : ℕ)
    → sem.count ≡ pos n
    → (s : IsSound cap c crit held owing) → n + s.filled + held' ≡ cap
    → IsSound cap (with_empty c sem) crit held' owing
empty-IsSound cap c sem n crit held held' owing e s slots = record {
  empty = n;
  filled = s.filled;
  stored = s.stored;
  empty_count = e;
  filled_count = s.filled_count;
  lock_count = s.lock_count;
  slots = slots;
  stored_count = s.stored_count;
  ring = s.ring;
  capacity = s.capacity;
  order = s.order;
}

pub filled-IsSound :
    (cap : ℕ) (c : Channel) (sem : Semaphore) (n crit held held' owing owing' : ℕ)
    → sem.count ≡ pos n
    → (s : IsSound cap c crit held owing) → s.empty + n + held' ≡ cap
    → s.stored ≡ n + owing'
    → IsSound cap (with_filled c sem) crit held' owing'
filled-IsSound cap c sem n crit held held' owing owing' e s slots stored = record {
  empty = s.empty;
  filled = n;
  stored = s.stored;
  empty_count = s.empty_count;
  filled_count = e;
  lock_count = s.lock_count;
  slots = slots;
  stored_count = stored;
  ring = s.ring;
  capacity = s.capacity;
  order = s.order;
}
