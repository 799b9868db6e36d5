-- ===== src/Kernel/Sync/Queueing.antt =====
-- The tasks that use a queue of rtos/src/sync.c, in any order of their rounds: what holds of the queue
-- and of its lock in all of them.
use rtos_kernel_from_scratch.Common.{
  ℕ, zero, suc, ◌+◌, ◌≤◌, ◌<◌, ◌≡◌, refl, sym, ap, ◌∙◌, subst, List, ◌++◌, length, get_or, set,
  arith, pos, if◌then◌else◌, Bool-cases, inl, inr,
}
use rtos_kernel_from_scratch.Kernel.State.{TaskRef, Kernel}
use rtos_kernel_from_scratch.Kernel.Sync.{queue_init, mutex_init, sem_init}
use rtos_kernel_from_scratch.Kernel.Sync.Rings.{items}
use rtos_kernel_from_scratch.Kernel.Sync.Queues.{
  Phase, moved, outside, send_slot, receive_item, Channel, queue_round, Users, QueueStep, call_send,
  call_receive, make_round, QueueReach, here, there, idle_tasks, new_users,
}
use rtos_kernel_from_scratch.Kernel.Sync.Channels.{critical, holding, owed, IsSound, Sound}
use rtos_kernel_from_scratch.Kernel.Sync.Rounds.{round-IsSound, round-Inside, round_ring}
use rtos_kernel_from_scratch.Kernel.Sync.Sharing.{
  total, others, total-others, total-set, total-idle, total-owed, others-owed, Inside-idle, IsKnown,
  set-IsKnown,
}

counts-IsSound :
    {cap crit crit' held held' owing owing' : ℕ} {c : Channel}
    → crit ≡ crit'
    → held ≡ held'
    → owing ≡ owing'
    → IsSound cap c crit held owing
    → IsSound cap c crit' held' owing'
counts-IsSound {cap} {crit} {crit'} {held} {held'} {owing} {owing'} {c} e f g s =
    subst (λ n. IsSound cap c crit' held' n) g
      (subst (λ n. IsSound cap c crit' n owing) f (subst (λ n. IsSound cap c n held owing) e s))

-- The counts of all tasks.
IsCounted : ℕ → Channel → List Phase → Type 0
IsCounted cap c ps = IsSound cap c (total critical ps) (total holding ps) (total owed ps)

-- The task at `i` apart from the others.
apart :
    (cap : ℕ) (u : Users) (i : ℕ)
    → i < length u.phases
    → IsCounted cap u.channel u.phases
    → Sound cap u.channel
        (get_or u.phases i outside)
        (others critical u.phases i)
        (others holding u.phases i)
        (others owed u.phases i)
unfolding IsCounted
apart cap u i lt s =
    counts-IsSound (total-others critical u.phases i lt) (total-others holding u.phases i lt)
      (total-others owed u.phases i lt) s

together :
    (cap : ℕ) (u : Users) (i : ℕ) (c : Channel) (p : Phase)
    → i < length u.phases
    → Sound cap c p
        (others critical u.phases i)
        (others holding u.phases i)
        (others owed u.phases i)
    → IsCounted cap c (set u.phases i p)
unfolding IsCounted
together cap u i c p lt s =
    counts-IsSound (sym (total-set critical u.phases i p lt))
      (sym (total-set holding u.phases i p lt)) (sym (total-set owed u.phases i p lt)) s

IsShared : ℕ → Users → Type 0
IsShared cap u = IsCounted cap u.channel u.phases × IsKnown u.channel.queue.ring u.phases

call-IsShared :
    (cap : ℕ) (u : Users) (cur : TaskRef) (p : Phase)
    → cur < length u.phases
    → get_or u.phases cur outside ≡ outside
    → critical p ≡ 0
    → holding p ≡ 0
    → owed p ≡ 0
    → IsShared cap u
    → IsShared cap (record u { phases = set u.phases cur p })
unfolding IsShared
call-IsShared cap u cur p lt e a b c (s, known) = (
  together cap u cur u.channel p lt (
      counts-IsSound
        (ap (λ q. others critical u.phases cur + critical q) e
          ∙ ap (λ n. others critical u.phases cur + n) (sym a))
        (ap (λ q. others holding u.phases cur + holding q) e
          ∙ ap (λ n. others holding u.phases cur + n) (sym b))
        (ap (λ q. others owed u.phases cur + owed q) e
          ∙ ap (λ n. others owed u.phases cur + n) (sym c))
        (apart cap u cur lt s)),
  set-IsKnown u.channel.queue.ring u.channel.queue.ring u.phases cur p lt (inr refl)
      (Inside-idle u.channel.queue.ring p a) known,
)

-- A critical task is alone.
others_free :
    (cap crit held owing : ℕ) (c : Channel) (p : Phase)
    → Sound cap c p crit held owing
    → critical p ≡ 1
    → crit ≡ 0
others_free cap crit held owing c p s one =
    let count = s.lock_count in
    elim (Bool-cases c.queue.lock.locked) [
      | inl b ↦ let at = count ∙ ap (λ x. if x then 1 else 0) b in omega arith
      | inr b ↦ let at = count ∙ ap (λ x. if x then 1 else 0) b in omega arith
    ]

round-IsShared :
    (cap : ℕ) (u : Users) (cur : TaskRef) (k : Kernel)
    → cur < length u.phases
    → IsShared cap u
    → IsShared cap (moved u cur (queue_round k cur u.channel (get_or u.phases cur outside)))
unfolding IsShared IsKnown
round-IsShared cap u cur k lt (s, known) =
    let p = get_or u.phases cur outside in
    let crit = others critical u.phases cur in
    let held = others holding u.phases cur in
    let owing = others owed u.phases cur in
    let own = apart cap u cur lt s in
    let le = others-owed u.phases cur in
    let (k', c', p') = queue_round k cur u.channel p in
    (
      together cap u cur c' p' lt
          (round-IsSound cap k cur u.channel p crit held owing le (known cur) own),
      set-IsKnown u.channel.queue.ring c'.queue.ring u.phases cur p' lt
          (elim (round_ring k cur u.channel p) [
            | inl one ↦ inl (others_free cap crit held owing u.channel p own one)
            | inr e ↦ inr e
          ])
          (round-Inside cap k cur u.channel p crit held owing le own) known,
    )

step-IsShared : (cap : ℕ) (u v : Users) → QueueStep u v → IsShared cap u → IsShared cap v
step-IsShared cap u _ (call_send cur item lt e) s =
    call-IsShared cap u cur (send_slot item) lt e refl refl refl s
step-IsShared cap u _ (call_receive cur lt e) s =
    call-IsShared cap u cur receive_item lt e refl refl refl s
step-IsShared cap u _ (make_round cur k off lt) s = round-IsShared cap u cur k lt s

idle_outside : (n i : ℕ) → get_or (idle_tasks n) i outside ≡ outside
idle_outside zero i = refl
idle_outside (suc n) zero = refl
idle_outside (suc n) (suc i) = idle_outside n i

new-IsShared :
    (buffer : List ℕ) (cap n : ℕ)
    → 0 < cap
    → length buffer ≡ cap
    → IsShared cap (new_users buffer cap n)
unfolding IsShared IsCounted IsKnown queue_init mutex_init sem_init
new-IsShared buffer cap n room e = (
  counts-IsSound (sym (total-idle critical n refl)) (sym (total-idle holding n refl))
      (sym (total-idle owed n refl))
      (record {
        empty = cap;
        filled = 0;
        stored = 0;
        empty_count = refl;
        filled_count = refl;
        lock_count = refl;
        slots = omega arith;
        stored_count = omega arith;
        ring = record { some_room = room; whole = e; head_in = room; tail_at = refl };
        capacity = refl;
        order = refl;
      }),
  λ i.
      Inside-idle (queue_init buffer cap).ring (get_or (idle_tasks n) i outside)
        (ap critical (idle_outside n i)),
)

reach-IsShared : (cap : ℕ) (u v : Users) → QueueReach u v → IsShared cap u → IsShared cap v
reach-IsShared cap u _ here s = s
reach-IsShared cap u w (there {v} r step) s =
    step-IsShared cap v w step (reach-IsShared cap u v r s)

-- A queue of `cap` slots and its tasks: the items in the ring are those that were sent and not received,
-- and the semaphores count the slots that no task holds.
pub record IsQueueing (cap : ℕ) (u : Users) : Type 0 where
  pub stored : ℕ
  pub room : stored ≤ cap
  pub order : u.channel.sent ≡ u.channel.received ++ items u.channel.queue.ring stored
  pub empty : ℕ
  pub filled : ℕ
  pub empty_count : u.channel.queue.slots_empty.count ≡ pos empty
  pub filled_count : u.channel.queue.slots_filled.count ≡ pos filled
  pub slots : empty + filled + total holding u.phases ≡ cap
  pub counted : stored ≡ filled + total owed u.phases
  pub exclusion : total critical u.phases ≤ 1

-- With preemption off, any number of tasks that call `queue_send` and `queue_receive` on a new queue of
-- `cap` > 0 slots, and make the rounds of their calls in any order: what was sent so far is what was received so far followed
-- by what the ring holds, in this order, and the ring never holds more than `cap` items. The counts of the
-- two semaphores are never negative, and with the tasks between their `sem_wait` and `sem_post` they add
-- up to `cap`; the ring holds as many items as `slots_filled` counts and tasks are about to post or have
-- taken off that count. At most one task is between `mutex_lock` and `mutex_unlock`.
pub new_users-IsQueueing :
    (buffer : List ℕ) (cap n : ℕ) (u : Users)
    → 0 < cap
    → length buffer ≡ cap
    → QueueReach (new_users buffer cap n) u
    → IsQueueing cap u
unfolding IsShared IsCounted
new_users-IsQueueing buffer cap n u room e r =
    let (s, known) =
      reach-IsShared cap (new_users buffer cap n) u r (new-IsShared buffer cap n room e) in
    let owing = total-owed u.phases in
    let slots = s.slots in
    let count = s.stored_count in
    let lock = s.lock_count in
    record {
      stored = s.stored;
      room = omega arith;
      order = s.order;
      empty = s.empty;
      filled = s.filled;
      empty_count = s.empty_count;
      filled_count = s.filled_count;
      slots = s.slots;
      counted = s.stored_count;
      exclusion = elim (Bool-cases u.channel.queue.lock.locked) [
        | inl b ↦ let at = lock ∙ ap (λ x. if x then 1 else 0) b in omega arith
        | inr b ↦ let at = lock ∙ ap (λ x. if x then 1 else 0) b in omega arith
      ];
    }
