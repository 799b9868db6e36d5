-- ===== src/Kernel/Sync/Queues.antt =====
-- `queue_send` and `queue_receive` of rtos/src/sync.c: the calls as rounds of their task, and tasks that
-- make them in any order, while preemption is off: `preempt_handler` then switches no task, and a task
-- leaves the processor only by a `task_yield`, here in the loops of `mutex_lock` and `sem_wait`. A round is
-- one statement of a call, or one turn of such a loop; that another task may make a round behind each of
-- them is more than can happen then. With preemption on a tick may also come between the test and the
-- write of `sem_wait` or `mutex_lock`, which these rounds do not allow.
use rtos_kernel_from_scratch.Common.{
  false, ℕ, zero, suc, Option, none, some, List, [], ◌∷◌, ◌++◌, get_or, set, length, ◌<◌, ◌≡◌,
}
use rtos_kernel_from_scratch.Kernel.State.{TaskRef, Kernel}
use rtos_kernel_from_scratch.Kernel.Sync.{
  Mutex, Semaphore, Round, returned, left_cpu, Ring, Queue, mutex_lock_round, mutex_unlock,
  sem_wait_round, sem_post, ring_store, advance_tail, ring_item, advance_head, queue_init,
}

-- Where a task is in a call.
pub data Phase : Type 0 where
  outside : Phase
  send_slot send_lock send_put send_advance : ℕ → Phase
  send_unlock send_post : Phase
  receive_item receive_lock receive_take receive_unlock receive_post : Phase
  receive_advance : Option ℕ → Phase

-- The queue, and what was put into it and taken out of it so far.
pub record Channel : Type 0 where
  pub queue : Queue
  pub sent : List ℕ
  pub received : List ℕ

abbrev pub goes_on : Round → Phase → Phase → Phase
goes_on returned next same = next
goes_on left_cpu next same = same

abbrev pub with_empty : Channel → Semaphore → Channel
with_empty c s = record c { queue = record c.queue { slots_empty = s } }

abbrev pub with_filled : Channel → Semaphore → Channel
with_filled c s = record c { queue = record c.queue { slots_filled = s } }

abbrev pub with_lock : Channel → Mutex → Channel
with_lock c m = record c { queue = record c.queue { lock = m } }

abbrev with_ring : Channel → Ring → Channel
with_ring c r = record c { queue = record c.queue { ring = r } }

abbrev pub handed : List ℕ → Option ℕ → List ℕ
handed received none = received
handed received (some item) = received ++ (item ∷ [])

abbrev wait_on :
    Kernel × Semaphore × Round → (Semaphore → Channel) → Phase → Phase → Kernel × Channel × Phase
wait_on (k, s, round) put next same = (k, put s, goes_on round next same)

abbrev pub lock_on : Kernel × Mutex × Round → Channel → Phase → Phase → Kernel × Channel × Phase
lock_on (k, m, round) c next same = (k, with_lock c m, goes_on round next same)

-- One round of the task `cur`: the statement of `queue_send` or `queue_receive` that it has reached.
unfoldable pub queue_round : Kernel → TaskRef → Channel → Phase → Kernel × Channel × Phase
queue_round k cur c outside = (k, c, outside)
queue_round k cur c (send_slot item) =
    wait_on (sem_wait_round k c.queue.slots_empty cur) (with_empty c) (send_lock item)
      (send_slot item)
queue_round k cur c (send_lock item) =
    lock_on (mutex_lock_round k c.queue.lock cur) c (send_put item) (send_lock item)
queue_round k cur c (send_put item) =
    (k, with_ring c (ring_store c.queue.ring item), send_advance item)
queue_round k cur c (send_advance item) = (
  k,
  record c {
    queue = record c.queue { ring = advance_tail c.queue.ring };
    sent = c.sent ++ (item ∷ []);
  },
  send_unlock,
)
queue_round k cur c send_unlock =
    let (k', m) = mutex_unlock k c.queue.lock cur in (k', with_lock c m, send_post)
queue_round k cur c send_post =
    let (k', s) = sem_post k c.queue.slots_filled in (k', with_filled c s, outside)
queue_round k cur c receive_item =
    wait_on (sem_wait_round k c.queue.slots_filled cur) (with_filled c) receive_lock receive_item
queue_round k cur c receive_lock =
    lock_on (mutex_lock_round k c.queue.lock cur) c receive_take receive_lock
queue_round k cur c receive_take = (k, c, receive_advance (ring_item c.queue.ring))
queue_round k cur c (receive_advance got) = (
  k,
  record c {
    queue = record c.queue { ring = advance_head c.queue.ring };
    received = handed c.received got;
  },
  receive_unlock,
)
queue_round k cur c receive_unlock =
    let (k', m) = mutex_unlock k c.queue.lock cur in (k', with_lock c m, receive_post)
queue_round k cur c receive_post =
    let (k', s) = sem_post k c.queue.slots_empty in (k', with_empty c s, outside)

-- A queue and the tasks that use it, by the place of each in the list.
pub record Users : Type 0 where
  pub channel : Channel
  pub phases : List Phase

abbrev pub moved : Users → TaskRef → Kernel × Channel × Phase → Users
moved u cur (k, c, p) = record { channel = c; phases = set u.phases cur p }

-- A task calls `queue_send` or `queue_receive`, or makes a round of its call, with preemption off. What the
-- scheduler does with the kernel in between is left open: a round starts from any such kernel.
pub data QueueStep (u : Users) : Users → Type 0 where
  call_send :
      (cur : TaskRef) (item : ℕ)
      → cur < length u.phases
      → get_or u.phases cur outside ≡ outside
      → QueueStep u (record u { phases = set u.phases cur (send_slot item) })
  call_receive :
      (cur : TaskRef)
      → cur < length u.phases
      → get_or u.phases cur outside ≡ outside
      → QueueStep u (record u { phases = set u.phases cur receive_item })
  make_round :
      (cur : TaskRef) (k : Kernel)
      → k.preempt_enabled ≡ false
      → cur < length u.phases
      → QueueStep u (moved u cur (queue_round k cur u.channel (get_or u.phases cur outside)))

abbrev pub idle_tasks : ℕ → List Phase
idle_tasks zero = []
idle_tasks (suc n) = outside ∷ idle_tasks n

-- A new queue, and `n` tasks that are not in a call.
abbrev pub new_users : List ℕ → ℕ → ℕ → Users
new_users buffer capacity n = record {
  channel = record { queue = queue_init buffer capacity; sent = []; received = [] };
  phases = idle_tasks n;
}

pub data QueueReach (u : Users) : Users → Type 0 where
  here : QueueReach u u
  there : {v w : Users} → QueueReach u v → QueueStep v w → QueueReach u w
