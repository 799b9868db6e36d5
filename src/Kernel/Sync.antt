-- ===== src/Kernel/Sync.antt =====
-- rtos/src/sync.c: mutexes with priority inheritance, counting semaphores, and the ring of a queue.
-- A call of `mutex_lock` or `sem_wait` is a loop round a `task_yield`; a round of that loop is one
-- function, which says whether the call returned or left for the scheduler.
pub mod Mutexes
pub mod Queues
pub mod Rings
pub mod Channels
pub mod Turns
pub mod Rounds
pub mod Sharing
pub mod Queueing
mod Tests
use rtos_kernel_from_scratch.Common.{
  ℕ, zero, suc, ◌+◌, ◌%◌, Bool, true, false, ◌&&◌, Option, none, some, List, [], ◌∷◌, ◌++◌, length,
  get_elem?, set, ℤ, pos, negsuc, ltb_ℤ, ◌==◌, ltb, if◌then◌else◌,
}
use rtos_kernel_from_scratch.Kernel.State.{
  inc_ℤ, dec_ℤ, Task, TaskRef, Kernel, ready, blocked, max_tasks, set_state, store, update_task,
}
use rtos_kernel_from_scratch.Kernel.Scheduler.{task_yield}

-- `mutex_t`; `waiters` is the used part of the array, so `num_waiters` is its length.
pub record Mutex : Type 0 where
  pub locked : Bool
  pub owner : Option TaskRef
  pub owner_saved_priority : ℤ
  pub inheritance_enabled : Bool
  pub waiters : List TaskRef

-- `semaphore_t`
pub record Semaphore : Type 0 where
  pub count : ℤ
  pub waiters : List TaskRef

-- Whether a round of a blocking call ended the call.
pub data Round : Type 0 where
  returned left_cpu : Round

-- `mutex_init`
pub mutex_init : Bool → Mutex
mutex_init inheritance = record {
  locked = false;
  owner = none;
  owner_saved_priority = pos 0;
  inheritance_enabled = inheritance;
  waiters = [];
}

pub has_waiter : List TaskRef → TaskRef → Bool
has_waiter [] r = false
has_waiter (w ∷ ws) r = if w == r then true else has_waiter ws r

-- `add_waiter` and `sem_add_waiter`
pub add_waiter : List TaskRef → TaskRef → List TaskRef
unfolding has_waiter
add_waiter ws r =
    if has_waiter ws r then ws else if ltb (length ws) max_tasks then ws ++ (r ∷ []) else ws

-- The boost of the owner's priority in `mutex_lock`.
abbrev pub boost_owner : Kernel → Option TaskRef → ℤ → Kernel
boost_owner k none p = k
boost_owner k (some o) p =
    if ltb_ℤ (k.heap o).priority p then update_task k o (λ t. record t { priority = p }) else k

-- `cur->state = TASK_BLOCKED; task_yield();`
abbrev pub block_and_yield : Kernel → TaskRef → Kernel
block_and_yield k cur = (task_yield (update_task k cur (set_state blocked))).0

-- One round of `mutex_lock` by the task `cur`, no tick inside of it: the test of the loop, and its body or
-- the writes behind the loop.
pub mutex_lock_round : Kernel → Mutex → TaskRef → Kernel × Mutex × Round
mutex_lock_round k m cur =
    if m.locked
    then (
      block_and_yield
          (if m.inheritance_enabled then boost_owner k m.owner (k.heap cur).priority else k) cur,
      record m { waiters = add_waiter m.waiters cur },
      left_cpu,
    )
    else (
      k,
      record m { locked = true; owner = some cur; owner_saved_priority = (k.heap cur).priority },
      returned,
    )

-- The loop of `mutex_unlock` and `sem_post` over the waiters.
pub wake_all : (TaskRef → Task) → List TaskRef → TaskRef → Task
wake_all heap [] = heap
wake_all heap (w ∷ ws) = wake_all (store heap w (set_state ready (heap w))) ws

abbrev pub restore_priority : Kernel → TaskRef → ℤ → Kernel
restore_priority k cur p = update_task k cur (λ t. record t { priority = p })

-- `mutex_unlock` by the task `cur`.
pub mutex_unlock : Kernel → Mutex → TaskRef → Kernel × Mutex
unfolding wake_all
mutex_unlock k m cur =
    let k' = restore_priority k cur m.owner_saved_priority in
    (
      record k' { heap = wake_all k'.heap m.waiters },
      record m { locked = false; owner = none; waiters = [] },
    )

-- `sem_init`
pub sem_init : ℤ → Semaphore
sem_init initial = record { count = initial; waiters = [] }

-- One round of `sem_wait` by the task `cur`, no tick inside of it: the test of the loop, and its body or the
-- decrement behind the loop.
pub sem_wait_round : Kernel → Semaphore → TaskRef → Kernel × Semaphore × Round
sem_wait_round k s cur =
    if ltb_ℤ (pos 0) s.count
    then (k, record s { count = dec_ℤ s.count }, returned)
    else (block_and_yield k cur, record s { waiters = add_waiter s.waiters cur }, left_cpu)

-- `sem_post`
pub sem_post : Kernel → Semaphore → Kernel × Semaphore
unfolding wake_all
sem_post k s = (
  record k { heap = wake_all k.heap s.waiters },
  record s { count = inc_ℤ s.count; waiters = [] },
)

-- The ring of `queue_t`, whose slots hold `void *` values.
pub record Ring : Type 0 where
  pub buffer : List ℕ
  pub capacity : ℕ
  pub head : ℕ
  pub tail : ℕ

-- `queue_t`
pub record Queue : Type 0 where
  pub ring : Ring
  pub lock : Mutex
  pub slots_empty : Semaphore
  pub slots_filled : Semaphore

-- `queue_init`
pub queue_init : List ℕ → ℕ → Queue
unfolding mutex_init sem_init
queue_init buffer capacity = record {
  ring = record { buffer = buffer; capacity = capacity; head = 0; tail = 0 };
  lock = mutex_init true;
  slots_empty = sem_init (pos capacity);
  slots_filled = sem_init (pos 0);
}

-- `q->buffer[q->tail] = item;`
pub ring_store : Ring → ℕ → Ring
ring_store q item = record q { buffer = set q.buffer q.tail item }

-- `q->tail = (q->tail + 1) % q->capacity;`
pub advance_tail : Ring → Ring
advance_tail q = record q { tail = (q.tail + 1) % q.capacity }

-- `q->buffer[q->head]`; `none` for a read out of range.
pub ring_item : Ring → Option ℕ
ring_item q = get_elem? q.buffer q.head

-- `q->head = (q->head + 1) % q->capacity;`
pub advance_head : Ring → Ring
advance_head q = record q { head = (q.head + 1) % q.capacity }
