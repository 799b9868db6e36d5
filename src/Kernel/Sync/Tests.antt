-- ===== src/Kernel/Sync/Tests.antt =====
-- Runs of two tasks on a queue of rtos/src/sync.c.
use rtos_kernel_from_scratch.Common.{
  false, ℕ, ◌<◌, ◌≡◌, refl, List, [], ◌∷◌, ◌++◌, length, get_or, none, pos, arith, ◌∙◌, length-set,
}
use rtos_kernel_from_scratch.Kernel.State.{Task, TaskRef, ready, at_entry, Kernel}
use rtos_kernel_from_scratch.Kernel.Sync.{
  mutex_init, sem_init, queue_init, mutex_lock_round, mutex_unlock, sem_wait_round, sem_post,
  ring_store, advance_tail, ring_item, advance_head,
}
use rtos_kernel_from_scratch.Kernel.Sync.Queues.{
  outside, send_slot, receive_item, queue_round, Users, moved, call_send, call_receive, make_round,
  QueueReach, here, there, new_users,
}
use rtos_kernel_from_scratch.Kernel.Sync.Queueing.{IsQueueing, new_users-IsQueueing}

abbrev idle : Task
idle = record {
  id = 0;
  name = [];
  context = at_entry;
  stack = [];
  stack_size = 0;
  state = ready;
  priority = pos 1;
  entry = 0;
  arg = 0;
  wake_tick = 0;
  ticks_run = 0;
  ticks_ready = 0;
  pending_preemptions = pos 0;
}

abbrev kernel : Kernel
kernel = record {
  heap = λ r. idle;
  tasks = 0 ∷ 1 ∷ [];
  current_idx = none;
  switch_count = 0;
  preempt_enabled = false;
  tick_count = 0;
  tick_ms = 10;
  ticks_per_slice = 1;
  ticks_since_switch = 0;
}

abbrev after_round : Users → TaskRef → Users
after_round u cur = moved u cur (queue_round kernel cur u.channel (get_or u.phases cur outside))

abbrev rounds : Users → List TaskRef → Users
rounds u [] = u
rounds u (cur ∷ rest) = rounds (after_round u cur) rest

abbrev two_tasks : Users
two_tasks = new_users (0 ∷ 0 ∷ []) 2 2

-- Task 1 waits for an item, task 0 sends 7.
abbrev waiting : Users
waiting = after_round (record two_tasks { phases = outside ∷ receive_item ∷ [] }) 1

abbrev sending : Users
sending = record waiting { phases = send_slot 7 ∷ receive_item ∷ [] }

-- Task 1 tries again while task 0 is between the two statements on the ring, and later has read its item.
abbrev order : List TaskRef
order = 0 ∷ 0 ∷ 0 ∷ 1 ∷ 0 ∷ 0 ∷ 0 ∷ 1 ∷ 1 ∷ 1 ∷ []

run_test : (rounds sending (order ++ (1 ∷ []))).channel.received ≡ 7 ∷ []
unfolding queue_round mutex_init sem_init queue_init mutex_lock_round mutex_unlock sem_wait_round
    sem_post ring_store advance_tail ring_item advance_head
run_test = refl

waits_test : waiting.phases ≡ outside ∷ receive_item ∷ []
unfolding queue_round queue_init sem_init sem_wait_round
waits_test = refl

abbrev InRange : ℕ → List TaskRef → Type 0
InRange n [] = 0 < n
InRange n (cur ∷ rest) = (cur < n) × InRange n rest

rounds_reached :
    (u v : Users) (order : List TaskRef) (n : ℕ)
    → length v.phases ≡ n
    → InRange n order
    → QueueReach u v
    → QueueReach u (rounds v order)
rounds_reached u v [] n e ins r = r
rounds_reached u v (cur ∷ rest) n e (lt, ins) r =
    let p = (queue_round kernel cur v.channel (get_or v.phases cur outside)).2 in
    rounds_reached u (after_round v cur) rest n (length-set v.phases cur p ∙ e) ins
      (there r (make_round cur kernel refl (omega arith)))

waiting_reached : QueueReach two_tasks waiting
waiting_reached =
    there (there here (call_receive 1 (omega arith) refl)) (make_round 1 kernel refl (omega arith))

sending_reached : QueueReach two_tasks sending
unfolding queue_round queue_init sem_init sem_wait_round
sending_reached = there waiting_reached (call_send 0 7 (omega arith) refl)

in_range : InRange 2 order
in_range =
    let a : 0 < 2 = omega arith in
    let b : 1 < 2 = omega arith in (a, (a, (a, (b, (a, (a, (a, (b, (b, (b, a))))))))))

new_users-IsQueueing_example : IsQueueing 2 (rounds sending order)
new_users-IsQueueing_example =
    new_users-IsQueueing (0 ∷ 0 ∷ []) 2 2 (rounds sending order) (omega arith) refl
      (rounds_reached two_tasks sending order 2 refl in_range sending_reached)
