-- ===== src/Kernel/Tests.antt =====
-- Runs of the kernel's code on small examples.
use rtos_kernel_from_scratch.Common.{
  ℕ, zero, suc, ◌<◌, ◌≡◌, ◌≢◌, ◌↔◌, inr, refl, true, false, none, some, List, [], ◌∷◌, ◌++◌, ℤ, pos,
  ◌≤ℤ◌, replicate, take, ◌==◌, if◌then◌else◌, arith,
}
use rtos_kernel_from_scratch.Kernel.State.{
  Task, TaskRef, TaskState, ready, running, blocked, at_entry, after_yield, Kernel, task_at,
}
use rtos_kernel_from_scratch.Kernel.Scheduler.{
  pick_next_ready, best_priority, find_candidate, scheduler_dispatch, scheduler_add_task,
  scheduler_current_task,
}
use rtos_kernel_from_scratch.Kernel.Scheduler.Pick.{
  IsNext, pick_next_ready-IsNext, pick_next_ready-none,
}
use rtos_kernel_from_scratch.Kernel.Preempt.{
  tick_task, update_tick_bookkeeping, end_slice, preempt_handler, scheduler_enable_preemption,
  ticks_to_wait,
}
use rtos_kernel_from_scratch.Kernel.Preempt.Slices.{at_choice, end_slice-switches}
use rtos_kernel_from_scratch.Kernel.Preempt.Sleep.{bookkeeping_wakes, bookkeeping_waits}
use rtos_kernel_from_scratch.Kernel.Sync.{
  Mutex, left_cpu, has_waiter, mutex_lock_round, mutex_unlock,
}
use rtos_kernel_from_scratch.Kernel.Sync.Mutexes.{
  mutex_lock-inherits, lock_all, mutex_unlock-restores,
}
use rtos_kernel_from_scratch.Kernel.System.{
  scheduling, System, switched, IsNew, Reach, here, next, dispatch, tick, spawn, configure, boot,
}
use rtos_kernel_from_scratch.Kernel.System.Safety.{running_is_current, pending_preemptions-le_one}
use rtos_kernel_from_scratch.Kernel.Task.{
  CLibrary, canary_size, canary_byte, hwm_poison_byte, new_task, task_create, task_canary_ok,
  task_stack_high_water_mark,
}
use rtos_kernel_from_scratch.Kernel.Task.Stack.{high_water_mark-used, task_create-canary_ok}

-- A task in a state, with a priority and a deadline.
abbrev sample : TaskState → ℤ → ℕ → Task
sample st priority wake = record {
  id = 0;
  name = [];
  context = at_entry;
  stack = [];
  stack_size = 0;
  state = st;
  priority = priority;
  entry = 0;
  arg = 0;
  wake_tick = wake;
  ticks_run = 0;
  ticks_ready = 0;
  pending_preemptions = pos 0;
}

-- Task 0 is READY with priority 1, task 1 RUNNING with priority 5, task 2 READY with priority 5, task
-- 3 BLOCKED until tick 4.
abbrev heap : TaskRef → Task
heap zero = sample ready (pos 1) 0
heap (suc zero) = sample running (pos 5) 0
heap (suc (suc zero)) = sample ready (pos 5) 0
heap (suc (suc (suc r))) = sample blocked (pos 9) 4

abbrev four : Kernel
four = record {
  heap = heap;
  tasks = 0 ∷ 1 ∷ 2 ∷ 3 ∷ [];
  current_idx = some 1;
  switch_count = 7;
  preempt_enabled = true;
  tick_count = 3;
  tick_ms = 10;
  ticks_per_slice = 1;
  ticks_since_switch = 0;
}

pick_next_ready-IsNext_example : IsNext four 2
unfolding pick_next_ready best_priority find_candidate
pick_next_ready-IsNext_example = pick_next_ready-IsNext four 2 refl

pick_next_ready-none_example :
    (pick_next_ready four ≡ none) ↔ ((j : ℕ) → j < 4 → (task_at four j).state ≢ ready)
pick_next_ready-none_example = pick_next_ready-none four

end_slice-switches_example :
    (idx : ℕ) × (pick_next_ready (at_choice four 1) ≡ some idx)
    × IsNext (at_choice four 1) idx
    × ((end_slice four 1).1 ≡ true)
    × ((end_slice four 1).0.current_idx ≡ some idx)
    × ((end_slice four 1).0.switch_count ≡ 8)
end_slice-switches_example = end_slice-switches four 1 (omega arith)

bookkeeping_wakes_example :
    ((update_tick_bookkeeping 4 (1 ∷ 3 ∷ []) heap 3).state ≡ ready)
    × ((update_tick_bookkeeping 4 (1 ∷ 3 ∷ []) heap 3).wake_tick ≡ 0)
bookkeeping_wakes_example =
    bookkeeping_wakes 4 (1 ∷ 3 ∷ []) heap 1 (omega arith) refl (omega arith) (omega arith)

bookkeeping_waits_example : update_tick_bookkeeping 3 (1 ∷ 3 ∷ []) heap 3 ≡ heap 3
bookkeeping_waits_example = bookkeeping_waits 3 (1 ∷ 3 ∷ []) heap 3 refl (inr (omega arith))

-- A sleep of 25 ms at 10 ms a tick waits two ticks.
sleeps_short : ticks_to_wait 25 10 ≡ 2
unfolding ticks_to_wait
sleeps_short = refl

-- A mutex that task 0, of priority 1, holds.
abbrev held : Mutex
held = record {
  locked = true;
  owner = some 0;
  owner_saved_priority = pos 1;
  inheritance_enabled = true;
  waiters = 3 ∷ [];
}

mutex_lock-inherits_example :
    let (k', m', round) = mutex_lock_round four held 1 in
    (round ≡ left_cpu)
    × ((k'.heap 1).state ≡ blocked)
    × ((k'.heap 1).context ≡ after_yield)
    × ((k'.heap 1).priority ≤ℤ (k'.heap 0).priority)
    × (m'.owner ≡ some 0)
    × (m'.owner_saved_priority ≡ pos 1)
    × (has_waiter m'.waiters 1 ≡ true)
mutex_lock-inherits_example =
    mutex_lock-inherits four held 1 0 refl refl refl refl (ground arith) (omega arith)

abbrev free_mutex : Mutex
free_mutex = record held { locked = false; owner = none; waiters = [] }

-- Task 0 locks with priority 1, task 1 of priority 5 tries, and task 0 unlocks.
mutex_unlock-restores_example :
    let taken = lock_all (mutex_lock_round four free_mutex 0).1 ((four, 1) ∷ []) in
    let (k'', m'') = mutex_unlock four taken 0 in
    (m''.locked ≡ false)
    × (m''.owner ≡ none)
    × (m''.waiters ≡ [])
    × ((k''.heap 0).priority ≡ pos 1)
    × ((k''.heap 0).state ≡ (if has_waiter taken.waiters 0 then ready else ready))
mutex_unlock-restores_example = mutex_unlock-restores four four free_mutex 0 0 ((four, 1) ∷ []) refl

-- Tasks 0 and 1 of one priority, spawned and dispatched with preemption on, then one tick.
abbrev fresh_heap : TaskRef → Task
fresh_heap r = sample ready (pos 3) 0

fresh-IsNew : IsNew (sample ready (pos 3) 0)
fresh-IsNew = record { is_ready = refl; is_fresh = refl; is_awake = refl; not_preempted = refl }

abbrev put : Kernel → TaskRef → Kernel
put k r =
    scheduler_add_task
      (record k { heap = λ x. if r == x then sample ready (pos 3) 0 else k.heap x }) r

abbrev spawned : Kernel
spawned = put (put (scheduler_enable_preemption (boot fresh_heap).kernel (pos 1) (pos 1)) 0) 1

abbrev dispatched : System
dispatched = switched scheduling (scheduler_dispatch spawned)

abbrev ticked : System
ticked = switched dispatched.control (preempt_handler dispatched.kernel)

Reach-dispatched : Reach (boot fresh_heap) dispatched
unfolding scheduler_enable_preemption scheduler_add_task
Reach-dispatched =
    next
      (next
        (next (next here (configure (boot fresh_heap).kernel scheduling (pos 1) (pos 1)))
          (spawn _ scheduling 0 (sample ready (pos 3) 0) fresh-IsNew tt))
        (spawn _ scheduling 1 (sample ready (pos 3) 0) fresh-IsNew (refl, tt)))
      (dispatch spawned)

Reach-ticked : Reach (boot fresh_heap) ticked
unfolding scheduler_dispatch scheduler_add_task scheduler_enable_preemption pick_next_ready
    best_priority find_candidate
Reach-ticked = next Reach-dispatched (tick dispatched.kernel dispatched.control (λ e. absurd (cc)))

running_is_current_example : scheduler_current_task ticked.kernel ≡ some 1
unfolding scheduler_dispatch scheduler_add_task scheduler_enable_preemption preempt_handler
    pick_next_ready best_priority find_candidate tick_task update_tick_bookkeeping end_slice
running_is_current_example = running_is_current fresh_heap (λ r. fresh-IsNew) Reach-ticked 1 refl

pending_preemptions-le_one_example : (ticked.kernel.heap 0).pending_preemptions ≤ℤ pos 1
pending_preemptions-le_one_example =
    pending_preemptions-le_one fresh_heap (λ r. fresh-IsNew) Reach-ticked 0

-- The tick has preempted task 0.
task_preempted : (ticked.kernel.heap 0).pending_preemptions ≡ pos 1
unfolding scheduler_dispatch scheduler_add_task scheduler_enable_preemption preempt_handler
    pick_next_ready best_priority find_candidate tick_task update_tick_bookkeeping end_slice
task_preempted = refl

-- 16 bytes of canary, 20 of poison, 4 that were used.
abbrev used_stack : List ℕ
used_stack =
    replicate canary_size canary_byte
    ++ (replicate 20 hwm_poison_byte ++ (1 ∷ 2 ∷ hwm_poison_byte ∷ 4 ∷ []))

abbrev worked : Task
worked = record (sample ready (pos 3) 0) { stack = used_stack; stack_size = 40 }

high_water_mark-used_example : task_stack_high_water_mark worked ≡ 4
high_water_mark-used_example =
    high_water_mark-used worked 20 1 (2 ∷ hwm_poison_byte ∷ 4 ∷ []) refl refl (omega arith)
      (omega arith)

-- A C library whose calls succeed, and whose `makecontext` writes nothing.
abbrev plain_library : CLibrary
plain_library = record {
  calloc_ok = true;
  malloc_ok = true;
  getcontext_ok = true;
  default_name = λ id. [];
  first_frame = λ stack. stack;
}

abbrev writing_library : CLibrary
writing_library = record plain_library {
  first_frame = λ stack. take 36 stack ++ (1 ∷ 2 ∷ 3 ∷ 4 ∷ []);
}

abbrev created : Task
created = new_task writing_library none 0 0 (pos 3) 40 0

task_create-canary_ok_example :
    (task_canary_ok created ≡ true) × (task_stack_high_water_mark created ≡ 4)
unfolding task_create
task_create-canary_ok_example =
    task_create-canary_ok writing_library none 0 0 (pos 3) 40 0 created 20 1 (2 ∷ 3 ∷ 4 ∷ []) refl
      (omega arith) refl (omega arith) refl
