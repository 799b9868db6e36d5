-- ===== src/Kernel/System.antt =====
-- The scheduler of rtos/src/scheduler.c as a transition system. The tasks are the environment:
-- in any order they yield, sleep, write the state, the deadline or the priority of any task, spawn and
-- return, and a timer tick may come between any two of these, also between `g_current_idx = next` and the
-- `swapcontext` of `scheduler_run`, and into the loops of `pick_next_ready`. `swapcontext` moves the
-- control; `SIGALRM` is blocked during it.
pub mod Invariant
pub mod Switches
pub mod Leaving
pub mod Spawning
pub mod Preserve
pub mod Safety
use rtos_kernel_from_scratch.Common.{
  pos, ℕ, ◌+◌, ◌<◌, ◌%◌, ◌^◌, ◌≡◌, ◌≢◌, Bool, true, false, Option, none, some, List, [], ◌∷◌, ℤ,
  ◌==◌, if◌then◌else◌, All,
}
use rtos_kernel_from_scratch.Kernel.State.{
  Task, TaskRef, TaskState, ready, running, blocked, terminated, Context, at_entry, after_yield,
  after_preempt, in_dispatch, Kernel, is_terminated, set_state, ref_at, task_at, store, update_task,
  num_tasks, inc64,
}
use rtos_kernel_from_scratch.Kernel.Scheduler.{
  scheduler_add_task, any_task_active, scheduler_stop, current_of, scheduler_dispatch, task_yield,
  make_current,
}
use rtos_kernel_from_scratch.Kernel.Preempt.{
  preempt_handler, finish_preempt, task_sleep, scheduler_enable_preemption,
  scheduler_disable_preemption,
}

-- Where the processor is: in the loop of `scheduler_run`, in that loop with the next task made current,
-- in the code of the current task, or at the end of a `preempt_handler` whose `swapcontext` has just come
-- back to the current task, or to `scheduler_run`, if the tick came into its loop.
pub data Control : Type 0 where
  scheduling entering executing unwinding returning : Control

pub record System : Type 0 where
  pub kernel : Kernel
  pub control : Control

-- Where the control is behind a `swapcontext` into a task with this context.
abbrev resume_at : Context → Control
resume_at at_entry = executing
resume_at after_yield = executing
resume_at after_preempt = unwinding
resume_at in_dispatch = returning

abbrev resume_current : (TaskRef → Task) → Option TaskRef → Control
resume_current heap none = scheduling
resume_current heap (some r) = resume_at (heap r).context

-- The control behind a switch into the current task, if there was one.
abbrev pub switched : Control → Kernel × Bool → System
switched c (k, false) = record { kernel = k; control = c }
switched c (k, true) = record {
  kernel = k;
  control = resume_current k.heap (current_of k k.current_idx);
}

-- A tick that switches while `scheduler_run` is about to enter the task `cur` saves the context of
-- `scheduler_run` as that of the task.
abbrev pub saved_in : TaskRef → Kernel × Bool → Kernel × Bool
saved_in cur (k, false) = (k, false)
saved_in cur (k, true) = (update_task k cur (λ t. record t { context = in_dispatch }), true)

-- The control behind a call that leaves the task for the scheduler, if it did.
abbrev pub left : Kernel × Bool → System
left (k, false) = record { kernel = k; control = executing }
left (k, true) = record { kernel = k; control = scheduling }

-- A task as `task_create` leaves it.
pub record IsNew (t : Task) : Type 0 where
  pub is_ready : t.state ≡ ready
  pub is_fresh : t.context ≡ at_entry
  pub is_awake : t.wake_tick ≡ 0
  pub not_preempted : t.pending_preemptions ≡ pos 0

-- One step of the program. `choose` is what `pick_next_ready` may come to when ticks fall into its loops:
-- they make BLOCKED tasks READY and no task less. `write_state` is any write of a state by the code of a
-- task: of BLOCKED or READY by the parts of `mutex_lock`, `mutex_unlock`, `sem_wait`, `sem_post`,
-- `task_sleep` and `task_yield`, whoever is in a list of waiters, and of TERMINATED by the trampoline.
pub data Step : System → System → Type 0 where
  dispatch :
      (k : Kernel)
      → Step
          (record { kernel = k; control = scheduling })
          (switched scheduling (scheduler_dispatch k))
  choose :
      (k : Kernel) (idx : ℕ)
      → idx < num_tasks k
      → (task_at k idx).state ≡ ready
      → Step
          (record { kernel = k; control = scheduling })
          (record { kernel = make_current k idx; control = entering })
  enter :
      (k : Kernel)
      → Step
          (record { kernel = k; control = entering })
          (switched entering (record k { switch_count = inc64 k.switch_count }, true))
  stop :
      (k : Kernel)
      → any_task_active k.heap k.tasks ≡ false
      → Step
          (record { kernel = k; control = scheduling })
          (record { kernel = scheduler_stop k; control = scheduling })
  tick :
      (k : Kernel) (c : Control)
      → c ≢ entering
      → Step (record { kernel = k; control = c }) (switched c (preempt_handler k))
  tick_entering :
      (k : Kernel) (r : TaskRef)
      → current_of k k.current_idx ≡ some r
      → Step
          (record { kernel = k; control = entering })
          (switched entering (saved_in r (preempt_handler k)))
  unwind :
      (k : Kernel) (r : TaskRef)
      → current_of k k.current_idx ≡ some r
      → Step
          (record { kernel = k; control = unwinding })
          (record { kernel = finish_preempt k r; control = executing })
  return_to_dispatch :
      (k : Kernel) (r : TaskRef)
      → current_of k k.current_idx ≡ some r
      → Step
          (record { kernel = k; control = returning })
          (record { kernel = finish_preempt k r; control = entering })
  yield : (k : Kernel) → Step (record { kernel = k; control = executing }) (left (task_yield k))
  sleep :
      (k : Kernel) (ms : ℤ)
      → Step (record { kernel = k; control = executing }) (left (task_sleep k ms))
  write_state :
      (k : Kernel) (r : TaskRef) (st : TaskState)
      → st ≢ running
      → Step
          (record { kernel = k; control = executing })
          (record { kernel = update_task k r (set_state st); control = executing })
  write_deadline :
      (k : Kernel) (r : TaskRef) (until : ℕ)
      → Step
          (record { kernel = k; control = executing })
          (record {
            kernel = update_task k r (λ t. record t { wake_tick = until });
            control = executing;
          })
  reprioritise :
      (k : Kernel) (r : TaskRef) (p : ℤ)
      → Step
          (record { kernel = k; control = executing })
          (record {
            kernel = update_task k r (λ t. record t { priority = p });
            control = executing;
          })
  finish :
      (k : Kernel) (r : TaskRef)
      → current_of k k.current_idx ≡ some r
      → Step
          (record { kernel = k; control = executing })
          (record { kernel = update_task k r (set_state terminated); control = scheduling })
  spawn :
      (k : Kernel) (c : Control) (r : TaskRef) (t : Task)
      → IsNew t
      → All (λ q. (q == r) ≡ false) k.tasks
      → Step
          (record { kernel = k; control = c })
          (record {
            kernel = scheduler_add_task (record k { heap = store k.heap r t }) r;
            control = c;
          })
  configure :
      (k : Kernel) (c : Control) (tick_ms slice : ℤ)
      → Step
          (record { kernel = k; control = c })
          (record { kernel = scheduler_enable_preemption k tick_ms slice; control = c })
  disarm :
      (k : Kernel) (c : Control)
      → Step
          (record { kernel = k; control = c })
          (record { kernel = scheduler_disable_preemption k; control = c })

pub data Reach (s : System) : System → Type 0 where
  here : Reach s s
  next : {t u : System} → Reach s t → Step t u → Reach s u

-- The static variables before any call, over a heap where nothing has run.
abbrev pub boot : (TaskRef → Task) → System
boot heap = record {
  kernel = record {
    heap = heap;
    tasks = [];
    current_idx = none;
    switch_count = 0;
    preempt_enabled = false;
    tick_count = 0;
    tick_ms = 1;
    ticks_per_slice = 1;
    ticks_since_switch = 0;
  };
  control = scheduling;
}
