-- ===== src/Kernel/System/Invariant.antt =====
-- What holds between any two steps of the scheduler of rtos/src/scheduler.c.
use rtos_kernel_from_scratch.Common.{
  ◌≤ℤ◌, pos, ℕ, ◌<◌, ◌≡◌, sym, ◌∙◌, Bool, true, false, Option, none, some, List, [], ◌∷◌, length,
  ◌==◌, arith,
}
use rtos_kernel_from_scratch.Kernel.State.{Task, TaskRef, running, Kernel, store}
use rtos_kernel_from_scratch.Kernel.Scheduler.{current_of}
use rtos_kernel_from_scratch.Kernel.Preempt.{tick_task, update_tick_bookkeeping}
use rtos_kernel_from_scratch.Kernel.System.{
  Control, scheduling, entering, executing, unwinding, returning, System,
}

abbrev pub is_current : Option TaskRef → TaskRef → Bool
is_current none r = false
is_current (some c) r = c == r

-- Whether a task has been made current and has not left.
abbrev pub in_task : Control → Bool
in_task scheduling = false
in_task entering = true
in_task executing = true
in_task unwinding = true
in_task returning = true

-- What holds of the kernel while the control is at `c`.
pub record IsSafe (k : Kernel) (c : Control) : Type 0 where
  -- Nothing but the current task is RUNNING, and in the scheduler nothing is.
  pub alone :
      (r : TaskRef)
      → (k.heap r).state ≡ running
      → (in_task c ≡ true) × (is_current (current_of k k.current_idx) r ≡ true)
  -- Outside the scheduler there is a current task.
  pub owner : in_task c ≡ true → (i : ℕ) × (k.current_idx ≡ some i) × (i < length k.tasks)
  pub bound : (r : TaskRef) → (k.heap r).pending_preemptions ≤ℤ pos 1

abbrev pub Safe : System → Type 0
Safe s = IsSafe s.kernel s.control

-- What a step may change of a task that does not start running.
pub record Kept (t t' : Task) : Type 0 where
  pub not_started : t'.state ≡ running → t.state ≡ running
  pub not_deeper : t'.pending_preemptions ≤ℤ t.pending_preemptions

pub Kept-refl : (t : Task) → Kept t t
Kept-refl t = record { not_started = λ e. e; not_deeper = omega arith }

tick_task-Kept : (now : ℕ) (t : Task) → Kept t (tick_task now t)
unfolding tick_task
tick_task-Kept now t = ground arith

pub bookkeeping-Kept :
    (now : ℕ) (rs : List TaskRef) (heap : TaskRef → Task) (r : TaskRef)
    → Kept (heap r) (update_tick_bookkeeping now rs heap r)
unfolding update_tick_bookkeeping
bookkeeping-Kept now [] heap r = Kept-refl (heap r)
bookkeeping-Kept now (q ∷ rs) heap r = ground (
  arith,
  bookkeeping-Kept now rs (store heap q (tick_task now (heap q))) r,
  tick_task-Kept now (heap q),
)

pub Kept-IsSafe :
    (k k' : Kernel) (c c' : Control)
    → k'.tasks ≡ k.tasks
    → k'.current_idx ≡ k.current_idx
    → in_task c' ≡ in_task c
    → ((r : TaskRef) → Kept (k.heap r) (k'.heap r))
    → IsSafe k c
    → IsSafe k' c'
Kept-IsSafe k k' c c' tasks current same kept v = record {
  alone = λ r e. let (a, b) = v.alone r ((kept r).not_started e) in (ground arith, ground arith);
  owner = λ e. let (i, a, b) = v.owner (sym same ∙ e) in (i, current ∙ a, ground arith);
  bound = λ r. let deep = (kept r).not_deeper in let old = v.bound r in omega arith;
}
