-- ===== src/Kernel/System/Spawning.antt =====
-- New tasks and new settings of rtos/src/scheduler.c keep `IsSafe`.
use rtos_kernel_from_scratch.Common.{
  inl, inr, refl, [], ◌∷◌, ◌++◌, ℤ, arith, Bool-cases, leb, length-append, get_or-append,
}
use rtos_kernel_from_scratch.Kernel.State.{Task, TaskRef, Kernel, store, num_tasks, max_tasks}
use rtos_kernel_from_scratch.Kernel.Scheduler.{scheduler_add_task}
use rtos_kernel_from_scratch.Kernel.Preempt.{
  scheduler_enable_preemption, scheduler_disable_preemption,
}
use rtos_kernel_from_scratch.Kernel.System.{Control, IsNew}
use rtos_kernel_from_scratch.Kernel.System.Invariant.{IsSafe, Kept-refl, Kept-IsSafe}

-- A fresh task is not RUNNING.
store-IsSafe :
    (k : Kernel) (c : Control) (r : TaskRef) (t : Task)
    → IsNew t
    → IsSafe k c
    → IsSafe (record k { heap = store k.heap r t }) c
store-IsSafe k c r t new v = record {
  alone = λ q e. ground (arith, v.alone q);
  owner = v.owner;
  bound = λ q. ground (arith, v.bound q);
}

append_task-IsSafe :
    (k : Kernel) (c : Control) (r : TaskRef)
    → IsSafe k c
    → IsSafe (record k { tasks = k.tasks ++ (r ∷ []) }) c
append_task-IsSafe k c r v = record {
  alone = λ q e.
      let (at, mine) = v.alone q e in
      let (i, a, lt) = v.owner at in
      let same = get_or-append k.tasks (r ∷ []) i 0 lt in (at, ground arith);
  owner =
      λ e. let (i, a, lt) = v.owner e in (i, a, omega (arith, length-append {0} k.tasks (r ∷ [])));
  bound = v.bound;
}

pub spawn-IsSafe :
    (k : Kernel) (c : Control) (r : TaskRef) (t : Task)
    → IsNew t
    → IsSafe k c
    → IsSafe (scheduler_add_task (record k { heap = store k.heap r t }) r) c
unfolding scheduler_add_task
spawn-IsSafe k c r t new v = elim (Bool-cases (leb max_tasks (num_tasks k))) [
  | inl e ↦ rw e stored
  | inr e ↦ rw e (append_task-IsSafe (record k { heap = store k.heap r t }) c r stored)
]
  where
    stored : IsSafe (record k { heap = store k.heap r t }) c
    stored = store-IsSafe k c r t new v

pub configure-IsSafe :
    (k : Kernel) (c : Control) (m n : ℤ) → IsSafe k c → IsSafe (scheduler_enable_preemption k m n) c
unfolding scheduler_enable_preemption
configure-IsSafe k c m n v = Kept-IsSafe k _ c c refl refl refl (λ r. Kept-refl (k.heap r)) v

pub disarm-IsSafe :
    (k : Kernel) (c : Control) → IsSafe k c → IsSafe (scheduler_disable_preemption k) c
unfolding scheduler_disable_preemption
disarm-IsSafe k c v = Kept-IsSafe k _ c c refl refl refl (λ r. Kept-refl (k.heap r)) v
