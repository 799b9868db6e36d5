-- ===== src/Kernel/Scheduler.antt =====
-- rtos/src/scheduler.c without preemption: the ready queue and the choice of the next task.
pub mod Best
pub mod Sweep
pub mod Pick
use rtos_kernel_from_scratch.Common.{
  ℕ, zero, suc, ◌+◌, ◌%◌, ◌≡◌, Bool, true, false, not, ◌&&◌, ◌||◌, Option, none, some, List, [],
  ◌∷◌, ◌++◌, length, ℤ, ltb_ℤ, eqb_ℤ, ◌==◌, leb, if◌then◌else◌,
}
use rtos_kernel_from_scratch.Kernel.State.{
  Task, TaskRef, Kernel, ready, running, after_yield, max_tasks, inc64, is_ready, is_running,
  is_terminated, set_state, ref_at, task_at, num_tasks, update_task,
}

-- `scheduler_add_task`: a full table drops the task.
unfoldable pub scheduler_add_task : Kernel → TaskRef → Kernel
scheduler_add_task k task =
    if leb max_tasks (num_tasks k) then k else record k { tasks = k.tasks ++ (task ∷ []) }

-- `scheduler_current_task`; `none` is NULL.
abbrev pub current_of : Kernel → Option ℕ → Option TaskRef
current_of k none = none
current_of k (some i) = some (ref_at k i)

unfoldable pub scheduler_current_task : Kernel → Option TaskRef
scheduler_current_task k = current_of k k.current_idx

-- `!have_candidate || priority > best_priority`; `none` stands for `have_candidate == 0`.
abbrev pub beats : ℤ → Option ℤ → Bool
beats p none = true
beats p (some best) = ltb_ℤ best p

abbrev pub improve : Task → Option ℤ → Option ℤ
improve t best = if is_ready t.state && beats t.priority best then some t.priority else best

-- The first loop of `pick_next_ready`, over the tasks from index `i` on.
unfoldable pub best_priority : (TaskRef → Task) → List TaskRef → Option ℤ → Option ℤ
best_priority heap [] best = best
best_priority heap (r ∷ rs) best = best_priority heap rs (improve (heap r) best)

-- The test of the second loop.
abbrev pub is_candidate : ℤ → Task → Bool
is_candidate best t = is_ready t.state && eqb_ℤ t.priority best

-- The second loop, with `left` rounds left at index `(start + i) % g_num_tasks`.
unfoldable pub find_candidate : Kernel → ℤ → ℕ → ℕ → ℕ → Option ℕ
find_candidate k best start zero i = none
find_candidate k best start (suc left) i =
    let rest = find_candidate k best start left (i + 1) in
    let idx = (start + i) % num_tasks k in
    if is_candidate best (task_at k idx) then some idx else rest

-- The index that the second loop starts from.
abbrev pub round_start : Kernel → Option ℕ → ℕ
round_start k none = 0
round_start k (some i) = (i + 1) % num_tasks k

abbrev pub pick_among : Kernel → Option ℤ → Option ℕ
pick_among k none = none
pick_among k (some best) = find_candidate k best (round_start k k.current_idx) (num_tasks k) 0

-- `pick_next_ready`; `none` is -1.
unfoldable pub pick_next_ready : Kernel → Option ℕ
pick_next_ready k =
    if num_tasks k == 0 then none else pick_among k (best_priority k.heap k.tasks none)

-- `any_task_active`
unfoldable pub any_task_active : (TaskRef → Task) → List TaskRef → Bool
any_task_active heap [] = false
any_task_active heap (r ∷ rs) = not (is_terminated (heap r).state) || any_task_active heap rs

-- The switch into the task at index `next`, as `scheduler_run` and `preempt_handler` make it.
abbrev pub make_current : Kernel → ℕ → Kernel
make_current k next = record (update_task k (ref_at k next) (set_state running)) {
  current_idx = some next;
}

-- One round of the loop of `scheduler_run`, up to its `swapcontext`: the kernel, and whether it
-- switched to a task (`continue` without one).
abbrev pub dispatch_to : Kernel → Option ℕ → Kernel × Bool
dispatch_to k none = (k, false)
dispatch_to k (some next) =
    let k' = make_current k next in (record k' { switch_count = inc64 k'.switch_count }, true)

unfoldable pub scheduler_dispatch : Kernel → Kernel × Bool
unfolding pick_next_ready
scheduler_dispatch k = dispatch_to k (pick_next_ready k)

-- The end of `scheduler_run`, when no task is active.
unfoldable pub scheduler_stop : Kernel → Kernel
scheduler_stop k = record k { current_idx = none }

-- What `task_yield` does to the current task before it enters the scheduler's context.
abbrev pub yield_task : Task → Task
yield_task t =
    if is_running t.state
    then record t { state = ready; context = after_yield }
    else record t { context = after_yield }

abbrev pub yield_at : Kernel → Option ℕ → Kernel × Bool
yield_at k none = (k, false)
yield_at k (some i) = (update_task k (ref_at k i) yield_task, true)

-- `task_yield`, up to its `swapcontext`: the kernel, and whether control left the task.
unfoldable pub task_yield : Kernel → Kernel × Bool
task_yield k = yield_at k k.current_idx
