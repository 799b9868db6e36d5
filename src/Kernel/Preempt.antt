-- ===== src/Kernel/Preempt.antt =====
-- The preemptive part of rtos/src/scheduler.c: the timer tick, sleeping, and the settings. The
-- calls of `sigaction` and `setitimer` have no state here: a tick is a call of `preempt_handler`.
pub mod Slices
pub mod Sleep
use rtos_kernel_from_scratch.Common.{
  ltb_ℤ, ℕ, zero, suc, ◌+◌, ◌-◌, ◌/◌, ◌%◌, ◌^◌, Bool, true, false, not, ◌&&◌, ◌||◌, Option, none,
  some, List, [], ◌∷◌, ℤ, pos, negsuc, ◌==◌, leb, ltb, if◌then◌else◌,
}
use rtos_kernel_from_scratch.Kernel.State.{
  inc_ℤ, dec_ℤ, Task, TaskRef, TaskState, ready, running, blocked, terminated, Kernel,
  after_preempt, inc64, is_running, set_state, ref_at, task_at, store, update_task,
}
use rtos_kernel_from_scratch.Kernel.Scheduler.{pick_next_ready, make_current, task_yield, yield_at}

-- The body of the loop of `update_tick_bookkeeping`, by the state of the task.
abbrev tick_by : TaskState → ℕ → Task → Task
tick_by running now t = record t { ticks_run = inc64 t.ticks_run }
tick_by ready now t = record t { ticks_ready = inc64 t.ticks_ready }
tick_by blocked now t =
    if not (t.wake_tick == 0) && leb t.wake_tick now
    then record t { wake_tick = 0; state = ready }
    else t
tick_by terminated now t = t

unfoldable pub tick_task : ℕ → Task → Task
tick_task now t = tick_by t.state now t

-- `update_tick_bookkeeping`
unfoldable pub update_tick_bookkeeping : ℕ → List TaskRef → (TaskRef → Task) → TaskRef → Task
update_tick_bookkeeping now [] heap = heap
update_tick_bookkeeping now (r ∷ rs) heap =
    update_tick_bookkeeping now rs (store heap r (tick_task now (heap r)))

-- What `preempt_handler` does to the task that it switches out.
abbrev mark_preempted : Task → Task
mark_preempted t = record t {
  pending_preemptions = inc_ℤ t.pending_preemptions;
  context = after_preempt;
}

-- `preempt_handler` behind its call of `pick_next_ready`, the task at `cur` READY.
abbrev pub switch_to : Kernel → TaskRef → Option ℕ → Kernel × Bool
switch_to k cur none = (update_task k cur (set_state running), false)
switch_to k cur (some next) =
    let k' = update_task (make_current k next) cur mark_preempted in
    (record k' { switch_count = inc64 k'.switch_count }, true)

-- `preempt_handler` from the end of a time slice on.
unfoldable pub end_slice : Kernel → TaskRef → Kernel × Bool
unfolding pick_next_ready
end_slice k cur =
    let k' = update_task (record k { ticks_since_switch = 0 }) cur (set_state ready) in
    switch_to k' cur (pick_next_ready k')

-- `preempt_handler` with preemption on and `g_tasks[g_current_idx]` at hand.
unfoldable pub preempt_current : Kernel → TaskRef → Kernel × Bool
unfolding end_slice
preempt_current k cur =
    if not (is_running (k.heap cur).state)
    then (k, false)
    else if ltb_ℤ (pos 0) (k.heap cur).pending_preemptions
    then (k, false)
    else if ltb (k.ticks_since_switch + 1) k.ticks_per_slice
    then (record k { ticks_since_switch = k.ticks_since_switch + 1 }, false)
    else end_slice k cur

abbrev pub preempt_at : Kernel → Option ℕ → Kernel × Bool
preempt_at k none = (k, false)
preempt_at k (some i) = if k.preempt_enabled then preempt_current k (ref_at k i) else (k, false)

-- The start of `preempt_handler`: the tick is counted and the tasks are sampled.
unfoldable pub count_tick : Kernel → Kernel
unfolding update_tick_bookkeeping
count_tick k =
    let now = inc64 k.tick_count in
    record k { tick_count = now; heap = update_tick_bookkeeping now k.tasks k.heap }

-- `preempt_handler`, up to its `swapcontext`: the kernel, and whether it switched tasks.
unfoldable pub preempt_handler : Kernel → Kernel × Bool
unfolding count_tick preempt_current
preempt_handler k = let k' = count_tick k in preempt_at k' k'.current_idx

abbrev unwind_task : Task → Task
unwind_task t = record t { pending_preemptions = dec_ℤ t.pending_preemptions }

-- The end of `preempt_handler`, when the task that it switched out runs again.
abbrev pub finish_preempt : Kernel → TaskRef → Kernel
finish_preempt k cur = update_task k cur unwind_task

-- `(n > 0) ? n : 1`
abbrev at_least_one : ℤ → ℕ
at_least_one (pos zero) = 1
at_least_one (pos (suc n)) = suc n
at_least_one (negsuc n) = 1

-- `scheduler_enable_preemption`
unfoldable pub scheduler_enable_preemption : Kernel → ℤ → ℤ → Kernel
scheduler_enable_preemption k tick_ms ticks_per_slice = record k {
  tick_ms = at_least_one tick_ms;
  ticks_per_slice = at_least_one ticks_per_slice;
  ticks_since_switch = 0;
  preempt_enabled = true;
}

-- `scheduler_disable_preemption`
unfoldable pub scheduler_disable_preemption : Kernel → Kernel
scheduler_disable_preemption k = record k { preempt_enabled = false }

-- `scheduler_reset`
unfoldable scheduler_reset : Kernel → Kernel
unfolding scheduler_disable_preemption
scheduler_reset k = record (scheduler_disable_preemption k) {
  tasks = [];
  current_idx = none;
  tick_count = 0;
  ticks_since_switch = 0;
  switch_count = 0;
}

-- The ticks that `task_sleep` waits for `ms` milliseconds.
unfoldable pub ticks_to_wait : ℕ → ℕ → ℕ
ticks_to_wait ms tick_ms = if ms / tick_ms == 0 then 1 else ms / tick_ms

abbrev pub sleep_task : ℕ → Task → Task
sleep_task until t = record t { wake_tick = until; state = blocked }

abbrev pub sleep_at : Kernel → Option ℕ → ℕ → Kernel × Bool
sleep_at k none ms = (k, false)
sleep_at k (some i) ms =
    let until = (k.tick_count + ticks_to_wait ms k.tick_ms) % 2 ^ 64 in
    let k' = update_task k (ref_at k i) (sleep_task until) in yield_at k' k'.current_idx

-- `task_sleep`, up to the `swapcontext` of its `task_yield`.
unfoldable pub task_sleep : Kernel → ℤ → Kernel × Bool
unfolding ticks_to_wait
task_sleep k (negsuc n) = (k, false)
task_sleep k (pos zero) = (k, false)
task_sleep k (pos (suc n)) = sleep_at k k.current_idx (suc n)
