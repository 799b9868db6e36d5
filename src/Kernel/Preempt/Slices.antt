-- ===== src/Kernel/Preempt/Slices.antt =====
-- `preempt_handler` of rtos/src/scheduler.c at the end of a time slice.
use rtos_kernel_from_scratch.Common.{
  ℕ, ◌<◌, ◌≡◌, refl, true, false, Option, none, some, Option-cases, arith, inl, inr,
}
use rtos_kernel_from_scratch.Kernel.State.{
  TaskRef, Kernel, ready, inc64, set_state, ref_at, num_tasks, update_task,
}
use rtos_kernel_from_scratch.Kernel.Scheduler.{pick_next_ready}
use rtos_kernel_from_scratch.Kernel.Scheduler.Pick.{
  IsNext, pick_next_ready-IsNext, pick_next_ready-none,
}
use rtos_kernel_from_scratch.Kernel.Preempt.{end_slice, count_tick, preempt_at, preempt_handler}

-- The kernel in which `preempt_handler` calls `pick_next_ready`.
abbrev pub at_choice : Kernel → TaskRef → Kernel
at_choice k cur = update_task (record k { ticks_since_switch = 0 }) cur (set_state ready)

-- At the end of a slice `preempt_handler` always finds a task to switch to, since the current one is
-- READY by then: it counts a switch, even when the task that it switches to is the current one.
pub end_slice-switches :
    (k : Kernel) (i : ℕ)
    → i < num_tasks k
    → (idx : ℕ) × (pick_next_ready (at_choice k (ref_at k i)) ≡ some idx)
      × IsNext (at_choice k (ref_at k i)) idx
      × ((end_slice k (ref_at k i)).1 ≡ true)
      × ((end_slice k (ref_at k i)).0.current_idx ≡ some idx)
      × ((end_slice k (ref_at k i)).0.switch_count ≡ inc64 k.switch_count)
unfolding end_slice
end_slice-switches k i lt = elim (Option-cases (pick_next_ready (at_choice k (ref_at k i)))) [
  | inl e ↦ absurd ((pick_next_ready-none (at_choice k (ref_at k i))).0 e i lt (ground arith))
  | inr (idx, e) ↦ (
    idx,
    e,
    pick_next_ready-IsNext (at_choice k (ref_at k i)) idx e,
    ground arith,
    ground arith,
    ground arith,
  )
]

preempt_at_off :
    (k : Kernel) (o : Option ℕ) → k.preempt_enabled ≡ false → (preempt_at k o).1 ≡ false
preempt_at_off k none off = refl
preempt_at_off k (some i) off = simp off refl

-- With preemption off a tick switches no task.
preempt_handler-off : (k : Kernel) → k.preempt_enabled ≡ false → (preempt_handler k).1 ≡ false
unfolding preempt_handler count_tick
preempt_handler-off k off = preempt_at_off (count_tick k) (count_tick k).current_idx off
