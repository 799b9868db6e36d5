-- ===== src/Kernel/System/Switches.antt =====
-- The steps of rtos/src/scheduler.c that switch to a task keep `IsSafe`: the loop of `scheduler_run`
-- and the timer tick.
use rtos_kernel_from_scratch.Common.{
  ℤ, zero, suc, pos, negsuc, ◌≤ℤ◌, ltb_ℤ, ltb_ℤ→le, ℕ, ◌+◌, ◌<◌, ◌≡◌, ◌≢◌, ◌⊎◌, inl, inr, refl, sym,
  subst, ◌∙◌, Bool, true, false, Option, none, some, if◌then◌else◌, arith, Bool-cases, Option-cases,
  ltb,
}
use rtos_kernel_from_scratch.Kernel.State.{
  inc_ℤ, Task, Context, at_entry, after_yield, after_preempt, in_dispatch, inc64, TaskRef,
  TaskState, ready, running, Kernel, is_running, set_state, ref_at, task_at, update_task, num_tasks,
}
use rtos_kernel_from_scratch.Kernel.Scheduler.{
  scheduler_stop, current_of, scheduler_dispatch, pick_next_ready, dispatch_to, make_current,
}
use rtos_kernel_from_scratch.Kernel.Scheduler.Pick.{pick_next_ready-IsNext}
use rtos_kernel_from_scratch.Kernel.Preempt.{
  count_tick, preempt_current, end_slice, switch_to, preempt_handler, preempt_at,
}
use rtos_kernel_from_scratch.Kernel.System.{
  Control, scheduling, entering, executing, switched, resume_at, resume_current, saved_in,
}
use rtos_kernel_from_scratch.Kernel.System.Invariant.{
  IsSafe, Safe, Kept-refl, Kept-IsSafe, bookkeeping-Kept, in_task,
}

in_task-resume_at : (x : Context) → in_task (resume_at x) ≡ true
in_task-resume_at at_entry = refl
in_task-resume_at after_yield = refl
in_task-resume_at after_preempt = refl
in_task-resume_at in_dispatch = refl

resume_current-in_task :
    (heap heap' : TaskRef → Task) (o : Option TaskRef)
    → in_task (resume_current heap o) ≡ in_task (resume_current heap' o)
resume_current-in_task heap heap' none = refl
resume_current-in_task heap heap' (some r) =
    in_task-resume_at (heap r).context ∙ sym (in_task-resume_at (heap' r).context)

-- Wherever `swapcontext` resumes the current task, it is in that task.
resume_current-Safe :
    (k : Kernel) (i : ℕ) (c : Control)
    → k.current_idx ≡ some i
    → in_task c ≡ true
    → IsSafe k c
    → IsSafe k (resume_current k.heap (current_of k k.current_idx))
resume_current-Safe k i c cu e v =
    subst (λ o. IsSafe k (resume_current k.heap (current_of k o))) (sym cu)
      (Kept-IsSafe k k c (resume_at (k.heap (ref_at k i)).context) refl refl
        (in_task-resume_at _ ∙ sym e) (λ r. Kept-refl (k.heap r)) v)

pub choose-Safe :
    (k : Kernel) (idx : ℕ)
    → idx < num_tasks k
    → IsSafe k scheduling
    → IsSafe (make_current k idx) entering
choose-Safe k idx lt v = record {
  alone = λ r e. ground (arith, v.alone r);
  owner = λ e. (idx, refl, lt);
  bound = λ r. ground (arith, v.bound r);
}

pub enter-Safe :
    (k : Kernel)
    → IsSafe k entering
    → Safe (switched entering (record k { switch_count = inc64 k.switch_count }, true))
enter-Safe k v =
    let k' : Kernel = record k { switch_count = inc64 k.switch_count } in
    let (i, cu, lt) = v.owner refl in
    resume_current-Safe k' i entering cu refl
      (Kept-IsSafe k k' entering entering refl refl refl (λ r. Kept-refl (k.heap r)) v)

dispatch_to-Safe :
    (k : Kernel) (idx : ℕ)
    → idx < num_tasks k
    → IsSafe k scheduling
    → Safe (switched scheduling (dispatch_to k (some idx)))
dispatch_to-Safe k idx lt v = enter-Safe (make_current k idx) (choose-Safe k idx lt v)

pub dispatch-Safe :
    (k : Kernel) → IsSafe k scheduling → Safe (switched scheduling (scheduler_dispatch k))
unfolding scheduler_dispatch
dispatch-Safe k v = elim (Option-cases (pick_next_ready k)) [
  | inl e ↦ rw e v
  | inr (idx, e) ↦
      let n = pick_next_ready-IsNext k idx e in rw e (dispatch_to-Safe k idx n.in_range v)
]

inc_le : (z : ℤ) → z ≤ℤ pos 0 → inc_ℤ z ≤ℤ pos 1
inc_le (pos n) h = ground arith
inc_le (negsuc zero) h = ground arith
inc_le (negsuc (suc n)) h = ground arith

switch_to-Safe :
    (k : Kernel) (c : Control) (cur : TaskRef) (idx : ℕ)
    → (k.heap cur).pending_preemptions ≤ℤ pos 0
    → idx < num_tasks k
    → ((r : TaskRef) → (k.heap r).state ≢ running)
    → ((r : TaskRef) → (k.heap r).pending_preemptions ≤ℤ pos 1)
    → Safe (switched c (switch_to k cur (some idx)))
switch_to-Safe k c cur idx pe lt quiet bound =
    resume_current-Safe (switch_to k cur (some idx)).0 idx executing refl refl (record {
      alone = λ r e. ground (arith, quiet r);
      owner = λ e. (idx, refl, lt);
      bound = λ r. ground (arith, bound r, inc_le (k.heap cur).pending_preemptions pe);
    })

end_slice-Safe :
    (k : Kernel) (c : Control) (i : ℕ)
    → k.current_idx ≡ some i
    → (task_at k i).state ≡ running
    → (task_at k i).pending_preemptions ≤ℤ pos 0
    → IsSafe k c
    → Safe (switched c (end_slice k (ref_at k i)))
unfolding end_slice
end_slice-Safe k c i cu st pe v = elim (Option-cases (pick_next_ready k')) [
  | inl e ↦ rw e (
      Kept-IsSafe k (update_task k' (ref_at k i) (set_state running)) c c refl refl refl
        (λ r. record { not_started = λ e. ground arith; not_deeper = ground arith }) v)
  | inr (idx, e) ↦
      let n = pick_next_ready-IsNext k' idx e in
      rw e (
        switch_to-Safe k' c (ref_at k i) idx (ground arith) n.in_range
          (λ r h. ground (arith, v.alone r)) (λ r. ground (arith, v.bound r)))
]
  where
    k' : Kernel
    k' = update_task (record k { ticks_since_switch = 0 }) (ref_at k i) (set_state ready)

-- The counter of the slice is read by nothing in the invariant.
slice-IsSafe :
    (k : Kernel) (c : Control) (n : ℕ) → IsSafe k c → IsSafe (record k { ticks_since_switch = n }) c
slice-IsSafe k c n v =
    Kept-IsSafe k (record k { ticks_since_switch = n }) c c refl refl refl
      (λ r. Kept-refl (k.heap r)) v

-- `preempt_current`, by what stops it.
preempt_current-idle :
    (k : Kernel) (cur : TaskRef)
    → ((is_running (k.heap cur).state ≡ false)
        ⊎ (ltb_ℤ (pos 0) (k.heap cur).pending_preemptions ≡ true))
    → preempt_current k cur ≡ (k, false)
unfolding preempt_current
preempt_current-idle k cur (inl h) = ground arith
preempt_current-idle k cur (inr h) = ground arith

preempt_current-tick :
    (k : Kernel) (cur : TaskRef)
    → is_running (k.heap cur).state ≡ true
    → ltb_ℤ (pos 0) (k.heap cur).pending_preemptions ≡ false
    → preempt_current k cur ≡ (
        if ltb (k.ticks_since_switch + 1) k.ticks_per_slice
        then (record k { ticks_since_switch = k.ticks_since_switch + 1 }, false)
        else end_slice k cur)
unfolding preempt_current
preempt_current-tick k cur st pe = ground arith

running_eq : (s : TaskState) → is_running s ≡ true → s ≡ running
running_eq s h = ground arith

preempt_running-Safe :
    (k : Kernel) (c : Control) (i : ℕ)
    → k.current_idx ≡ some i
    → is_running (task_at k i).state ≡ true
    → IsSafe k c
    → Safe (switched c (preempt_current k (ref_at k i)))
preempt_running-Safe k c i cu st v =
    elim (Bool-cases (ltb_ℤ (pos 0) (task_at k i).pending_preemptions)) [
      | inl owed ↦ rw (preempt_current-idle k (ref_at k i) (inr owed)) v
      | inr free ↦
          let pe : (task_at k i).pending_preemptions ≤ℤ pos 0 =
            ltb_ℤ→le (pos 0) (task_at k i).pending_preemptions free in
          rw (preempt_current-tick k (ref_at k i) st free)
            (elim (Bool-cases (ltb (k.ticks_since_switch + 1) k.ticks_per_slice)) [
              | inl e ↦ rw e (slice-IsSafe k c (k.ticks_since_switch + 1) v)
              | inr e ↦ rw e (end_slice-Safe k c i cu (running_eq _ st) pe v)
            ])
    ]

preempt_current-Safe :
    (k : Kernel) (c : Control) (i : ℕ)
    → k.current_idx ≡ some i
    → IsSafe k c
    → Safe (switched c (preempt_current k (ref_at k i)))
preempt_current-Safe k c i cu v = elim (Bool-cases (is_running (task_at k i).state)) [
  | inl e ↦ preempt_running-Safe k c i cu e v
  | inr e ↦ rw (preempt_current-idle k (ref_at k i) (inl e)) v
]

preempt_at-Safe :
    (k : Kernel) (c : Control) (o : Option ℕ)
    → k.current_idx ≡ o
    → IsSafe k c
    → Safe (switched c (preempt_at k o))
preempt_at-Safe k c none cu v = v
preempt_at-Safe k c (some i) cu v = elim (Bool-cases k.preempt_enabled) [
  | inl e ↦ simp e (preempt_current-Safe k c i cu v)
  | inr e ↦ simp e v
]

count_tick-IsSafe : (k : Kernel) (c : Control) → IsSafe k c → IsSafe (count_tick k) c
unfolding count_tick
count_tick-IsSafe k c v =
    Kept-IsSafe k _ c c refl refl refl (λ r. bookkeeping-Kept _ k.tasks k.heap r) v

pub tick-Safe : (k : Kernel) (c : Control) → IsSafe k c → Safe (switched c (preempt_handler k))
unfolding preempt_handler
tick-Safe k c v =
    preempt_at-Safe (count_tick k) c (count_tick k).current_idx refl (count_tick-IsSafe k c v)

saved_in-Safe :
    (c : Control) (r : TaskRef) (x : Kernel × Bool)
    → Safe (switched c x)
    → Safe (switched c (saved_in r x))
saved_in-Safe c r (k, false) v = v
saved_in-Safe c r (k, true) v =
    let k' = (saved_in r (k, true)).0 in
    Kept-IsSafe k k' (resume_current k.heap (current_of k k.current_idx))
      (resume_current k'.heap (current_of k k.current_idx)) refl refl
      (resume_current-in_task k'.heap k.heap (current_of k k.current_idx))
      (λ q. record { not_started = λ e. ground arith; not_deeper = ground arith }) v

pub tick_entering-Safe :
    (k : Kernel) (r : TaskRef)
    → IsSafe k entering
    → Safe (switched entering (saved_in r (preempt_handler k)))
tick_entering-Safe k r v = saved_in-Safe entering r (preempt_handler k) (tick-Safe k entering v)

pub stop-IsSafe : (k : Kernel) → IsSafe k scheduling → IsSafe (scheduler_stop k) scheduling
unfolding scheduler_stop
stop-IsSafe k v = record {
  alone = λ r e. ground (arith, v.alone r);
  owner = λ e. absurd (cc);
  bound = v.bound;
}
