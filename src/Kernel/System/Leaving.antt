-- ===== src/Kernel/System/Leaving.antt =====
-- The steps of rtos/src/scheduler.c and rtos/src/sync.c by which a running task leaves the processor
-- or changes another task keep `IsSafe`.
use rtos_kernel_from_scratch.Common.{
  ◌≤ℤ◌, ℕ, zero, suc, ◌+◌, ◌%◌, ◌^◌, ◌≡◌, refl, false, Option, none, some, ℤ, pos, negsuc, ◌==◌,
  arith, subst, sym,
}
use rtos_kernel_from_scratch.Kernel.State.{
  dec_ℤ, Task, TaskRef, blocked, terminated, Kernel, is_running, set_state, ref_at, task_at, store,
  update_task,
}
use rtos_kernel_from_scratch.Kernel.Scheduler.{current_of, task_yield, yield_at, yield_task}
use rtos_kernel_from_scratch.Kernel.Preempt.{
  sleep_at, ticks_to_wait, finish_preempt, task_sleep, sleep_task,
}
use rtos_kernel_from_scratch.Kernel.System.{Control, scheduling, executing, left}
use rtos_kernel_from_scratch.Kernel.System.Invariant.{
  IsSafe, Safe, Kept, Kept-refl, Kept-IsSafe, in_task,
}

dec_le : (z : ℤ) → dec_ℤ z ≤ℤ z
dec_le (pos zero) = ground arith
dec_le (pos (suc n)) = ground arith
dec_le (negsuc n) = ground arith

pub unwind-IsSafe :
    (k : Kernel) (r : TaskRef) (c c' : Control)
    → in_task c' ≡ in_task c
    → IsSafe k c
    → IsSafe (finish_preempt k r) c'
unwind-IsSafe k r c c' same v =
    Kept-IsSafe k (finish_preempt k r) c c' refl refl same
      (λ q. record {
        not_started = λ e. ground arith;
        not_deeper = ground (arith, dec_le (k.heap q).pending_preemptions);
      })
      v

-- The current task stops running, and the others stay as they are.
leave-IsSafe :
    (k : Kernel) (heap : TaskRef → Task) (r : TaskRef)
    → current_of k k.current_idx ≡ some r
    → is_running (heap r).state ≡ false
    → (heap r).pending_preemptions ≡ (k.heap r).pending_preemptions
    → ((q : TaskRef) → (r == q) ≡ false → heap q ≡ k.heap q)
    → IsSafe k executing
    → IsSafe (record k { heap = heap }) scheduling
leave-IsSafe k heap r cu st pe others v = record {
  alone = λ q e. ground (arith, v.alone q, others q);
  owner = λ e. absurd (cc);
  bound = λ q. ground (arith, v.bound q, others q);
}

current_ref :
    (k : Kernel) (i : ℕ) → k.current_idx ≡ some i → current_of k k.current_idx ≡ some (ref_at k i)
current_ref k i e = ground arith

yield_at-Safe :
    (k : Kernel) (o : Option ℕ)
    → k.current_idx ≡ o
    → IsSafe k executing
    → Safe (left (yield_at k o))
yield_at-Safe k none cu v = v
yield_at-Safe k (some i) cu v =
    leave-IsSafe k (update_task k (ref_at k i) yield_task).heap (ref_at k i) (current_ref k i cu)
      (ground arith) (ground arith) (λ q h. ground arith) v

pub yield-Safe : (k : Kernel) → IsSafe k executing → Safe (left (task_yield k))
unfolding task_yield
yield-Safe k v = yield_at-Safe k k.current_idx refl v

-- A task that is no longer RUNNING is given `t` and leaves by `task_yield`.
stop_at-Safe :
    (k : Kernel) (t : Task) (i : ℕ)
    → k.current_idx ≡ some i
    → t.pending_preemptions ≡ (task_at k i).pending_preemptions
    → t.state ≡ blocked
    → IsSafe k executing
    → Safe (left (yield_at (record k { heap = store k.heap (ref_at k i) t }) k.current_idx))
stop_at-Safe k t i cu pe st v =
    let k' : Kernel = record k { heap = store k.heap (ref_at k i) t } in
    subst (λ o. Safe (left (yield_at k' o))) (sym cu)
      (leave-IsSafe k (update_task k' (ref_at k i) yield_task).heap (ref_at k i)
        (current_ref k i cu) (ground arith) (ground arith) (λ q h. ground arith) v)

sleep_at-Safe :
    (k : Kernel) (o : Option ℕ) (ms : ℕ)
    → k.current_idx ≡ o
    → IsSafe k executing
    → Safe (left (sleep_at k o ms))
sleep_at-Safe k none ms cu v = v
sleep_at-Safe k (some i) ms cu v =
    stop_at-Safe k (sleep_task ((k.tick_count + ticks_to_wait ms k.tick_ms) % 2 ^ 64) (task_at k i))
      i cu refl refl v

pub sleep-Safe : (k : Kernel) (ms : ℤ) → IsSafe k executing → Safe (left (task_sleep k ms))
unfolding task_sleep
sleep-Safe k (negsuc n) v = v
sleep-Safe k (pos zero) v = v
sleep-Safe k (pos (suc n)) v = sleep_at-Safe k k.current_idx (suc n) refl v

pub finish-IsSafe :
    (k : Kernel) (r : TaskRef)
    → current_of k k.current_idx ≡ some r
    → IsSafe k executing
    → IsSafe (update_task k r (set_state terminated)) scheduling
finish-IsSafe k r cu v =
    leave-IsSafe k (update_task k r (set_state terminated)).heap r cu (ground arith) (ground arith)
      (λ q h. ground arith) v

-- A write into a task that does not make it RUNNING.
pub write-IsSafe :
    (k : Kernel) (r : TaskRef) (f : Task → Task)
    → Kept (k.heap r) (f (k.heap r))
    → IsSafe k executing
    → IsSafe (update_task k r f) executing
write-IsSafe k r f kept v =
    Kept-IsSafe k (update_task k r f) executing executing refl refl refl
      (λ q. ground (arith, kept, Kept-refl (k.heap q))) v
