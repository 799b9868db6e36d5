-- ===== src/Kernel/System/Preserve.antt =====
-- Every step of the scheduler of rtos/src/scheduler.c keeps `IsSafe`.
use rtos_kernel_from_scratch.Common.{arith, refl}
use rtos_kernel_from_scratch.Kernel.State.{Task, TaskRef, set_state}
use rtos_kernel_from_scratch.Kernel.System.{
  System, Step, IsNew, Reach, boot, dispatch, tick, unwind, yield, sleep, choose, enter,
  tick_entering, return_to_dispatch, write_state, write_deadline, finish, entering, executing,
  unwinding, returning, spawn, stop, reprioritise, configure, disarm, here, next,
}
use rtos_kernel_from_scratch.Kernel.System.Invariant.{Safe}
use rtos_kernel_from_scratch.Kernel.System.Switches.{
  choose-Safe, enter-Safe, dispatch-Safe, tick-Safe, tick_entering-Safe, stop-IsSafe,
}
use rtos_kernel_from_scratch.Kernel.System.Leaving.{
  unwind-IsSafe, yield-Safe, sleep-Safe, finish-IsSafe, write-IsSafe,
}
use rtos_kernel_from_scratch.Kernel.System.Spawning.{spawn-IsSafe, configure-IsSafe, disarm-IsSafe}

-- Every step of the program keeps `IsSafe`.
Step-Safe : {s u : System} → Step s u → Safe s → Safe u
Step-Safe (dispatch k) v = dispatch-Safe k v
Step-Safe (stop k e) v = stop-IsSafe k v
Step-Safe (choose k idx lt rd) v = choose-Safe k idx lt v
Step-Safe (enter k) v = enter-Safe k v
Step-Safe (tick k c ne) v = tick-Safe k c v
Step-Safe (tick_entering k r e) v = tick_entering-Safe k r v
Step-Safe (unwind k r e) v = unwind-IsSafe k r unwinding executing refl v
Step-Safe (return_to_dispatch k r e) v = unwind-IsSafe k r returning entering refl v
Step-Safe (yield k) v = yield-Safe k v
Step-Safe (sleep k ms) v = sleep-Safe k ms v
Step-Safe (write_state k r st ne) v =
    write-IsSafe k r (set_state st)
      (record { not_started = λ e. absurd (ne e); not_deeper = omega arith }) v
Step-Safe (write_deadline k r until) v =
    write-IsSafe k r (λ t. record t { wake_tick = until })
      (record { not_started = λ e. e; not_deeper = omega arith }) v
Step-Safe (reprioritise k r p) v =
    write-IsSafe k r (λ t. record t { priority = p })
      (record { not_started = λ e. e; not_deeper = omega arith }) v
Step-Safe (finish k r e) v = finish-IsSafe k r e v
Step-Safe (spawn k c r t new fresh) v = spawn-IsSafe k c r t new v
Step-Safe (configure k c m n) v = configure-IsSafe k c m n v
Step-Safe (disarm k c) v = disarm-IsSafe k c v

boot-Safe : (heap : TaskRef → Task) → ((r : TaskRef) → IsNew (heap r)) → Safe (boot heap)
boot-Safe heap new = record {
  alone = λ r e. ground (arith, new r);
  owner = λ e. absurd (cc);
  bound = λ r. ground (arith, new r);
}

pub Reach-Safe :
    (heap : TaskRef → Task) {s : System}
    → ((r : TaskRef) → IsNew (heap r))
    → Reach (boot heap) s
    → Safe s
Reach-Safe heap new here = boot-Safe heap new
Reach-Safe heap new (next r st) = Step-Safe st (Reach-Safe heap new r)
