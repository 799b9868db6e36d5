-- ===== src/Kernel/System/Safety.antt =====
-- What holds in every reachable state of the scheduler of rtos/src/scheduler.c.
use rtos_kernel_from_scratch.Common.{◌≤ℤ◌, pos, ◌≡◌, true, Option, none, some, arith}
use rtos_kernel_from_scratch.Kernel.State.{TaskRef, Task, running}
use rtos_kernel_from_scratch.Kernel.Scheduler.{scheduler_current_task}
use rtos_kernel_from_scratch.Kernel.System.{System, IsNew, Reach, boot}
use rtos_kernel_from_scratch.Kernel.System.Invariant.{is_current}
use rtos_kernel_from_scratch.Kernel.System.Preserve.{Reach-Safe}

current_of_is_current : (o : Option TaskRef) (r : TaskRef) → is_current o r ≡ true → o ≡ some r
current_of_is_current none r h = absurd (cc)
current_of_is_current (some c) r h = ground arith

-- In every state that the kernel can reach by steps from boot over new tasks, whatever states, deadlines
-- and priorities the tasks write and wherever between these steps ticks come, also into a dispatch, a task
-- that is RUNNING is the one that `scheduler_current_task` returns; so two are never RUNNING at once.
pub running_is_current :
    (heap : TaskRef → Task) {s : System}
    → ((r : TaskRef) → IsNew (heap r))
    → Reach (boot heap) s
    → (r : TaskRef) → (s.kernel.heap r).state ≡ running
    → scheduler_current_task s.kernel ≡ some r
unfolding scheduler_current_task
running_is_current heap {s} new reach r e =
    current_of_is_current _ r ((Reach-Safe heap new reach).alone r e).1

-- In every state that the kernel can reach by steps from boot over new tasks, whatever states, deadlines
-- and priorities the tasks write and wherever between these steps ticks come, also into a dispatch,
-- `pending_preemptions` of no task is above one.
pub pending_preemptions-le_one :
    (heap : TaskRef → Task) {s : System}
    → ((r : TaskRef) → IsNew (heap r))
    → Reach (boot heap) s
    → (r : TaskRef) → (s.kernel.heap r).pending_preemptions ≤ℤ pos 1
pending_preemptions-le_one heap {s} new reach r = (Reach-Safe heap new reach).bound r
