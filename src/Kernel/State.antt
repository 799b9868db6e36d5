-- ===== src/Kernel/State.antt =====
-- The data of the kernel: `task_t` of rtos/src/task.h, and the static variables of
-- rtos/src/scheduler.c. A `task_t *` is a number, the key of the task in the heap, so that two
-- pointers to one task see the same fields.
use rtos_kernel_from_scratch.Common.{
  zero, suc, pos, negsuc, ℕ, ◌+◌, ◌%◌, ◌^◌, Bool, true, false, Option, List, get_or, length, ℤ,
  ◌==◌, if◌then◌else◌,
}

-- `task_state_t`
pub data TaskState : Type 0 where
  ready running blocked terminated : TaskState

-- Where the saved `ucontext_t` of a task resumes: the start of its entry function, behind the
-- `swapcontext` of `task_yield`, or behind that of `preempt_handler`.
pub data Context : Type 0 where
  at_entry after_yield after_preempt in_dispatch : Context

abbrev pub TaskRef : Type 0
TaskRef = ℕ

-- `task_t`; the bytes of the stack are a list, lowest address first.
pub record Task : Type 0 where
  pub id : ℕ
  pub name : List ℕ
  pub context : Context
  pub stack : List ℕ
  pub stack_size : ℕ
  pub state : TaskState
  pub priority : ℤ
  pub entry : ℕ
  pub arg : ℕ
  pub wake_tick : ℕ
  pub ticks_run : ℕ
  pub ticks_ready : ℕ
  pub pending_preemptions : ℤ

-- The static variables of the scheduler, over the heap of tasks. `tasks` is the used part of
-- `g_tasks`, so `g_num_tasks` is its length, and `none` is the index -1.
pub record Kernel : Type 0 where
  pub heap : TaskRef → Task
  pub tasks : List TaskRef
  pub current_idx : Option ℕ
  pub switch_count : ℕ
  pub preempt_enabled : Bool
  pub tick_count : ℕ
  pub tick_ms : ℕ
  pub ticks_per_slice : ℕ
  pub ticks_since_switch : ℕ

-- `SCHED_MAX_TASKS`
abbrev pub max_tasks : ℕ
max_tasks = 32

-- `x++` on a `uint64_t`
abbrev pub inc64 : ℕ → ℕ
inc64 x = (x + 1) % 2 ^ 64

abbrev pub is_ready : TaskState → Bool
is_ready ready = true
is_ready running = false
is_ready blocked = false
is_ready terminated = false

abbrev pub is_running : TaskState → Bool
is_running ready = false
is_running running = true
is_running blocked = false
is_running terminated = false

abbrev pub is_terminated : TaskState → Bool
is_terminated ready = false
is_terminated running = false
is_terminated blocked = false
is_terminated terminated = true

-- A write through a `task_t *`.
abbrev pub store : (TaskRef → Task) → TaskRef → Task → TaskRef → Task
store heap r t x = if r == x then t else heap x

abbrev pub set_state : TaskState → Task → Task
set_state st t = record t { state = st }

-- `g_tasks[i]`, the pointer and the task behind it. An index is in range wherever the code reads.
abbrev pub ref_at : Kernel → ℕ → TaskRef
ref_at k i = get_or k.tasks i 0

abbrev pub task_at : Kernel → ℕ → Task
task_at k i = k.heap (ref_at k i)

abbrev pub num_tasks : Kernel → ℕ
num_tasks k = length k.tasks

abbrev pub update_task : Kernel → TaskRef → (Task → Task) → Kernel
update_task k r f = record k { heap = store k.heap r (f (k.heap r)) }

-- `n++` and `n--` of an `int`.
abbrev pub inc_ℤ : ℤ → ℤ
inc_ℤ (pos n) = pos (suc n)
inc_ℤ (negsuc zero) = pos 0
inc_ℤ (negsuc (suc n)) = negsuc n

abbrev pub dec_ℤ : ℤ → ℤ
dec_ℤ (pos zero) = negsuc 0
dec_ℤ (pos (suc n)) = pos n
dec_ℤ (negsuc n) = negsuc (suc n)
