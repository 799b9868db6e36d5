-- ===== src/Kernel/Task.antt =====
-- rtos/src/task.c and rtos/src/kernel.c: creating a task, and what its stack tells of its use.
pub mod Stack
use rtos_kernel_from_scratch.Common.{
  pos, ℕ, zero, suc, ◌+◌, ◌-◌, ◌*◌, Bool, true, false, Option, none, some, List, [], ◌∷◌, ◌++◌, ℤ,
  take, drop, length, replicate, ◌==◌, ltb, leb, if◌then◌else◌, not,
}
use rtos_kernel_from_scratch.Kernel.State.{
  Task, TaskRef, ready, terminated, at_entry, Kernel, store, set_state,
}
use rtos_kernel_from_scratch.Kernel.Scheduler.{scheduler_add_task}

-- `TASK_DEFAULT_STACK_SIZE`, `TASK_NAME_MAX`, `TASK_CANARY_SIZE`, `TASK_CANARY_BYTE` and
-- `TASK_HWM_POISON_BYTE`
abbrev default_stack_size : ℕ
default_stack_size = 64 * 1024

abbrev name_max : ℕ
name_max = 16

abbrev pub canary_size : ℕ
canary_size = 16

abbrev pub canary_byte : ℕ
canary_byte = 0xA5

abbrev pub hwm_poison_byte : ℕ
hwm_poison_byte = 0xA6

-- `memset(p, byte, n)` on the bytes from `p` on.
abbrev memset : List ℕ → ℕ → ℕ → List ℕ
memset xs byte n = replicate n byte ++ drop n xs

-- `strncpy(dst, src, n)`: up to `n` bytes of the string, and zeros.
abbrev strncpy : ℕ → List ℕ → List ℕ
strncpy n src = take n src ++ replicate (n - length (take n src)) 0

-- The stack after the poison and the canary are planted.
pub planted_stack : ℕ → List ℕ
planted_stack size =
    let poisoned = replicate size hwm_poison_byte in
    if leb (2 * canary_size) size then memset poisoned canary_byte canary_size else poisoned

-- What the C library gives `task_create`: whether `calloc`, `malloc` and `getcontext` succeed, the
-- text that `snprintf` makes of an id, and the stack with the first frame that `makecontext` wrote.
pub record CLibrary : Type 0 where
  pub calloc_ok : Bool
  pub malloc_ok : Bool
  pub getcontext_ok : Bool
  pub default_name : ℕ → List ℕ
  pub first_frame : List ℕ → List ℕ

abbrev pub stack_size_or_default : ℕ → ℕ
stack_size_or_default size = if size == 0 then default_stack_size else size

abbrev name_bytes : CLibrary → Option (List ℕ) → ℕ → List ℕ
name_bytes c (some name) id = strncpy (name_max - 1) name ++ (0 ∷ [])
name_bytes c none id = c.default_name id

-- The task that `task_create` hands out, once every allocation has succeeded.
pub new_task : CLibrary → Option (List ℕ) → ℕ → ℕ → ℤ → ℕ → ℕ → Task
unfolding planted_stack
new_task c name entry arg priority stack_size id = record {
  id = id;
  name = name_bytes c name id;
  context = at_entry;
  stack = c.first_frame (planted_stack (stack_size_or_default stack_size));
  stack_size = stack_size_or_default stack_size;
  state = ready;
  priority = priority;
  entry = entry;
  arg = arg;
  wake_tick = 0;
  ticks_run = 0;
  ticks_ready = 0;
  pending_preemptions = pos 0;
}

-- `task_create`, with `g_next_task_id` before and after; `none` is NULL. The id is used up even
-- where `getcontext` fails.
unfoldable pub task_create : CLibrary → Option (List ℕ) → ℕ → ℕ → ℤ → ℕ → ℕ → Option Task × ℕ
unfolding new_task
task_create c name entry arg priority stack_size next_id =
    if not c.calloc_ok
    then (none, next_id)
    else if not c.malloc_ok
    then (none, next_id)
    else if not c.getcontext_ok
    then (none, next_id + 1)
    else (some (new_task c name entry arg priority stack_size next_id), next_id + 1)

-- `task_spawn`: the new task goes to the free place `r` of the heap, and into the ready queue.
abbrev spawn_at : Kernel → TaskRef → Option Task × ℕ → Kernel × Option TaskRef × ℕ
spawn_at k r (none, id) = (k, none, id)
spawn_at k r (some t, id) =
    (scheduler_add_task (record k { heap = store k.heap r t }) r, some r, id)

unfoldable task_spawn :
    CLibrary → Kernel → TaskRef → Option (List ℕ) → ℕ → ℕ → ℤ → ℕ → Kernel × Option TaskRef × ℕ
unfolding task_create
task_spawn c k r name entry arg priority next_id =
    spawn_at k r (task_create c name entry arg priority 0 next_id)

-- The end of `task_trampoline`, when the entry function has returned.
abbrev trampoline_end : Task → Task
trampoline_end t = set_state terminated t

-- The loop of `task_canary_ok` over the guard bytes.
pub all_canary : List ℕ → Bool
all_canary [] = true
all_canary (b ∷ bs) = if b == canary_byte then all_canary bs else false

-- `task_canary_ok`
pub task_canary_ok : Task → Bool
unfolding all_canary
task_canary_ok t =
    if ltb t.stack_size (2 * canary_size) then true else all_canary (take canary_size t.stack)

-- The loop of `task_stack_high_water_mark` at index `i`, over the bytes from there on.
pub hwm_from : ℕ → ℕ → List ℕ → ℕ
hwm_from size i [] = 0
hwm_from size i (b ∷ bs) =
    let rest = hwm_from size (i + 1) bs in if b == hwm_poison_byte then rest else size - i

-- `task_stack_high_water_mark`
pub task_stack_high_water_mark : Task → ℕ
unfolding hwm_from
task_stack_high_water_mark t =
    if ltb t.stack_size (2 * canary_size)
    then t.stack_size
    else hwm_from t.stack_size canary_size (drop canary_size t.stack)
