-- ===== src/Kernel/Task/Stack.antt =====
-- The stack checks of rtos/src/task.c.
use rtos_kernel_from_scratch.Common.{
  ℕ, zero, suc, ◌+◌, ◌-◌, ◌*◌, ◌≤◌, ◌≡◌, ◌≢◌, refl, true, Option, some, List, ◌∷◌, ◌++◌, ℤ, take,
  drop, length, replicate, ltb, leb, arith, length-append, length-replicate, Bool-cases, inl, inr,
  ap, sym, ◌∙◌,
}
use rtos_kernel_from_scratch.Kernel.State.{Task}
use rtos_kernel_from_scratch.Kernel.Task.{
  CLibrary, canary_size, canary_byte, hwm_poison_byte, planted_stack, stack_size_or_default,
  task_create, new_task, all_canary, task_canary_ok, hwm_from, task_stack_high_water_mark,
}

all_canary-replicate : (n : ℕ) → all_canary (replicate n canary_byte) ≡ true
unfolding all_canary
all_canary-replicate zero = refl
all_canary-replicate (suc n) = all_canary-replicate n

hwm_from-replicate :
    (size i n : ℕ) (used : List ℕ)
    → hwm_from size i (replicate n hwm_poison_byte ++ used) ≡ hwm_from size (i + n) used
unfolding hwm_from
hwm_from-replicate size i zero used = ap (λ j. hwm_from size j used) (omega arith)
hwm_from-replicate size i (suc n) used =
    hwm_from-replicate size (i + 1) n used ∙ ap (λ j. hwm_from size j used) (omega arith)

hwm_from-used :
    (size i b : ℕ) (used : List ℕ) → b ≢ hwm_poison_byte → hwm_from size i (b ∷ used) ≡ size - i
unfolding hwm_from
hwm_from-used size i b used ne = ground arith

hwm_lem :
    (t : Task)
    → 2 * canary_size ≤ t.stack_size
    → task_stack_high_water_mark t ≡ hwm_from t.stack_size canary_size (drop canary_size t.stack)
unfolding task_stack_high_water_mark
hwm_lem t big = ground arith

-- For a stack of at least two canaries that holds the canary, then `free` poisoned bytes, then the
-- `used` bytes, the deepest of which is not the poison, the high water mark is the number of used
-- bytes.
pub high_water_mark-used :
    (t : Task) (free b : ℕ) (used : List ℕ)
    → t.stack ≡ replicate canary_size canary_byte ++ (replicate free hwm_poison_byte ++ (b ∷ used))
    → t.stack_size ≡ length t.stack
    → 2 * canary_size ≤ t.stack_size
    → b ≢ hwm_poison_byte
    → task_stack_high_water_mark t ≡ length (b ∷ used)
high_water_mark-used t free b used e size big ne =
    let deep = ap (drop canary_size) e in
    let poisoned = hwm_from-replicate t.stack_size canary_size free (b ∷ used) in
    let total = ap length e in
    let tail = length-append {0} (replicate free hwm_poison_byte) (b ∷ used) in
    let room = length-replicate {0} free hwm_poison_byte in
    let last = hwm_from-used t.stack_size (canary_size + free) b used ne in
    hwm_lem t big ∙ ap (hwm_from t.stack_size canary_size) deep ∙ poisoned ∙ last ∙ omega arith

task_create-new_task :
    (c : CLibrary) (name : Option (List ℕ)) (entry arg : ℕ) (priority : ℤ) (stack_size id : ℕ)
    (t : Task)
    → (task_create c name entry arg priority stack_size id).0 ≡ some t
    → new_task c name entry arg priority stack_size id ≡ t
unfolding task_create
task_create-new_task c name entry arg priority stack_size id t e = ground arith

take-replicate_append :
    (n m k x : ℕ) (ys : List ℕ)
    → k ≡ n + m
    → take k (replicate n x ++ ys) ≡ replicate n x ++ take m ys
take-replicate_append zero m k x ys e = ap (λ j. take j ys) (e ∙ omega arith)
take-replicate_append (suc n) m zero x ys e = absurd (omega arith)
take-replicate_append (suc n) m (suc k) x ys e =
    ap (λ l. x ∷ l) (take-replicate_append n m k x ys (omega arith))

drop-replicate : (n m k x : ℕ) → k ≡ n + m → drop n (replicate k x) ≡ replicate m x
drop-replicate zero m k x e = ap (λ j. replicate j x) (e ∙ omega arith)
drop-replicate (suc n) m zero x e = absurd (omega arith)
drop-replicate (suc n) m (suc k) x e = drop-replicate n m k x (omega arith)

take-replicate : (m k x : ℕ) → m ≤ k → take m (replicate k x) ≡ replicate m x
take-replicate zero k x le = refl
take-replicate (suc m) zero x le = absurd (omega arith)
take-replicate (suc m) (suc k) x le = ap (λ l. x ∷ l) (take-replicate m k x (omega arith))

canary_ok-planted :
    (t : Task) (rest : List ℕ)
    → t.stack ≡ replicate canary_size canary_byte ++ rest
    → task_canary_ok t ≡ true
unfolding task_canary_ok all_canary
canary_ok-planted t rest e = elim (Bool-cases (ltb t.stack_size (2 * canary_size))) [
  | inl small ↦ rw small refl
  | inr big ↦ rw (big, e) refl
]

-- Above the canary a planted stack is poison.
planted_stack-below :
    (size free : ℕ)
    → 2 * canary_size ≤ size
    → canary_size + free ≤ size
    → take (canary_size + free) (planted_stack size)
      ≡ replicate canary_size canary_byte ++ replicate free hwm_poison_byte
unfolding planted_stack
planted_stack-below size free big le =
    let whole : leb (2 * canary_size) size ≡ true = ground arith in
    let rest = size - canary_size in
    rw (whole, drop-replicate canary_size rest size hwm_poison_byte (omega arith))
      (take-replicate_append canary_size free (canary_size + free) canary_byte
          (replicate rest hwm_poison_byte) refl
        ∙ ap (λ l. replicate canary_size canary_byte ++ l)
            (take-replicate free rest hwm_poison_byte (omega arith)))

-- If `makecontext` writes the highest bytes of a stack of at least two canaries, none of them into the
-- canary and the deepest one not the poison, then a task that `task_create` hands out passes the check of
-- its canary, and its high water mark is the number of bytes that `makecontext` wrote.
pub task_create-canary_ok :
    (c : CLibrary) (name : Option (List ℕ)) (entry arg : ℕ) (priority : ℤ) (stack_size id : ℕ)
    (t : Task) (free b : ℕ) (used : List ℕ)
    → (task_create c name entry arg priority stack_size id).0 ≡ some t
    → 2 * canary_size ≤ stack_size_or_default stack_size
    → canary_size + free + length (b ∷ used) ≡ stack_size_or_default stack_size
    → b ≢ hwm_poison_byte
    → c.first_frame (planted_stack (stack_size_or_default stack_size))
      ≡ take (canary_size + free) (planted_stack (stack_size_or_default stack_size)) ++ (b ∷ used)
    → (task_canary_ok t ≡ true) × (task_stack_high_water_mark t ≡ length (b ∷ used))
unfolding new_task
task_create-canary_ok c name entry arg priority stack_size id t free b used e big size ne frame =
    let made = task_create-new_task c name entry arg priority stack_size id t e in
    let whole = stack_size_or_default stack_size in
    let poison = replicate free hwm_poison_byte in
    let stack : t.stack ≡ replicate canary_size canary_byte ++ (poison ++ (b ∷ used)) =
      ap (λ x. x.stack) (sym made)
      ∙ frame
      ∙ ap (λ l. l ++ (b ∷ used)) (planted_stack-below whole free big (omega arith)) in
    let same : t.stack_size ≡ whole = ap (λ x. x.stack_size) (sym made) in
    let room = length-replicate {0} free hwm_poison_byte in
    let tail = length-append {0} poison (b ∷ used) in
    let total = ap length stack in
    (
      canary_ok-planted t (poison ++ (b ∷ used)) stack,
      high_water_mark-used t free b used stack (omega arith) (omega arith) ne,
    )
