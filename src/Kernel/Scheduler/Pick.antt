-- ===== src/Kernel/Scheduler/Pick.antt =====
-- `pick_next_ready` of rtos/src/scheduler.c against its contract: a READY task of the highest
-- priority, the first one in cyclic order behind the current task.
use native.Mathlib.Nat.{mod-lt}
use rtos_kernel_from_scratch.Common.{
  ℕ, ◌+◌, ◌%◌, ◌<◌, ◌≡◌, ◌≢◌, ◌↔◌, inl, inr, refl, true, false, Option, none, some, ℤ, ◌≤ℤ◌,
  eqb_ℤ→eq, eqb_ℤ_self, ◌==◌, arith, Bool-cases, Option-cases, ◌∙◌,
}
use rtos_kernel_from_scratch.Kernel.State.{Task, Kernel, ready, task_at, num_tasks}
use rtos_kernel_from_scratch.Kernel.Scheduler.{
  best_priority, is_candidate, find_candidate, round_start, pick_among, pick_next_ready,
}
use rtos_kernel_from_scratch.Kernel.Scheduler.Best.{
  Attained, best_priority-AtMost, best_priority-Attained, best_priority-none,
}
use rtos_kernel_from_scratch.Kernel.Scheduler.Sweep.{
  sweep_reaches, Found, find_candidate-none, find_candidate-Found,
}

-- What `pick_next_ready` promises of an index that it returns.
pub record IsNext (k : Kernel) (idx : ℕ) : Type 0 where
  pub in_range : idx < num_tasks k
  pub runnable : (task_at k idx).state ≡ ready
  pub highest :
      (j : ℕ)
      → j < num_tasks k
      → (task_at k j).state ≡ ready
      → (task_at k j).priority ≤ℤ (task_at k idx).priority
  pub steps : ℕ
  pub steps_lt : steps < num_tasks k
  pub reached : idx ≡ (round_start k k.current_idx + steps) % num_tasks k
  pub first :
      (e : ℕ)
      → e < steps
      → (task_at k ((round_start k k.current_idx + e) % num_tasks k)).state ≡ ready
      → (task_at k ((round_start k k.current_idx + e) % num_tasks k)).priority
        ≢ (task_at k idx).priority

round_start_lt : (k : Kernel) → 0 < num_tasks k → round_start k k.current_idx < num_tasks k
round_start_lt k h = elim (Option-cases k.current_idx) [
  | inl e ↦ rw e h
  | inr (i, e) ↦ rw e (mod-lt (i + 1) h)
]

candidate-parts :
    (p : ℤ) (t : Task) → is_candidate p t ≡ true → (t.state ≡ ready) × (t.priority ≡ p)
candidate-parts p t h = (ground arith, ground (arith, eqb_ℤ→eq t.priority p))

not_candidate : (p : ℤ) (t : Task) → is_candidate p t ≡ false → t.state ≡ ready → t.priority ≢ p
not_candidate p t h st e = ground (arith, eqb_ℤ_self p)

Found-IsNext :
    (k : Kernel) (p : ℤ) (idx : ℕ)
    → 0 < num_tasks k
    → best_priority k.heap k.tasks none ≡ some p
    → Found k p (round_start k k.current_idx) (num_tasks k) 0 idx
    → IsNext k idx
Found-IsNext k p idx pos b f =
    let (st, pr) = candidate-parts p (task_at k idx) f.candidate in
    let (_, bound) = best_priority-AtMost k.heap k.tasks none p b in
    let shift : (e : ℕ) → 0 + e ≡ e = λ e. omega arith in
    record {
      in_range = rw f.reached (mod-lt (round_start k k.current_idx + (0 + f.steps)) pos);
      runnable = st;
      highest = λ j lt h. rw pr (bound j lt h);
      steps = f.steps;
      steps_lt = f.steps_lt;
      reached = rw (← shift f.steps) f.reached;
      first = λ e lt ready_e same.
          not_candidate p (task_at k ((round_start k k.current_idx + e) % num_tasks k))
            (rw (← shift e) (f.first e lt)) ready_e (same ∙ pr);
    }

picked-IsNext :
    (k : Kernel) (b : Option ℤ) (idx : ℕ)
    → best_priority k.heap k.tasks none ≡ b
    → 0 < num_tasks k
    → pick_among k b ≡ some idx
    → IsNext k idx
picked-IsNext k none idx e pos h = absurd (cc)
picked-IsNext k (some p) idx e pos h =
    Found-IsNext k p idx pos e
      (find_candidate-Found k p (round_start k k.current_idx) (num_tasks k) 0 idx h)

-- Whatever index `pick_next_ready` returns is that of a READY task that no READY task outranks, and
-- the first of its rank in cyclic order behind the current one.
pub pick_next_ready-IsNext : (k : Kernel) (idx : ℕ) → pick_next_ready k ≡ some idx → IsNext k idx
unfolding pick_next_ready
pick_next_ready-IsNext k idx h = elim (Bool-cases (num_tasks k == 0)) [
  | inl e ↦ absurd (ground arith)
  | inr e ↦
      picked-IsNext k (best_priority k.heap k.tasks none) idx refl (ground arith) (ground arith)
]

-- A READY task of the highest priority is met by the second loop.
found_of_Attained :
    (k : Kernel) (p : ℤ)
    → Attained k.heap p k.tasks
    → find_candidate k p (round_start k k.current_idx) (num_tasks k) 0 ≢ none
found_of_Attained k p (j, lt, st, pr) h =
    let pos : 0 < num_tasks k = omega arith in
    let (e, e_lt, hit) =
      sweep_reaches (num_tasks k) (round_start k k.current_idx) j (round_start_lt k pos) lt in
    let zero_e : 0 + e ≡ e = omega arith in
    not_candidate p (task_at k j)
      (rw (← hit, ← zero_e)
        (find_candidate-none k p (round_start k k.current_idx) (num_tasks k) 0 h e e_lt))
      st pr

unpicked :
    (k : Kernel) (b : Option ℤ)
    → best_priority k.heap k.tasks none ≡ b
    → pick_among k b ≡ none
    → (j : ℕ) → j < num_tasks k
    → (task_at k j).state ≢ ready
unpicked k none e h j lt = best_priority-none k.heap k.tasks e j lt
unpicked k (some p) e h j lt = elim (best_priority-Attained k.heap k.tasks none p e) [
  | inl none_some ↦ absurd (cc)
  | inr att ↦ absurd (found_of_Attained k p att h)
]

pick_among-none :
    (k : Kernel) {j : ℕ}
    → j < num_tasks k
    → pick_next_ready k ≡ none
    → pick_among k (best_priority k.heap k.tasks none) ≡ none
unfolding pick_next_ready
pick_among-none k lt h = elim (Bool-cases (num_tasks k == 0)) [
  | inl e ↦ absurd (ground arith)
  | inr e ↦ ground arith
]

-- `pick_next_ready` returns -1 exactly when no registered task is READY.
pub pick_next_ready-none :
    (k : Kernel)
    → (pick_next_ready k ≡ none) ↔ ((j : ℕ) → j < num_tasks k → (task_at k j).state ≢ ready)
pick_next_ready-none k = (nobody, settle)
  where
    nobody : pick_next_ready k ≡ none → (j : ℕ) → j < num_tasks k → (task_at k j).state ≢ ready
    nobody h j lt =
        unpicked k (best_priority k.heap k.tasks none) refl (pick_among-none k lt h) j lt

    settle : ((j : ℕ) → j < num_tasks k → (task_at k j).state ≢ ready) → pick_next_ready k ≡ none
    settle quiet = elim (Option-cases (pick_next_ready k)) [
      | inl e ↦ e
      | inr (idx, e) ↦
          let next = pick_next_ready-IsNext k idx e in
          absurd (quiet idx next.in_range next.runnable)
    ]
