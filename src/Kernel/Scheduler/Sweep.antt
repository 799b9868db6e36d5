-- ===== src/Kernel/Scheduler/Sweep.antt =====
-- The second loop of `pick_next_ready` in rtos/src/scheduler.c: a cyclic sweep over the table.
use native.Mathlib.Nat.{mod-eq_of_lt, mod-eq-sub-mod}
use rtos_kernel_from_scratch.Common.{
  ℕ, zero, suc, ◌+◌, ◌-◌, ◌%◌, ◌<◌, ◌≡◌, inl, inr, refl, true, false, none, some, ℤ, arith,
  Bool-cases, dec_le,
}
use rtos_kernel_from_scratch.Kernel.State.{Task, Kernel, task_at, num_tasks}
use rtos_kernel_from_scratch.Kernel.Scheduler.{is_candidate, find_candidate}

-- From any start a cyclic sweep of `n` steps comes to every index.
pub sweep_reaches : (n start j : ℕ) → start < n → j < n → (e : ℕ) × (e < n) × ((start + e) % n ≡ j)
sweep_reaches n start j hs hj = elim (dec_le start j) [
  | yes p ↦ (
    j - start,
    omega arith,
    omega (arith, mod-eq_of_lt {n = start + (j - start)} {m = n} (omega arith)),
  )
  | no p ↦ (
    n + j - start,
    omega arith,
    omega (
      arith,
      mod-eq-sub-mod {n = start + (n + j - start)} {m = n} (omega arith),
      mod-eq_of_lt {n = start + (n + j - start) - n} {m = n} (omega arith),
    ),
  )
]

module _ (k : Kernel) (best : ℤ) (start : ℕ) where
  abbrev pub at : ℕ → Task
  at i = task_at k ((start + i) % num_tasks k)

  pub find_candidate-none :
      (left i : ℕ)
      → find_candidate k best start left i ≡ none
      → (e : ℕ) → e < left
      → is_candidate best (at (i + e)) ≡ false
  unfolding find_candidate
  find_candidate-none zero i h e lt = absurd (omega arith)
  find_candidate-none (suc left) i h zero lt =
      let same : i + 0 ≡ i = omega arith in
      elim (Bool-cases (is_candidate best (at i))) [
        | inl c ↦ absurd (ground arith)
        | inr c ↦ rw same c
      ]
  find_candidate-none (suc left) i h (suc e) lt =
      let same : i + suc e ≡ i + 1 + e = omega arith in
      elim (Bool-cases (is_candidate best (at i))) [
        | inl c ↦ absurd (ground arith)
        | inr c ↦ rw same (find_candidate-none left (i + 1) (ground arith) e (omega arith))
      ]

  pub record Found (left i idx : ℕ) : Type 0 where
    pub steps : ℕ
    pub steps_lt : steps < left
    pub reached : idx ≡ (start + (i + steps)) % num_tasks k
    pub candidate : is_candidate best (task_at k idx) ≡ true
    pub first : (e : ℕ) → e < steps → is_candidate best (at (i + e)) ≡ false

  Found-next :
      (left i idx : ℕ)
      → is_candidate best (at i) ≡ false
      → Found left (i + 1) idx
      → Found (suc left) i idx
  Found-next left i idx c f = record {
    steps = suc f.steps;
    steps_lt = omega arith;
    reached = let same : i + suc f.steps ≡ i + 1 + f.steps = omega arith in rw same f.reached;
    candidate = f.candidate;
    first = earlier;
  }
    where
      earlier : (e : ℕ) → e < suc f.steps → is_candidate best (at (i + e)) ≡ false
      earlier zero lt = let same : i + 0 ≡ i = omega arith in rw same c
      earlier (suc e) lt =
          let same : i + suc e ≡ i + 1 + e = omega arith in rw same (f.first e (omega arith))

  Found-here :
      (left i : ℕ)
      → is_candidate best (at i) ≡ true
      → Found (suc left) i ((start + i) % num_tasks k)
  Found-here left i c = record {
    steps = 0;
    steps_lt = omega arith;
    reached = let same : i + 0 ≡ i = omega arith in rw same refl;
    candidate = c;
    first = λ e lt. absurd (omega arith);
  }

  pub find_candidate-Found :
      (left i idx : ℕ) → find_candidate k best start left i ≡ some idx → Found left i idx
  unfolding find_candidate
  find_candidate-Found zero i idx h = absurd (cc)
  find_candidate-Found (suc left) i idx h = elim (Bool-cases (is_candidate best (at i))) [
    | inl c ↦
        let e : (start + i) % num_tasks k ≡ idx = ground arith in rw (← e) (Found-here left i c)
    | inr c ↦ Found-next left i idx c (find_candidate-Found left (i + 1) idx (ground arith))
  ]
