-- ===== src/Kernel/Sync/Sharing.antt =====
-- Lists of tasks that use a queue of rtos/src/sync.c: the counts of all of them, of all but one, and what
-- each knows of the ring.
use rtos_kernel_from_scratch.Common.{
  ◌⊎◌, ◌≢◌, get_or-set_self, get_or-set_ne, ℕ_discrete, ℕ, zero, suc, ◌+◌, ◌≤◌, ◌<◌, ◌≡◌, refl, sym,
  subst, List, [], ◌∷◌, length, get_or, set, arith, inl, inr,
}
use rtos_kernel_from_scratch.Kernel.Sync.{Ring}
use rtos_kernel_from_scratch.Kernel.Sync.Queues.{
  Phase, send_advance, receive_advance, outside, send_slot, send_lock, send_put, send_unlock,
  send_post, receive_item, receive_lock, receive_take, receive_unlock, receive_post, idle_tasks,
}
use rtos_kernel_from_scratch.Kernel.Sync.Channels.{critical, holding, owed, Inside}

abbrev pub total : (Phase → ℕ) → List Phase → ℕ
total w [] = 0
total w (p ∷ ps) = w p + total w ps

-- The total without the task at `i`.
pub others : (Phase → ℕ) → List Phase → ℕ → ℕ
others w [] i = 0
others w (p ∷ ps) zero = total w ps
others w (p ∷ ps) (suc i) = w p + others w ps i

pub total-others :
    (w : Phase → ℕ) (ps : List Phase) (i : ℕ)
    → i < length ps
    → total w ps ≡ others w ps i + w (get_or ps i outside)
unfolding others
total-others w [] i lt = absurd (omega arith)
total-others w (p ∷ ps) zero lt = omega arith
total-others w (p ∷ ps) (suc i) lt = let rest = total-others w ps i (omega arith) in omega arith

pub total-set :
    (w : Phase → ℕ) (ps : List Phase) (i : ℕ) (p' : Phase)
    → i < length ps
    → total w (set ps i p') ≡ others w ps i + w p'
unfolding others
total-set w [] i p' lt = absurd (omega arith)
total-set w (p ∷ ps) zero p' lt = omega arith
total-set w (p ∷ ps) (suc i) p' lt = let rest = total-set w ps i p' (omega arith) in omega arith

pub total-idle : (w : Phase → ℕ) (n : ℕ) → w outside ≡ 0 → total w (idle_tasks n) ≡ 0
total-idle w zero e = refl
total-idle w (suc n) e = let rest = total-idle w n e in omega arith

-- A task that owes an item holds a slot.
owed_le : (p : Phase) → owed p ≤ holding p
owed_le outside = omega arith
owed_le (send_slot item) = omega arith
owed_le (send_lock item) = omega arith
owed_le (send_put item) = omega arith
owed_le send_unlock = omega arith
owed_le send_post = omega arith
owed_le receive_item = omega arith
owed_le receive_lock = omega arith
owed_le receive_take = omega arith
owed_le (send_advance item) = omega arith
owed_le (receive_advance got) = omega arith
owed_le receive_unlock = omega arith
owed_le receive_post = omega arith

pub total-owed : (ps : List Phase) → total owed ps ≤ total holding ps
total-owed [] = omega arith
total-owed (p ∷ ps) = let at = owed_le p in let rest = total-owed ps in omega arith

pub others-owed : (ps : List Phase) (i : ℕ) → others owed ps i ≤ others holding ps i
unfolding others
others-owed [] i = omega arith
others-owed (p ∷ ps) zero = total-owed ps
others-owed (p ∷ ps) (suc i) = let at = owed_le p in let rest = others-owed ps i in omega arith

-- A task that is not critical knows nothing of the ring.
pub Inside-idle : (r : Ring) (p : Phase) → critical p ≡ 0 → Inside r p
Inside-idle r outside e = omega arith
Inside-idle r (send_slot item) e = omega arith
Inside-idle r (send_lock item) e = omega arith
Inside-idle r (send_put item) e = omega arith
Inside-idle r (send_advance item) e = absurd (omega arith)
Inside-idle r send_unlock e = omega arith
Inside-idle r send_post e = omega arith
Inside-idle r receive_item e = omega arith
Inside-idle r receive_lock e = omega arith
Inside-idle r receive_take e = omega arith
Inside-idle r (receive_advance got) e = absurd (omega arith)
Inside-idle r receive_unlock e = omega arith
Inside-idle r receive_post e = omega arith

total_zero : (ps : List Phase) (i : ℕ) → total critical ps ≡ 0 → critical (get_or ps i outside) ≡ 0
total_zero [] i e = refl
total_zero (p ∷ ps) zero e = omega arith
total_zero (p ∷ ps) (suc i) e = total_zero ps i (omega arith)

others_zero :
    (ps : List Phase) (cur i : ℕ)
    → i ≢ cur
    → others critical ps cur ≡ 0
    → critical (get_or ps i outside) ≡ 0
unfolding others
others_zero [] cur i ne e = refl
others_zero (p ∷ ps) zero zero ne e = absurd (ne refl)
others_zero (p ∷ ps) zero (suc i) ne e = total_zero ps i e
others_zero (p ∷ ps) (suc cur) zero ne e = omega arith
others_zero (p ∷ ps) (suc cur) (suc i) ne e = others_zero ps cur i (omega arith) (omega arith)

unfoldable pub IsKnown : Ring → List Phase → Type 0
IsKnown r ps = (i : ℕ) → Inside r (get_or ps i outside)

-- What the tasks know of the ring, after a round of the task `cur`.
pub set-IsKnown :
    (r r' : Ring) (ps : List Phase) (cur : ℕ) (p' : Phase)
    → cur < length ps
    → (others critical ps cur ≡ 0) ⊎ (r ≡ r')
    → Inside r' p'
    → IsKnown r ps
    → IsKnown r' (set ps cur p')
unfolding IsKnown
set-IsKnown r r' ps cur p' lt kept new all i = elim (ℕ_discrete i cur) [
  | yes e ↦
      subst (λ j. Inside r' (get_or (set ps cur p') j outside)) (sym e)
        (subst (Inside r') (sym (get_or-set_self ps cur p' outside lt)) new)
  | no ne ↦
      subst (Inside r') (sym (get_or-set_ne ps cur i p' outside (λ e. ne (sym e)))) (elim kept [
        | inl alone ↦ Inside-idle r' (get_or ps i outside) (others_zero ps cur i ne alone)
        | inr e ↦ subst (λ q. Inside q (get_or ps i outside)) e (all i)
      ])
]
