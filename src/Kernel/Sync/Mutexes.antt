-- ===== src/Kernel/Sync/Mutexes.antt =====
-- What `mutex_lock` and `mutex_unlock` of rtos/src/sync.c promise.
use rtos_kernel_from_scratch.Common.{
  ◌<◌, ◌≡◌, ◌≢◌, refl, ap, subst, ◌∙◌, get_or, ℕ, ℤ, true, false, Option, none, some, List, [], ◌∷◌,
  ◌++◌, length, ◌≤ℤ◌, if◌then◌else◌, arith, ◌==◌, if◌then◌else◌,
}
use rtos_kernel_from_scratch.Kernel.State.{
  Task, TaskRef, Kernel, ref_at, after_yield, ready, blocked, max_tasks, set_state, store,
  update_task,
}
use rtos_kernel_from_scratch.Kernel.Scheduler.{task_yield}
use rtos_kernel_from_scratch.Kernel.Sync.{
  Mutex, left_cpu, has_waiter, add_waiter, boost_owner, block_and_yield, mutex_lock_round, wake_all,
  restore_priority, mutex_unlock,
}

-- What `task_yield` leaves of every task: its priority, and its state unless it is RUNNING.
task_yield-priority :
    (k : Kernel) (r : TaskRef) → ((task_yield k).0.heap r).priority ≡ (k.heap r).priority
unfolding task_yield
task_yield-priority k r = ground arith

task_yield-blocked :
    (k : Kernel) (r : TaskRef)
    → (k.heap r).state ≡ blocked
    → ((task_yield k).0.heap r).state ≡ blocked
unfolding task_yield
task_yield-blocked k r h = ground arith

block_and_yield-priority :
    (k : Kernel) (cur r : TaskRef) → ((block_and_yield k cur).heap r).priority ≡ (k.heap r).priority
block_and_yield-priority k cur r =
    ground (arith, task_yield-priority (update_task k cur (set_state blocked)) r)

block_and_yield-blocked :
    (k : Kernel) (cur : TaskRef) → ((block_and_yield k cur).heap cur).state ≡ blocked
block_and_yield-blocked k cur =
    task_yield-blocked (update_task k cur (set_state blocked)) cur (ground arith)

boost_owner_bound :
    (k : Kernel) (owner : Option TaskRef) (o cur : TaskRef)
    → owner ≡ some o
    → o ≢ cur
    → let k' = boost_owner k owner (k.heap cur).priority in
      (k'.heap cur).priority ≤ℤ (k'.heap o).priority
boost_owner_bound k none o cur e ne = absurd (cc)
boost_owner_bound k (some q) o cur e ne = ground arith

has_waiter-append : (ws : List TaskRef) (r : TaskRef) → has_waiter (ws ++ (r ∷ [])) r ≡ true
unfolding has_waiter
has_waiter-append [] r = ground arith
has_waiter-append (w ∷ ws) r = ground (arith, has_waiter-append ws r)

has_waiter-add_waiter :
    (ws : List TaskRef) (r : TaskRef)
    → length ws < max_tasks
    → has_waiter (add_waiter ws r) r ≡ true
unfolding add_waiter
has_waiter-add_waiter ws r lt = ground (arith, has_waiter-append ws r)

-- The current task is saved by the `task_yield` behind its block.
block_and_yield-context :
    (k : Kernel) (i : ℕ)
    → k.current_idx ≡ some i
    → ((block_and_yield k (ref_at k i)).heap (ref_at k i)).context ≡ after_yield
unfolding task_yield
block_and_yield-context k i cu = ground arith

boost_owner-current :
    (k : Kernel) (owner : Option TaskRef) (p : ℤ)
    → ((boost_owner k owner p).current_idx ≡ k.current_idx)
      × ((boost_owner k owner p).tasks ≡ k.tasks)
boost_owner-current k none p = (refl, refl)
boost_owner-current k (some o) p = (ground arith, ground arith)

-- The current task in a turn of the loop of `mutex_lock`, no tick inside of the turn, on a mutex that
-- another task holds, with inheritance on and room in the list of waiters: it is queued and BLOCKED, its
-- context is saved by `task_yield`, and the owner has at least its priority by then; the mutex keeps its
-- owner and the priority saved for it.
pub mutex_lock-inherits :
    (k : Kernel) (m : Mutex) (i : ℕ) (o : TaskRef)
    → k.current_idx ≡ some i
    → m.locked ≡ true
    → m.inheritance_enabled ≡ true
    → m.owner ≡ some o
    → o ≢ ref_at k i
    → length m.waiters < max_tasks
    → let cur = ref_at k i in
      let (k', m', round) = mutex_lock_round k m cur in
      (round ≡ left_cpu)
      × ((k'.heap cur).state ≡ blocked)
      × ((k'.heap cur).context ≡ after_yield)
      × ((k'.heap cur).priority ≤ℤ (k'.heap o).priority)
      × (m'.owner ≡ some o)
      × (m'.owner_saved_priority ≡ m.owner_saved_priority)
      × (has_waiter m'.waiters cur ≡ true)
unfolding mutex_lock_round
mutex_lock-inherits k m i o cu lk inh ow ne room =
    let cur = ref_at k i in
    let k' = boost_owner k m.owner (k.heap cur).priority in
    let boosted = boost_owner_bound k m.owner o cur ow ne in
    let kept_cur = block_and_yield-priority k' cur cur in
    let kept_o = block_and_yield-priority k' cur o in
    let (same, tasks) = boost_owner-current k m.owner (k.heap cur).priority in
    let place : ref_at k' i ≡ cur = ap (λ ts. get_or ts i 0) tasks in
    let saved : ((block_and_yield k' cur).heap cur).context ≡ after_yield =
      subst (λ r. ((block_and_yield k' r).heap r).context ≡ after_yield) place
        (block_and_yield-context k' i (same ∙ cu)) in
    (
      ground arith,
      ground (arith, block_and_yield-blocked k' cur),
      ground arith,
      ground arith,
      ground arith,
      ground arith,
      ground (arith, has_waiter-add_waiter m.waiters cur room),
    )

wake_all-ready :
    (ws : List TaskRef) (heap : TaskRef → Task) (r : TaskRef)
    → (wake_all heap ws r).state ≡ (if has_waiter ws r then ready else (heap r).state)
unfolding wake_all has_waiter
wake_all-ready [] heap r = refl
wake_all-ready (w ∷ ws) heap r =
    ground (arith, wake_all-ready ws (store heap w (set_state ready (heap w))) r)

wake_all-priority :
    (ws : List TaskRef) (heap : TaskRef → Task) (r : TaskRef)
    → (wake_all heap ws r).priority ≡ (heap r).priority
unfolding wake_all
wake_all-priority [] heap r = refl
wake_all-priority (w ∷ ws) heap r =
    ground (arith, wake_all-priority ws (store heap w (set_state ready (heap w))) r)

-- Turns of the loop of `mutex_lock` that other tasks make, each from a kernel of its own.
abbrev pub lock_all : Mutex → List (Kernel × TaskRef) → Mutex
lock_all m [] = m
lock_all m ((k, r) ∷ rest) = lock_all (mutex_lock_round k m r).1 rest

lock_all-saved :
    (m : Mutex) (tries : List (Kernel × TaskRef))
    → m.locked ≡ true
    → (lock_all m tries).owner_saved_priority ≡ m.owner_saved_priority
unfolding mutex_lock_round
lock_all-saved m [] lk = refl
lock_all-saved m ((k, r) ∷ rest) lk =
    lock_all-saved (mutex_lock_round k m r).1 rest (simp lk refl) ∙ simp lk refl

-- A task that takes a free mutex by `mutex_lock` and gives it back by `mutex_unlock`, other tasks having
-- turned in the loop of `mutex_lock` meanwhile, has the priority again that it had when it took it, however
-- it was boosted; no other priority changes, every task in the list of waiters becomes READY and no other
-- task, and the mutex is free, without owner or waiters. No tick comes into a turn or the unlock.
pub mutex_unlock-restores :
    (k k' : Kernel) (m : Mutex) (cur r : TaskRef) (tries : List (Kernel × TaskRef))
    → m.locked ≡ false
    → let taken = lock_all (mutex_lock_round k m cur).1 tries in
      let (k'', m'') = mutex_unlock k' taken cur in
      (m''.locked ≡ false)
      × (m''.owner ≡ none)
      × (m''.waiters ≡ [])
      × ((k''.heap r).priority ≡ (if cur == r then (k.heap cur).priority else (k'.heap r).priority))
      × ((k''.heap r).state ≡ (if has_waiter taken.waiters r then ready else (k'.heap r).state))
unfolding mutex_unlock mutex_lock_round
mutex_unlock-restores k k' m cur r tries lk =
    let first = (mutex_lock_round k m cur).1 in
    let taken = lock_all first tries in
    let saved : taken.owner_saved_priority ≡ (k.heap cur).priority =
      lock_all-saved first tries (simp lk refl) ∙ simp lk refl in
    let begun = restore_priority k' cur taken.owner_saved_priority in
    (
      refl,
      refl,
      refl,
      wake_all-priority taken.waiters begun.heap r ∙ ground (arith, saved),
      ground (arith, wake_all-ready taken.waiters begun.heap r),
    )
