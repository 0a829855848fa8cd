-- ===== src/Sched/Mutex.antt =====
-- kernel/sys/mutex.c: the sleeping lock. Each section under its spinlock is one step. Beside the
-- fields of mutex_t the state has the tasks for which `mutex_lock` has returned and that have not
-- yet called `mutex_unlock`.
pub mod Holders
use monolith.Prelude.{Bool, List, Option, [], false, if◌then◌else◌, none, some, true, ℕ, ◌==◌, ◌∷◌}

pub record Mutex : Type 0 where
  pub locked : Bool
  pub waitqueue : List ℕ
  pub holders : List ℕ

abbrev pub mutex_init : Mutex
mutex_init = record { locked = false; waitqueue = []; holders = [] }

-- `mutex_lock`: on a locked mutex the task goes to sleep at the front of the queue.
unfoldable pub mutex_lock : Mutex → ℕ → Mutex
mutex_lock m task =
    if m.locked
    then record m { waitqueue = task ∷ m.waitqueue }
    else record m { locked = true; holders = task ∷ m.holders }

unfoldable pub remove : ℕ → List ℕ → List ℕ
remove t [] = []
remove t (x ∷ xs) = if x == t then xs else x ∷ remove t xs

-- The loop at `retry_awake`: the first task that is asleep, and those behind it. `dead` tells the
-- zombies. The woken task returns from `mutex_lock`.
unfoldable pub wake_first : (ℕ → Bool) → List ℕ → Option (ℕ × List ℕ)
wake_first dead [] = none
wake_first dead (t ∷ ts) = if dead t then wake_first dead ts else some (t, ts)

unfoldable pub mutex_unlock : (ℕ → Bool) → Mutex → ℕ → Mutex
unfolding wake_first remove
mutex_unlock dead m task = elim (wake_first dead m.waitqueue) [
  | none ↦ record { locked = false; waitqueue = []; holders = remove task m.holders }
  | some (t, ts) ↦ record { locked = false; waitqueue = ts; holders = t ∷ remove task m.holders }
]
