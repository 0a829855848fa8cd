-- ===== src/Sched/Signal/Handling.antt =====
-- Which signal `signal_try_handle` of kernel/sched/signal.c acts on.
use monolith.Prelude.{Option, none, some, ℕ, ◌+◌, ◌-◌, ◌<◌, ◌≡◌, ◌≢◌, ◌≤◌}
use monolith.Prelude.Bits.{bit}
use monolith.Sched.Signal.{deliverable, sigchld}
use monolith.Sched.Task.{Task}

-- No fuel left is excluded. Without an exit nothing but SIGCHLD was deliverable; with one, its
-- signal was, is not SIGCHLD, and is the lowest such.
abbrev pub Acted : Task → Option (ℕ × Option ℕ) → Type 0
Acted t none = ⊥
Acted t (some (p, none)) = (k : ℕ) → k < 32 → k + 1 ≢ sigchld → bit (deliverable t) k ≡ 0
Acted t (some (p, some s)) =
    (0 < s)
    × (s ≤ 32)
    × (s ≢ sigchld)
    × (bit (deliverable t) (s - 1) ≡ 1)
    × ((k : ℕ) → k + 1 < s → k + 1 ≢ sigchld → bit (deliverable t) k ≡ 0)
