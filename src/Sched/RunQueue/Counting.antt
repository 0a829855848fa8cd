-- ===== src/Sched/RunQueue/Counting.antt =====
-- How often a pid stands in the run queues of kernel/sched/scheduler.c, and the counters.
use monolith.Prelude.{
  List, [], arith, get_or, if◌then◌else◌, length, refl, set, suc, zero, ℕ, ◌++◌, ◌+◌, ◌<◌, ◌==◌,
  ◌∷◌, ◌≡◌,
}
use monolith.Prelude.Words.{u64_mod}
use monolith.Sched.RunQueue.{Cpu, no_cpu}

-- how often x stands in a list, and in all run queues
abbrev pub count_pid : ℕ → List ℕ → ℕ
count_pid x [] = 0
count_pid x (y ∷ ys) = (if y == x then 1 else 0) + count_pid x ys

abbrev pub queue_count : ℕ → List Cpu → ℕ
queue_count x [] = 0
queue_count x (c ∷ cs) = count_pid x c.runqueue + queue_count x cs

-- queue_entry_count is the number of entries, for every CPU
abbrev pub Counted : List Cpu → Type 0
Counted [] = Unit
Counted (c ∷ cs) = (c.entry_count ≡ length c.runqueue) × Counted cs

-- no counter is at its end
abbrev pub Small : List Cpu → Type 0
Small [] = Unit
Small (c ∷ cs) = (length c.runqueue + 1 < u64_mod) × Small cs

pub count_pid-append :
    (x : ℕ) (xs ys : List ℕ) → count_pid x (xs ++ ys) ≡ count_pid x xs + count_pid x ys
count_pid-append x [] ys = omega arith
count_pid-append x (z ∷ xs) ys = omega (arith, count_pid-append x xs ys)

pub queue_count-set :
    (x i : ℕ) (c : Cpu) (cs : List Cpu)
    → i < length cs
    → queue_count x (set cs i c) + count_pid x (get_or cs i no_cpu).runqueue
      ≡ queue_count x cs + count_pid x c.runqueue
queue_count-set x i c [] h = absurd (omega arith)
queue_count-set x zero c (d ∷ ds) h = omega arith
queue_count-set x (suc i) c (d ∷ ds) h = omega (arith, queue_count-set x i c ds (omega arith))

pub Counted-get :
    (cs : List Cpu) (i : ℕ)
    → Counted cs
    → (get_or cs i no_cpu).entry_count ≡ length (get_or cs i no_cpu).runqueue
Counted-get [] i h = refl
Counted-get (c ∷ cs) zero h = h.0
Counted-get (c ∷ cs) (suc i) h = Counted-get cs i h.1

pub Small-get :
    (cs : List Cpu) (i : ℕ) → Small cs → length (get_or cs i no_cpu).runqueue + 1 < u64_mod
Small-get [] i h = omega arith
Small-get (c ∷ cs) zero h = h.0
Small-get (c ∷ cs) (suc i) h = Small-get cs i h.1

pub Counted-set :
    (cs : List Cpu) (i : ℕ) (c : Cpu)
    → Counted cs
    → c.entry_count ≡ length c.runqueue
    → Counted (set cs i c)
Counted-set [] i c h e = tt
Counted-set (d ∷ ds) zero c h e = (e, h.1)
Counted-set (d ∷ ds) (suc i) c h e = (h.0, Counted-set ds i c h.1 e)

pub Small-set :
    (cs : List Cpu) (i : ℕ) (c : Cpu)
    → Small cs
    → length c.runqueue + 1 < u64_mod
    → Small (set cs i c)
Small-set [] i c h e = tt
Small-set (d ∷ ds) zero c h e = (e, h.1)
Small-set (d ∷ ds) (suc i) c h e = (h.0, Small-set ds i c h.1 e)
