-- ===== src/Sched/SleepQueue/Deadlines.antt =====
-- The queue of kernel/sched/task_sleep.c as a list of deadlines.
use monolith.Prelude.{
  Bool, Bool-cases, List, [], ap, arith, inl, inr, leb, refl, true, ℕ, ◌++◌, ◌+◌, ◌-◌, ◌==◌, ◌∷◌,
  ◌≡◌, ◌≤◌,
}
use monolith.Sched.SleepQueue.{SleepDesc, sleep_queue_tick}

-- each entry's task with the time from now at which it is due
abbrev pub deadlines : ℕ → List SleepDesc → List (ℕ × ℕ)
deadlines now [] = []
deadlines now (d ∷ ds) = (d.task, now + d.delta) ∷ deadlines (now + d.delta) ds

-- every deadline is at most `ns`
abbrev pub AllDue : ℕ → List (ℕ × ℕ) → Type 0
AllDue ns [] = Unit
AllDue ns ((t, x) ∷ xs) = (x ≤ ns) × AllDue ns xs

abbrev pub tasks_of : List (ℕ × ℕ) → List ℕ
tasks_of [] = []
tasks_of ((t, x) ∷ xs) = t ∷ tasks_of xs

abbrev pub AllAsleep : (ℕ → Bool) → List SleepDesc → Type 0
AllAsleep asleep [] = Unit
AllAsleep asleep (d ∷ ds) = (asleep d.task ≡ true) × AllAsleep asleep ds

-- `due` are the deadlines that a tick of `ns` has served.
pub record Ticked (now ns : ℕ) (queue rest : List SleepDesc) (woken : List ℕ) : Type 0 where
  pub due : List (ℕ × ℕ)
  pub split : deadlines now queue ≡ due ++ deadlines (now + ns) rest
  pub served : tasks_of due ≡ woken
  pub on_time : AllDue (now + ns) due

tick-Ticked :
    (asleep : ℕ → Bool) (now ns : ℕ) (queue : List SleepDesc)
    → AllAsleep asleep queue
    → let (rest, woken) = sleep_queue_tick asleep ns queue in Ticked now ns queue rest woken
unfolding sleep_queue_tick
tick-Ticked asleep now ns [] h = record { due = []; split = refl; served = refl; on_time = tt }
tick-Ticked asleep now ns (cur ∷ rest) h = elim (Bool-cases (leb cur.delta ns)) [
  | inr early ↦
      let sum : now + ns + (cur.delta - ns) ≡ now + cur.delta = ground arith in
      rw early (record { due = []; split = rw sum; served = refl; on_time = tt })
  | inl due ↦ elim (Bool-cases (ns - cur.delta == 0)) [
    | inl done ↦
        let e : now + ns ≡ now + cur.delta = ground arith in
        rw (due, h.0, done)
          (record {
            due = (cur.task, now + cur.delta) ∷ [];
            split = rw e;
            served = refl;
            on_time = (omega arith, tt);
          })
    | inr left ↦
        let e : now + cur.delta + (ns - cur.delta) ≡ now + ns = ground arith in
        let t = tick-Ticked asleep (now + cur.delta) (ns - cur.delta) rest h.1 in
        rw (due, h.0, left)
          (record {
            due = (cur.task, now + cur.delta) ∷ t.due;
            split = ap (λ xs. (cur.task, now + cur.delta) ∷ xs) (rw e at t.split);
            served = ap (λ xs. cur.task ∷ xs) t.served;
            on_time = (ground arith, rw e at t.on_time);
          })
  ]
]

-- A tick of `ns` over a queue of sleeping tasks makes ready, in order, only tasks whose deadline is
-- at most `ns`, and the entries that stay keep the deadlines that they had.
pub sleep_queue_tick-Ticked :
    (asleep : ℕ → Bool) (ns : ℕ) (queue : List SleepDesc)
    → AllAsleep asleep queue
    → let (rest, woken) = sleep_queue_tick asleep ns queue in Ticked 0 ns queue rest woken
sleep_queue_tick-Ticked asleep ns queue h = tick-Ticked asleep 0 ns queue h
