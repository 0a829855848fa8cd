-- ===== src/Sched/RunQueue.antt =====
-- kernel/sched/scheduler.c: the per-CPU run queues, stealing, and the choice of the next task. The
-- calls are taken one at a time. A task is its pid here, and an idle task's number is no pid.
pub mod Stealing
pub mod Counting
pub mod Conservation
use monolith.Prelude.{
  Bool, List, Option, [], false, get_or, if◌then◌else◌, length, ltb, none, not, set, some, suc,
  true, zero, ℕ, ◌&&◌, ◌++◌, ◌+◌, ◌==◌, ◌∷◌,
}
use monolith.Prelude.Words.{add64, sub64}

-- `sched_percpu_t`: the idle task, the run queue and queue_entry_count
pub record Cpu : Type 0 where
  pub idle : ℕ
  pub runqueue : List ℕ
  pub entry_count : ℕ

abbrev pub no_cpu : Cpu
no_cpu = record { idle = 0; runqueue = []; entry_count = 0 }

-- `list_add_tail` and the count
unfoldable pub push_ready : Cpu → ℕ → Cpu
push_ready c task = record c {
  runqueue = c.runqueue ++ (task ∷ []);
  entry_count = add64 c.entry_count 1;
}

-- `list_first_entry`, `list_del` and the count; `none` is a use of the head of an empty list.
unfoldable pub pop_ready : Cpu → Option (ℕ × Cpu)
pop_ready c = elim c.runqueue [
  | [] ↦ none
  | task ∷ rest ↦ some (task, record c { runqueue = rest; entry_count = sub64 c.entry_count 1 })
]

unfoldable pub sched_add_ready : List Cpu → ℕ → ℕ → List Cpu
unfolding push_ready
sched_add_ready cpus cpu task = set cpus cpu (push_ready (get_or cpus cpu no_cpu) task)

-- The loop of `sched_find_most_loaded_queue`: `n` rounds are left, `start` is the queue looked at.
-- A round that finds an empty queue does not move on.
unfoldable pub find_loop : List Cpu → ℕ → ℕ → Option ℕ → ℕ → Option ℕ
find_loop cpus zero start maxq maxc = maxq
find_loop cpus (suc n) start maxq maxc =
    let queue_size : ℕ = (get_or cpus start no_cpu).entry_count in
    find_loop cpus n (if queue_size == 0 then start else start + 1)
      (if ltb maxc queue_size then some start else maxq)
      (if ltb maxc queue_size then queue_size else maxc)

unfoldable pub sched_find_most_loaded_queue : List Cpu → Option ℕ
unfolding find_loop
sched_find_most_loaded_queue cpus = find_loop cpus (length cpus) 0 none 0

-- the first task of a run queue, and the queues without it
unfoldable pub take_ready : List Cpu → ℕ → Option (List Cpu × ℕ × Bool)
unfolding pop_ready
take_ready cpus i = elim (pop_ready (get_or cpus i no_cpu)) [
  | none ↦ none
  | some (task, c) ↦ some (set cpus i c, task, true)
]

-- The part of `schedule` that picks: the queues, the next task, and whether it comes from a queue.
unfoldable pub pick_next : List Cpu → ℕ → Option (List Cpu × ℕ × Bool)
unfolding take_ready sched_find_most_loaded_queue
pick_next cpus cpu =
    let sdata : Cpu = get_or cpus cpu no_cpu in
    if sdata.entry_count == 0
    then elim (sched_find_most_loaded_queue cpus) [
      | none ↦ some (cpus, sdata.idle, false)
      | some i ↦
          if (get_or cpus i no_cpu).entry_count == 0
          then some (cpus, sdata.idle, false)
          else take_ready cpus i
    ]
    else take_ready cpus cpu

-- `schedule` on a CPU, called by `cur`: the queues and the task that runs next. `none` is a use of
-- an empty list's head.
unfoldable pub schedule : List Cpu → ℕ → ℕ → Bool → Option (List Cpu × ℕ)
unfolding pick_next sched_add_ready
schedule cpus cpu cur cur_running =
    let sdata : Cpu = get_or cpus cpu no_cpu in
    let requeue = cur_running && not (cur == sdata.idle) in
    if sdata.entry_count == 0 && requeue then some (cpus, cur) else elim (pick_next cpus cpu) [
      | none ↦ none
      | some (cpus', next, queued) ↦
          some (if requeue then sched_add_ready cpus' cpu cur else cpus', next)
    ]
