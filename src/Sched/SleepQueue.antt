-- ===== src/Sched/SleepQueue.antt =====
-- kernel/sched/task_sleep.c: the per-CPU queue of sleeping tasks, where each entry holds the time
-- that it sleeps longer than the entry before it. Interrupts are off in both sections that are
-- modelled, so each is one step.
pub mod Deadlines
pub mod Insertion
mod Place
mod Swapped
use mathlib.Core.Option
use monolith.Libk.ListHead.{Links, list_add, list_add_tail, list_empty, list_node_init, put_word}
use monolith.Prelude.{
  Bool, List, Option, [], if◌then◌else◌, leb, ltb, none, some, suc, zero, ℕ, ◌%◌, ◌+◌, ◌-◌, ◌==◌,
  ◌∷◌,
}
use monolith.Prelude.Words.{u64_mod}

-- `task_sleep_desc`, with the task's pid
pub record SleepDesc : Type 0 where
  pub task : ℕ
  pub delta : ℕ

-- the `list_node` words in memory, and by the address of its `list_node` the `delta` of a sleeper; at
-- a queue's head this is the word that stands in front of the head
pub record Sleepers : Type 0 where
  pub links : Links
  pub delta : ℕ → ℕ

-- The loop of `sys_clock_nanosleep`, on fuel: where it stops, and what is then left of the time.
unfoldable pub find_place : ℕ → Sleepers → ℕ → ℕ → ℕ → Option (ℕ × ℕ)
find_place zero s queue cur left = none
find_place (suc fuel) s queue cur left =
    let next = find_place fuel s queue (s.links.nxt cur) (left - s.delta cur) in
    if cur == queue
    then some (cur, left)
    else if ltb left (s.delta cur)
    then some (cur, left)
    else next

-- the insertion of the sleeper behind the loop
unfoldable pub put_sleeper : Sleepers → ℕ → ℕ → ℕ × ℕ → Sleepers
unfolding list_empty list_add list_add_tail
put_sleeper s queue desc (cur, left) =
    let delta = put_word s.delta desc left in
    if list_empty s.links queue
    then record { links = list_add s.links queue desc; delta = delta }
    else record {
      links = list_add_tail s.links desc cur;
      delta = put_word delta cur ((delta cur + u64_mod - left) % u64_mod);
    }

-- The section of `sys_clock_nanosleep` that puts the caller, whose `list_node` is `desc`, into the
-- queue for `time_ns`.
unfoldable pub enqueue_sleeper : ℕ → Sleepers → ℕ → ℕ → ℕ → Option Sleepers
unfolding list_node_init find_place put_sleeper
enqueue_sleeper fuel s queue desc time_ns =
    let start : Sleepers = record s { links = list_node_init s.links desc } in
    Option.map (put_sleeper start queue desc)
      (find_place fuel start queue (start.links.nxt queue) time_ns)

-- The loop of `sleep_queue_tick`; `asleep` says whose status is TASK_INTR_SLEEPING. The result is
-- the queue and the tasks that were made ready, in order.
unfoldable pub sleep_queue_tick : (ℕ → Bool) → ℕ → List SleepDesc → List SleepDesc × List ℕ
sleep_queue_tick asleep ns [] = ([], [])
sleep_queue_tick asleep ns (cur ∷ rest) =
    let (queue, woken) = sleep_queue_tick asleep (ns - cur.delta) rest in
    if leb cur.delta ns
    then (if asleep cur.task
        then (if ns - cur.delta == 0 then (rest, cur.task ∷ []) else (queue, cur.task ∷ woken))
        else (record cur { delta = 0 } ∷ rest, []))
    else (record cur { delta = cur.delta - ns } ∷ rest, [])
