-- ===== src/Sched/WaitQueue.antt =====
-- kernel/sched/waitqueue.c: queues of sleeping tasks. A queue is named by the address of its head and
-- a node by its own. Each section under a queue's lock is one step. Tasks that are handed to
-- `sched_add_ready` (Sched/RunQueue) are listed in their order.
pub mod Waking
pub mod Registered
mod Tests
use monolith.Libk.ListHead.{Links, list_add_tail, list_del, list_empty, list_node_init}
use monolith.Prelude.{
  Bool, List, Option, [], false, if◌then◌else◌, none, some, suc, zero, ℕ, ◌++◌, ◌==◌, ◌∷◌,
}
use monolith.Sched.Task.{TaskStatus, intr_sleeping, running, same_status}

pub record WaitState : Type 0 where
  pub links : Links
  pub queue_of : ℕ → Option ℕ
  pub task_of : ℕ → ℕ
  pub status_of : ℕ → TaskStatus
  pub made_ready : List ℕ

-- What a call comes to. The loop of `wait_queue_wake` is on fuel.
pub data WaitCall : Type 0 where
  wq_done : WaitState → WaitCall
  wq_panic wq_out_of_fuel : WaitCall

-- an assignment to one field of one object
abbrev pub assign {ℓ} : {A : Type ℓ} → (ℕ → A) → ℕ → A → ℕ → A
assign f a v x = if x == a then v else f x

abbrev pub same_queue : Option ℕ → ℕ → Bool
same_queue none q = false
same_queue (some p) q = p == q

unfoldable pub wait_queue_init : WaitState → ℕ → WaitState
unfolding list_node_init
wait_queue_init s q = record s { links = list_node_init s.links q }

unfoldable pub wait_queue_node_init : WaitState → ℕ → ℕ → WaitState
unfolding list_node_init
wait_queue_node_init s node task = record s {
  links = list_node_init s.links node;
  queue_of = assign s.queue_of node none;
  task_of = assign s.task_of node task;
}

unfoldable pub wait_queue_register : WaitState → ℕ → ℕ → WaitCall
unfolding list_add_tail list_empty
wait_queue_register s q node =
    if list_empty s.links node
    then wq_done (record s {
      links = list_add_tail s.links q node;
      queue_of = assign s.queue_of node (some q);
    })
    else if same_queue (s.queue_of node) q
    then wq_done s
    else wq_panic

-- `seen` is `node->queue` as it was read before the lock was taken: another processor may wake the
-- queue in between.
unfoldable pub wait_queue_unregister : Option ℕ → WaitState → ℕ → WaitCall
unfolding list_del list_empty
wait_queue_unregister none s node = wq_done s
wait_queue_unregister (some q) s node =
    if list_empty s.links node
    then elim (s.queue_of node) [ none ↦ wq_done s | some _ ↦ wq_panic ]
    else wq_done
        (record s { links = list_del s.links node; queue_of = assign s.queue_of node none })

-- the body of the loop of `wait_queue_wake`
unfoldable pub wake_node : WaitState → ℕ → Option WaitState
unfolding list_del
wake_node s cur =
    let task = s.task_of cur in
    let s' = record s { queue_of = assign s.queue_of cur none; links = list_del s.links cur } in
    if same_status (s'.status_of task) intr_sleeping
    then some (record s' {
      status_of = assign s'.status_of task running;
      made_ready = s'.made_ready ++ (task ∷ []);
    })
    else none

-- `list_for_each_entry_safe`: `tmp` is the next node, read before the body runs.
unfoldable pub wake_loop : ℕ → ℕ → ℕ → ℕ → WaitState → WaitCall
unfolding wake_node
wake_loop zero q cur tmp s = wq_out_of_fuel
wake_loop (suc fuel) q cur tmp s =
    let next_round : WaitCall = elim (wake_node s cur) [
      | none ↦ wq_panic
      | some s' ↦ wake_loop fuel q tmp (s'.links.nxt tmp) s'
    ] in
    if cur == q then wq_done s else next_round

unfoldable pub wait_queue_wake : ℕ → WaitState → ℕ → WaitCall
unfolding wake_loop
wait_queue_wake fuel s q = let first = s.links.nxt q in wake_loop fuel q first (s.links.nxt first) s
