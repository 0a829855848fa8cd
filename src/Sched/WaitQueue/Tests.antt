-- ===== src/Sched/WaitQueue/Tests.antt =====
-- A queue of kernel/sched/waitqueue.c with two sleeping tasks, and its theorems at it.
use monolith.Libk.ListHead.{list_add_tail, list_del}
use monolith.Libk.ListHead.Sequence.{IsRing, insert-IsRing}
use monolith.Prelude.{List, [], arith, if◌then◌else◌, none, refl, some, ℕ, ◌==◌, ◌∷◌, ◌≡◌}
use monolith.Prelude.Members.{contains}
use monolith.Sched.Task.{intr_sleeping}
use monolith.Sched.WaitQueue.{
  WaitState, wait_queue_register, wait_queue_unregister, wait_queue_wake, wq_done, wq_out_of_fuel,
  wq_panic,
}
use monolith.Sched.WaitQueue.Registered.{register-unregister, registered}
use monolith.Sched.WaitQueue.Waking.{Woken, wait_queue_wake-Woken}

-- nodes are their own tasks, and all sleep
abbrev asleep : WaitState
asleep = record {
  links = record { nxt = λ x. x; prv = λ x. x };
  queue_of = λ x. none;
  task_of = λ x. x;
  status_of = λ x. intr_sleeping;
  made_ready = [];
}

asleep-IsRing : (head : ℕ) → IsRing asleep.links head []
unfolding contains
asleep-IsRing head = record { linked = (refl, refl); distinct = (refl, tt) }

abbrev one_node : WaitState
one_node = registered asleep 100 [] 1 (asleep-IsRing 100)

one_node-IsRing : IsRing one_node.links 100 (1 ∷ [])
unfolding contains
one_node-IsRing = (insert-IsRing asleep.links 100 [] (asleep-IsRing 100) 1 refl).1

two_alone : IsRing one_node.links 2 []
unfolding list_add_tail contains
two_alone = record { linked = (refl, refl); distinct = (refl, tt) }

wake_runs :
    elim (wait_queue_wake 3 one_node 100) as (λ _. List ℕ) [
      | wq_done s ↦ s.made_ready
      | wq_panic ↦ []
      | wq_out_of_fuel ↦ []
    ]
    ≡ 1 ∷ []
unfolding wait_queue_wake list_add_tail list_del
wake_runs = refl

wait_queue_wake-Woken_example :
    (s' : WaitState) × (wait_queue_wake 3 one_node 100 ≡ wq_done s')
    × Woken one_node 100 (1 ∷ []) s'
unfolding contains
wait_queue_wake-Woken_example =
    wait_queue_wake-Woken 3 one_node 100 (1 ∷ []) (omega arith) one_node-IsRing (refl, tt)
      (refl, tt)

register-unregister_runs :
    let s = registered one_node 100 (1 ∷ []) 2 one_node-IsRing in
    (wait_queue_register one_node 100 2 ≡ wq_done s)
    × IsRing s.links 100 (1 ∷ 2 ∷ [])
    × ((p : ℕ) → wait_queue_register s p 2 ≡ (if 100 == p then wq_done s else wq_panic))
    × ((s' : WaitState) × (wait_queue_unregister (some 100) s 2 ≡ wq_done s')
        × IsRing s'.links 100 (1 ∷ [])
        × IsRing s'.links 2 []
        × (s'.queue_of 2 ≡ none))
    × ((s' : WaitState)
        → Woken s 100 (1 ∷ 2 ∷ []) s'
        → wait_queue_unregister (some 100) s' 2 ≡ wq_done s')
unfolding contains
register-unregister_runs =
    register-unregister one_node 100 (1 ∷ []) 2 one_node-IsRing
      (record { alone = two_alone; new = refl })
