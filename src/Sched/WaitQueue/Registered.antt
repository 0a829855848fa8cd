-- ===== src/Sched/WaitQueue/Registered.antt =====
-- Registering nodes with the queues of kernel/sched/waitqueue.c, and taking them off again.
use monolith.Libk.ListHead.{list_add_tail, list_del, list_empty}
use monolith.Libk.ListHead.Removal.{list_del-Removed, on_list-list_empty}
use monolith.Libk.ListHead.Sequence.{IsRing, insert-IsRing, list_empty_iff}
use monolith.Prelude.{
  ==-self, List, [], append-nil, arith, false, if◌then◌else◌, none, refl, some, true, ℕ, ◌++◌, ◌==◌,
  ◌∙◌, ◌∷◌, ◌≡◌,
}
use monolith.Prelude.Members.{contains, contains-append}
use monolith.Sched.WaitQueue.{
  WaitState, assign, wait_queue_register, wait_queue_unregister, wq_done, wq_panic,
}
use monolith.Sched.WaitQueue.Waking.{Woken}

-- a node that is on no list, and is no part of the list that holds `xs`
pub record IsLoose (s : WaitState) (q : ℕ) (xs : List ℕ) (node : ℕ) : Type 0 where
  pub alone : IsRing s.links node []
  pub new : contains node (q ∷ xs) ≡ false

module _ (s : WaitState) (q : ℕ) (xs : List ℕ) (node : ℕ) (r : IsRing s.links q xs) where
  loose-empty : IsRing s.links node [] → list_empty s.links node ≡ true
  loose-empty a = (list_empty_iff s.links node [] a).1 refl

  -- what registering a loose node leaves
  abbrev pub registered : WaitState
  registered = record s {
    links = list_add_tail s.links q node;
    queue_of = assign s.queue_of node (some q);
  }

  module _ (l : IsLoose s q xs node) where
    register_run : wait_queue_register s q node ≡ wq_done registered
    unfolding wait_queue_register
    register_run = rw (loose-empty l.alone) refl

    registered-IsRing : IsRing registered.links q (xs ++ (node ∷ []))
    registered-IsRing = (insert-IsRing s.links q xs r node l.new).1

    -- a node of a list is not empty as a list of its own
    registered-on : list_empty registered.links node ≡ false
    registered-on = on_list-list_empty registered.links q xs node [] registered-IsRing

    -- taken off by its own task
    unregistered :
        (s' : WaitState) × (wait_queue_unregister (some q) registered node ≡ wq_done s')
        × IsRing s'.links q xs
        × IsRing s'.links node []
        × (s'.queue_of node ≡ none)
    unfolding wait_queue_unregister
    unregistered =
        let (back, alone, others) =
          list_del-Removed registered.links q xs node [] registered-IsRing in
        (
          record registered {
            links = list_del registered.links node;
            queue_of = assign registered.queue_of node none;
          },
          rw registered-on refl,
          rw (← append-nil xs) back,
          alone,
          rw (==-self node) refl,
        )

    -- taken off by a wake that came between the reading of `node->queue` and the lock
    Woken-before :
        (s' : WaitState)
        → Woken registered q (xs ++ (node ∷ [])) s'
        → wait_queue_unregister (some q) s' node ≡ wq_done s'
    unfolding wait_queue_unregister contains
    Woken-before s' w =
        let on : contains node (xs ++ (node ∷ [])) ≡ true =
          contains-append node xs (node ∷ []) ∙ ground (arith, ==-self node) in
        let (alone, gone) = w.off_list node on in
        rw ((list_empty_iff s'.links node [] alone).1 refl, gone) refl

    registered_again :
        (p : ℕ)
        → wait_queue_register registered p node ≡ (if q == p then wq_done registered else wq_panic)
    unfolding wait_queue_register
    registered_again p = rw (registered-on, ==-self node) refl

    -- `wait_queue_register` puts a node that is on no list at the end of the queue and notes the queue.
    -- Registering it again with the same queue changes nothing, and with any other queue panics.
    -- `wait_queue_unregister` then restores the queue and leaves the node on no list, with no queue;
    -- and if the queue is woken after the task has read `node->queue` and before it has the lock,
    -- `wait_queue_unregister` neither panics nor changes anything.
    pub register-unregister :
        (wait_queue_register s q node ≡ wq_done registered)
        × IsRing registered.links q (xs ++ (node ∷ []))
        × ((p : ℕ)
            → wait_queue_register registered p node
              ≡ (if q == p then wq_done registered else wq_panic))
        × ((s' : WaitState) × (wait_queue_unregister (some q) registered node ≡ wq_done s')
            × IsRing s'.links q xs
            × IsRing s'.links node []
            × (s'.queue_of node ≡ none))
        × ((s' : WaitState)
            → Woken registered q (xs ++ (node ∷ [])) s'
            → wait_queue_unregister (some q) s' node ≡ wq_done s')
    register-unregister =
        (register_run, registered-IsRing, registered_again, unregistered, Woken-before)
