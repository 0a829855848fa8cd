-- ===== src/Sched/WaitQueue/Waking.antt =====
-- `wait_queue_wake` of kernel/sched/waitqueue.c.
use mathlib.Core.Path.{subst}
use monolith.Libk.ListHead.{list_del}
use monolith.Libk.ListHead.Removal.{list_del-Removed}
use monolith.Libk.ListHead.Ring.{nxt-start}
use monolith.Libk.ListHead.Sequence.{Disjoint, IsRing}
use monolith.Prelude.{
  ==-self, ==_iff, Bool-cases, List, [], ap, append-nil, append_assoc, arith, false, if◌then◌else◌,
  inl, inr, length, map, none, refl, suc, sym, true, zero, ℕ, ◌++◌, ◌<◌, ◌==◌, ◌∙◌, ◌∷◌, ◌≡◌,
}
use monolith.Prelude.Members.{AllDistinct, contains}
use monolith.Sched.Task.{intr_sleeping, running, same_status}
use monolith.Sched.WaitQueue.{
  WaitCall, WaitState, assign, wait_queue_wake, wake_loop, wq_done, wq_panic,
}

-- every task of these nodes sleeps interruptibly
abbrev pub AllSleep : WaitState → List ℕ → Type 0
AllSleep s [] = Unit {0}
AllSleep s (x ∷ xs) = (same_status (s.status_of (s.task_of x)) intr_sleeping ≡ true) × AllSleep s xs

-- what waking the nodes `xs` of the queue `q` leaves
pub record Woken (s : WaitState) (q : ℕ) (xs : List ℕ) (s' : WaitState) : Type 0 where
  pub emptied : IsRing s'.links q []
  pub off_list : (x : ℕ) → contains x xs ≡ true → IsRing s'.links x [] × (s'.queue_of x ≡ none)
  pub other_nodes : (x : ℕ) → contains x xs ≡ false → s'.queue_of x ≡ s.queue_of x
  pub statuses :
      (t : ℕ) → s'.status_of t ≡ (if contains t (map s.task_of xs) then running else s.status_of t)
  pub in_order : s'.made_ready ≡ s.made_ready ++ map s.task_of xs
  pub same_tasks : s'.task_of ≡ s.task_of
  pub other_lists :
      (head : ℕ) (ws : List ℕ)
      → IsRing s.links head ws
      → Disjoint (q ∷ xs) (head ∷ ws)
      → IsRing s'.links head ws

Woken-none : (s : WaitState) (q : ℕ) → IsRing s.links q [] → Woken s q [] s
unfolding contains
Woken-none s q r = record {
  emptied = r;
  off_list = λ x h. cc;
  other_nodes = λ x h. refl;
  statuses = λ t. refl;
  in_order = sym (append-nil _);
  same_tasks = refl;
  other_lists = λ head ws o d. o;
}

-- the state after the first node has been woken
abbrev after_first : WaitState → ℕ → WaitState
after_first s x = record s {
  queue_of = assign s.queue_of x none;
  links = list_del s.links x;
  status_of = assign s.status_of (s.task_of x) running;
  made_ready = s.made_ready ++ (s.task_of x ∷ []);
}

AllSleep-after :
    (s : WaitState) (x : ℕ) (xs : List ℕ)
    → contains (s.task_of x) (map s.task_of xs) ≡ false
    → AllSleep s xs
    → AllSleep (after_first s x) xs
unfolding contains
AllSleep-after s x [] h a = tt
AllSleep-after s x (y ∷ ys) h a =
    (ground (arith, h, a.0), AllSleep-after s x ys (ground (arith, h)) a.1)

Disjoint-tail :
    (q x : ℕ) (xs : List ℕ) (head : ℕ) (ws : List ℕ)
    → Disjoint (q ∷ x ∷ xs) (head ∷ ws)
    → Disjoint (q ∷ xs) (head ∷ ws)
unfolding contains
Disjoint-tail q x xs head ws d k h = d k (ground (arith, h))

-- the first node is on no other list that is left
first-Disjoint : (q x : ℕ) (xs : List ℕ) → AllDistinct (q ∷ x ∷ xs) → Disjoint (q ∷ xs) (x ∷ [])
unfolding contains
first-Disjoint q x xs d k h = elim (Bool-cases (x == k)) [
  | inl e ↦
      let same : x ≡ k = (==_iff x k).0 e in
      let out : contains k xs ≡ false = rw (← same) d.1.0 in absurd (ground (arith, h, d.0, out, e))
  | inr e ↦ ground (arith, e)
]

Woken-first :
    (s : WaitState) (q x : ℕ) (xs : List ℕ) (s' : WaitState)
    → IsRing s.links q (x ∷ xs)
    → Woken (after_first s x) q xs s'
    → IsRing s'.links x [] × (s'.queue_of x ≡ none)
Woken-first s q x xs s' r w = (
  w.other_lists x [] (list_del-Removed s.links q [] x xs r).1 (first-Disjoint q x xs r.distinct),
  w.other_nodes x r.distinct.1.0 ∙ ground (arith, ==-self x),
)

Woken-off :
    (s : WaitState) (q x : ℕ) (xs : List ℕ) (s' : WaitState)
    → IsRing s.links q (x ∷ xs)
    → Woken (after_first s x) q xs s'
    → (y : ℕ) → contains y (x ∷ xs) ≡ true
    → IsRing s'.links y [] × (s'.queue_of y ≡ none)
unfolding contains
Woken-off s q x xs s' r w y h = elim (Bool-cases (x == y)) [
  | inl e ↦
      subst (λ k. IsRing s'.links k [] × (s'.queue_of k ≡ none)) ((==_iff x y).0 e)
        (Woken-first s q x xs s' r w)
  | inr e ↦ w.off_list y (ground (arith, h, e))
]

Woken-cons :
    (s : WaitState) (q x : ℕ) (xs : List ℕ) (s' : WaitState)
    → IsRing s.links q (x ∷ xs)
    → Woken (after_first s x) q xs s'
    → Woken s q (x ∷ xs) s'
unfolding contains
Woken-cons s q x xs s' r w = record {
  emptied = w.emptied;
  off_list = λ y h. Woken-off s q x xs s' r w y h;
  other_nodes = λ y h. w.other_nodes y (ground (arith, h)) ∙ ground (arith, h);
  statuses = λ t. w.statuses t ∙ ground arith;
  in_order = w.in_order ∙ append_assoc s.made_ready (s.task_of x ∷ []) (map s.task_of xs);
  same_tasks = w.same_tasks;
  other_lists = λ head ws o d.
      w.other_lists head ws ((list_del-Removed s.links q [] x xs r).2 head ws o d)
        (Disjoint-tail q x xs head ws d);
}

wake_step :
    (fuel : ℕ) (s : WaitState) (q x tmp : ℕ) (out : WaitCall)
    → (x == q) ≡ false
    → same_status (s.status_of (s.task_of x)) intr_sleeping ≡ true
    → wake_loop fuel q tmp ((list_del s.links x).nxt tmp) (after_first s x) ≡ out
    → wake_loop (suc fuel) q x tmp s ≡ out
unfolding wake_loop
wake_step fuel s q x tmp out away asleep run = rw (away, asleep) run

-- the loop, from the first node of a ring
wake_loop-Woken :
    (fuel : ℕ) (s : WaitState) (q : ℕ) (xs : List ℕ)
    → length xs < fuel
    → IsRing s.links q xs
    → AllSleep s xs
    → AllDistinct (map s.task_of xs)
    → (cur tmp : ℕ) → cur ≡ s.links.nxt q
    → tmp ≡ s.links.nxt cur
    → (s' : WaitState) × (wake_loop fuel q cur tmp s ≡ wq_done s') × Woken s q xs s'
unfolding wake_loop contains
wake_loop-Woken zero s q xs f r a d cur tmp ec et = absurd (omega arith)
wake_loop-Woken (suc fuel) s q [] f r a d cur tmp ec et =
    let e : (cur == q) ≡ true = ground (arith, ec, r.linked.0) in (s, rw e refl, Woken-none s q r)
wake_loop-Woken (suc fuel) s q (x ∷ xs) f r a d cur tmp ec et =
    let left = (list_del-Removed s.links q [] x xs r).0 in
    let ex : cur ≡ x = ec ∙ r.linked.0 in
    let away : (x == q) ≡ false = ground (arith, r.distinct.0) in
    let et' : tmp ≡ (list_del s.links x).nxt q =
      et
      ∙ ap s.links.nxt ex
      ∙ nxt-start s.links x xs q r.linked.2
      ∙ sym (nxt-start (list_del s.links x) q xs q left.linked) in
    let (s', run, w) =
      wake_loop-Woken fuel (after_first s x) q xs (omega arith) left (AllSleep-after s x xs d.0 a.1)
        d.1 tmp ((list_del s.links x).nxt tmp) et' refl in
    (
      s',
      subst (λ c. wake_loop (suc fuel) q c tmp s ≡ wq_done s') (sym ex)
          (wake_step fuel s q x tmp (wq_done s') away a.0 run),
      Woken-cons s q x xs s' r w,
    )

-- When all tasks on a queue sleep interruptibly and no task is on it twice, `wait_queue_wake` ends,
-- does not panic and wakes each of them: the queue is empty, every node that was on it is on no list
-- and has no queue, exactly the tasks of those nodes are set to run and are made ready in the order
-- of the queue, and no other list or node is changed.
pub wait_queue_wake-Woken :
    (fuel : ℕ) (s : WaitState) (q : ℕ) (xs : List ℕ)
    → length xs < fuel
    → IsRing s.links q xs
    → AllSleep s xs
    → AllDistinct (map s.task_of xs)
    → (s' : WaitState) × (wait_queue_wake fuel s q ≡ wq_done s') × Woken s q xs s'
unfolding wait_queue_wake
wait_queue_wake-Woken fuel s q xs f r a d =
    wake_loop-Woken fuel s q xs f r a d (s.links.nxt q) (s.links.nxt (s.links.nxt q)) refl refl

-- A task on the queue that does not sleep makes `wait_queue_wake` panic once its turn comes.
pub wake_awake_lem :
    (fuel : ℕ) (s : WaitState) (q x : ℕ) (xs : List ℕ)
    → IsRing s.links q (x ∷ xs)
    → same_status (s.status_of (s.task_of x)) intr_sleeping ≡ false
    → wait_queue_wake (suc fuel) s q ≡ wq_panic
unfolding wait_queue_wake contains
wake_awake_lem fuel s q x xs r h =
    let away : (x == q) ≡ false = ground (arith, r.distinct.0) in
    rw (wait_queue_wake, wake_loop, r.linked.0, away, h) refl
