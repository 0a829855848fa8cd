-- ===== src/Sched/SleepQueue/Insertion.antt =====
-- What `sys_clock_nanosleep` of kernel/sched/task_sleep.c does to the words of the sleep queue.
use mathlib.Core.Option
use mathlib.Core.Path.{subst}
use monolith.Libk.ListHead.{list_add, list_add_tail, list_empty, list_node_init, put_word}
use monolith.Libk.ListHead.Ring.{Linked, nxt-start}
use monolith.Libk.ListHead.Sequence.{IsRing, init-IsRing, insert-IsRing, list_empty_iff}
use monolith.Prelude.{
  ==-self, Bool-cases, List, [], ap, arith, false, inl, inr, length, refl, some, suc, sym, true, ℕ,
  ◌%◌, ◌++◌, ◌+◌, ◌-◌, ◌<◌, ◌==◌, ◌∙◌, ◌∷◌, ◌≡◌, ◌≢◌, ◌≤◌, ◌⊎◌,
}
use monolith.Prelude.Members.{AllDistinct, AllDistinct-drop, contains, contains-append}
use monolith.Prelude.Words.{u64_mod}
use monolith.Sched.SleepQueue.{Sleepers, enqueue_sleeper, find_place, put_sleeper}
use monolith.Sched.SleepQueue.Place.{Ends, StopsAt, find_place-Found, total}
use monolith.Sched.SleepQueue.Swapped.{into_c, tail_links, walk}

list_cases : (xs : List ℕ) → (xs ≡ []) ⊎ (¬ (xs ≡ []))
list_cases [] = inl refl
list_cases (x ∷ xs) = inr (λ e. absurd (cc e))

-- what the call leaves of a queue with the entries `xs`
pub record Alone (s' : Sleepers) (queue desc time : ℕ) (xs : List ℕ) : Type 0 where
  pub was_empty : xs ≡ []
  pub ring : IsRing s'.links queue (desc ∷ [])
  pub delta : s'.delta desc ≡ time

pub record Lost (s s' : Sleepers) (queue desc time : ℕ) (xs : List ℕ) : Type 0 where
  pub some_entry : ¬ (xs ≡ [])
  pub later : total s.delta xs ≤ time
  pub ring : IsRing s'.links queue (desc ∷ [])
  pub delta : s'.delta desc ≡ time - total s.delta xs
  pub stray : s'.delta queue ≡ (s.delta queue + u64_mod - s'.delta desc) % u64_mod

pub record Endless (s s' : Sleepers) (queue desc time : ℕ) (xs : List ℕ) : Type 0 where
  pub next : ℕ
  pub left : ℕ
  pub stops : StopsAt s.delta xs time next left
  pub to_desc : s'.links.nxt next ≡ desc
  pub to_next : s'.links.nxt desc ≡ next
  pub no_return : (n : ℕ) → walk s'.links (suc n) queue ≢ queue
  pub delta : s'.delta desc ≡ left

module _ (s : Sleepers) (queue desc : ℕ) (xs : List ℕ) (ring : IsRing s.links queue xs)
    (new : contains desc (queue ∷ xs) ≡ false) where
  abbrev ready : Sleepers
  ready = record s { links = list_node_init s.links desc }

  ready-IsRing : IsRing ready.links queue xs
  ready-IsRing = init-IsRing s.links desc queue xs ring new

  -- the state behind the insertion into a queue with entries
  abbrev inserted : ℕ → ℕ → Sleepers
  inserted cur left =
      let delta = put_word s.delta desc left in
      record {
        links = list_add_tail ready.links desc cur;
        delta = put_word delta cur ((delta cur + u64_mod - left) % u64_mod);
      }

  put_sleeper-inserted :
      (cur left : ℕ)
      → list_empty ready.links queue ≡ false
      → put_sleeper ready queue desc (cur, left) ≡ inserted cur left
  unfolding put_sleeper list_empty list_add_tail
  put_sleeper-inserted cur left e = rw (put_sleeper, e) refl

  has_entries : ¬ (xs ≡ []) → list_empty ready.links queue ≡ false
  has_entries some_entry = elim (Bool-cases (list_empty ready.links queue)) [
    | inl e ↦ absurd (some_entry ((list_empty_iff ready.links queue xs ready-IsRing).0 e))
    | inr e ↦ e
  ]

  desc_delta : (cur left : ℕ) → (desc == cur) ≡ false → (inserted cur left).delta desc ≡ left
  desc_delta cur left ne = ground (arith, ne)

  two_ring :
      (desc == queue) ≡ false → IsRing (list_add_tail ready.links desc queue) queue (desc ∷ [])
  unfolding contains
  two_ring ne =
      let (to_desc, to_queue, from_desc, from_queue) = tail_links s.links desc queue ne in
      record {
        linked = (to_desc, from_queue, (to_queue, from_desc));
        distinct = (ground (arith, ne), (refl, tt));
      }

  inserted-Lost :
      (time left : ℕ)
      → ¬ (xs ≡ [])
      → total s.delta xs ≤ time
      → left ≡ time - total s.delta xs
      → Lost s (inserted queue left) queue desc time xs
  unfolding contains
  inserted-Lost time left some_entry later left_over =
      let ne : (desc == queue) ≡ false = ground (arith, new) in
      let same = desc_delta queue left ne in
      record {
        some_entry = some_entry;
        later = later;
        ring = two_ring ne;
        delta = same ∙ left_over;
        stray = rw same (ground (arith, ne));
      }

  Ends-Lost :
      (time cur left : ℕ)
      → ¬ (xs ≡ [])
      → Ends s.delta queue xs time cur left
      → Lost s (put_sleeper ready queue desc (cur, left)) queue desc time xs
  Ends-Lost time cur left some_entry f =
      subst (λ x. Lost s x queue desc time xs)
        (sym (
          ap (λ c. put_sleeper ready queue desc (c, left)) f.at_head
          ∙ put_sleeper-inserted queue left (has_entries some_entry)))
        (inserted-Lost time left some_entry f.later f.left_over)

  inserted-Endless :
      (time cur left : ℕ)
      → StopsAt s.delta xs time cur left
      → Endless s (inserted cur left) queue desc time xs
  unfolding contains
  inserted-Endless time cur left f =
      let parts = contains-append desc f.before (cur ∷ f.behind) in
      let fresh : contains desc (queue ∷ (f.before ++ (cur ∷ f.behind))) ≡ false =
        subst (λ ys. contains desc (queue ∷ ys) ≡ false) f.split new in
      let apart : (desc == cur) ≡ false = ground (arith, fresh, parts) in
      let distinct = subst (λ ys. AllDistinct (queue ∷ ys)) f.split ring.distinct in
      let linked = subst (λ ys. Linked s.links queue ys queue) f.split ring.linked in
      let cur_out = (AllDistinct-drop (queue ∷ f.before) cur f.behind distinct).1 in
      let head_out = distinct.0 in
      record {
        next = cur;
        left = left;
        stops = f;
        to_desc = (tail_links s.links desc cur apart).0;
        to_next = (tail_links s.links desc cur apart).1;
        no_return =
            into_c s.links queue desc cur apart (ground (arith, cur_out)) (ground (arith, fresh))
              queue f.before f.behind linked (ground (arith, fresh, parts))
              (ground (arith, cur_out, contains-append cur f.before f.behind))
              (ground (arith, head_out, contains-append queue f.before (cur ∷ f.behind)));
        delta = desc_delta cur left apart;
      }

  nonempty : (ys zs : List ℕ) (c : ℕ) → xs ≡ ys ++ (c ∷ zs) → ¬ (xs ≡ [])
  nonempty [] zs c e n = absurd (cc (e, n))
  nonempty (y ∷ ys) zs c e n = absurd (cc (e, n))

  stops-Endless :
      (time cur left : ℕ)
      → StopsAt s.delta xs time cur left
      → Endless s (put_sleeper ready queue desc (cur, left)) queue desc time xs
  stops-Endless time cur left f =
      subst (λ x. Endless s x queue desc time xs)
        (sym (put_sleeper-inserted cur left (has_entries (nonempty f.before f.behind cur f.split))))
        (inserted-Endless time cur left f)

  put-Alone :
      (time cur left : ℕ)
      → xs ≡ []
      → Ends s.delta queue xs time cur left
      → Alone (put_sleeper ready queue desc (cur, left)) queue desc time xs
  unfolding put_sleeper list_empty list_add
  put-Alone time cur left none_there f =
      let e : list_empty ready.links queue ≡ true =
        (list_empty_iff ready.links queue xs ready-IsRing).1 none_there in
      let whole : total s.delta xs ≡ 0 = ap (total s.delta) none_there in
      let added = (insert-IsRing ready.links queue xs ready-IsRing desc new).0 in
      let result : put_sleeper ready queue desc (cur, left)
          ≡ record { links = list_add ready.links queue desc; delta = put_word s.delta desc left } =
        rw (put_sleeper, e) refl in
      subst (λ x. Alone x queue desc time xs) (sym result)
        (record {
          was_empty = none_there;
          ring =
              subst (λ ys. IsRing (list_add ready.links queue desc) queue (desc ∷ ys)) none_there
                added;
          delta = ground (arith, ==-self desc, f.left_over, whole);
        })

  -- `sys_clock_nanosleep` ends its loop and puts the caller, a node that is not in the queue, into the
  -- queue. It becomes the only entry of an empty queue. In a queue with entries the arguments of
  -- `list_add_tail` are swapped: if none is due later than the caller, then the queue holds the
  -- caller alone, the others are lost, and the word in front of the list's head is reduced; else
  -- the first entry that is due later and the caller follow each other for ever, and no walk
  -- from the head comes back to it.
  pub enqueue_sleeper-Enqueued :
      (fuel time : ℕ)
      → length xs < fuel
      → (s' : Sleepers) × (enqueue_sleeper fuel s queue desc time ≡ some s')
        × (Alone s' queue desc time xs
            ⊎ (Lost s s' queue desc time xs ⊎ Endless s s' queue desc time xs))
  unfolding enqueue_sleeper
  enqueue_sleeper-Enqueued fuel time enough =
      let start = nxt-start ready.links queue xs queue ready-IsRing.linked in
      let (c, left, e, found) =
        find_place-Found ready queue fuel queue xs time ready-IsRing.linked ring.distinct.0
          enough in
      let result : enqueue_sleeper fuel s queue desc time
          ≡ some (put_sleeper ready queue desc (c, left)) =
        ap (Option.map (put_sleeper ready queue desc))
          (ap (λ x. find_place fuel ready queue x time) start ∙ e) in
      (
        put_sleeper ready queue desc (c, left),
        result,
        elim found [
          | inr f ↦ inr (inr (stops-Endless time c left f))
          | inl f ↦ elim (list_cases xs) [
            | inl z ↦ inl (put-Alone time c left z f)
            | inr n ↦ inr (inl (Ends-Lost time c left n f))
          ]
        ],
      )
