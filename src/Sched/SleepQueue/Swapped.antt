-- ===== src/Sched/SleepQueue/Swapped.antt =====
-- `list_add_tail` of kernel/include/libk/list.h with a lone node as the head and a node of a list to
-- add, as kernel/sched/task_sleep.c calls it.
-- the node that is reached from `x` by so many `next` words
use mathlib.Core.Path.{subst}
use monolith.Libk.ListHead.{Links, list_add_between, list_add_tail, list_node_init}
use monolith.Libk.ListHead.Ring.{Linked}
use monolith.Prelude.{List, [], arith, false, suc, sym, zero, ℕ, ◌++◌, ◌==◌, ◌∙◌, ◌∷◌, ◌≡◌, ◌≢◌}
use monolith.Prelude.Members.{contains}

abbrev pub walk : Links → ℕ → ℕ → ℕ
walk g zero x = x
walk g (suc n) x = walk g n (g.nxt x)

-- A node that is put on the list whose head is a lone node makes a ring of the two.
pub tail_links :
    (g : Links) (desc c : ℕ)
    → (desc == c) ≡ false
    → let g' = list_add_tail (list_node_init g desc) desc c in
      (g'.nxt c ≡ desc) × (g'.nxt desc ≡ c) × (g'.prv c ≡ desc) × (g'.prv desc ≡ c)
unfolding list_add_tail list_node_init list_add_between
tail_links g desc c ne = ground (arith, ne)

pub tail_others :
    (g : Links) (desc c x : ℕ)
    → (x == desc) ≡ false
    → (x == c) ≡ false
    → (list_add_tail (list_node_init g desc) desc c).nxt x ≡ g.nxt x
unfolding list_add_tail list_node_init list_add_between
tail_others g desc c x nd nc = ground (arith, nd, nc)

module _ (g : Links) (queue desc c : ℕ) (apart : (desc == c) ≡ false) (not_c : (c == queue) ≡ false)
    (not_desc : (desc == queue) ≡ false) where
  abbrev pub after : Links
  after = list_add_tail (list_node_init g desc) desc c

  around_c : (n : ℕ) → (walk after n c ≢ queue) × (walk after n desc ≢ queue)
  around_c zero =
      (λ e. absurd (ground (arith, not_c, e)), λ e. absurd (ground (arith, not_desc, e)))
  around_c (suc n) =
      let (to_desc, to_c, _, _) = tail_links g desc c apart in
      let (from_c, from_desc) = around_c n in
      (
        subst (λ x. walk after n x ≢ queue) (sym to_desc) from_desc,
        subst (λ x. walk after n x ≢ queue) (sym to_c) from_c,
      )

  from_next :
      (y : ℕ) (ys : List ℕ)
      → contains queue (y ∷ ys) ≡ false
      → ((n : ℕ) → walk after n (after.nxt y) ≢ queue)
      → (n : ℕ) → walk after n y ≢ queue
  unfolding contains
  from_next y ys nq far zero = λ e. absurd (ground (arith, nq, e))
  from_next y ys nq far (suc n) = far n

  -- A walk from a node in front of `c` ends up between `c` and the new node.
  pub into_c :
      (a : ℕ) (ys zs : List ℕ)
      → Linked g a (ys ++ (c ∷ zs)) queue
      → contains desc (a ∷ ys) ≡ false
      → contains c (a ∷ ys) ≡ false
      → contains queue ys ≡ false
      → (n : ℕ) → walk after n (after.nxt a) ≢ queue
  unfolding contains
  into_c a [] zs l nd nc nq n =
      let same = tail_others g desc c a (ground (arith, nd)) (ground (arith, nc)) in
      subst (λ x. walk after n x ≢ queue) (sym (same ∙ l.0)) (around_c n).0
  into_c a (y ∷ ys) zs l nd nc nq n =
      let same = tail_others g desc c a (ground (arith, nd)) (ground (arith, nc)) in
      subst (λ x. walk after n x ≢ queue) (sym (same ∙ l.0))
        (from_next y ys nq
          (into_c y ys zs l.2 (ground (arith, nd)) (ground (arith, nc)) (ground (arith, nq))) n)
