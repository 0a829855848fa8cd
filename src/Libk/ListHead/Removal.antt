-- ===== src/Libk/ListHead/Removal.antt =====
-- Taking nodes out of the lists of kernel/include/libk/list.h.
use monolith.Libk.ListHead.{
  Links, list_del, list_empty, list_join, list_move, list_take_first, list_unlink,
}
use monolith.Libk.ListHead.Ring.{first_of, last_of, neighbours, unlink-Linked}
use monolith.Libk.ListHead.Sequence.{
  Disjoint, IsRing, contains-first, contains-last, init-IsRing, insert-IsRing, list_join-IsRing,
  list_node_init-IsRing,
}
use monolith.Prelude.{
  ==-self, Bool-cases, List, [], arith, false, inl, inr, refl, true, ℕ, ◌++◌, ◌==◌, ◌∷◌, ◌≡◌,
}
use monolith.Prelude.Members.{AllDistinct-drop, contains, contains-append}

module _ (g : Links) (head : ℕ) (ys : List ℕ) (x : ℕ) (zs : List ℕ)
    (r : IsRing g head (ys ++ (x ∷ zs))) where
  unlinked : list_unlink g x ≡ list_join g (last_of head ys) (first_of zs head)
  unfolding list_unlink
  unlinked =
      let (before, after) = neighbours g head ys x zs head r.linked in rw (before, after) refl

  unlink-IsRing :
      IsRing (list_unlink g x) head (ys ++ zs) × (contains x (head ∷ (ys ++ zs)) ≡ false)
  unfolding contains
  unlink-IsRing =
      let (rest, out) = AllDistinct-drop (head ∷ ys) x zs r.distinct in
      (
        record {
          linked = rw unlinked (unlink-Linked g head ys x zs head r.linked r.distinct r.distinct.0);
          distinct = rest;
        },
        out,
      )

  list_del-IsRing : IsRing (list_del g x) head (ys ++ zs) × IsRing (list_del g x) x []
  unfolding list_del
  list_del-IsRing =
      let (left, out) = unlink-IsRing in
      (
        init-IsRing (list_unlink g x) x head (ys ++ zs) left out,
        list_node_init-IsRing (list_unlink g x) x,
      )

  -- The neighbours of the node are on its list.
  neighbours_on :
      (contains (last_of head ys) (head ∷ (ys ++ (x ∷ zs))) ≡ true)
      × (contains (first_of zs head) (head ∷ (ys ++ (x ∷ zs))) ≡ true)
  unfolding contains
  neighbours_on = (
    ground (arith, contains-append (last_of head ys) ys (x ∷ zs), contains-last head ys),
    ground (arith, contains-append (first_of zs head) ys (x ∷ zs), contains-first head zs),
  )

  unlink-others :
      (head' : ℕ) (ws : List ℕ)
      → IsRing g head' ws
      → Disjoint (head ∷ (ys ++ (x ∷ zs))) (head' ∷ ws)
      → IsRing (list_unlink g x) head' ws × (contains x (head' ∷ ws) ≡ false)
  unfolding contains
  unlink-others head' ws o d =
      let (nl, nf) = neighbours_on in
      (
        rw unlinked
            (list_join-IsRing g (last_of head ys) (first_of zs head) head' ws o (d _ nl) (d _ nf)),
        d x (ground (arith, contains-append x ys (x ∷ zs), ==-self x)),
      )

  list_del-others :
      (head' : ℕ) (ws : List ℕ)
      → IsRing g head' ws
      → Disjoint (head ∷ (ys ++ (x ∷ zs))) (head' ∷ ws)
      → IsRing (list_del g x) head' ws
  unfolding list_del
  list_del-others head' ws o d =
      let (left, out) = unlink-others head' ws o d in
      init-IsRing (list_unlink g x) x head' ws left out

  Disjoint-back :
      (head' : ℕ) (ws : List ℕ)
      → Disjoint (head ∷ (ys ++ (x ∷ zs))) (head' ∷ ws)
      → Disjoint (head' ∷ ws) (head ∷ (ys ++ zs))
  unfolding contains
  Disjoint-back head' ws d k on = elim (Bool-cases (contains k (head ∷ (ys ++ zs)))) [
    | inl both ↦
        let more : contains k (head ∷ (ys ++ (x ∷ zs))) ≡ true =
          ground (arith, both, contains-append k ys zs, contains-append k ys (x ∷ zs)) in
        cc (d k more, on)
    | inr out ↦ out
  ]

  -- `list_del` takes a node out of its list, keeping the others in order, and leaves it on its own;
  -- it does not touch a list with which this one shares no node.
  pub list_del-Removed :
      IsRing (list_del g x) head (ys ++ zs)
      × IsRing (list_del g x) x []
      × ((head' : ℕ) (ws : List ℕ)
          → IsRing g head' ws
          → Disjoint (head ∷ (ys ++ (x ∷ zs))) (head' ∷ ws)
          → IsRing (list_del g x) head' ws)
  list_del-Removed = (list_del-IsRing.0, list_del-IsRing.1, list_del-others)

-- `list_take_first` of a list that is not empty gives its first node and leaves the others.
pub list_take_first_lem :
    (g : Links) (head x : ℕ) (xs : List ℕ)
    → IsRing g head (x ∷ xs)
    → (list_take_first g head ≡ (x, list_del g x)) × IsRing (list_del g x) head xs
unfolding list_take_first
list_take_first_lem g head x xs r =
    (rw (list_take_first, r.linked.0) refl, (list_del-Removed g head [] x xs r).0)

-- `list_move` takes a node out of one list and puts it at the front of another one.
pub list_move-IsRing :
    (g : Links) (head : ℕ) (ys : List ℕ) (x : ℕ) (zs : List ℕ) (head' : ℕ) (ws : List ℕ)
    → IsRing g head (ys ++ (x ∷ zs))
    → IsRing g head' ws
    → Disjoint (head ∷ (ys ++ (x ∷ zs))) (head' ∷ ws)
    → IsRing (list_move g head' x) head' (x ∷ ws) × IsRing (list_move g head' x) head (ys ++ zs)
unfolding list_move
list_move-IsRing g head ys x zs head' ws r o d =
    let (left, out) = unlink-IsRing g head ys x zs r in
    let (other, away) = unlink-others g head ys x zs r head' ws o d in
    let moved = insert-IsRing (list_unlink g x) head' ws other x away in
    (moved.0, (moved.2 head (ys ++ zs) left (Disjoint-back g head ys x zs r head' ws d) out).0)

not_first :
    (x head : ℕ) (zs : List ℕ) → contains x (head ∷ zs) ≡ false → (x == first_of zs head) ≡ false
unfolding contains first_of
not_first x head [] h = ground (arith, h)
not_first x head (z ∷ r) h = ground (arith, h)

-- A node that is on a list is not empty as a list of its own.
pub on_list-list_empty :
    (g : Links) (head : ℕ) (ys : List ℕ) (x : ℕ) (zs : List ℕ)
    → IsRing g head (ys ++ (x ∷ zs))
    → list_empty g x ≡ false
unfolding list_empty contains
on_list-list_empty g head ys x zs r =
    let after = (neighbours g head ys x zs head r.linked).1 in
    let out = (AllDistinct-drop (head ∷ ys) x zs r.distinct).1 in
    rw after (not_first x head zs (ground (arith, out, contains-append x ys zs)))
