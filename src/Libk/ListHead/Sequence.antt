-- ===== src/Libk/ListHead/Sequence.antt =====
-- The lists of kernel/include/libk/list.h as sequences of nodes: each operation, on the words in
-- memory, is the operation on the sequence that its name says, and other lists are not touched.
use mathlib.Core.Path.{subst}
use monolith.Libk.ListHead.{
  Links, list_add, list_add_between, list_add_tail, list_empty, list_join, list_node_init, set_next,
  set_prev,
}
use monolith.Libk.ListHead.Ring.{
  Linked, add_first-Linked, add_last-Linked, first_of, last_of, nxt-start, prv-end, set_next-Linked,
  set_prev-Linked,
}
use monolith.Prelude.{==-self, List, [], arith, false, refl, sym, true, ℕ, ◌++◌, ◌↔◌, ◌∷◌, ◌≡◌}
use monolith.Prelude.Members.{AllDistinct, AllDistinct-snoc, contains}

-- the nodes that the list with this head holds, in order
pub record IsRing (g : Links) (head : ℕ) (xs : List ℕ) : Type 0 where
  pub linked : Linked g head xs head
  pub distinct : AllDistinct (head ∷ xs)

-- nothing of the first list is a part of the second
abbrev pub Disjoint : List ℕ → List ℕ → Type 0
Disjoint xs ys = (k : ℕ) → contains k xs ≡ true → contains k ys ≡ false

-- Writes outside a list leave it.
set_next-IsRing :
    (g : Links) (k v head : ℕ) (xs : List ℕ)
    → IsRing g head xs
    → contains k (head ∷ xs) ≡ false
    → IsRing (set_next g k v) head xs
set_next-IsRing g k v head xs r h = record {
  linked = set_next-Linked g k v head xs head r.linked h;
  distinct = r.distinct;
}

set_prev-IsRing :
    (g : Links) (k v head : ℕ) (xs : List ℕ)
    → IsRing g head xs
    → contains k (head ∷ xs) ≡ false
    → IsRing (set_prev g k v) head xs
unfolding contains
set_prev-IsRing g k v head xs r h = record {
  linked = set_prev-Linked g k v head xs head r.linked (ground (arith, h)) (ground (arith, h));
  distinct = r.distinct;
}

-- A node on its own is the head of an empty list.
pub list_node_init-IsRing : (g : Links) (node : ℕ) → IsRing (list_node_init g node) node []
unfolding list_node_init contains
list_node_init-IsRing g node = record { linked = ground arith; distinct = (refl, tt) }

-- The writes of an insertion and of a removal, outside a list.
list_add_between-IsRing :
    (g : Links) (n p q head : ℕ) (xs : List ℕ)
    → IsRing g head xs
    → contains n (head ∷ xs) ≡ false
    → contains p (head ∷ xs) ≡ false
    → contains q (head ∷ xs) ≡ false
    → IsRing (list_add_between g n p q) head xs
unfolding list_add_between
list_add_between-IsRing g n p q head xs r hn hp hq =
    let r1 = set_prev-IsRing g q n head xs r hq in
    let r2 = set_next-IsRing (set_prev g q n) n q head xs r1 hn in
    let r3 = set_prev-IsRing (set_next (set_prev g q n) n q) n p head xs r2 hn in
    set_next-IsRing (set_prev (set_next (set_prev g q n) n q) n p) p n head xs r3 hp

pub list_join-IsRing :
    (g : Links) (p q head : ℕ) (xs : List ℕ)
    → IsRing g head xs
    → contains p (head ∷ xs) ≡ false
    → contains q (head ∷ xs) ≡ false
    → IsRing (list_join g p q) head xs
unfolding list_join
list_join-IsRing g p q head xs r hp hq =
    set_next-IsRing (set_prev g q p) p q head xs (set_prev-IsRing g q p head xs r hq) hp

pub init-IsRing :
    (g : Links) (n head : ℕ) (xs : List ℕ)
    → IsRing g head xs
    → contains n (head ∷ xs) ≡ false
    → IsRing (list_node_init g n) head xs
unfolding list_node_init
init-IsRing g n head xs r h =
    set_next-IsRing (set_prev g n n) n n head xs (set_prev-IsRing g n n head xs r h) h

pub contains-last : (a : ℕ) (xs : List ℕ) → contains (last_of a xs) (a ∷ xs) ≡ true
unfolding contains last_of
contains-last a [] = ground (arith, ==-self a)
contains-last a (x ∷ xs) = ground (arith, contains-last x xs)

pub contains-first : (a : ℕ) (xs : List ℕ) → contains (first_of xs a) (a ∷ xs) ≡ true
unfolding contains first_of
contains-first a [] = ground (arith, ==-self a)
contains-first a (x ∷ xs) = ground (arith, ==-self x)

module _ (g : Links) (head : ℕ) where
  empty-only : (xs : List ℕ) → IsRing g head xs → (list_empty g head ≡ true) ↔ (xs ≡ [])
  unfolding list_empty contains
  empty-only [] r = (λ h. refl, λ h. ground (arith, r.linked, ==-self head))
  empty-only (x ∷ xs) r = (λ h. absurd (ground (arith, r.linked.0, r.distinct.0, h)), λ h. cc)

module _ (g : Links) (head : ℕ) (xs : List ℕ) (r : IsRing g head xs) where
  -- `list_empty` tells whether the sequence is empty.
  pub list_empty_iff : (list_empty g head ≡ true) ↔ (xs ≡ [])
  list_empty_iff = empty-only g head xs r

  module _ (n : ℕ) (new : contains n (head ∷ xs) ≡ false) where
    list_add-IsRing : IsRing (list_add g head n) head (n ∷ xs)
    unfolding list_add contains
    list_add-IsRing =
        let start : g.nxt head ≡ first_of xs head = nxt-start g head xs head r.linked in
        record {
          linked =
              subst (λ q. Linked (list_add_between g n head q) head (n ∷ xs) head) (sym start)
                (add_first-Linked g n head xs head r.linked r.distinct r.distinct.0 new
                  (ground (arith, new)));
          distinct = (ground (arith, new, r.distinct), (ground (arith, new), r.distinct.1));
        }

    list_add_tail-IsRing : IsRing (list_add_tail g head n) head (xs ++ (n ∷ []))
    unfolding list_add_tail contains
    list_add_tail-IsRing =
        let end : g.prv head ≡ last_of head xs = prv-end g head xs head r.linked in
        record {
          linked = rw end (
              add_last-Linked g n head xs head r.linked r.distinct r.distinct.0 new
                (ground (arith, new)));
          distinct = AllDistinct-snoc (head ∷ xs) n r.distinct new;
        }

    insertions-IsRing :
        (head' : ℕ) (ws : List ℕ)
        → IsRing g head' ws
        → Disjoint (head ∷ xs) (head' ∷ ws)
        → contains n (head' ∷ ws) ≡ false
        → IsRing (list_add g head n) head' ws × IsRing (list_add_tail g head n) head' ws
    unfolding list_add list_add_tail contains
    insertions-IsRing head' ws o d h =
        let start : g.nxt head ≡ first_of xs head = nxt-start g head xs head r.linked in
        let end : g.prv head ≡ last_of head xs = prv-end g head xs head r.linked in
        let out : contains head (head' ∷ ws) ≡ false = d head (ground (arith, ==-self head)) in
        (
          rw start (
              list_add_between-IsRing g n head (first_of xs head) head' ws o h out
                (d (first_of xs head) (contains-first head xs))),
          rw end (
              list_add_between-IsRing g n (last_of head xs) head head' ws o h
                (d (last_of head xs) (contains-last head xs)) out),
        )

    -- On the list that holds the nodes `xs`, `list_add` puts a node that is not on it at the front and
    -- `list_add_tail` at the back, and neither touches a list with which this one shares no node and
    -- which the new node is not on.
    pub insert-IsRing :
        IsRing (list_add g head n) head (n ∷ xs)
        × IsRing (list_add_tail g head n) head (xs ++ (n ∷ []))
        × ((head' : ℕ) (ws : List ℕ)
            → IsRing g head' ws
            → Disjoint (head ∷ xs) (head' ∷ ws)
            → contains n (head' ∷ ws) ≡ false
            → IsRing (list_add g head n) head' ws × IsRing (list_add_tail g head n) head' ws)
    insert-IsRing = (list_add-IsRing, list_add_tail-IsRing, insertions-IsRing)
