-- ===== src/Libk/ListHead/Tests.antt =====
-- Runs of kernel/include/libk/list.h on a few nodes, and its theorems at them.
use monolith.Libk.ListHead.{Links, list_add, list_add_tail, list_del, list_move}
use monolith.Libk.ListHead.Removal.{list_del-Removed}
use monolith.Libk.ListHead.Sequence.{Disjoint, IsRing, insert-IsRing}
use monolith.Prelude.{List, [], false, refl, ℕ, ◌∷◌, ◌≡◌}
use monolith.Prelude.Members.{contains}

-- memory in which every node is on its own
abbrev fresh : Links
fresh = record { nxt = λ x. x; prv = λ x. x }

-- the head 100 with the nodes 1 and 2
abbrev two : Links
two = list_add_tail (list_add_tail fresh 100 1) 100 2

two_runs : (two.nxt 100 ≡ 1) × (two.nxt 1 ≡ 2) × (two.nxt 2 ≡ 100) × (two.prv 100 ≡ 2)
unfolding list_add_tail
two_runs = (refl, refl, refl, refl)

del_runs : (list_del two 1).nxt 100 ≡ 2
unfolding list_add_tail list_del
del_runs = refl

move_runs : (list_move two 200 1).nxt 200 ≡ 1
unfolding list_add_tail list_move
move_runs = refl

fresh-IsRing : (head : ℕ) → IsRing fresh head []
unfolding contains
fresh-IsRing head = record { linked = (refl, refl); distinct = (refl, tt) }

two-IsRing : IsRing two 100 (1 ∷ 2 ∷ [])
unfolding contains
two-IsRing =
    (insert-IsRing (list_add_tail fresh 100 1) 100 (1 ∷ [])
      (insert-IsRing fresh 100 [] (fresh-IsRing 100) 1 refl).1 2 refl).1

insert-IsRing_example :
    IsRing (list_add two 100 3) 100 (3 ∷ 1 ∷ 2 ∷ [])
    × IsRing (list_add_tail two 100 3) 100 (1 ∷ 2 ∷ 3 ∷ [])
    × ((head' : ℕ) (ws : List ℕ)
        → IsRing two head' ws
        → Disjoint (100 ∷ 1 ∷ 2 ∷ []) (head' ∷ ws)
        → contains 3 (head' ∷ ws) ≡ false
        → IsRing (list_add two 100 3) head' ws × IsRing (list_add_tail two 100 3) head' ws)
unfolding contains
insert-IsRing_example = insert-IsRing two 100 (1 ∷ 2 ∷ []) two-IsRing 3 refl

list_del-Removed_example :
    IsRing (list_del two 1) 100 (2 ∷ [])
    × IsRing (list_del two 1) 1 []
    × ((head' : ℕ) (ws : List ℕ)
        → IsRing two head' ws
        → Disjoint (100 ∷ 1 ∷ 2 ∷ []) (head' ∷ ws)
        → IsRing (list_del two 1) head' ws)
list_del-Removed_example = list_del-Removed two 100 [] 1 (2 ∷ []) two-IsRing
