-- ===== src/Libk/ListHead.antt =====
-- kernel/include/libk/list.h: circular doubly linked lists whose nodes stand inside the objects that
-- they link. A node is named by its address; the `next` and `prev` words of all nodes are the state.
-- Each operation makes the writes of the C in their order.
pub mod Ring
pub mod Sequence
pub mod Removal
mod Tests
use monolith.Prelude.{Bool, if◌then◌else◌, ℕ, ◌==◌}

pub record Links : Type 0 where
  pub nxt : ℕ → ℕ
  pub prv : ℕ → ℕ

-- a write of one word
abbrev pub put_word : (ℕ → ℕ) → ℕ → ℕ → ℕ → ℕ
put_word f a v x = if x == a then v else f x

abbrev pub set_next : Links → ℕ → ℕ → Links
set_next g a v = record g { nxt = put_word g.nxt a v }

abbrev pub set_prev : Links → ℕ → ℕ → Links
set_prev g a v = record g { prv = put_word g.prv a v }

unfoldable pub list_node_init : Links → ℕ → Links
list_node_init g node = set_next (set_prev g node node) node node

-- `__list_add`
unfoldable pub list_add_between : Links → ℕ → ℕ → ℕ → Links
list_add_between g node prev next =
    set_next (set_prev (set_next (set_prev g next node) node next) node prev) prev node

unfoldable pub list_add : Links → ℕ → ℕ → Links
unfolding list_add_between
list_add g head node = list_add_between g node head (g.nxt head)

unfoldable pub list_add_tail : Links → ℕ → ℕ → Links
unfolding list_add_between
list_add_tail g head node = list_add_between g node (g.prv head) head

-- `__list_del`
unfoldable pub list_join : Links → ℕ → ℕ → Links
list_join g prev next = set_next (set_prev g next prev) prev next

-- `__list_del_entry`
unfoldable pub list_unlink : Links → ℕ → Links
unfolding list_join
list_unlink g entry = list_join g (g.prv entry) (g.nxt entry)

unfoldable pub list_del : Links → ℕ → Links
unfolding list_unlink list_node_init
list_del g entry = list_node_init (list_unlink g entry) entry

unfoldable pub list_move : Links → ℕ → ℕ → Links
unfolding list_unlink list_add
list_move g head entry = list_add (list_unlink g entry) head entry

unfoldable pub list_empty : Links → ℕ → Bool
list_empty g head = head == g.nxt head

-- `__list_first` and `__list_take_first`
unfoldable pub list_first : Links → ℕ → ℕ
list_first g head = g.nxt head

unfoldable pub list_take_first : Links → ℕ → ℕ × Links
unfolding list_first list_del
list_take_first g head = let node = list_first g head in (node, list_del g node)
