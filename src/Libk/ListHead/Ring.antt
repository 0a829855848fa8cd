-- ===== src/Libk/ListHead/Ring.antt =====
-- The links of kernel/include/libk/list.h as a path of nodes: what writes leave of a path, and how a
-- path grows and shrinks.
use monolith.Libk.ListHead.{Links, list_add_between, list_join, set_next, set_prev}
use monolith.Prelude.{List, [], arith, false, ℕ, ◌++◌, ◌∷◌, ◌≡◌, ◌≢◌}
use monolith.Prelude.Members.{AllDistinct, contains, contains-append}

-- from `a` through the nodes `xs` to `b`, in both directions
abbrev pub Linked : Links → ℕ → List ℕ → ℕ → Type 0
Linked g a [] b = (g.nxt a ≡ b) × (g.prv b ≡ a)
Linked g a (x ∷ xs) b = (g.nxt a ≡ x) × (g.prv x ≡ a) × Linked g x xs b

-- the node before the end
unfoldable pub last_of : ℕ → List ℕ → ℕ
last_of a [] = a
last_of a (x ∷ xs) = last_of x xs

-- A write to a node outside the path leaves it.
pub set_next-Linked :
    (g : Links) (k v a : ℕ) (xs : List ℕ) (b : ℕ)
    → Linked g a xs b
    → contains k (a ∷ xs) ≡ false
    → Linked (set_next g k v) a xs b
unfolding contains
set_next-Linked g k v a [] b l h = (ground (arith, l, h), l.1)
set_next-Linked g k v a (x ∷ xs) b l h =
    (ground (arith, l, h), l.1, set_next-Linked g k v x xs b l.2 (ground (arith, h)))

pub set_prev-Linked :
    (g : Links) (k v a : ℕ) (xs : List ℕ) (b : ℕ)
    → Linked g a xs b
    → contains k xs ≡ false
    → b ≢ k
    → Linked (set_prev g k v) a xs b
unfolding contains
set_prev-Linked g k v a [] b l h ne = (l.0, ground (arith, l, ne))
set_prev-Linked g k v a (x ∷ xs) b l h ne =
    (l.0, ground (arith, l, h), set_prev-Linked g k v x xs b l.2 (ground (arith, h)) ne)

pub prv-end : (g : Links) (a : ℕ) (xs : List ℕ) (b : ℕ) → Linked g a xs b → g.prv b ≡ last_of a xs
unfolding last_of
prv-end g a [] b l = l.1
prv-end g a (x ∷ xs) b l = prv-end g x xs b l.2

pub contains-last_of : (n a : ℕ) (xs : List ℕ) → contains n (a ∷ xs) ≡ false → n ≢ last_of a xs
unfolding contains last_of
contains-last_of n a [] h = ground (arith, h)
contains-last_of n a (x ∷ xs) h = contains-last_of n x xs (ground (arith, h))

-- A node that is new to the path is put before its end.
pub add_last-Linked :
    (g : Links) (n a : ℕ) (xs : List ℕ) (b : ℕ)
    → Linked g a xs b
    → AllDistinct (a ∷ xs)
    → contains b xs ≡ false
    → contains n (a ∷ xs) ≡ false
    → n ≢ b
    → Linked (list_add_between g n (last_of a xs) b) a (xs ++ (n ∷ [])) b
unfolding contains last_of list_add_between
add_last-Linked g n a [] b l d h out ne = ground (arith, l, out, ne)
add_last-Linked g n a (x ∷ xs) b l d h out ne =
    let far : a ≢ last_of x xs = contains-last_of a x xs d.0 in
    let ih = add_last-Linked g n x xs b l.2 d.1 (ground (arith, h)) (ground (arith, out)) ne in
    (ground (arith, l, out, far), ground (arith, l, out, h), ih)

-- the node after the start
unfoldable pub first_of : List ℕ → ℕ → ℕ
first_of [] b = b
first_of (x ∷ xs) b = x

pub nxt-start :
    (g : Links) (a : ℕ) (xs : List ℕ) (b : ℕ) → Linked g a xs b → g.nxt a ≡ first_of xs b
unfolding first_of
nxt-start g a [] b l = l.0
nxt-start g a (x ∷ xs) b l = l.0

-- A node that is new to the path is put behind its start.
pub add_first-Linked :
    (g : Links) (n a : ℕ) (xs : List ℕ) (b : ℕ)
    → Linked g a xs b
    → AllDistinct (a ∷ xs)
    → contains b xs ≡ false
    → contains n (a ∷ xs) ≡ false
    → n ≢ b
    → Linked (list_add_between g n a (first_of xs b)) a (n ∷ xs) b
unfolding contains first_of list_add_between
add_first-Linked g n a [] b l d h out ne = ground (arith, l, out, ne)
add_first-Linked g n a (x ∷ xs) b l d h out ne =
    let g1 = set_prev g x n in
    let l1 = set_prev-Linked g x n x xs b l.2 d.1.0 (ground (arith, h)) in
    let l2 = set_next-Linked g1 n x x xs b l1 (ground (arith, out)) in
    let l3 =
      set_prev-Linked (set_next g1 n x) n a x xs b l2 (ground (arith, out)) (ground (arith, ne)) in
    let l4 = set_next-Linked (set_prev (set_next g1 n x) n a) a n x xs b l3 (ground (arith, d)) in
    (ground (arith, out), ground (arith, out), (ground (arith, out), ground (arith, out), l4))

unlink_first :
    (g : Links) (a x : ℕ) (zs : List ℕ) (b : ℕ)
    → Linked g a (x ∷ zs) b
    → AllDistinct (a ∷ x ∷ zs)
    → contains b (x ∷ zs) ≡ false
    → Linked (list_join g a (first_of zs b)) a zs b
unfolding contains first_of list_join
unlink_first g a x [] b l d h = ground arith
unlink_first g a x (z ∷ r) b l d h =
    let l1 = set_prev-Linked g z a z r b l.2.2 d.1.1.0 (ground (arith, h)) in
    let l2 = set_next-Linked (set_prev g z a) a z z r b l1 (ground (arith, d)) in
    (ground arith, ground arith, l2)

-- the two neighbours of a node in the middle
pub neighbours :
    (g : Links) (a : ℕ) (ys : List ℕ) (x : ℕ) (zs : List ℕ) (b : ℕ)
    → Linked g a (ys ++ (x ∷ zs)) b
    → (g.prv x ≡ last_of a ys) × (g.nxt x ≡ first_of zs b)
unfolding last_of
neighbours g a [] x zs b l = (l.1, nxt-start g x zs b l.2)
neighbours g a (y ∷ ys) x zs b l = neighbours g y ys x zs b l.2

last_ne : (n y : ℕ) (ys zs : List ℕ) → contains n (y ∷ (ys ++ zs)) ≡ false → n ≢ last_of y ys
unfolding contains
last_ne n y ys zs h = contains-last_of n y ys (ground (arith, h, contains-append n ys zs))

first_ne :
    (y : ℕ) (ys : List ℕ) (x : ℕ) (zs : List ℕ) (b : ℕ)
    → contains y (ys ++ (x ∷ zs)) ≡ false
    → y ≢ b
    → y ≢ first_of zs b
unfolding contains first_of
first_ne y ys x [] b h ne = ne
first_ne y ys x (z ∷ r) b h ne =
    let split = contains-append y ys (x ∷ z ∷ r) in ground (arith, h, split)

-- A node is taken out of the middle of the path.
pub unlink-Linked :
    (g : Links) (a : ℕ) (ys : List ℕ) (x : ℕ) (zs : List ℕ) (b : ℕ)
    → Linked g a (ys ++ (x ∷ zs)) b
    → AllDistinct (a ∷ (ys ++ (x ∷ zs)))
    → contains b (ys ++ (x ∷ zs)) ≡ false
    → Linked (list_join g (last_of a ys) (first_of zs b)) a (ys ++ zs) b
unfolding last_of contains list_join
unlink-Linked g a [] x zs b l d h = unlink_first g a x zs b l d h
unlink-Linked g a (y ∷ ys) x zs b l d h =
    let ih = unlink-Linked g y ys x zs b l.2 d.1 (ground (arith, h)) in
    let far = last_ne a y ys (x ∷ zs) d.0 in
    let away = first_ne y ys x zs b d.1.0 (ground (arith, h)) in
    (ground (arith, l, far), ground (arith, l, away), ih)
