-- ===== src/Prelude/Members.antt =====
-- Membership in a list of numbers, such as pids, pages or the addresses of nodes.
use monolith.Prelude.{Bool, List, [], arith, false, refl, ℕ, ◌++◌, ◌==◌, ◌||◌, ◌∙◌, ◌∷◌, ◌≡◌}

unfoldable pub contains : ℕ → List ℕ → Bool
contains i [] = false
contains i (x ∷ xs) = (x == i) || contains i xs

-- no number twice
abbrev pub AllDistinct : List ℕ → Type 0
AllDistinct [] = Unit {0}
AllDistinct (x ∷ xs) = (contains x xs ≡ false) × AllDistinct xs

pub contains-append :
    (i : ℕ) (xs ys : List ℕ) → contains i (xs ++ ys) ≡ (contains i xs || contains i ys)
unfolding contains
contains-append i [] ys = refl
contains-append i (x ∷ xs) ys = ground (arith, contains-append i xs ys)

-- One more at the end.
pub AllDistinct-snoc :
    (xs : List ℕ) (n : ℕ) → AllDistinct xs → contains n xs ≡ false → AllDistinct (xs ++ (n ∷ []))
unfolding contains
AllDistinct-snoc [] n d h = (refl, tt)
AllDistinct-snoc (x ∷ xs) n d h = (
  contains-append x xs (n ∷ []) ∙ ground (arith, d, h),
  AllDistinct-snoc xs n d.1 (ground (arith, h)),
)

-- One taken out of the middle.
pub AllDistinct-drop :
    (xs : List ℕ) (n : ℕ) (ys : List ℕ)
    → AllDistinct (xs ++ (n ∷ ys))
    → AllDistinct (xs ++ ys) × (contains n (xs ++ ys) ≡ false)
unfolding contains
AllDistinct-drop [] n ys d = (d.1, d.0)
AllDistinct-drop (x ∷ xs) n ys d =
    let (e, out) = AllDistinct-drop xs n ys d.1 in
    let split : contains x (xs ++ (n ∷ ys)) ≡ (contains x xs || contains x (n ∷ ys)) =
      contains-append x xs (n ∷ ys) in
    let split' : contains x (xs ++ ys) ≡ (contains x xs || contains x ys) =
      contains-append x xs ys in
    ((ground (arith, split, split', d), e), ground (arith, split, d, out))
