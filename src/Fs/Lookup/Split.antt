-- ===== src/Fs/Lookup/Split.antt =====
-- The components that kernel/fs/lookup.c takes from a path.
use monolith.Fs.Lookup.{components, split_loop}
use monolith.Prelude.{
  Bool-cases, List, [], ap, append-nil, append_assoc, false, inl, inr, refl, ℕ, ◌++◌, ◌==◌, ◌∙◌,
  ◌∷◌, ◌≡◌,
}

-- no byte is a slash
abbrev pub NoSlash : List ℕ → Type 0
NoSlash [] = Unit {0}
NoSlash (c ∷ s) = ((c == b'/') ≡ false) × NoSlash s

-- a component: not empty, and without slashes
abbrev pub IsComponent : List ℕ → Type 0
IsComponent [] = ⊥
IsComponent (c ∷ s) = NoSlash (c ∷ s)

abbrev pub Components : List (List ℕ) → Type 0
Components [] = Unit {0}
Components (c ∷ cs) = IsComponent c × Components cs

NoSlash-snoc : (s : List ℕ) (c : ℕ) → NoSlash s → (c == b'/') ≡ false → NoSlash (s ++ (c ∷ []))
NoSlash-snoc [] c n h = (h, tt)
NoSlash-snoc (x ∷ s) c n h = (n.0, NoSlash-snoc s c n.1 h)

split_loop-Components :
    (path component : List ℕ) → NoSlash component → Components (split_loop path component)
unfolding split_loop
split_loop-Components [] [] n = tt
split_loop-Components [] (x ∷ xs) n = (n, tt)
split_loop-Components (c ∷ path) [] n = elim (Bool-cases (c == b'/')) [
  | inl e ↦ rw e (split_loop-Components path [] tt)
  | inr e ↦ rw e (split_loop-Components path (c ∷ []) (e, tt))
]
split_loop-Components (c ∷ path) (x ∷ xs) n = elim (Bool-cases (c == b'/')) [
  | inl e ↦ rw e (n, split_loop-Components path [] tt)
  | inr e ↦ rw e (split_loop-Components path (x ∷ (xs ++ (c ∷ []))) (NoSlash-snoc (x ∷ xs) c n e))
]

-- What a path is split into are components.
pub components-Components : (path : List ℕ) → Components (components path)
unfolding components
components-Components path = split_loop-Components path [] tt

split_loop-NoSlash :
    (path : List ℕ) (x : ℕ) (xs : List ℕ)
    → NoSlash path
    → split_loop path (x ∷ xs) ≡ (x ∷ (xs ++ path)) ∷ []
unfolding split_loop
split_loop-NoSlash [] x xs n = rw (append-nil xs) refl
split_loop-NoSlash (c ∷ path) x xs n = rw n.0 (
    split_loop-NoSlash path x (xs ++ (c ∷ [])) n.1
    ∙ ap (λ s. (x ∷ s) ∷ []) (append_assoc xs (c ∷ []) path))

-- A component on its own is split into itself.
pub components-IsComponent : (c : List ℕ) → IsComponent c → components c ≡ c ∷ []
unfolding components split_loop
components-IsComponent [] n = absurd n
components-IsComponent (x ∷ xs) n = rw n.0 (split_loop-NoSlash xs x [] n.1)
