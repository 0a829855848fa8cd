-- ===== src/Fs/Files/Slots.antt =====
-- The places of the file table of kernel/fs/vfs.c: the first free one, and how many open files refer
-- to a vnode.
use native.Mathlib.Decide.{ℕ_discrete}
use monolith.Fs.Files.{File, Vnode, find_free, no_file, no_vnode}
use monolith.Prelude.{
  ==-ne, ==-self, ==_iff, Bool-cases, List, Option, [], ap, arith, get_or, get_or-set_ne,
  get_or-set_self, if◌then◌else◌, inl, inr, length, none, set, some, suc, zero, ℕ, ◌+◌, ◌-◌, ◌<◌,
  ◌==◌, ◌∷◌, ◌≡◌, ◌≤◌,
}

-- every place is in use
abbrev pub AllUsed : List File → Type 0
AllUsed [] = Unit
AllUsed (f ∷ fs) = (0 < f.refcount) × AllUsed fs

abbrev pub Found : ℕ → List File → Option ℕ → Type 0
Found i fs none = AllUsed fs
Found i fs (some k) = (i ≤ k) × (k < i + length fs) × ((get_or fs (k - i) no_file).refcount ≡ 0)

Found-suc :
    (i : ℕ) (f : File) (fs : List File) (o : Option ℕ)
    → 0 < f.refcount
    → Found (i + 1) fs o
    → Found i (f ∷ fs) o
Found-suc i f fs none pos h = (pos, h)
Found-suc i f fs (some k) pos h =
    let place : k - i ≡ suc (k - (i + 1)) = omega (arith, h.0) in
    (omega (arith, h.0), omega (arith, h.1), rw place h.2)

pub find_free-Found : (fs : List File) (i : ℕ) → Found i fs (find_free fs i)
unfolding find_free
find_free-Found [] i = tt
find_free-Found (f ∷ fs) i = elim (Bool-cases (f.refcount == 0)) [
  | inl z ↦
      let place : i - i ≡ 0 = omega arith in
      rw (find_free, z) (omega arith, omega arith, rw place ((==_iff f.refcount 0).0 z))
  | inr z ↦ rw (find_free, z) (Found-suc i f fs _ (ground arith) (find_free-Found fs (i + 1)))
]

-- 1 for an open file on the vnode, 0 for every other
abbrev pub refers : ℕ → File → ℕ
refers n f =
    if f.refcount == 0 then 0 else elim f.inode [ none ↦ 0 | some m ↦ if m == n then 1 else 0 ]

-- how many open files refer to the vnode
abbrev pub open_count : ℕ → List File → ℕ
open_count n [] = 0
open_count n (f ∷ fs) = refers n f + open_count n fs

pub open_count-set :
    (n : ℕ) (fs : List File) (k : ℕ) (f : File)
    → k < length fs
    → open_count n (set fs k f) + refers n (get_or fs k no_file) ≡ open_count n fs + refers n f
open_count-set n [] k f h = absurd (omega arith)
open_count-set n (g ∷ fs) zero f h = omega arith
open_count-set n (g ∷ fs) (suc k) f h = omega (arith, open_count-set n fs k f (omega arith))

-- the reference count of a vnode
abbrev pub ref_of : ℕ → List Vnode → ℕ
ref_of n vs = (get_or vs n no_vnode).ref

pub ref_of-set :
    (n : ℕ) (vs : List Vnode) (k : ℕ) (v : Vnode)
    → k < length vs
    → ref_of n (set vs k v) ≡ (if k == n then v.ref else ref_of n vs)
ref_of-set n vs k v h = elim (ℕ_discrete k n) [
  | yes e ↦ rw (← e, ==-self k) (ap (λ x. x.ref) (get_or-set_self vs k v no_vnode h))
  | no ne ↦ rw (==-ne k n ne) (ap (λ x. x.ref) (get_or-set_ne vs k n v no_vnode ne))
]
