-- ===== src/Fs/Files/Closing.antt =====
-- The references that a closed file gives back to its vnode (kernel/fs/vfs.c).
use native.Mathlib.Decide.{ℕ_discrete}
use monolith.Fs.Files.{
  File, Vfs, Vnode, no_file, no_vnode, release_file, vfs_close, vfs_open_internal, vfs_put_file,
  vnode_put,
}
use monolith.Fs.Files.Opening.{Opened, one_if, open-Opened}
use monolith.Fs.Files.Slots.{open_count, open_count-set, ref_of, ref_of-set, refers}
use monolith.Prelude.{
  ==-ne, ==-self, ==_iff, Bool-cases, List, Option, ap, arith, false, get_or, get_or-set_self,
  if◌then◌else◌, inl, inr, length, length-set, ltb, none, refl, set, some, true, ℕ, ◌%◌, ◌&&◌, ◌+◌,
  ◌-◌, ◌<◌, ◌==◌, ◌^◌, ◌∙◌, ◌≡◌,
}
use monolith.Prelude.Errno.{Result, ebadf, err, ok}
use monolith.Prelude.Words.{u32_mod}

released :
    (node n a b c : ℕ)
    → b + 1 ≡ a
    → (node ≡ n → a ≡ c)
    → (if node == n then b else c) + one_if (node == n) ≡ c
released node n a b c e same = elim (ℕ_discrete node n) [
  | yes q ↦ rw ((==_iff node n).1 q) (omega (arith, same q))
  | no ne ↦ rw (==-ne node n ne) (omega arith)
]

put-ref :
    (vs : List Vnode) (node n : ℕ)
    → node < length vs
    → 0 < ref_of node vs
    → ref_of node vs < u32_mod
    → ref_of n (set vs node (vnode_put (get_or vs node no_vnode))) + one_if (node == n)
      ≡ ref_of n vs
unfolding vnode_put
put-ref vs node n room pos small =
    rw (ref_of-set n vs node (vnode_put (get_or vs node no_vnode)) room) (
      released node n (ref_of node vs) _ (ref_of n vs) (omega arith) (λ q. ap (λ m. ref_of m vs) q))

refers-live :
    (n node : ℕ) (f : File) → f.inode ≡ some node → 0 < f.refcount → refers n f ≡ one_if (node == n)
refers-live n node f e pos =
    let live : (f.refcount == 0) ≡ false = ground arith in rw (live, e) refl

refers-dead : (n : ℕ) (f : File) → f.refcount ≡ 0 → refers n f ≡ 0
refers-dead n f e = let dead : (f.refcount == 0) ≡ true = ground arith in rw dead refl

abbrev count_of : Vfs → ℕ → ℕ
count_of s fd = (get_or s.open_files fd no_file).refcount

-- one reference given back, at a file that has others
kept-count :
    (n node : ℕ) (fs : List File) (fd : ℕ) (f : File)
    → fd < length fs
    → (get_or fs fd no_file).inode ≡ some node
    → f.inode ≡ some node
    → 0 < (get_or fs fd no_file).refcount
    → 0 < f.refcount
    → open_count n (set fs fd f) ≡ open_count n fs
kept-count n node fs fd f room e e' pos pos' = omega (
  arith,
  open_count-set n fs fd f room,
  refers-live n node (get_or fs fd no_file) e pos,
  refers-live n node f e' pos',
)

-- the last reference given back, and the place cleared
cleared-count :
    (n node : ℕ) (fs : List File) (fd : ℕ) (f g : File)
    → fd < length fs
    → (get_or fs fd no_file).inode ≡ some node
    → 0 < (get_or fs fd no_file).refcount
    → f.refcount ≡ 0
    → g.refcount ≡ 0
    → open_count n (set (set fs fd f) fd g) + one_if (node == n) ≡ open_count n fs
cleared-count n node fs fd f g room e pos zf zg =
    let now : get_or (set fs fd f) fd no_file ≡ f = get_or-set_self fs fd f no_file room in
    omega (
      arith,
      open_count-set n fs fd f room,
      open_count-set n (set fs fd f) fd g (omega (arith, length-set fs fd f)),
      refers-live n node (get_or fs fd no_file) e pos,
      refers-dead n f zf,
      refers-dead n g zg,
      ap (refers n) now,
    )

abbrev cleared : File → File
cleared f = record f { pos = 0; inode = none; path = none; fs_id = 2 ^ 32 - 1 }

close-put :
    (s : Vfs) (fd node : ℕ) (leftover : Result (Unit {0}))
    → (get_or s.open_files fd no_file).inode ≡ some node
    → vfs_close s fd (ok tt) leftover ≡ vfs_put_file s fd (ok tt) leftover
unfolding vfs_close
close-put s fd node leftover e = go (get_or s.open_files fd no_file).inode e
  where
    go :
        (o : Option ℕ)
        → o ≡ some node
        → (elim o as (λ x. Vfs × Result (Unit {0})) [
          | none ↦ (s, err ebadf)
          | some x ↦ vfs_put_file s fd (ok tt) leftover
        ])
          ≡ vfs_put_file s fd (ok tt) leftover
    go none q = cc
    go (some x) q = refl

released-vnodes :
    (s : Vfs) (fd node : ℕ) (f : File)
    → f.inode ≡ some node
    → (release_file s fd f).vnodes ≡ set s.vnodes node (vnode_put (get_or s.vnodes node no_vnode))
unfolding release_file
released-vnodes s fd node f e = rw (release_file, e) refl

-- `vfs_close` of a place that holds an open file gives back one reference. With the last one, once
-- the `close` operation has succeeded, the place is free, and both the vnode's open files and its
-- reference count shrink by one, and those of no other vnode; before that neither changes.
pub close-Closed :
    (s : Vfs) (fd node n : ℕ) (leftover : Result (Unit {0}))
    → fd < length s.open_files
    → (get_or s.open_files fd no_file).inode ≡ some node
    → 0 < (get_or s.open_files fd no_file).refcount
    → (get_or s.open_files fd no_file).refcount < u32_mod
    → node < length s.vnodes
    → 0 < ref_of node s.vnodes
    → ref_of node s.vnodes < u32_mod
    → let s' = (vfs_close s fd (ok tt) leftover).0 in
      let gone = one_if ((get_or s.open_files fd no_file).refcount == 1 && (node == n)) in
      ((get_or s'.open_files fd no_file).refcount + 1 ≡ (get_or s.open_files fd no_file).refcount)
      × (open_count n s'.open_files + gone ≡ open_count n s.open_files)
      × (ref_of n s'.vnodes + gone ≡ ref_of n s.vnodes)
unfolding vfs_put_file release_file
close-Closed s fd node n leftover room e pos small has pos_v small_v =
    let f : File = get_or s.open_files fd no_file in
    let f' : File = record f { refcount = (f.refcount + u32_mod - 1) % u32_mod } in
    let less : f'.refcount + 1 ≡ f.refcount = omega arith in
    rw (close-put s fd node leftover e)
      (elim (Bool-cases (ltb 1 (get_or s.open_files fd no_file).refcount)) [
        | inl many ↦
            let not_last : ((get_or s.open_files fd no_file).refcount == 1) ≡ false =
              ground arith in
            rw (vfs_put_file, many, not_last)
              (
                ap (λ x. x.refcount + 1) (get_or-set_self s.open_files fd f' no_file room) ∙ less,
                omega (arith, kept-count n node s.open_files fd f' room e e pos (ground arith)),
                omega arith,
              )
        | inr one ↦
            let last : ((get_or s.open_files fd no_file).refcount == 1) ≡ true = ground arith in
            let none_left : f'.refcount ≡ 0 = ground arith in
            let in_table : fd < length (set s.open_files fd f') =
              omega (arith, length-set s.open_files fd f') in
            let s' : Vfs = record s { open_files = set s.open_files fd f' } in
            rw (vfs_put_file, one, last)
              (
                ap (λ x. x.refcount + 1)
                      (get_or-set_self (set s.open_files fd f') fd (cleared f') no_file in_table)
                    ∙ less,
                cleared-count n node s.open_files fd f' (cleared f') room e pos none_left none_left,
                rw (released-vnodes s' fd node f' e) (put-ref s.vnodes node n has pos_v small_v),
              )
      ])

-- A `vfs_open_internal` that succeeds and a `vfs_close` of its place, whose operations succeed, leave
-- the place free and the open files and the reference count of every vnode as they were.
pub open-close :
    (s s1 : Vfs) (node fd n : ℕ) (path : Option ℕ) (fs_id : ℕ) (leftover : Result (Unit {0}))
    → node < length s.vnodes
    → ref_of node s.vnodes + 1 < u32_mod
    → vfs_open_internal s node path (ok fs_id) ≡ (s1, ok fd)
    → let s2 = (vfs_close s1 fd (ok tt) leftover).0 in
      ((get_or s2.open_files fd no_file).refcount ≡ 0)
      × (open_count n s2.open_files ≡ open_count n s.open_files)
      × (ref_of n s2.vnodes ≡ ref_of n s.vnodes)
open-close s s1 node fd n path fs_id leftover has small e =
    let o : Opened s node path fs_id (s1, ok fd) =
      rw e at (open-Opened s node path fs_id has small) in
    let one : (get_or s1.open_files fd no_file).refcount ≡ 1 = ap (λ f. f.refcount) o.4 in
    let grown : ref_of node s1.vnodes ≡ ref_of node s.vnodes + 1 =
      o.6 node ∙ rw (==-self node) refl in
    let c =
      close-Closed s1 fd node n leftover (omega (arith, o.0, o.1)) (ap (λ f. f.inode) o.4)
        (omega arith) (omega arith) (omega (arith, o.2)) (omega arith) (omega arith) in
    let last : ((get_or s1.open_files fd no_file).refcount == 1) ≡ true = ground arith in
    (omega (arith, c.0), omega (arith, rw last at c.1, o.5 n), omega (arith, rw last at c.2, o.6 n))
