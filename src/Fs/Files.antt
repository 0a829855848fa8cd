-- ===== src/Fs/Files.antt =====
-- kernel/fs/vfs.c and kernel/fs/vnode.c: the table of open files and the references that it holds
-- on vnodes. A vnode and a ventry are named by a number. The operations of a file system
-- are not in this part: what they return is an argument. Each call is one step.
pub mod Slots
pub mod Opening
pub mod Closing
use monolith.Prelude.{
  Bool, List, Option, [], bit_and, false, get_or, if◌then◌else◌, leb, ltb, none, not, set, some, ℕ,
  ◌%◌, ◌&&◌, ◌+◌, ◌-◌, ◌==◌, ◌^◌, ◌||◌, ◌∷◌,
}
use monolith.Prelude.Errno.{Errno, Result, ebadf, einval, eisdir, enfile, err, espipe, ok}
use monolith.Prelude.Words.{add64, u32_mod}

-- `struct vnode`, with whether `vnode_free` has been called on it
pub record Vnode : Type 0 where
  pub mode : ℕ
  pub size : ℕ
  pub nlink : ℕ
  pub ref : ℕ
  pub freed : Bool

-- `struct file_descriptor`; `pos` and `fs_id` are 64-bit and 32-bit patterns
pub record File : Type 0 where
  pub pos : ℕ
  pub inode : Option ℕ
  pub path : Option ℕ
  pub fs_id : ℕ
  pub refcount : ℕ

-- `context.open_files`, the vnodes, and the ventries on which `ventry_put` has been called
pub record Vfs : Type 0 where
  pub open_files : List File
  pub vnodes : List Vnode
  pub put_paths : List ℕ

abbrev pub no_vnode : Vnode
no_vnode = record { mode = 0; size = 0; nlink = 0; ref = 0; freed = false }

abbrev pub no_file : File
no_file = record { pos = 0; inode = none; path = none; fs_id = 0; refcount = 0 }

unfoldable pub vnode_new : ℕ → Vnode
vnode_new mode = record { mode = mode; size = 0; nlink = 0; ref = 0; freed = false }

unfoldable pub vnode_ref : Vnode → Vnode
vnode_ref node = record node { ref = (node.ref + 1) % u32_mod }

unfoldable pub vnode_put : Vnode → Vnode
vnode_put node = record node {
  ref = (node.ref + u32_mod - 1) % u32_mod;
  freed = node.freed || (leb node.ref 1 && (node.nlink == 0));
}

unfoldable pub vfs_ref_file : File → File
vfs_ref_file file = record file { refcount = (file.refcount + 1) % u32_mod }

-- the loop of `vfs_open_internal`, from the place `i` on: the first free place
unfoldable pub find_free : List File → ℕ → Option ℕ
find_free [] i = none
find_free (f ∷ fs) i = let later = find_free fs (i + 1) in if f.refcount == 0 then some i else later

-- `vfs_open_internal` of a vnode whose `open` operation returned `opened`, or 0 if it has none
unfoldable pub vfs_open_internal : Vfs → ℕ → Option ℕ → Result ℕ → Vfs × Result ℕ
unfolding find_free vnode_ref
vfs_open_internal s node path (err e) = (s, err e)
vfs_open_internal s node path (ok fs_id) =
    let held : List Vnode = set s.vnodes node (vnode_ref (get_or s.vnodes node no_vnode)) in
    elim (find_free s.open_files 0) [
      | none ↦ (record s { vnodes = held }, err enfile)
      | some fd ↦
          let file : File = record {
            pos = 0;
            inode = some node;
            path = path;
            fs_id = fs_id;
            refcount = 1;
          } in
          (record s { open_files = set s.open_files fd file; vnodes = held }, ok fd)
    ]

-- The end of `vfs_put_file`, for a file that no one refers to any more: the vnode and the path are
-- given back.
unfoldable pub release_file : Vfs → ℕ → File → Vfs
unfolding vnode_put
release_file s fd file =
    let cleared : File = record file { pos = 0; inode = none; path = none; fs_id = 2 ^ 32 - 1 } in
    record {
      open_files = set s.open_files fd cleared;
      vnodes = elim file.inode [
        | none ↦ s.vnodes
        | some node ↦ set s.vnodes node (vnode_put (get_or s.vnodes node no_vnode))
      ];
      put_paths = elim file.path [ none ↦ s.put_paths | some p ↦ p ∷ s.put_paths ];
    }

-- `vfs_put_file` of the file at a place; `closed` is what the `close` operation returned. On the last
-- path the C function ends without a `return`: its result there is the argument `leftover`.
unfoldable pub vfs_put_file :
    Vfs → ℕ → Result (Unit {0}) → Result (Unit {0}) → Vfs × Result (Unit {0})
unfolding release_file
vfs_put_file s fd closed leftover =
    let file : File = get_or s.open_files fd no_file in
    let last = file.refcount in
    let file' : File = record file { refcount = (last + u32_mod - 1) % u32_mod } in
    let s' : Vfs = record s { open_files = set s.open_files fd file' } in
    if ltb 1 last
    then (s', ok tt)
    else elim closed [ err e ↦ (s', err e) | ok u ↦ (release_file s' fd file', leftover) ]

unfoldable pub vfs_close : Vfs → ℕ → Result (Unit {0}) → Result (Unit {0}) → Vfs × Result (Unit {0})
unfolding vfs_put_file
vfs_close s fd closed leftover = elim (get_or s.open_files fd no_file).inode [
  | none ↦ (s, err ebadf)
  | some node ↦ vfs_put_file s fd closed leftover
]

unfoldable pub vfs_dup : Vfs → ℕ → Vfs × Result ℕ
unfolding vfs_ref_file
vfs_dup s fd = elim (get_or s.open_files fd no_file).inode [
  | none ↦ (s, err ebadf)
  | some node ↦ (
    record s { open_files = set s.open_files fd (vfs_ref_file (get_or s.open_files fd no_file)) },
    ok fd,
  )
]

-- the file types of kernel/include/fs/stat.h
unfoldable pub is_type : ℕ → ℕ → Bool
is_type kind mode = bit_and mode 0xf000 == kind

abbrev pub s_ifdir : ℕ
s_ifdir = 0x4000

abbrev pub s_ififo : ℕ
s_ififo = 0x1000

abbrev pub s_ifsock : ℕ
s_ifsock = 0xc000

-- The checks of `vfs_read` and of `vfs_write` before the operation is called; `none` means that it
-- is called. `has_op` says whether the file system has the operation.
unfoldable pub transfer_refused : Vfs → ℕ → Bool → Option Errno
unfolding is_type
transfer_refused s fd has_op = elim (get_or s.open_files fd no_file).inode [
  | none ↦ some ebadf
  | some node ↦
      if is_type s_ifdir (get_or s.vnodes node no_vnode).mode
      then some eisdir
      else (if not has_op then some einval else none)
]

-- `vfs_seek` of an open file. An unknown `flags` leaves the position.
unfoldable pub vfs_seek : Vnode → File → ℕ → ℕ → Result File
unfolding is_type add64
vfs_seek node file offset flags =
    if is_type s_ififo node.mode || is_type s_ifsock node.mode
    then err espipe
    else (if flags == 0
        then ok (record file { pos = offset })
        else (if flags == 1
            then ok (record file { pos = add64 file.pos offset })
            else (if flags == 2
                then ok (record file { pos = add64 offset node.size })
                else ok file)))
