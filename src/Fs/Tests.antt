-- ===== src/Fs/Tests.antt =====
-- Runs of kernel/fs/vfs.c at a small table, and its theorems at it.
use monolith.Fs.Files.{
  Vfs, no_file, no_vnode, transfer_refused, vfs_close, vfs_dup, vfs_open_internal, vfs_seek,
  vnode_new, vnode_ref,
}
use monolith.Fs.Files.Closing.{close-Closed, open-close}
use monolith.Fs.Files.Opening.{Opened, file_at, open-Opened}
use monolith.Fs.Files.Slots.{open_count, ref_of}
use monolith.Prelude.{[], arith, get_or, none, refl, some, true, ◌+◌, ◌-◌, ◌^◌, ◌∷◌, ◌≡◌}
use monolith.Prelude.Errno.{ebadf, ok}

-- two places, of which the first holds a file on vnode 0 with two references
abbrev small_vfs : Vfs
small_vfs = record {
  open_files = record (file_at 0 none 0) { refcount = 2 } ∷ no_file ∷ [];
  vnodes = record (no_vnode) { mode = 0x8000; nlink = 1; ref = 1 } ∷ vnode_new 0x8000 ∷ [];
  put_paths = [];
}

abbrev opened_vfs : Vfs
opened_vfs = record small_vfs {
  open_files = record (file_at 0 none 0) { refcount = 2 } ∷ file_at 1 (some 7) 0 ∷ [];
  vnodes =
      record (no_vnode) { mode = 0x8000; nlink = 1; ref = 1 }
      ∷ record (vnode_new 0x8000) { ref = 1 }
      ∷ [];
}

open_runs : vfs_open_internal small_vfs 1 (some 7) (ok 0) ≡ (opened_vfs, ok 1)
unfolding vfs_open_internal vnode_new vnode_ref
open_runs = refl

dup_runs : (vfs_dup opened_vfs 1).1 ≡ ok 1
unfolding vfs_dup
dup_runs = refl

seek_runs :
    vfs_seek (vnode_new 0x8000) (record no_file { pos = 10 }) (2 ^ 64 - 4) 1
    ≡ ok (record no_file { pos = 6 })
unfolding vfs_seek vnode_new
seek_runs = refl

read_refused : transfer_refused small_vfs 1 true ≡ some ebadf
unfolding transfer_refused
read_refused = refl

open-Opened_runs : Opened small_vfs 1 (some 7) 0 (vfs_open_internal small_vfs 1 (some 7) (ok 0))
unfolding vnode_new
open-Opened_runs = open-Opened small_vfs 1 (some 7) 0 (omega arith) (omega arith)

close-Closed_runs :
    ((get_or (vfs_close small_vfs 0 (ok tt) (ok tt)).0.open_files 0 no_file).refcount + 1 ≡ 2)
    × (open_count 0 (vfs_close small_vfs 0 (ok tt) (ok tt)).0.open_files + 0 ≡ 1)
    × (ref_of 0 (vfs_close small_vfs 0 (ok tt) (ok tt)).0.vnodes + 0 ≡ 1)
close-Closed_runs =
    close-Closed small_vfs 0 0 0 (ok tt) (omega arith) refl (omega arith) (omega arith)
      (omega arith) (omega arith) (omega arith)

open-close_example :
    ((get_or (vfs_close opened_vfs 1 (ok tt) (ok tt)).0.open_files 1 no_file).refcount ≡ 0)
    × (open_count 1 (vfs_close opened_vfs 1 (ok tt) (ok tt)).0.open_files ≡ 0)
    × (ref_of 1 (vfs_close opened_vfs 1 (ok tt) (ok tt)).0.vnodes ≡ 0)
unfolding vnode_new
open-close_example =
    open-close small_vfs opened_vfs 1 1 1 (some 7) 0 (ok tt) (omega arith) (omega arith) open_runs
