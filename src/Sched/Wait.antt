-- ===== src/Sched/Wait.antt =====
-- `sys_waitpid` of kernel/sched/task_sys.c: a walk over the caller's children under its lock, which
-- is one step. The arguments `pid` and `options` are there, and nothing reads them.
pub mod Reaping
use mathlib.Core.Option
use monolith.Prelude.{
  Bool, List, Option, [], if◌then◌else◌, none, some, ℕ, ◌%◌, ◌&&◌, ◌*◌, ◌==◌, ◌∷◌,
}
use monolith.Prelude.Errno.{Errno, echild, efault, eintr}

-- the fields of a child that are read: its pid, whether its status is TASK_ZOMBIE and its flags have
-- TASK_CAN_REAP, and what it left
pub record Child : Type 0 where
  pub pid : ℕ
  pub is_zombie : Bool
  pub can_reap : Bool
  pub return_signal : ℕ
  pub return_status : ℕ

-- `return_status` is held as its 32-bit pattern.
unfoldable pub out_status : Child → ℕ
out_status child =
    if child.return_signal == 0 then child.return_status % 256 * 256 else child.return_signal % 128

-- the loop over the children: the one that is reaped, and the others
unfoldable pub reap_loop : List Child → Option (Child × List Child)
reap_loop [] = none
reap_loop (child ∷ rest) =
    let later = Option.map (λ (r : Child × List Child). (r.0, child ∷ r.1)) (reap_loop rest) in
    if child.is_zombie && child.can_reap then some (child, rest) else later

pub data WaitResult : Type 0 where
  sleeps : WaitResult
  failed : List Child → Errno → WaitResult
  reaped : List Child → ℕ → ℕ → WaitResult

-- A round of `sys_waitpid`: the children that are left, the pid and the status. `valid` says whether
-- `status` is null or points to user memory; it is tested after the child is gone.
unfoldable pub sys_waitpid : List Child → ℕ → ℕ → Bool → Bool → WaitResult
unfolding reap_loop out_status
sys_waitpid children pid options pending valid = elim children [
  | [] ↦ failed [] echild
  | c ∷ cs ↦ elim (reap_loop (c ∷ cs)) [
    | none ↦ if pending then failed (c ∷ cs) eintr else sleeps
    | some (child, rest) ↦
        if valid then reaped rest child.pid (out_status child) else failed rest efault
  ]
]
