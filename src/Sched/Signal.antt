-- ===== src/Sched/Signal.antt =====
-- kernel/sched/signal.c: sending signals and acting on them. The calls run under the spinlocks of
-- the task and of the task list, so each is one step on the list of tasks and on the run queue that
-- `sched_add_ready` appends to.
pub mod Sending
pub mod Handling
use mathlib.Core.Option
use monolith.Prelude.{
  Bool, List, Option, [], bit_and, bit_or, false, if◌then◌else◌, leb, ltb, none, some, suc, true,
  zero, ℕ, ◌++◌, ◌+◌, ◌-◌, ◌==◌, ◌^◌, ◌||◌, ◌∷◌,
}
use monolith.Prelude.Bits.{bit_not}
use monolith.Prelude.Ctz.{ctz}
use monolith.Prelude.Errno.{Result, einval, err, esrch, ok}
use monolith.Sched.Task.{Task, intr_sleeping, running, same_status}

-- `NSIG` and `SIGCHLD` (kernel/include/sched/signal.h)
abbrev pub nsig : ℕ
nsig = 32

abbrev pub sigchld : ℕ
sigchld = 17

-- `sig_pending & ~sig_blocked`
unfoldable pub deliverable : Task → ℕ
deliverable task = bit_and task.sig_pending (bit_not 32 task.sig_blocked)

unfoldable pub signal_pending : Task → Bool
unfolding deliverable
signal_pending task = ltb 0 (deliverable task)

-- `send_signal`: the task as it is left, and whether it is put on the run queue
unfoldable pub send_signal : Task → ℕ → Task × Bool
send_signal task signal =
    let task' = record task { sig_pending = bit_or task.sig_pending (2 ^ (signal - 1)) } in
    if same_status task.status intr_sleeping
    then (record task' { status = running }, true)
    else (task', false)

-- the tasks, and the pids that wait on the run queue, in order
pub record System : Type 0 where
  pub tasks : List Task
  pub ready : List ℕ

-- the walk of `pid_send_signal`, with the pid to queue, if any
unfoldable pub send_first : ℕ → ℕ → List Task → Option (List Task × List ℕ)
unfolding send_signal
send_first pid signal [] = none
send_first pid signal (cur ∷ rest) =
    let (cur', woken) = send_signal cur signal in
    let later =
      Option.map (λ (r : List Task × List ℕ). (cur ∷ r.0, r.1)) (send_first pid signal rest) in
    if cur.pid == pid then some (cur' ∷ rest, if woken then cur.pid ∷ [] else []) else later

unfoldable pub pid_send_signal : System → ℕ → ℕ → Result System
unfolding send_first
pid_send_signal s pid signal =
    if ltb signal 1 || leb nsig signal then err einval else elim (send_first pid signal s.tasks) [
      | none ↦ err esrch
      | some (tasks, woken) ↦ ok (record { tasks = tasks; ready = s.ready ++ woken })
    ]

-- the walk of `pgrp_send_signal`: the tasks, the pids to queue, and whether any was in the group
unfoldable pub send_group : ℕ → ℕ → List Task → List Task × List ℕ × Bool
unfolding send_signal
send_group pgrp signal [] = ([], [], false)
send_group pgrp signal (cur ∷ rest) =
    let (tasks, queued, found) = send_group pgrp signal rest in
    let (cur', woken) = send_signal cur signal in
    if cur.pgid == pgrp
    then (cur' ∷ tasks, if woken then cur.pid ∷ queued else queued, true)
    else (cur ∷ tasks, queued, found)

unfoldable pub pgrp_send_signal : System → ℕ → ℕ → System × Result (Unit {0})
unfolding send_group
pgrp_send_signal s pgrp signal =
    if ltb signal 1 || leb nsig signal
    then (s, err einval)
    else (let (tasks, queued, found) = send_group pgrp signal s.tasks in
        (record { tasks = tasks; ready = s.ready ++ queued }, if found then ok tt else err esrch))

-- The loop of `signal_try_handle`, until it returns (`none`) or ends the task with a signal; with
-- the pending set that is left. The outer `none` means that the fuel ran out.
unfoldable pub handle_loop : ℕ → Task → Option (ℕ × Option ℕ)
unfolding deliverable ctz
handle_loop zero task = none
handle_loop (suc fuel) task =
    let sigidx = ctz 32 (deliverable task) in
    let pending = bit_and task.sig_pending (bit_not 32 (2 ^ sigidx)) in
    let rest = handle_loop fuel (record task { sig_pending = pending }) in
    if deliverable task == 0
    then some (task.sig_pending, none)
    else (if sigidx + 1 == sigchld then rest else some (pending, some (sigidx + 1)))

-- `signal_try_handle` of the current task: its pending set and the signal it exits with
unfoldable pub signal_try_handle : Task → Option (ℕ × Option ℕ)
unfolding handle_loop
signal_try_handle task =
    if task.sig_pending == 0 then some (task.sig_pending, none) else handle_loop 2 task
