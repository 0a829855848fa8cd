-- ===== src/Sched/Tests.antt =====
-- Runs of kernel/sched and of kernel/sys/mutex.c at concrete states, and their theorems at them.
use mathlib.Core.Option
use monolith.Libk.ListHead.Sequence.{IsRing}
use monolith.Prelude.{
  Bool, List, [], arith, false, get_or, if◌then◌else◌, none, refl, some, suc, true, zero, ℕ, ◌<◌,
  ◌==◌, ◌∷◌, ◌≡◌, ◌≤◌, ◌⊎◌,
}
use monolith.Prelude.Errno.{eperm, err, ok}
use monolith.Prelude.Members.{contains}
use monolith.Sched.Mutex.{Mutex, mutex_init, mutex_lock, mutex_unlock, remove, wake_first}
use monolith.Sched.Mutex.Holders.{Calls, Calls-Held, Held, init, lock, unlock, unlock_contended}
use monolith.Sched.Process.{sys_getpid, sys_setpgid, sys_setsid, sys_setuid}
use monolith.Sched.Process.Credentials.{
  AllUids, NoRoot, cred_calls, cred_calls-NoRoot, setgid, setuid, setuid_drops,
}
use monolith.Sched.Process.Groups.{sys_setpgid-ok, sys_setsid_lem}
use monolith.Sched.RunQueue.{Cpu, no_cpu, sched_add_ready, sched_find_most_loaded_queue, schedule}
use monolith.Sched.RunQueue.Conservation.{
  Scheduled, sched_add_ready-queue_count, schedule-Scheduled,
}
use monolith.Sched.RunQueue.Counting.{Counted, queue_count}
use monolith.Sched.RunQueue.Stealing.{find_largest, find_starves}
use monolith.Sched.Signal.{System, pgrp_send_signal, pid_send_signal, signal_try_handle}
use monolith.Sched.Signal.Sending.{
  GroupReceived, PidOutcome, pgrp_send_signal-reaches, pid_send_signal-Outcome,
}
use monolith.Sched.SleepQueue.{SleepDesc, Sleepers, enqueue_sleeper, sleep_queue_tick}
use monolith.Sched.SleepQueue.Deadlines.{Ticked, sleep_queue_tick-Ticked}
use monolith.Sched.SleepQueue.Insertion.{Alone, Endless, Lost, enqueue_sleeper-Enqueued}
use monolith.Sched.Task.{
  Cred, Task, TaskStatus, get_pgrp_leader, intr_sleeping, is_session_leader, running, sleeping,
}
use monolith.Sched.Wait.{Child, reaped, sys_waitpid}
use monolith.Sched.Wait.Reaping.{Waited, sys_waitpid-Waited}

abbrev root : Cred
root = record { uid = 0; euid = 0; suid = 0; gid = 0; egid = 0; sgid = 0 }

abbrev user : Cred
user = record { uid = 5; euid = 5; suid = 5; gid = 5; egid = 5; sgid = 5 }

-- a task of session 1 and of the group
abbrev task_of : ℕ → ℕ → TaskStatus → Cred → Task
task_of pid pgid status cred = record {
  pid = pid;
  tgid = pid;
  pgid = pgid;
  sid = 1;
  status = status;
  tty = some 0;
  cred = cred;
  sig_pending = 0;
  sig_blocked = 0;
}

abbrev three_tasks : List Task
three_tasks =
    task_of 1 1 running root ∷ task_of 2 2 intr_sleeping user ∷ task_of 3 2 sleeping user ∷ []

sys_setsid_lem_runs :
    (task' : Task) × (sys_setsid (task_of 3 2 running user) ≡ ok task')
    × (is_session_leader task' ≡ true)
    × (task'.pgid ≡ sys_getpid task')
    × (sys_getpid task' ≡ sys_getpid (task_of 3 2 running user))
    × (task'.tty ≡ none)
    × (sys_setsid task' ≡ err eperm)
    × (sys_setpgid three_tasks task' 2 ≡ err eperm)
sys_setsid_lem_runs = sys_setsid_lem three_tasks (task_of 3 2 running user) 2 (omega arith)

abbrev moved : Task
moved = task_of 3 2 running user

setpgid_runs : sys_setpgid three_tasks (task_of 3 3 running user) 2 ≡ ok moved
unfolding sys_setpgid
setpgid_runs = refl

sys_setpgid-ok_runs :
    (is_session_leader (task_of 3 3 running user) ≡ false)
    × (moved ≡ record (task_of 3 3 running user) { pgid = 2 })
    × ((moved.pgid ≡ 3)
        ⊎ ((l : Task) × (get_pgrp_leader three_tasks 2 ≡ some l) × (l.pid ≡ 2) × (l.sid ≡ 1)))
sys_setpgid-ok_runs = sys_setpgid-ok three_tasks (task_of 3 3 running user) moved 2 setpgid_runs

setuid_drops_example :
    (task' : Task) × (sys_setuid (task_of 1 1 running root) 5 ≡ ok task')
    × AllUids (cred_calls task' (setuid 0 ∷ setgid 0 ∷ [])) 5
setuid_drops_example =
    setuid_drops (task_of 1 1 running root) 5 (setuid 0 ∷ setgid 0 ∷ []) refl (omega arith)

cred_calls-NoRoot_runs :
    NoRoot (cred_calls (task_of 2 2 running user) (setuid 0 ∷ []))
    × ((cred_calls (task_of 2 2 running user) (setuid 0 ∷ [])).cred.uid ≡ 5)
    × ((cred_calls (task_of 2 2 running user) (setuid 0 ∷ [])).cred.suid ≡ 5)
cred_calls-NoRoot_runs =
    cred_calls-NoRoot (task_of 2 2 running user) (setuid 0 ∷ [])
      (omega arith, omega arith, omega arith)

abbrev three_system : System
three_system = record { tasks = three_tasks; ready = 1 ∷ [] }

pgrp_send_signal-reaches_example :
    GroupReceived 2 9 three_tasks (pgrp_send_signal three_system 2 9).0.tasks
    × ((pgrp_send_signal three_system 2 9).0.ready ≡ 1 ∷ 2 ∷ [])
    × ((pgrp_send_signal three_system 2 9).1 ≡ ok tt)
pgrp_send_signal-reaches_example =
    pgrp_send_signal-reaches three_system 2 9 (omega arith) (omega arith)

pid_send_signal-Outcome_runs : PidOutcome three_system 2 9 (pid_send_signal three_system 2 9)
pid_send_signal-Outcome_runs = pid_send_signal-Outcome three_system 2 9 (omega arith) (omega arith)

-- SIGINT (2) and SIGTERM (15) are pending, and SIGINT is blocked
abbrev signalled : Task
signalled = record (task_of 2 2 running user) { sig_pending = 16386; sig_blocked = 2 }

handle_runs : signal_try_handle signalled ≡ some (2, some 15)
unfolding signal_try_handle
handle_runs = refl

abbrev sleeping_two : List SleepDesc
sleeping_two = record { task = 7; delta = 10 } ∷ record { task = 8; delta = 5 } ∷ []

-- a queue with its head at 100 and the sleepers 1 and 2; 9 is the caller's node
abbrev two_sleepers : Sleepers
two_sleepers = record {
  links = record {
    nxt = λ x. if x == 100 then 1 else if x == 1 then 2 else 100;
    prv = λ x. if x == 100 then 2 else if x == 1 then 100 else 1;
  };
  delta = λ x. if x == 1 then 10 else 5;
}

two_sleepers-IsRing : IsRing two_sleepers.links 100 (1 ∷ 2 ∷ [])
unfolding contains
two_sleepers-IsRing = record {
  linked = (refl, refl, (refl, refl, (refl, refl)));
  distinct = (refl, (refl, (refl, tt)));
}

enqueue_sleeper-Enqueued_example :
    (s' : Sleepers) × (enqueue_sleeper 3 two_sleepers 100 9 12 ≡ some s')
    × (Alone s' 100 9 12 (1 ∷ 2 ∷ [])
        ⊎ (Lost two_sleepers s' 100 9 12 (1 ∷ 2 ∷ [])
            ⊎ Endless two_sleepers s' 100 9 12 (1 ∷ 2 ∷ [])))
unfolding contains
enqueue_sleeper-Enqueued_example =
    enqueue_sleeper-Enqueued two_sleepers 100 9 (1 ∷ 2 ∷ []) two_sleepers-IsRing refl 3 12
      (omega arith)

endless_runs :
    Option.map {B = ℕ × ℕ × ℕ × ℕ}
      (λ s. (s.links.nxt 100, s.links.nxt 1, s.links.nxt 2, s.links.nxt 9))
      (enqueue_sleeper 3 two_sleepers 100 9 12)
    ≡ some (1, 2, 9, 2)
unfolding enqueue_sleeper
endless_runs = refl

lost_runs :
    Option.map {B = ℕ × ℕ × ℕ}
      (λ s. (s.links.nxt 100, s.links.nxt 9, s.delta 9))
      (enqueue_sleeper 3 two_sleepers 100 9 20)
    ≡ some (9, 100, 5)
unfolding enqueue_sleeper
lost_runs = refl

sleep_queue_tick-Ticked_runs :
    Ticked 0 12 sleeping_two
      (sleep_queue_tick (λ t. true) 12 sleeping_two).0
      (sleep_queue_tick (λ t. true) 12 sleeping_two).1
sleep_queue_tick-Ticked_runs =
    sleep_queue_tick-Ticked (λ t. true) 12 sleeping_two (refl, (refl, tt))

-- two CPUs with the idle tasks 0 and 100; all waiting tasks are on the second
abbrev second_loaded : List Cpu
second_loaded =
    record { idle = 0; runqueue = []; entry_count = 0 }
    ∷ record { idle = 100; runqueue = 4 ∷ 5 ∷ []; entry_count = 2 }
    ∷ []

abbrev both_loaded : List Cpu
both_loaded =
    record { idle = 0; runqueue = 3 ∷ []; entry_count = 1 }
    ∷ record { idle = 100; runqueue = 4 ∷ 5 ∷ []; entry_count = 2 }
    ∷ []

find_starves_runs : sched_find_most_loaded_queue second_loaded ≡ none
find_starves_runs = find_starves second_loaded refl

find_largest_runs :
    (k : ℕ) × (sched_find_most_loaded_queue both_loaded ≡ some k)
    × (k < 2)
    × ((j : ℕ)
        → j < 2
        → (get_or both_loaded j no_cpu).entry_count ≤ (get_or both_loaded k no_cpu).entry_count)
find_largest_runs = find_largest both_loaded (omega arith) (elim [
  | zero ↦ λ _. omega arith
  | suc zero ↦ λ _. omega arith
  | suc (suc k) ↦ λ h. ground arith
])

ready_runs :
    Counted (sched_add_ready both_loaded 0 6)
    × (queue_count 6 (sched_add_ready both_loaded 0 6) ≡ 1)
ready_runs =
    sched_add_ready-queue_count both_loaded 0 6 6 (refl, (refl, tt))
      (omega arith, (omega arith, tt)) (omega arith)

schedule-Scheduled_example : Scheduled both_loaded 0 6 true (schedule both_loaded 0 6 true)
schedule-Scheduled_example =
    schedule-Scheduled both_loaded 0 6 true (refl, (refl, tt)) (omega arith, (omega arith, tt))
      (omega arith) refl

-- 4 locks, 5 waits and is woken, and 6 locks while 5 holds the mutex
abbrev handed_over : Mutex
handed_over = mutex_lock (mutex_unlock (λ t. false) (mutex_lock (mutex_lock mutex_init 4) 5) 4) 6

handed_over-Calls : Calls (λ t. false) 1 handed_over
unfolding mutex_lock contains
handed_over-Calls = lock 6 (unlock 4 (lock 5 (lock 4 init)) refl)

both_hold : handed_over.holders ≡ 6 ∷ 5 ∷ []
unfolding mutex_lock mutex_unlock wake_first remove
both_hold = refl

Calls-Held_example : Held 1 handed_over
Calls-Held_example = Calls-Held handed_over-Calls

abbrev contended : Mutex
contended = record { locked = true; waitqueue = 5 ∷ []; holders = 4 ∷ [] }

unlock_contended_runs :
    ((mutex_unlock (λ t. false) contended 4).locked ≡ false)
    × ((mutex_unlock (λ t. false) contended 4).holders ≡ 5 ∷ [])
    × ((mutex_lock (mutex_unlock (λ t. false) contended 4) 6).holders ≡ 6 ∷ 5 ∷ [])
unlock_contended_runs = unlock_contended (λ t. false) contended 4 5 6 [] refl refl refl

abbrev child_of : ℕ → Bool → ℕ → ℕ → Child
child_of pid ended signal status = record {
  pid = pid;
  is_zombie = ended;
  can_reap = true;
  return_signal = signal;
  return_status = status;
}

wait_runs :
    sys_waitpid (child_of 4 false 0 0 ∷ child_of 5 true 0 3 ∷ []) 4 0 false true
    ≡ reaped (child_of 4 false 0 0 ∷ []) 5 768
unfolding sys_waitpid
wait_runs = refl

sys_waitpid-Waited_example :
    Waited
      (child_of 4 false 0 0 ∷ child_of 5 true 9 0 ∷ [])
      false
      true
      (sys_waitpid (child_of 4 false 0 0 ∷ child_of 5 true 9 0 ∷ []) 4 0 false true)
sys_waitpid-Waited_example =
    sys_waitpid-Waited (child_of 4 false 0 0 ∷ child_of 5 true 9 0 ∷ []) 4 0 false true
