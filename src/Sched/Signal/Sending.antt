-- ===== src/Sched/Signal/Sending.antt =====
-- Who gets a signal, and who is woken by it (kernel/sched/signal.c).
use mathlib.Core.Option
use monolith.Prelude.{
  ==_iff, Bool, Bool-cases, List, Option, [], arith, false, if◌then◌else◌, inl, inr, leb, ltb, none,
  refl, some, ℕ, ◌&&◌, ◌++◌, ◌-◌, ◌<◌, ◌==◌, ◌||◌, ◌∷◌, ◌≡◌, ◌≢◌,
}
use monolith.Prelude.Bits.{bit, bit-set_bit}
use monolith.Prelude.Errno.{Result, err, esrch, ok}
use monolith.Sched.Signal.{
  System, nsig, pgrp_send_signal, pid_send_signal, send_first, send_group, send_signal,
}
use monolith.Sched.Task.{Task, intr_sleeping, lookup_by_pid, running, same_status}

-- `t'` is `t` with the signal pending, and awake if it slept interruptibly.
pub record Received (signal : ℕ) (t t' : Task) : Type 0 where
  pub bits : (k : ℕ) → bit t'.sig_pending k ≡ (if signal - 1 == k then 1 else bit t.sig_pending k)
  pub awake : t'.status ≡ (if same_status t.status intr_sleeping then running else t.status)
  pub same : t' ≡ record t { sig_pending = t'.sig_pending; status = t'.status }

send_signal-Received : (t : Task) (signal : ℕ) → Received signal t (send_signal t signal).0
unfolding send_signal
send_signal-Received t signal = elim (Bool-cases (same_status t.status intr_sleeping)) [
  | inl e ↦
      rw e (record { bits = bit-set_bit t.sig_pending (signal - 1); awake = rw e; same = refl })
  | inr e ↦
      rw e (record { bits = bit-set_bit t.sig_pending (signal - 1); awake = rw e; same = refl })
]

-- each task of the group has received the signal, and each other task is as it was
abbrev pub GroupReceived : ℕ → ℕ → List Task → List Task → Type 0
GroupReceived pgrp signal [] [] = Unit
GroupReceived pgrp signal [] (u ∷ us) = ⊥
GroupReceived pgrp signal (t ∷ ts) [] = ⊥
GroupReceived pgrp signal (t ∷ ts) (u ∷ us) =
    (if t.pgid == pgrp then Received signal t u else (t ≡ u)) × GroupReceived pgrp signal ts us

-- the pids of the group's interruptibly sleeping tasks, in list order
abbrev pub sleepers : ℕ → List Task → List ℕ
sleepers pgrp [] = []
sleepers pgrp (t ∷ ts) =
    if t.pgid == pgrp && same_status t.status intr_sleeping
    then t.pid ∷ sleepers pgrp ts
    else sleepers pgrp ts

abbrev pub in_group : ℕ → List Task → Bool
in_group pgrp [] = false
in_group pgrp (t ∷ ts) = t.pgid == pgrp || in_group pgrp ts

send_signal-woken :
    (t : Task) (signal : ℕ) → (send_signal t signal).1 ≡ same_status t.status intr_sleeping
unfolding send_signal
send_signal-woken t signal = ground arith

send_group_lem :
    (pgrp signal : ℕ) (ts : List Task)
    → let (us, queued, found) = send_group pgrp signal ts in
      GroupReceived pgrp signal ts us × (queued ≡ sleepers pgrp ts) × (found ≡ in_group pgrp ts)
unfolding send_group
send_group_lem pgrp signal [] = (tt, refl, refl)
send_group_lem pgrp signal (t ∷ ts) =
    let (r, q, f) = send_group_lem pgrp signal ts in
    elim (Bool-cases (t.pgid == pgrp)) [
      | inl e ↦
          rw (e, send_signal-woken t signal)
            ((rw e (send_signal-Received t signal), r), ground arith, refl)
      | inr e ↦ rw e ((rw e refl, r), q, f)
    ]

-- `pgrp_send_signal` of a number from 1 to NSIG - 1 leaves every task of the group with the signal
-- pending and no longer asleep interruptibly, and every other task as it was; it queues exactly the
-- tasks that it wakes, once each and in list order, behind those that are ready, and returns
-- -ESRCH exactly if the group has no task.
pub pgrp_send_signal-reaches :
    (s : System) (pgrp signal : ℕ)
    → 0 < signal
    → signal < nsig
    → let (s', r) = pgrp_send_signal s pgrp signal in
      GroupReceived pgrp signal s.tasks s'.tasks
      × (s'.ready ≡ s.ready ++ sleepers pgrp s.tasks)
      × (r ≡ (if in_group pgrp s.tasks then ok tt else err esrch))
unfolding pgrp_send_signal
pgrp_send_signal-reaches s pgrp signal pos small =
    let valid : (ltb signal 1 || leb nsig signal) ≡ false = ground arith in
    let (r, q, f) = send_group_lem pgrp signal s.tasks in rw valid (r, rw q, rw f)

-- `us` is `ts` where the first task with the pid has received the signal.
pub data FirstReceived (pid signal : ℕ) : List Task → List Task → Type 0 where
  at_head :
      {t u : Task} {ts : List Task}
      → t.pid ≡ pid
      → Received signal t u
      → FirstReceived pid signal (t ∷ ts) (u ∷ ts)
  further :
      {t : Task} {ts us : List Task}
      → t.pid ≢ pid
      → FirstReceived pid signal ts us
      → FirstReceived pid signal (t ∷ ts) (t ∷ us)

-- what `pid_send_signal` must do for each result
abbrev pub PidSent : ℕ → ℕ → List Task → Option (List Task × List ℕ) → Type 0
PidSent pid signal ts none = lookup_by_pid ts pid ≡ none
PidSent pid signal ts (some (us, woken)) =
    (t : Task) × (lookup_by_pid ts pid ≡ some t)
    × FirstReceived pid signal ts us
    × (woken ≡ (if same_status t.status intr_sleeping then pid ∷ [] else []))

PidSent-cons :
    (pid signal : ℕ) (t : Task) (ts : List Task) (r : Option (List Task × List ℕ))
    → (t.pid == pid) ≡ false
    → PidSent pid signal ts r
    → PidSent pid signal (t ∷ ts) (Option.map (λ (q : List Task × List ℕ). (t ∷ q.0, q.1)) r)
unfolding lookup_by_pid
PidSent-cons pid signal t ts none e h = rw e h
PidSent-cons pid signal t ts (some (us, woken)) e (u, look, first, w) =
    (u, rw e look, further (ground arith) first, w)

send_first-PidSent :
    (pid signal : ℕ) (ts : List Task) → PidSent pid signal ts (send_first pid signal ts)
unfolding send_first lookup_by_pid
send_first-PidSent pid signal [] = refl
send_first-PidSent pid signal (t ∷ ts) = elim (Bool-cases (t.pid == pid)) [
  | inl e ↦ rw e (
    t,
    rw e,
    at_head ((==_iff t.pid pid).0 e) (send_signal-Received t signal),
    rw (send_signal-woken t signal, (==_iff t.pid pid).0 e),
  )
  | inr e ↦ rw e (PidSent-cons pid signal t ts _ e (send_first-PidSent pid signal ts))
]

abbrev pub PidOutcome : System → ℕ → ℕ → Result System → Type 0
PidOutcome s pid signal (err e) = (e ≡ esrch) × (lookup_by_pid s.tasks pid ≡ none)
PidOutcome s pid signal (ok s') =
    (t : Task) × (lookup_by_pid s.tasks pid ≡ some t)
    × FirstReceived pid signal s.tasks s'.tasks
    × (s'.ready ≡ s.ready ++ (if same_status t.status intr_sleeping then pid ∷ [] else []))

-- `pid_send_signal` of a number from 1 to NSIG - 1 fails only with -ESRCH, and only if no task has
-- the pid; otherwise the first task with the pid alone receives the signal, and is queued exactly
-- if it was asleep interruptibly.
pub pid_send_signal-Outcome :
    (s : System) (pid signal : ℕ)
    → 0 < signal
    → signal < nsig
    → PidOutcome s pid signal (pid_send_signal s pid signal)
unfolding pid_send_signal
pid_send_signal-Outcome s pid signal pos small =
    let valid : (ltb signal 1 || leb nsig signal) ≡ false = ground arith in
    rw valid (go (send_first pid signal s.tasks) (send_first-PidSent pid signal s.tasks))
  where
    go :
        (r : Option (List Task × List ℕ))
        → PidSent pid signal s.tasks r
        → PidOutcome s pid signal (elim r [
          | none ↦ err esrch
          | some (tasks, woken) ↦ ok (record { tasks = tasks; ready = s.ready ++ woken })
        ])
    go none h = (refl, h)
    go (some (us, woken)) (t, look, first, w) = (t, look, first, rw w)
