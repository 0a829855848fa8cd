-- ===== src/Sched/RunQueue/Conservation.antt =====
-- No runnable task is lost or doubled by kernel/sched/scheduler.c.
use mathlib.Core.Path.{subst}
use monolith.Prelude.{
  ==-self, ==_iff, Bool, Bool-cases, List, Option, Option-cases, [], ap, arith, false, get_or,
  if◌then◌else◌, inl, inr, length, length-append, length-set, ne_of_==, none, not, refl, set, some,
  suc, sym, true, zero, ℕ, ◌%◌, ◌&&◌, ◌++◌, ◌+◌, ◌<◌, ◌==◌, ◌∙◌, ◌∷◌, ◌≡◌, ◌≢◌,
}
use monolith.Prelude.Words.{add64, sub64, u64_mod}
use monolith.Sched.RunQueue.{
  Cpu, no_cpu, pick_next, pop_ready, push_ready, sched_add_ready, sched_find_most_loaded_queue,
  schedule, take_ready,
}
use monolith.Sched.RunQueue.Counting.{
  Counted, Counted-get, Counted-set, Small, Small-get, Small-set, count_pid, count_pid-append,
  queue_count, queue_count-set,
}

-- `sched_add_ready` queues the task once and no other task, and keeps the counters right.
pub sched_add_ready-queue_count :
    (cs : List Cpu) (cpu task x : ℕ)
    → Counted cs
    → Small cs
    → cpu < length cs
    → Counted (sched_add_ready cs cpu task)
      × (queue_count x (sched_add_ready cs cpu task)
          ≡ queue_count x cs + (if task == x then 1 else 0))
unfolding sched_add_ready push_ready add64
sched_add_ready-queue_count cs cpu task x counted small lt =
    let c : Cpu = get_or cs cpu no_cpu in
    let e : c.entry_count ≡ length c.runqueue = Counted-get cs cpu counted in
    let s : length c.runqueue + 1 < u64_mod = Small-get cs cpu small in
    let l = length-append c.runqueue (task ∷ []) in
    (
      Counted-set cs cpu _ counted (omega arith),
      omega (
        arith,
        queue_count-set x cpu
            (record c {
              runqueue = c.runqueue ++ (task ∷ []);
              entry_count = (c.entry_count + 1) % u64_mod;
            })
            cs lt,
        count_pid-append x c.runqueue (task ∷ []),
      ),
    )

-- a queue's first task is taken, or an idle task is chosen and no queue touched
record Picked (cs : List Cpu) (idle : ℕ) (cs' : List Cpu) (next : ℕ) (taken : Bool) : Type 0 where
  counted : Counted cs'
  small : Small cs'
  same_length : length cs' ≡ length cs
  moved :
      (x : ℕ)
      → queue_count x cs' + (if taken then (if next == x then 1 else 0) else 0) ≡ queue_count x cs
  idles : (if taken then 0 < queue_count next cs else (next ≡ idle))

abbrev PickedOk : List Cpu → ℕ → Option (List Cpu × ℕ × Bool) → Type 0
PickedOk cs idle none = ⊥
PickedOk cs idle (some (cs', next, taken)) = Picked cs idle cs' next taken

count_pid_head-pos : (x : ℕ) (ys : List ℕ) → 0 < count_pid x (x ∷ ys)
count_pid_head-pos x ys = ground (arith, ==-self x)

inside_of_count : (cs : List Cpu) (i : ℕ) → (get_or cs i no_cpu).entry_count ≢ 0 → i < length cs
inside_of_count [] i ne = absurd (ne refl)
inside_of_count (c ∷ cs) zero ne = omega arith
inside_of_count (c ∷ cs) (suc i) ne = omega (arith, inside_of_count cs i ne)

take_head :
    (cs : List Cpu) (i t : ℕ) (ts : List ℕ)
    → (get_or cs i no_cpu).runqueue ≡ t ∷ ts
    → take_ready cs i
      ≡ some (
        set cs i (record (get_or cs i no_cpu) {
          runqueue = ts;
          entry_count = sub64 (get_or cs i no_cpu).entry_count 1;
        }),
        t,
        true,
      )
unfolding take_ready
take_head cs i t ts e = rw (take_ready, pop_ready, e)

head_Picked :
    (cs : List Cpu) (idle i t n : ℕ) (ts : List ℕ)
    → Counted cs
    → Small cs
    → i < length cs
    → (get_or cs i no_cpu).runqueue ≡ t ∷ ts
    → n ≡ length ts
    → Picked cs idle
        (set cs i (record (get_or cs i no_cpu) { runqueue = ts; entry_count = n }))
        t
        true
head_Picked cs idle i t n ts counted small lt e en =
    let c : Cpu = record (get_or cs i no_cpu) { runqueue = ts; entry_count = n } in
    let s : length (get_or cs i no_cpu).runqueue + 1 < u64_mod = Small-get cs i small in
    let shorter : length (get_or cs i no_cpu).runqueue ≡ suc (length ts) = ap length e in
    let moved = λ (x : ℕ).
      let before : count_pid x (get_or cs i no_cpu).runqueue
          ≡ (if t == x then 1 else 0) + count_pid x ts =
        ap (count_pid x) e in
      let q : queue_count x (set cs i c) + (if t == x then 1 else 0) ≡ queue_count x cs =
        omega (arith, queue_count-set x i c cs lt) in
      q in
    record {
      counted = Counted-set cs i c counted en;
      small = Small-set cs i c small (omega arith);
      same_length = length-set cs i c;
      moved = moved;
      idles = ground (arith, moved t, ==-self t);
    }

take_Picked :
    (cs : List Cpu) (idle i : ℕ)
    → Counted cs
    → Small cs
    → (get_or cs i no_cpu).entry_count ≢ 0
    → PickedOk cs idle (take_ready cs i)
unfolding sub64
take_Picked cs idle i counted small ne = go (get_or cs i no_cpu).runqueue refl
  where
    lt : i < length cs
    lt = inside_of_count cs i ne

    e : (get_or cs i no_cpu).entry_count ≡ length (get_or cs i no_cpu).runqueue
    e = Counted-get cs i counted

    go : (q : List ℕ) → (get_or cs i no_cpu).runqueue ≡ q → PickedOk cs idle (take_ready cs i)
    go [] h = absurd (ne (e ∙ ap length h))
    go (t ∷ ts) h =
        let shorter : length (get_or cs i no_cpu).runqueue ≡ suc (length ts) = ap length h in
        let s = Small-get cs i small in
        rw (take_head cs i t ts h)
          (head_Picked cs idle i t _ ts counted small lt h (omega (arith, e)))

idle_Picked : (cs : List Cpu) (idle : ℕ) → Counted cs → Small cs → Picked cs idle cs idle false
idle_Picked cs idle counted small = record {
  counted = counted;
  small = small;
  same_length = refl;
  moved = λ x. omega arith;
  idles = refl;
}

pick_next-PickedOk :
    (cs : List Cpu) (cpu : ℕ)
    → Counted cs
    → Small cs
    → PickedOk cs (get_or cs cpu no_cpu).idle (pick_next cs cpu)
unfolding pick_next
pick_next-PickedOk cs cpu counted small =
    elim (Bool-cases ((get_or cs cpu no_cpu).entry_count == 0)) [
      | inr own ↦ rw own (take_Picked cs _ cpu counted small (ne_of_== _ 0 own))
      | inl empty ↦ elim (Option-cases (sched_find_most_loaded_queue cs)) [
        | inl z ↦ rw (empty, z) (idle_Picked cs _ counted small)
        | inr (i, z) ↦ elim (Bool-cases ((get_or cs i no_cpu).entry_count == 0)) [
          | inl gone ↦ rw (empty, z, gone) (idle_Picked cs _ counted small)
          | inr there_is ↦
              rw (empty, z, there_is) (take_Picked cs _ i counted small (ne_of_== _ 0 there_is))
        ]
      ]
    ]

-- what a call of `schedule` leaves: right counters, and each pid that was queued or was running and
-- is not the idle task is queued or runs next, as often as before
abbrev pub Scheduled : List Cpu → ℕ → ℕ → Bool → Option (List Cpu × ℕ) → Type 0
Scheduled cs idle cur cur_running none = ⊥
Scheduled cs idle cur cur_running (some (cs', next)) =
    Counted cs'
    × ((x : ℕ)
        → queue_count x cs' + (if next == idle then 0 else (if next == x then 1 else 0))
          ≡ queue_count x cs + (if cur_running && not (cur == idle) && (cur == x) then 1 else 0))

next_share :
    (cs : List Cpu) (idle next : ℕ) (cs' : List Cpu) (taken : Bool) (x : ℕ)
    → queue_count idle cs ≡ 0
    → Picked cs idle cs' next taken
    → queue_count x cs' + (if next == idle then 0 else (if next == x then 1 else 0))
      ≡ queue_count x cs
next_share cs idle next cs' true x none_idle p = elim (Bool-cases (next == idle)) [
  | inl same ↦ absurd (
      omega (
        arith,
        p.idles,
        subst (λ k. queue_count k cs ≡ 0) (sym ((==_iff next idle).0 same)) none_idle,
      ))
  | inr other ↦ rw other (p.moved x)
]
next_share cs idle next cs' false x none_idle p =
    let e : (next == idle) ≡ true = (==_iff next idle).1 p.idles in rw e (p.moved x)

module _ (cs : List Cpu) (cpu idle cur : ℕ) (cur_running : Bool) where
  finish_Scheduled :
      (cs1 : List Cpu) (next : ℕ) (taken : Bool)
      → cpu < length cs
      → queue_count idle cs ≡ 0
      → Picked cs idle cs1 next taken
      → Scheduled cs idle cur cur_running (
          some
            (if cur_running && not (cur == idle) then sched_add_ready cs1 cpu cur else cs1, next))
  finish_Scheduled cs1 next taken lt none_idle p =
      let share = λ (x : ℕ). next_share cs idle next cs1 taken x none_idle p in
      elim (Bool-cases (cur_running && not (cur == idle))) [
        | inl back ↦
            let added = λ (x : ℕ).
              sched_add_ready-queue_count cs1 cpu cur x p.counted p.small
                (omega (arith, p.same_length)) in
            rw back ((added 0).0, λ x. omega (arith, (added x).1, share x))
        | inr stay ↦ rw stay (p.counted, λ x. omega (arith, share x))
      ]

  early_Scheduled :
      Counted cs
      → (cur_running && not (cur == idle)) ≡ true
      → Scheduled cs idle cur cur_running (some (cs, cur))
  early_Scheduled counted e = (counted, λ x. ground arith)

-- A call of `schedule` by `cur` on one of the CPUs, with right counters that are not at their end
-- and no idle task in a queue, never uses an empty list's head and keeps the counters right; every
-- pid is then queued or running next, where the idle task does not count, as often as it was queued
-- before, and once more if it is the caller's, the caller still runs and is not the idle task.
pub schedule-Scheduled :
    (cs : List Cpu) (cpu cur : ℕ) (cur_running : Bool)
    → Counted cs
    → Small cs
    → cpu < length cs
    → queue_count (get_or cs cpu no_cpu).idle cs ≡ 0
    → Scheduled cs (get_or cs cpu no_cpu).idle cur cur_running (schedule cs cpu cur cur_running)
unfolding schedule
schedule-Scheduled cs cpu cur cur_running counted small lt none_idle =
    let idle : ℕ = (get_or cs cpu no_cpu).idle in
    elim (Bool-cases
      ((get_or cs cpu no_cpu).entry_count == 0 && (cur_running && not (cur == idle)))) [
        | inl stay ↦ rw stay (early_Scheduled cs cpu idle cur cur_running counted (ground arith))
        | inr go ↦ rw go (rest (pick_next cs cpu) (pick_next-PickedOk cs cpu counted small))
      ]
  where
    rest :
        (o : Option (List Cpu × ℕ × Bool))
        → PickedOk cs (get_or cs cpu no_cpu).idle o
        → Scheduled cs (get_or cs cpu no_cpu).idle cur cur_running (elim o [
          | none ↦ none
          | some (cpus', next, queued) ↦ some (
            if cur_running && not (cur == (get_or cs cpu no_cpu).idle)
                then sched_add_ready cpus' cpu cur
                else cpus',
            next,
          )
        ])
    rest none p = p
    rest (some (cs1, next, taken)) p =
        finish_Scheduled cs cpu (get_or cs cpu no_cpu).idle cur cur_running cs1 next taken lt
          none_idle p
