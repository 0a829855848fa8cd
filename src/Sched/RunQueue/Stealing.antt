-- ===== src/Sched/RunQueue/Stealing.antt =====
-- `sched_find_most_loaded_queue` of kernel/sched/scheduler.c.
use native.Mathlib.Decide.{ℕ_discrete}
use monolith.Prelude.{
  Bool-cases, List, Option, [], arith, false, get_or, if◌then◌else◌, inl, inr, length, ltb, none,
  refl, some, suc, true, zero, ℕ, ◌+◌, ◌<◌, ◌==◌, ◌∙◌, ◌∷◌, ◌≡◌, ◌≤◌,
}
use monolith.Sched.RunQueue.{Cpu, find_loop, no_cpu, sched_find_most_loaded_queue}

-- from a queue that is empty on, the result is fixed
find_loop-stuck :
    (cpus : List Cpu) (n start : ℕ) (maxq : Option ℕ) (maxc : ℕ)
    → (get_or cpus start no_cpu).entry_count ≡ 0
    → find_loop cpus n start maxq maxc ≡ maxq
unfolding find_loop
find_loop-stuck cpus zero start maxq maxc h = refl
find_loop-stuck cpus (suc n) start maxq maxc h =
    let e : ltb maxc 0 ≡ false = ground arith in
    rw (h, e) (find_loop-stuck cpus n start maxq maxc h)

-- If the first CPU's run queue is empty, no queue to steal from is found, whatever the other queues
-- hold.
pub find_starves :
    (cpus : List Cpu)
    → (get_or cpus 0 no_cpu).entry_count ≡ 0
    → sched_find_most_loaded_queue cpus ≡ none
unfolding sched_find_most_loaded_queue
find_starves cpus h = find_loop-stuck cpus (length cpus) 0 none 0 h

-- `best` names the largest of the counts in front of `start`, all of which are positive.
record Best (cpus : List Cpu) (start i c : ℕ) : Type 0 where
  before : i < start
  holds : (get_or cpus i no_cpu).entry_count ≡ c
  top : (j : ℕ) → j < start → (get_or cpus j no_cpu).entry_count ≤ c

Best-next :
    (cpus : List Cpu) (start i c d : ℕ)
    → (get_or cpus start no_cpu).entry_count ≡ d
    → Best cpus start i c
    → Best cpus (start + 1) (if ltb c d then start else i) (if ltb c d then d else c)
Best-next cpus start i c d e b = elim (Bool-cases (ltb c d)) [
  | inl more ↦ rw more (record {
    before = omega arith;
    holds = e;
    top = λ j h. elim (ℕ_discrete j start) [
      | yes q ↦ rw (q, e) (omega arith)
      | no ne ↦ ground (arith, b.top j (omega arith))
    ];
  })
  | inr less ↦ rw less (record {
    before = omega (arith, b.before);
    holds = b.holds;
    top = λ j h. elim (ℕ_discrete j start) [
      | yes q ↦ rw (q, e) (ground arith)
      | no ne ↦ b.top j (omega arith)
    ];
  })
]

find_loop-Best :
    (cpus : List Cpu) (n start i c : ℕ)
    → ((j : ℕ) → j < start + n → 0 < (get_or cpus j no_cpu).entry_count)
    → Best cpus start i c
    → (k d : ℕ) × (find_loop cpus n start (some i) c ≡ some k) × Best cpus (start + n) k d
unfolding find_loop
find_loop-Best cpus zero start i c pos b =
    let e : start + 0 ≡ start = omega arith in (i, c, refl, rw e b)
find_loop-Best cpus (suc n) start i c pos b =
    let size : ℕ = (get_or cpus start no_cpu).entry_count in
    let ne : (size == 0) ≡ false = ground (arith, pos start (omega arith)) in
    let e : start + suc n ≡ start + 1 + n = omega arith in
    let joined : (if ltb c size then some start else some i)
        ≡ some (if ltb c size then start else i) =
      elim (Bool-cases (ltb c size)) [ inl t ↦ rw t | inr t ↦ rw t ] in
    rw (ne, e, joined)
      (find_loop-Best cpus n (start + 1) (if ltb c size then start else i)
        (if ltb c size then size else c) (λ j h. pos j (omega arith))
        (Best-next cpus start i c size refl b))

first_round :
    (c : Cpu) (cs : List Cpu)
    → 0 < c.entry_count
    → sched_find_most_loaded_queue (c ∷ cs)
      ≡ find_loop (c ∷ cs) (length cs) 1 (some 0) c.entry_count
unfolding sched_find_most_loaded_queue find_loop
first_round c cs h =
    let ne : (c.entry_count == 0) ≡ false = ground arith in
    let gt : ltb 0 c.entry_count ≡ true = ground arith in
    rw (sched_find_most_loaded_queue, find_loop, ne, gt)

-- If no run queue is empty, the queue that is found is one of the longest.
pub find_largest :
    (cpus : List Cpu)
    → 0 < length cpus
    → ((j : ℕ) → j < length cpus → 0 < (get_or cpus j no_cpu).entry_count)
    → (k : ℕ) × (sched_find_most_loaded_queue cpus ≡ some k)
      × (k < length cpus)
      × ((j : ℕ)
          → j < length cpus
          → (get_or cpus j no_cpu).entry_count ≤ (get_or cpus k no_cpu).entry_count)
find_largest [] h pos = absurd (omega arith)
find_largest (c ∷ cs) h pos =
    let first : Best (c ∷ cs) 1 0 c.entry_count = record {
      before = omega arith;
      holds = refl;
      top = elim [ zero ↦ λ _. omega arith | suc j ↦ λ lt. absurd (omega arith) ];
    } in
    let e : 1 + length cs ≡ suc (length cs) = omega arith in
    let (k, d, found, b) =
      find_loop-Best (c ∷ cs) (length cs) 1 0 c.entry_count (λ j lt. pos j (omega arith)) first in
    (
      k,
      first_round c cs (pos 0 h) ∙ found,
      omega (arith, b.before),
      λ j lt. rw b.holds (b.top j (omega arith)),
    )
