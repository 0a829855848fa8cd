-- ===== src/Sched/SleepQueue/Place.antt =====
-- Where the loop of `sys_clock_nanosleep` of kernel/sched/task_sleep.c stops.
-- sums up the entries' times
use monolith.Libk.ListHead.Ring.{Linked, first_of, nxt-start}
use monolith.Prelude.{
  ==-self, Bool-cases, List, [], ap, arith, false, inl, inr, length, ltb, refl, some, suc, zero, ℕ,
  ◌++◌, ◌+◌, ◌-◌, ◌<◌, ◌==◌, ◌∷◌, ◌≡◌, ◌≤◌, ◌⊎◌,
}
use monolith.Prelude.Members.{contains}
use monolith.Sched.SleepQueue.{Sleepers, find_place}

abbrev pub total : (ℕ → ℕ) → List ℕ → ℕ
total delta [] = 0
total delta (x ∷ xs) = delta x + total delta xs

-- The loop has run off the end.
pub record Ends (delta : ℕ → ℕ) (queue : ℕ) (xs : List ℕ) (time cur left : ℕ) : Type 0 where
  pub at_head : cur ≡ queue
  pub later : total delta xs ≤ time
  pub left_over : left ≡ time - total delta xs

-- The loop has stopped at the first entry that is due later.
pub record StopsAt (delta : ℕ → ℕ) (xs : List ℕ) (time cur left : ℕ) : Type 0 where
  pub before : List ℕ
  pub behind : List ℕ
  pub split : xs ≡ before ++ (cur ∷ behind)
  pub later : total delta before ≤ time
  pub earlier : time < total delta before + delta cur
  pub left_over : left ≡ time - total delta before

module _ (s : Sleepers) (queue : ℕ) where
  abbrev pub Found : ℕ → ℕ → List ℕ → ℕ → Type 0
  Found fuel cur xs time =
      (c left : ℕ) × (find_place fuel s queue cur time ≡ some (c, left))
      × (Ends s.delta queue xs time c left ⊎ StopsAt s.delta xs time c left)

  -- The loop ends, at the end or at the first entry that is due later.
  pub find_place-Found :
      (fuel a : ℕ) (xs : List ℕ) (time : ℕ)
      → Linked s.links a xs queue
      → contains queue xs ≡ false
      → length xs < fuel
      → Found fuel (first_of xs queue) xs time
  unfolding find_place contains first_of
  find_place-Found zero a xs time l out h = absurd (omega arith)
  find_place-Found (suc fuel) a [] time l out h = (
    queue,
    time,
    rw (find_place, ==-self queue) refl,
    inl (record { at_head = refl; later = omega arith; left_over = omega arith }),
  )
  find_place-Found (suc fuel) a (x ∷ xs) time l out h =
      let other : (x == queue) ≡ false = ground (arith, out) in
      elim (Bool-cases (ltb time (s.delta x))) [
        | inl early ↦ (
          x,
          time,
          rw (find_place, other, early) refl,
          inr (record {
            before = [];
            behind = xs;
            split = refl;
            later = omega arith;
            earlier = ground (arith, early);
            left_over = omega arith;
          }),
        )
        | inr late ↦
            let le : s.delta x ≤ time = ground (arith, late) in
            let step = nxt-start s.links x xs queue l.2 in
            let (c, left, e, found) =
              find_place-Found fuel x xs (time - s.delta x) l.2 (ground (arith, out))
                (omega arith) in
            (
              c,
              left,
              rw (find_place, other, late, step) e,
              elim found [
                | inl f ↦ inl (record {
                  at_head = f.at_head;
                  later = omega (arith, f.later, le);
                  left_over = omega (arith, f.left_over, le);
                })
                | inr f ↦ inr (record {
                  before = x ∷ f.before;
                  behind = f.behind;
                  split = ap (λ ys. x ∷ ys) f.split;
                  later = omega (arith, f.later, le);
                  earlier = omega (arith, f.earlier, le);
                  left_over = omega (arith, f.left_over, le);
                })
              ],
            )
      ]
