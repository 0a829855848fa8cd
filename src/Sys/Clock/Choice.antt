-- ===== src/Sys/Clock/Choice.antt =====
-- Which source kernel/sys/clock.c chooses, and which timer kernel/sys/timer.c.
use monolith.Prelude.{
  ==-self, Bool-cases, List, Option, [], ap, arith, inl, inr, ltb, none, refl, some, ℕ, ◌++◌, ◌∷◌,
  ◌≡◌, ◌≤◌, ◌⊎◌,
}
use monolith.Sys.Clock.{
  Clocks, Source, clocksource_register, no_clocks, switch_off, timer_device_register,
}

abbrev pub AllUpTo : ℕ → List Source → Type 0
AllUpTo p [] = Unit {0}
AllUpTo p (s ∷ ss) = (s.priority ≤ p) × AllUpTo p ss

abbrev pub OneOf : Source → List Source → Type 0
OneOf s [] = ⊥
OneOf s (x ∷ xs) = (x ≡ s) ⊎ OneOf s xs

abbrev pub CurrentIs : Clocks → Option Source → Type 0
CurrentIs c none = (c.max_prio ≡ 0) × (c.running ≡ [])
CurrentIs c (some s) =
    (s.priority ≡ c.max_prio) × OneOf s c.sources × (c.running ≡ s.source_id ∷ [])

-- No source has a higher priority than the current one, which is registered and is the only one that
-- is switched on; with no current one, every priority is 0.
pub record IsChosen (c : Clocks) : Type 0 where
  pub bounded : AllUpTo c.max_prio c.sources
  pub choice : CurrentIs c c.current

AllUpTo-snoc :
    (p q : ℕ) (ss : List Source) (s : Source)
    → AllUpTo p ss
    → p ≤ q
    → s.priority ≤ q
    → AllUpTo q (ss ++ (s ∷ []))
AllUpTo-snoc p q [] s a h l = (l, tt)
AllUpTo-snoc p q (x ∷ xs) s a h l = (omega (arith, a.0), AllUpTo-snoc p q xs s a.1 h l)

OneOf-snoc : (s t : Source) (ss : List Source) → OneOf s ss → OneOf s (ss ++ (t ∷ []))
OneOf-snoc s t [] m = absurd m
OneOf-snoc s t (x ∷ xs) m = elim m [ inl e ↦ inl e | inr r ↦ inr (OneOf-snoc s t xs r) ]

OneOf-last : (s : Source) (ss : List Source) → OneOf s (ss ++ (s ∷ []))
OneOf-last s [] = inl refl
OneOf-last s (x ∷ xs) = inr (OneOf-last s xs)

-- what is running once the old source is switched off
off-none :
    (c : Clocks) (o : Option Source)
    → CurrentIs c o
    → elim o as (λ _. List ℕ) [ none ↦ c.running | some old ↦ switch_off old.source_id c.running ]
      ≡ []
unfolding switch_off
off-none c none k = k.1
off-none c (some s) k = rw k.2 (rw (==-self s.source_id) refl)

kept :
    (c : Clocks) (s : Source) (o : Option Source)
    → CurrentIs c o
    → CurrentIs (record c { sources = c.sources ++ (s ∷ []) }) o
kept c s none k = k
kept c s (some x) k = (k.0, OneOf-snoc x s c.sources k.1, k.2)

register-IsChosen : (c : Clocks) (s : Source) → IsChosen c → IsChosen (clocksource_register c s)
unfolding clocksource_register
register-IsChosen c s v = elim (Bool-cases (ltb c.max_prio s.priority)) [
  | inl e ↦ rw e (record {
    bounded =
        AllUpTo-snoc c.max_prio s.priority c.sources s v.bounded (ground (arith, e)) (omega arith);
    choice =
        (refl, OneOf-last s c.sources, ap (λ xs. s.source_id ∷ xs) (off-none c c.current v.choice));
  })
  | inr e ↦ rw e (record {
    bounded =
        AllUpTo-snoc c.max_prio c.max_prio c.sources s v.bounded (omega arith) (ground (arith, e));
    choice = kept c s c.current v.choice;
  })
]

-- registrations one after the other, from the start
unfoldable pub register_all : Clocks → List Source → Clocks
register_all c [] = c
register_all c (s ∷ ss) = register_all (clocksource_register c s) ss

all-IsChosen : (c : Clocks) (ss : List Source) → IsChosen c → IsChosen (register_all c ss)
unfolding register_all
all-IsChosen c [] v = v
all-IsChosen c (s ∷ ss) v = all-IsChosen (clocksource_register c s) ss (register-IsChosen c s v)

-- Whatever sources are registered, in whatever order, the current one is one of those with the
-- highest priority and the only one that is switched on; there is none only while every priority
-- is 0.
pub register_all-IsChosen : (ss : List Source) → IsChosen (register_all no_clocks ss)
register_all-IsChosen ss =
    all-IsChosen no_clocks ss (record { bounded = tt; choice = (refl, refl) })

-- `timer_device_register` chooses the same device as `clocksource_register` would choose a source.
pub timer-clocksource :
    (c : Clocks) (s : Source)
    → let t = timer_device_register c s in
      let d = clocksource_register c s in
      (t.current ≡ d.current) × (t.max_prio ≡ d.max_prio) × (t.sources ≡ d.sources)
unfolding timer_device_register clocksource_register
timer-clocksource c s = elim (Bool-cases (ltb c.max_prio s.priority)) [
  | inl e ↦ rw e (refl, refl, refl)
  | inr e ↦ rw e (refl, refl, refl)
]
