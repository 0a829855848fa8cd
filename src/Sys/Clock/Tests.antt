-- ===== src/Sys/Clock/Tests.antt =====
-- Runs of the clocks of kernel/sys/clock.c, and its theorems at them.
use monolith.Prelude.{[], arith, refl, some, suc, ℕ, ◌∷◌, ◌≡◌}
use monolith.Sys.Clock.{Source, clock_wait, clocksource_register, no_clocks}
use monolith.Sys.Clock.Choice.{IsChosen, register_all, register_all-IsChosen}
use monolith.Sys.Clock.Time.{StopsAt, clock_wait-StopsAt}

abbrev pit : Source
pit = record { source_id = 1; priority = 1 }

abbrev hpet : Source
hpet = record { source_id = 2; priority = 50 }

abbrev tsc : Source
tsc = record { source_id = 3; priority = 50 }

choice_runs : (register_all no_clocks (pit ∷ hpet ∷ tsc ∷ [])).current ≡ some hpet
unfolding register_all clocksource_register
choice_runs = refl

running_runs : (register_all no_clocks (pit ∷ hpet ∷ tsc ∷ [])).running ≡ 2 ∷ []
unfolding register_all clocksource_register
running_runs = refl

register_all-IsChosen_example : IsChosen (register_all no_clocks (pit ∷ hpet ∷ []))
register_all-IsChosen_example = register_all-IsChosen (pit ∷ hpet ∷ [])

clock_wait-StopsAt_example :
    (n : ℕ) × (clock_wait 3 10 (10 ∷ 11 ∷ 14 ∷ 15 ∷ []) ≡ some (suc n))
    × StopsAt 13 (suc n) (10 ∷ 11 ∷ 14 ∷ 15 ∷ [])
clock_wait-StopsAt_example =
    clock_wait-StopsAt 3 10 (10 ∷ 11 ∷ 14 ∷ 15 ∷ []) (omega arith) (omega arith) (omega arith)
      (omega arith)
