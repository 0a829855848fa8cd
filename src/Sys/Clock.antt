-- ===== src/Sys/Clock.antt =====
-- kernel/sys/clock.c and kernel/sys/timer.c: the choice of a clock source and of a timer device, the
-- time since boot, and waiting. What a source reads is an argument.
pub mod Choice
pub mod Time
mod Tests
use mathlib.Core.Option
use monolith.Prelude.{
  Bool, List, Option, [], if◌then◌else◌, ltb, none, not, some, suc, ℕ, ◌%◌, ◌++◌, ◌+◌, ◌/◌, ◌==◌,
  ◌∷◌,
}
use monolith.Prelude.Errno.{Result, efault, einval, err, ok}
use monolith.Prelude.Words.{u64_mod}

-- `clocksource_t` and `timer_device`, the fields that the choice uses
pub record Source : Type 0 where
  pub source_id : ℕ
  pub priority : ℕ

-- `sources`, `current` and `max_prio`, and the sources that are switched on
pub record Clocks : Type 0 where
  pub sources : List Source
  pub current : Option Source
  pub max_prio : ℕ
  pub running : List ℕ

abbrev pub no_clocks : Clocks
no_clocks = record { sources = []; current = none; max_prio = 0; running = [] }

-- `disable` and `enable` of a source
unfoldable pub switch_off : ℕ → List ℕ → List ℕ
switch_off i [] = []
switch_off i (x ∷ xs) = if x == i then switch_off i xs else x ∷ switch_off i xs

unfoldable pub clocksource_register : Clocks → Source → Clocks
unfolding switch_off
clocksource_register c source =
    let sources = c.sources ++ (source ∷ []) in
    let off = elim c.current as (λ _. List ℕ) [
      | none ↦ c.running
      | some old ↦ switch_off old.source_id c.running
    ] in
    if ltb c.max_prio source.priority
    then record {
      sources = sources;
      current = some source;
      max_prio = source.priority;
      running = source.source_id ∷ off;
    }
    else record c { sources = sources }

-- `timer_device_register`: the same choice, with nothing switched
unfoldable pub timer_device_register : Clocks → Source → Clocks
timer_device_register c device =
    let devices = c.sources ++ (device ∷ []) in
    if ltb c.max_prio device.priority
    then record c { sources = devices; current = some device; max_prio = device.priority }
    else record c { sources = devices }

-- `clock_uptime`, in nanoseconds
unfoldable pub clock_uptime : Clocks → (Source → ℕ) → ℕ
clock_uptime c read = elim c.current [ none ↦ 0 | some s ↦ read s ]

-- The loop of `clock_wait` over the times that `clock_uptime` gives: how many of them are read, or
-- `none` when they run out before the target is reached.
unfoldable pub wait_loop : ℕ → List ℕ → Option ℕ
wait_loop target [] = none
wait_loop target (now ∷ rest) =
    let later = Option.map suc (wait_loop target rest) in if ltb now target then later else some 1

-- `clock_wait`; the first reading makes the target
unfoldable pub clock_wait : ℕ → ℕ → List ℕ → Option ℕ
unfolding wait_loop
clock_wait nanos start readings =
    if nanos == 0 then some 0 else wait_loop ((start + nanos) % u64_mod) readings

-- `sys_clock_gettime`: seconds and nanoseconds. `valid` is the answer of `vm_validate_ptr`.
unfoldable pub sys_clock_gettime : ℕ → Bool → ℕ → ℕ → Result (ℕ × ℕ)
sys_clock_gettime clock valid uptime boot_time =
    if not (clock == 0)
    then err einval
    else if not valid
    then err efault
    else ok ((uptime / 1000000000 + boot_time) % u64_mod, uptime % 1000000000)
