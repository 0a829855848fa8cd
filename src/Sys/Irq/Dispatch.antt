-- ===== src/Sys/Irq/Dispatch.antt =====
-- Which handler an interrupt of kernel/sys/irq.c runs.
use mathlib.Core.Option
use native.Mathlib.Decide.{dec_lt}
use monolith.Prelude.{
  Option, arith, get_or-set_ne, get_or-set_self, inl, inr, length, length-set, ltb, none, refl, set,
  some, true, ℕ, ◌%◌, ◌+◌, ◌-◌, ◌<◌, ◌∙◌, ◌∷◌, ◌≡◌, ◌≢◌, ◌≤◌, ◌⊎◌,
}
use monolith.Prelude.Words.{u32_mod}
use monolith.Sys.Irq.{
  IrqDomain, Irqs, Virq, dispatched, irq_dispatch, new_virq, virq_count, virq_overrun, virq_some,
}

pub record IsIrqs (s : Irqs) : Type 0 where
  pub table_size : length s.virq_table ≡ virq_count
  pub from_32 : (32 ≤ s.virq_alloc) × (s.virq_alloc < u32_mod - 1)

-- what a registration of a handler for a domain leaves
pub record Registered (s : Irqs) (d : IrqDomain) (handler : Option ℕ) (payload : ℕ) (s' : Irqs)
    : Type 0 where
  pub runs :
      irq_dispatch s' s.virq_alloc ≡ dispatched (Option.map (λ f. (f, payload)) handler) d.has_eoi
  pub others : (id : ℕ) → id < u32_mod → id ≢ s.virq_alloc → irq_dispatch s' id ≡ irq_dispatch s id
  pub next_id : s'.virq_alloc ≡ s.virq_alloc + 1
  pub told : s'.enabled ≡ s.virq_alloc ∷ s.enabled
  pub sound : length s'.virq_table ≡ virq_count

module _ (s : Irqs) (hwirq : ℕ) (d : IrqDomain) (handler : Option ℕ) (payload : ℕ)
    (v : IsIrqs s) where
  index_of : (s.virq_alloc + u32_mod - 32) % u32_mod ≡ s.virq_alloc - 32
  index_of = omega (arith, v.from_32)

  -- the entry and the state that the writes leave
  abbrev entry : Virq
  entry = record {
    virq_id = s.virq_alloc;
    hwirq = hwirq;
    domain = d;
    payload = payload;
    handler = handler;
  }

  abbrev after : Irqs
  after = record s {
    virq_table = set s.virq_table (s.virq_alloc - 32) (some entry);
    virq_alloc = s.virq_alloc + 1;
    enabled = s.virq_alloc ∷ s.enabled;
  }

  new_virq-after :
      s.virq_alloc < 160 → new_virq s hwirq d handler payload ≡ (after, virq_some s.virq_alloc)
  unfolding new_virq
  new_virq-after h =
      let e : (s.virq_alloc + 1) % u32_mod ≡ s.virq_alloc + 1 = omega (arith, v.from_32) in
      let low : ltb (s.virq_alloc - 32) virq_count ≡ true = ground (arith, v.from_32, h) in
      rw (new_virq, index_of, e, low) refl

  dispatch-after :
      s.virq_alloc < 160
      → irq_dispatch after s.virq_alloc
        ≡ dispatched (Option.map (λ f. (f, payload)) handler) d.has_eoi
  unfolding irq_dispatch
  dispatch-after h =
      let low : ltb (s.virq_alloc - 32) virq_count ≡ true = ground (arith, v.from_32, h) in
      rw (irq_dispatch, index_of, low)
        (rw
          (get_or-set_self s.virq_table (s.virq_alloc - 32) (some entry) none
            (omega (arith, v.table_size, v.from_32)))
          refl)

  dispatch-others :
      (id : ℕ) → id < u32_mod → id ≢ s.virq_alloc → irq_dispatch after id ≡ irq_dispatch s id
  unfolding irq_dispatch
  dispatch-others id h ne =
      rw
        (get_or-set_ne s.virq_table (s.virq_alloc - 32) ((id + u32_mod - 32) % u32_mod) (some entry)
          none (λ e. omega (arith, v.from_32)))
        refl

  new_virq-Registered :
      s.virq_alloc < 160
      → (s' : Irqs) × (new_virq s hwirq d handler payload ≡ (s', virq_some s.virq_alloc))
        × Registered s d handler payload s'
  new_virq-Registered h = (
    after,
    new_virq-after h,
    record {
      runs = dispatch-after h;
      others = dispatch-others;
      next_id = refl;
      told = refl;
      sound = length-set s.virq_table (s.virq_alloc - 32) (some entry) ∙ v.table_size;
    },
  )

  -- Registering a handler for an interrupt of a domain gives it the next vector, as long as the table
  -- has room. An interrupt on that vector runs that handler with its payload and signals the end as
  -- the domain's chip does, and every other vector runs what it ran before. When 128 vectors have
  -- been given, the next registration writes outside the table.
  pub new_virq-Outcome :
      ((s.virq_alloc < 160)
        × ((s' : Irqs) × (new_virq s hwirq d handler payload ≡ (s', virq_some s.virq_alloc))
            × Registered s d handler payload s'))
      ⊎ ((160 ≤ s.virq_alloc) × ((new_virq s hwirq d handler payload).1 ≡ virq_overrun))
  unfolding new_virq
  new_virq-Outcome = elim (dec_lt s.virq_alloc 160) [
    | yes h ↦ inl (h, new_virq-Registered h)
    | no h ↦ inr (omega arith, rw index_of (ground (arith, h)))
  ]
