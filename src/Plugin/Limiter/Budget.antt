-- ===== src/Plugin/Limiter/Budget.antt =====
-- One call of the limiter of inengine-core/src/plugin/limiter.rs: the budget it keeps.
use in_engine_net.Prelude.{ℕ, ◌+◌, ◌-◌, ◌≤◌, ◌<◌, ◌≡◌, ◌⊎◌, Option, none, some, arith, usize_mod}
use in_engine_net.Plugin.Limiter.{
  PluginLimiter, allowed, refused, memory_limit_exceeded, table_elements_limit, memory_growing,
  memory_grow_failed,
}

pub record WithinBudget (l : PluginLimiter) : Type 0 where
  pub memory_within : l.memory_bytes ≤ l.memory_limit_bytes
  pub growth_within : l.last_memory_growth ≤ l.memory_bytes
  pub table_within : l.table_elements ≤ table_elements_limit
  -- Above every budget that the configuration accepts, and below the saturation point.
  pub limit_below_saturation : l.memory_limit_bytes + 1 < usize_mod

-- The declared maximum of a memory or a table, when it has one.
abbrev pub Within : ℕ → Option ℕ → Type 0
Within desired none = Unit {0}
Within desired (some maximum) = desired ≤ maximum

abbrev pub Past : ℕ → Option ℕ → Type 0
Past desired none = ⊥
Past desired (some maximum) = maximum < desired

-- Within the budget, a growth of a memory that counts in it is approved exactly when it stays
-- within the declared maximum and the total stays within the limit, and then the budget counts the
-- increase; it is refused past the maximum, and an error with the limit past the limit, with the
-- limiter as it was.
pub memory_growing_exact :
    (l : PluginLimiter) (current desired : ℕ) (maximum : Option ℕ)
    → WithinBudget l
    → current ≤ l.memory_bytes
    → (Within desired maximum
        × (l.memory_bytes - current + desired ≤ l.memory_limit_bytes)
        × ((memory_growing l current desired maximum).0 ≡ allowed)
        × ((memory_growing l current desired maximum).1.memory_bytes
            ≡ l.memory_bytes - current + desired))
      ⊎ (Past desired maximum × (memory_growing l current desired maximum ≡ (refused, l)))
      ⊎ (Within desired maximum
          × (l.memory_limit_bytes < l.memory_bytes - current + desired)
          × (memory_growing l current desired maximum
              ≡ (memory_limit_exceeded l.memory_limit_bytes, l)))
unfolding memory_growing
memory_growing_exact l current desired none v h = ground arith
memory_growing_exact l current desired (some maximum) v h = ground arith

-- Within the budget, a failure after an approved growth of a memory that counts in it gives the
-- bytes back.
pub memory_grow_failed-memory_growing :
    (l : PluginLimiter) (current desired : ℕ) (maximum : Option ℕ)
    → WithinBudget l
    → current ≤ desired
    → current ≤ l.memory_bytes
    → (memory_growing l current desired maximum).0 ≡ allowed
    → (memory_grow_failed (memory_growing l current desired maximum).1).memory_bytes
      ≡ l.memory_bytes
unfolding memory_growing memory_grow_failed
memory_grow_failed-memory_growing l current desired maximum v up counted ok = ground arith
