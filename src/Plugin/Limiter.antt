-- ===== src/Plugin/Limiter.antt =====
-- inengine-core/src/plugin/limiter.rs: the memory and table budget of one plugin store.
-- A `usize` is a number below 2 ^ 64; subtraction wraps as the release build does.
pub mod Budget
pub mod Host
pub mod Accounting
mod Examples
use in_engine_net.Prelude.{
  ℕ, ◌+◌, ◌-◌, ◌%◌, ◌^◌, min, Bool, true, false, Option, none, some, ltb, if◌then◌else◌,
  saturating_add, wrapping_sub, usize_mod,
}

abbrev pub table_elements_limit : ℕ
table_elements_limit = 100_000

abbrev pub instance_count_limit : ℕ
instance_count_limit = 32

-- `wasmtime::Result<bool>`; the error carries `MemoryLimitExceeded`.
pub data Growing : Type 0 where
  allowed : Growing
  refused : Growing
  memory_limit_exceeded : ℕ → Growing

pub record PluginLimiter : Type 0 where
  pub memory_limit_bytes : ℕ
  pub memory_bytes : ℕ
  pub last_memory_growth : ℕ
  pub table_elements : ℕ

unfoldable pub new : ℕ → PluginLimiter
new limit = record {
  memory_limit_bytes = limit;
  memory_bytes = 0;
  last_memory_growth = 0;
  table_elements = 0;
}

-- `maximum.is_some_and(|maximum| desired > maximum)`
abbrev pub exceeds : ℕ → Option ℕ → Bool
exceeds desired none = false
exceeds desired (some maximum) = ltb maximum desired

unfoldable pub memory_growing : PluginLimiter → ℕ → ℕ → Option ℕ → Growing × PluginLimiter
memory_growing l current desired maximum =
    let total = saturating_add (l.memory_bytes - current) desired in
    if exceeds desired maximum
    then (refused, l)
    else if ltb l.memory_limit_bytes total
    then (memory_limit_exceeded l.memory_limit_bytes, l)
    else (
      allowed,
      record l { last_memory_growth = total - min l.memory_bytes total; memory_bytes = total },
    )

unfoldable pub memory_grow_failed : PluginLimiter → PluginLimiter
memory_grow_failed l = record l {
  memory_bytes = wrapping_sub l.memory_bytes l.last_memory_growth;
  last_memory_growth = 0;
}

unfoldable pub table_growing : PluginLimiter → ℕ → ℕ → Option ℕ → Growing × PluginLimiter
table_growing l current desired maximum =
    let total = saturating_add (l.table_elements - current) desired in
    if exceeds desired maximum
    then (refused, l)
    else if ltb table_elements_limit total
    then (refused, l)
    else (allowed, record l { table_elements = total })
