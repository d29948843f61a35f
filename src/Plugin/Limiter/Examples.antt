-- ===== src/Plugin/Limiter/Examples.antt =====
-- Runs of the limiter of inengine-core/src/plugin/limiter.rs, among them those of its own tests.
use in_engine_net.Prelude.{
  ◌+◌, ◌-◌, ◌≤◌, ◌<◌, ◌≡◌, refl, ◌⊎◌, true, false, none, some, List, [], ◌∷◌, arith, sum,
}
use in_engine_net.Plugin.Limiter.{
  PluginLimiter, allowed, refused, memory_limit_exceeded, table_elements_limit, new, memory_growing,
  memory_grow_failed, table_growing,
}
use in_engine_net.Plugin.Limiter.Budget.{
  WithinBudget, Within, Past, memory_growing_exact, memory_grow_failed-memory_growing,
}
use in_engine_net.Plugin.Limiter.Host.{
  Request, new_memory, grow_memory, new_table, grow_table, run, start, serve,
}
use in_engine_net.Plugin.Limiter.Accounting.{run_within_limit}

abbrev loaded : PluginLimiter
loaded = record {
  memory_limit_bytes = 100;
  memory_bytes = 60;
  last_memory_growth = 0;
  table_elements = 5;
}

loaded-WithinBudget : WithinBudget loaded
loaded-WithinBudget = ground arith

-- Two memories, one growth that the engine cannot perform, one that the budget refuses.
abbrev requests : List Request
requests =
    new_memory 30 none true
    ∷ new_memory 40 (some 90) true
    ∷ grow_memory 0 20 none false
    ∷ grow_memory 1 40 none true
    ∷ new_table 10 none true
    ∷ grow_table 0 5 none true
    ∷ []

requests_memories : (run (start 100) requests).memories ≡ 40 ∷ 30 ∷ []
unfolding run start serve new memory_growing memory_grow_failed table_growing
requests_memories = refl

run_within_limit_example :
    (sum (run (start 100) requests).memories ≡ (run (start 100) requests).limiter.memory_bytes)
    × (sum (run (start 100) requests).memories ≤ 100)
    × (sum (run (start 100) requests).tables ≤ table_elements_limit)
run_within_limit_example = run_within_limit 100 requests (omega arith)

memory_growing_exact_example :
    (Within 50 (some 80)
      × (60 - 20 + 50 ≤ 100)
      × ((memory_growing loaded 20 50 (some 80)).0 ≡ allowed)
      × ((memory_growing loaded 20 50 (some 80)).1.memory_bytes ≡ 60 - 20 + 50))
    ⊎ (Past 50 (some 80) × (memory_growing loaded 20 50 (some 80) ≡ (refused, loaded)))
    ⊎ (Within 50 (some 80)
        × (100 < 60 - 20 + 50)
        × (memory_growing loaded 20 50 (some 80) ≡ (memory_limit_exceeded 100, loaded)))
memory_growing_exact_example =
    memory_growing_exact loaded 20 50 (some 80) loaded-WithinBudget (omega arith)

approved : (memory_growing loaded 20 50 none).0 ≡ allowed
unfolding memory_growing
approved = ground arith

memory_grow_failed-memory_growing_example :
    (memory_grow_failed (memory_growing loaded 20 50 none).1).memory_bytes ≡ 60
memory_grow_failed-memory_growing_example =
    memory_grow_failed-memory_growing loaded 20 50 none loaded-WithinBudget (omega arith)
      (omega arith) approved
