-- ===== src/Plugin/Limiter/Accounting.antt =====
-- Over every history of a store, the limiter of inengine-core/src/plugin/limiter.rs counts the
-- bytes of all memories together.
use in_engine_net.Prelude.{
  ℕ, ◌+◌, ◌≤◌, ◌<◌, ◌≡◌, inl, inr, Bool, true, false, Option, List, [], ◌∷◌, arith, usize_mod,
  get_elem?, sum, sum-set, Option-cases, sum-ge-get_elem?,
}
use in_engine_net.Plugin.Limiter.{
  table_elements_limit, new, memory_growing, memory_grow_failed, table_growing,
}
use in_engine_net.Plugin.Limiter.Budget.{WithinBudget}
use in_engine_net.Plugin.Limiter.Host.{
  Store, Request, new_memory, grow_memory, new_table, grow_table, memory_answer, table_answer,
  serve, run, start,
}

pub record Accounts (limit : ℕ) (s : Store) : Type 0 where
  pub limit_kept : s.limiter.memory_limit_bytes ≡ limit
  pub within : WithinBudget s.limiter
  pub counted : sum s.memories ≡ s.limiter.memory_bytes
  pub tables_counted : sum s.tables ≤ s.limiter.table_elements

-- One growth of a memory, for the sizes before and after.
memory_answer-Accounts :
    (limit : ℕ) (s : Store) (current desired : ℕ) (maximum : Option ℕ) (done : Bool)
    (grown : List ℕ)
    → Accounts limit s
    → current ≤ sum s.memories
    → current ≤ desired
    → sum grown + current ≡ sum s.memories + desired
    → Accounts limit (memory_answer s (memory_growing s.limiter current desired maximum) done grown)
unfolding memory_answer memory_growing memory_grow_failed
memory_answer-Accounts limit s current desired maximum true grown a c d e = ground arith
memory_answer-Accounts limit s current desired maximum false grown a c d e = ground arith

table_answer-Accounts :
    (limit : ℕ) (s : Store) (current desired : ℕ) (maximum : Option ℕ) (done : Bool)
    (grown : List ℕ)
    → Accounts limit s
    → current ≤ sum s.tables
    → current ≤ desired
    → sum grown + current ≡ sum s.tables + desired
    → Accounts limit (table_answer s (table_growing s.limiter current desired maximum) done grown)
unfolding table_answer table_growing
table_answer-Accounts limit s current desired maximum true grown a c d e = ground arith
table_answer-Accounts limit s current desired maximum false grown a c d e = ground arith

-- Every request keeps the accounts, whether it is allowed, refused, or fails in the engine.
serve-Accounts :
    (limit : ℕ) (s : Store) (r : Request) → Accounts limit s → Accounts limit (serve s r)
unfolding serve
serve-Accounts limit s (new_memory size maximum done) a =
    memory_answer-Accounts limit s 0 size maximum done _ a (omega arith) (omega arith) (omega arith)
serve-Accounts limit s (grow_memory i by maximum done) a =
    elim (Option-cases (get_elem? s.memories i)) [
      | inl e ↦ rw (e, serve) a
      | inr (size, e) ↦
          rw (e, serve)
            (memory_answer-Accounts limit s size (size + by) maximum done _ a
              (sum-ge-get_elem? s.memories i size e) (omega arith)
              (sum-set s.memories i size (size + by) e))
    ]
serve-Accounts limit s (new_table size maximum done) a =
    table_answer-Accounts limit s 0 size maximum done _ a (omega arith) (omega arith) (omega arith)
serve-Accounts limit s (grow_table i by maximum done) a =
    elim (Option-cases (get_elem? s.tables i)) [
      | inl e ↦ rw (e, serve) a
      | inr (size, e) ↦
          rw (e, serve)
            (table_answer-Accounts limit s size (size + by) maximum done _ a
              (sum-ge-get_elem? s.tables i size e) (omega arith)
              (sum-set s.tables i size (size + by) e))
    ]

run-Accounts :
    (limit : ℕ) (s : Store) (rs : List Request) → Accounts limit s → Accounts limit (run s rs)
unfolding run
run-Accounts limit s [] a = a
run-Accounts limit s (r ∷ rs) a = run-Accounts limit (serve s r) rs (serve-Accounts limit s r a)

-- From an empty store with a limit at least two below 2 ^ 64, whatever the requests and whichever
-- growths the engine could not perform, the budget counts exactly the bytes of all memories
-- together, they stay within the limit, and the table elements stay within theirs.
pub run_within_limit :
    (limit : ℕ) (rs : List Request)
    → limit + 1 < usize_mod
    → (sum (run (start limit) rs).memories ≡ (run (start limit) rs).limiter.memory_bytes)
      × (sum (run (start limit) rs).memories ≤ limit)
      × (sum (run (start limit) rs).tables ≤ table_elements_limit)
unfolding start new
run_within_limit limit rs h = omega (arith, run-Accounts limit (start limit) rs accounts)
  where
    accounts : Accounts limit (start limit)
    accounts = ground arith
