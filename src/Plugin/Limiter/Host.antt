-- ===== src/Plugin/Limiter/Host.antt =====
-- The calls that the WebAssembly engine makes of the limiter of
-- inengine-core/src/plugin/limiter.rs, for a store with several memories and tables. The engine
-- asks before a memory or a table grows, with its size now and its size after; when it was
-- allowed to grow a memory and could not, it says so. The sizes are what the engine then holds.
use in_engine_net.Prelude.{
  ℕ, ◌+◌, Bool, true, false, Option, none, some, List, [], ◌∷◌, get_elem?, set,
}
use in_engine_net.Plugin.Limiter
use in_engine_net.Plugin.Limiter.{
  PluginLimiter, Growing, allowed, refused, memory_limit_exceeded, memory_growing,
  memory_grow_failed, table_growing,
}

pub record Store : Type 0 where
  pub limiter : PluginLimiter
  pub memories : List ℕ
  pub tables : List ℕ

-- A growth of the memory or table at an index by an amount, or a new one of an initial size. The
-- flag says whether the engine can perform a growth that the limiter allowed.
pub data Request : Type 0 where
  new_memory : ℕ → Option ℕ → Bool → Request
  grow_memory : ℕ → ℕ → Option ℕ → Bool → Request
  new_table : ℕ → Option ℕ → Bool → Request
  grow_table : ℕ → ℕ → Option ℕ → Bool → Request

-- The sizes become `grown` when the growth is allowed and performed.
unfoldable pub memory_answer : Store → Growing × PluginLimiter → Bool → List ℕ → Store
memory_answer s (allowed, l) true grown = record s { limiter = l; memories = grown }
memory_answer s (allowed, l) false grown = record s { limiter = memory_grow_failed l }
memory_answer s (refused, l) done grown = record s { limiter = l }
memory_answer s (memory_limit_exceeded limit, l) done grown = record s { limiter = l }

unfoldable pub table_answer : Store → Growing × PluginLimiter → Bool → List ℕ → Store
table_answer s (allowed, l) true grown = record s { limiter = l; tables = grown }
table_answer s (allowed, l) false grown = record s { limiter = l }
table_answer s (refused, l) done grown = record s { limiter = l }
table_answer s (memory_limit_exceeded limit, l) done grown = record s { limiter = l }

grow_memory_at : Store → Option ℕ → ℕ → ℕ → Option ℕ → Bool → Store
grow_memory_at s none i by maximum done = s
grow_memory_at s (some size) i by maximum done =
    memory_answer s (memory_growing s.limiter size (size + by) maximum) done
      (set s.memories i (size + by))

grow_table_at : Store → Option ℕ → ℕ → ℕ → Option ℕ → Bool → Store
grow_table_at s none i by maximum done = s
grow_table_at s (some size) i by maximum done =
    table_answer s (table_growing s.limiter size (size + by) maximum) done
      (set s.tables i (size + by))

unfoldable pub serve : Store → Request → Store
unfolding memory_answer table_answer grow_memory_at grow_table_at
serve s (new_memory size maximum done) =
    memory_answer s (memory_growing s.limiter 0 size maximum) done (size ∷ s.memories)
serve s (grow_memory i by maximum done) =
    grow_memory_at s (get_elem? s.memories i) i by maximum done
serve s (new_table size maximum done) =
    table_answer s (table_growing s.limiter 0 size maximum) done (size ∷ s.tables)
serve s (grow_table i by maximum done) = grow_table_at s (get_elem? s.tables i) i by maximum done

unfoldable pub run : Store → List Request → Store
run s [] = s
run s (r ∷ rs) = run (serve s r) rs

unfoldable pub start : ℕ → Store
start limit = record { limiter = Limiter.new limit; memories = []; tables = [] }
