-- ===== src/FileQueue/Fifo/Examples.antt =====
-- Publishes, claims and republishes of the file queue of inengine-core/src/queue/driver/file on a
-- disk with no files.
use in_engine_net.Prelude.{
  ℕ, zero, suc, ◌<◌, ◌≡◌, refl, true, false, [], ◌∷◌, List, bytes_lt, arith,
}
use in_engine_net.Queue.Types.{primary}
use in_engine_net.Queue.Sample.{sample, sample_json, sample_name}
use in_engine_net.FileQueue.Disk.{World, find}
use in_engine_net.FileQueue.Names.{is_hidden}
use in_engine_net.FileQueue.Fifo.{stages, IsNaming, InOrder, Kept}
use in_engine_net.FileQueue.Fifo.Requests.{
  Request, publish, claim, republish, Performed, Performed-all,
}

sample_name-later : (j k : ℕ) → j < k → bytes_lt (sample_name j) (sample_name k) ≡ true
unfolding bytes_lt
sample_name-later j zero h = absurd (omega arith)
sample_name-later zero (suc zero) h = refl
sample_name-later zero (suc (suc k)) h = refl
sample_name-later (suc j) (suc k) h = ground (arith, sample_name-later j k (omega arith))

sample_name-IsNaming : IsNaming sample_name
unfolding is_hidden
sample_name-IsNaming = record {
  later = sample_name-later;
  shown = λ k. elim k as (λ k. is_hidden (sample_name k) ≡ false) [ zero ↦ refl | suc k ↦ refl ];
}

abbrev empty_disk : World
empty_disk = record { pending = []; in_progress = []; failed = []; clock = 9; next_name = 0 }

empty-Kept : Kept sample_name 0 []
unfolding find
empty-Kept = record { distinct = tt; early = λ m f k e. absurd cc; temp_free = λ k l. refl }

empty-InOrder : InOrder sample_name empty_disk
unfolding find
empty-InOrder = record {
  pending = empty-Kept;
  in_progress = empty-Kept;
  failed = empty-Kept;
  claimed_first = λ m n f g e. absurd cc;
}

abbrev some_requests : List Request
some_requests =
    publish (sample 7 0 3) ∷ publish (sample 8 0 3) ∷ claim ∷ republish 1 ∷ claim ∷ claim ∷ []

Performed-all_example :
    Performed sample_name sample_json primary some_requests (stages empty_disk) empty_disk
Performed-all_example =
    Performed-all sample_name sample_name-IsNaming sample_json primary some_requests empty_disk
      empty-InOrder
