-- ===== src/FileQueue/Driver/Examples.antt =====
-- A dequeue of inengine-core/src/queue/driver/file/mod.rs on an empty queue.
use in_engine_net.Prelude.{ℕ, ◌+◌, ◌≡◌, refl, Option, some, none, [], Result, ok, arith}
use in_engine_net.Error.{QueueError}
use in_engine_net.Queue.Types.{primary}
use in_engine_net.Queue.Delivery.{Delivery}
use in_engine_net.Queue.Sample.{sample_json, sample_name}
use in_engine_net.FileQueue.Disk
use in_engine_net.FileQueue.Disk.{World}
use in_engine_net.FileQueue.Claim.{claim_oldest}
use in_engine_net.FileQueue.Dir.{list_messages}
use in_engine_net.FileQueue.Prog.{run}
use in_engine_net.Std.Sort.{sort}
use in_engine_net.FileQueue.Driver.{Pool, IsTimed, dequeue}
use in_engine_net.FileQueue.Driver.Polling.{InTime, dequeue-Ends}

-- The time, and the disk.
abbrev pool : Pool (ℕ × World)
pool = record {
  spawn_blocking = λ task s. let (r, w) = run sample_name task s.1 in (ok r, (s.0, w));
  now = λ s. (s.0, s);
  sleep = λ d s. (s.0 + d, s.1);
}

abbrev time : ℕ × World → ℕ
time s = s.0

pool-IsTimed : IsTimed pool time
pool-IsTimed = record {
  spawn_blocking_later = λ task s. (omega arith);
  now_from = λ s. (omega arith);
  now_to = λ s. (omega arith);
  sleep_later = λ d s. (omega arith);
}

abbrev empty : World
empty = record { pending = []; in_progress = []; failed = []; clock = 9; next_name = 0 }

dequeue-Ends_example :
    (out : Result QueueError (Option Delivery) × (ℕ × World)) × (dequeue pool sample_json primary 4
        100_000 2_500
        (700, empty)
      ≡ some out)
    × InTime pool sample_json primary time pool-IsTimed (700 + 2_500) out
dequeue-Ends_example =
    dequeue-Ends pool sample_json primary time pool-IsTimed 3 100_000 2_500 (700, empty)
      (omega arith) (omega arith)

-- The wait is slept in whole seconds, then what is left of it.
waits :
    dequeue pool sample_json primary 4 100_000 2_500 (700, empty) ≡ some (ok none, (3_200, empty))
unfolding dequeue claim_oldest list_messages Disk.read_dir sort
waits = refl
