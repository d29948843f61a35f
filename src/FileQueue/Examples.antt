-- ===== src/FileQueue/Examples.antt =====
-- Runs of the file driver of inengine-core/src/queue/driver/file on small disks.
use in_engine_net.Prelude.{
  ◌≡◌, refl, ◌∙◌, true, some, [], ◌∷◌, Bytes, bytes_eq_refl, bytes_eq_iff, ok, arith,
}
use in_engine_net.Queue.Types.{in_progress, failed}
use in_engine_net.Queue.Sample.{sample, sample_json, sample_name}
use in_engine_net.FileQueue.Names.{settling_name, settling_name-ne, hidden_name, temp_suffix}
use in_engine_net.FileQueue.Disk.{File, World, find_path}
use in_engine_net.FileQueue.Lookup.{path_eq-elsewhere}
use in_engine_net.FileQueue.Prog.{Always}
use in_engine_net.FileQueue.Dir.{path, write_atomic}
use in_engine_net.FileQueue.Atomic.{AgreesBut, WrittenIfOk, Ends-write_atomic}
use in_engine_net.FileQueue.Settle.{move_claimed}
use in_engine_net.FileQueue.Settle.Crash.{Safe, Starts, first_settle, Safe-move_claimed}

abbrev name : Bytes
name = b'a' ∷ []

abbrev claimed_file : File
claimed_file = record { contents = 7 ∷ 0 ∷ 3 ∷ []; modified = 5; is_file = true }

abbrev one_claimed : World
one_claimed = record {
  pending = [];
  in_progress = (name, claimed_file) ∷ [];
  failed = [];
  clock = 9;
  next_name = 0;
}

abbrev text : Bytes
text = 7 ∷ 1 ∷ 3 ∷ []

serialized : sample_json.to_vec_pretty (sample 7 1 3) ≡ ok text
serialized = ground (arith, bytes_eq_refl [])

starts :
    Starts sample_name claimed_file text name failed refl sample_json
      (sample 7 1 3)
      serialized
      one_claimed
unfolding find_path
starts =
    first_settle (ground (arith, bytes_eq_refl name))
      (ground (arith, settling_name-ne name, bytes_eq_iff name (settling_name name)))

Safe-move_claimed_example :
    Safe sample_name claimed_file text name failed
      (move_claimed sample_json name (sample 7 1 3) failed)
      one_claimed
Safe-move_claimed_example =
    Safe-move_claimed sample_name claimed_file text name failed refl sample_json (sample 7 1 3)
      serialized one_claimed starts

-- A file that the atomic write leaves alone.
abbrev HasClaimed : World → Type 0
HasClaimed w = find_path (path in_progress name) w ≡ some claimed_file

HasClaimed-framed :
    (w other : World)
    → AgreesBut
        (path failed (hidden_name (sample_name 0) temp_suffix))
        (path failed (sample_name 0))
        w
        other
    → HasClaimed w
    → HasClaimed other
HasClaimed-framed w other agrees h =
    agrees (path in_progress name)
      (path_eq-elsewhere (path failed (hidden_name (sample_name 0) temp_suffix))
        (path in_progress name) refl)
      (path_eq-elsewhere (path failed (sample_name 0)) (path in_progress name) refl)
    ∙ h

one_claimed-HasClaimed : HasClaimed one_claimed
unfolding find_path
one_claimed-HasClaimed = ground (arith, bytes_eq_refl name)

Ends-write_atomic_example :
    Always sample_name HasClaimed
      (WrittenIfOk text (path failed (sample_name 0)))
      (write_atomic failed (sample_name 0) text)
      one_claimed
Ends-write_atomic_example =
    Ends-write_atomic sample_name HasClaimed failed (sample_name 0) text HasClaimed-framed
      one_claimed one_claimed-HasClaimed
