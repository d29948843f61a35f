-- ===== src/FileQueue/Claim.antt =====
-- inengine-core/src/queue/driver/file/store.rs: how a consumer claims the oldest message.
use Prim.Native.String.{String}
use in_engine_net.Prelude.{
  Bool, true, false, Option, none, some, List, [], ◌∷◌, Bytes, Result, ok, err,
}
use in_engine_net.Error.{not_found}
use in_engine_net.Queue.Types.{QueueLane, pending, in_progress, failed}
use in_engine_net.Queue.Envelope.{Envelope, Json, count_attempt}
use in_engine_net.Queue.Delivery.{Delivery, Receipt}
use in_engine_net.FileQueue.Disk.{IoResult, FilePath}
use in_engine_net.FileQueue.Prog.{Prog, ret, read, new_message_name, ◌>>=◌, attempt}
use in_engine_net.FileQueue.Dir.{path, list_messages, rename_if_present}

module _ (json : Json) where
  -- Failures of this move are only logged.
  unfoldable pub move_unreadable_to_failed : FilePath → Prog (Unit {0})
  move_unreadable_to_failed claimed = do
    fresh ← new_message_name ret
    _ ← attempt (rename_if_present claimed (path failed fresh))
    ret tt

  abbrev parse_claimed :
      QueueLane → Bytes → Result String Envelope → Prog (Option Delivery) → Prog (Option Delivery)
  parse_claimed lane name (ok envelope) rest = ret (
      some (record { envelope = count_attempt envelope; lane = lane; receipt = Receipt.file name }))
  parse_claimed lane name (err e) rest = do
    _ ← move_unreadable_to_failed (path in_progress name)
    rest

  abbrev read_claimed :
      QueueLane → Bytes → IoResult Bytes → Prog (Option Delivery) → Prog (Option Delivery)
  read_claimed lane name (ok raw) rest = parse_claimed lane name (json.from_slice raw) rest
  read_claimed lane name (err not_found) rest = rest
  read_claimed lane name (err e) rest = do
    _ ← move_unreadable_to_failed (path in_progress name)
    rest

  abbrev claim_present :
      Bool → Prog (Option Delivery) → Prog (Option Delivery) → Prog (Option Delivery)
  claim_present true taken rest = taken
  claim_present false taken rest = rest

  unfoldable pub claim_names : QueueLane → List Bytes → Prog (Option Delivery)
  claim_names lane [] = ret none
  claim_names lane (name ∷ names) = do
    let rest = claim_names lane names
    let claimed = path in_progress name
    present ← rename_if_present (path pending name) claimed
    claim_present present (read claimed (λ raw. read_claimed lane name raw rest)) rest

  unfoldable pub claim_oldest : QueueLane → Prog (Option Delivery)
  unfolding claim_names
  claim_oldest lane = do names ← list_messages pending; claim_names lane names
