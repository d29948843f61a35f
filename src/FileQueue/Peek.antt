-- ===== src/FileQueue/Peek.antt =====
-- `FileStore::peek` of inengine-core/src/queue/driver/file/store.rs.
use in_engine_net.Prelude.{ℕ, ◌-◌, List, [], ◌∷◌, ok, err, Bytes, saturating_add, take, drop}
use in_engine_net.Error.{io, not_found}
use in_engine_net.Queue.Types.{Stage}
use in_engine_net.Queue.Envelope.{Json}
use in_engine_net.Queue.Api.{PeekedMessage, parse}
use in_engine_net.FileQueue.Disk.{IoResult, FilePath}
use in_engine_net.FileQueue.Prog.{Prog, ret, fail, read, ◌>>=◌}
use in_engine_net.FileQueue.Bulk.{stage_paths}

module _ (json : Json) where
  abbrev add_read : IoResult Bytes → Prog (List PeekedMessage) → Prog (List PeekedMessage)
  add_read (ok raw) rest = do messages ← rest; ret (parse json raw ∷ messages)
  add_read (err not_found) rest = rest
  add_read (err e) rest = fail (io e)

  unfoldable pub peek_paths : List FilePath → Prog (List PeekedMessage)
  peek_paths [] = ret []
  peek_paths (p ∷ ps) = let rest = peek_paths ps in read p (λ raw. add_read raw rest)

  unfoldable pub peek : Stage → ℕ → ℕ → Prog (List PeekedMessage)
  unfolding peek_paths
  peek stage first last = do
    paths ← stage_paths stage
    peek_paths (take (saturating_add (last - first) 1) (drop first paths))
