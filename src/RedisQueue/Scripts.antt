-- ===== src/RedisQueue/Scripts.antt =====
-- inengine-core/src/queue/driver/redis/scripts.rs: the two Lua scripts, which the server runs
-- whole.
use in_engine_net.Prelude.{ℕ, zero, suc, ◌+◌, none, some, Bytes, ◌==◌, if◌then◌else◌}
use in_engine_net.RedisQueue.Server.{End, Server}

module _ {S : Type 0} (r : Server S) where
  -- MOVE_IF_PRESENT
  unfoldable pub move_if_present_script : Bytes → Bytes → Bytes → Bytes → S → ℕ × S
  move_if_present_script source destination element replacement s =
      let (removed, s') = r.lrem source element s in
      if removed == 1 then (1, r.lpush destination replacement s') else (0, s')

  -- BULK_MOVE, with the moves that are left to make and those made.
  unfoldable pub bulk_move_script : ℕ → ℕ → Bytes → Bytes → End → End → S → ℕ × S
  bulk_move_script zero moved source destination from to s = (moved, s)
  bulk_move_script (suc n) moved source destination from to s =
      let (element, s') = r.lmove source destination from to s in
      elim element [
        | none ↦ (moved, s')
        | some x ↦ bulk_move_script n (moved + 1) source destination from to s'
      ]
