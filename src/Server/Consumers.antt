-- ===== src/Server/Consumers.antt =====
-- inengine-core/src/server/consumers.rs: how a consumer settles a message that it has run. Log
-- lines are values: the loop ends with what it logs.
pub mod Settling
pub mod Starting
pub mod Running
pub mod Stopping
mod Examples
use in_engine_net.Prelude.{
  ℕ, zero, suc, ◌+◌, Bool, Option, none, some, Result, ok, err, ltb, if◌then◌else◌,
}
use in_engine_net.Queue.Types.{QueueLane, primary, secondary}
use in_engine_net.Queue.Delivery.{SettleError, lost, rejected, AttemptKind, SettleOutcome}
use in_engine_net.Queue.Delivery
use in_engine_net.Queue.Api.{Queue}
use in_engine_net.Queue.Processing.{settle}

abbrev pub shutdown_settle_retries : ℕ
shutdown_settle_retries = 3

-- The consumer counts of `QueueSettings`.
pub record QueueSettings : Type 0 where
  pub primary_queue_consumers : ℕ
  pub secondary_queue_consumers : ℕ

unfoldable pub consumer_count : QueueSettings → QueueLane → ℕ
consumer_count settings primary = settings.primary_queue_consumers
consumer_count settings secondary = settings.secondary_queue_consumers

pub data Ending : Type 0 where
  settled : SettleOutcome → Ending
  left_in_progress_stage : Ending
  rejected_delivery : Ending
  stays_in_progress : Ending

-- Whether the loop gives up after an interrupted settle, by the count of those before it.
-- `cancelled n` says whether the token fires during the sleep of round `n`.
unfoldable pub gives_up : AttemptKind → (ℕ → Bool) → ℕ → Bool
gives_up AttemptKind.interrupted cancelled rounds = ltb shutdown_settle_retries (rounds + 1)
gives_up _ cancelled rounds = cancelled rounds

-- The loop, on fuel: `none` when the fuel is used up.
unfoldable pub settle_until_done :
    {S : Type 0}
    → ℕ
    → Queue S
    → AttemptKind
    → (ℕ → Bool)
    → ℕ
    → Result SettleError SettleOutcome
    → S
    → Option Ending × S
unfolding gives_up
settle_until_done zero q kind cancelled rounds result s = (none, s)
settle_until_done (suc fuel) q kind cancelled rounds (ok outcome) s = (some (settled outcome), s)
settle_until_done (suc fuel) q kind cancelled rounds (err lost) s = (some left_in_progress_stage, s)
settle_until_done (suc fuel) q kind cancelled rounds (err (rejected d)) s =
    (some rejected_delivery, s)
settle_until_done (suc fuel) q kind cancelled rounds (err (Delivery.interrupted d e)) s =
    let (again, s') = settle q d kind s in
    let rest = settle_until_done fuel q kind cancelled (rounds + 1) again s' in
    if gives_up kind cancelled rounds then (some stays_in_progress, s) else rest
