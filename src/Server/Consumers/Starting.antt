-- ===== src/Server/Consumers/Starting.antt =====
-- inengine-core/src/server/consumers.rs: how the consumers start. What a log line says is a value;
-- the waits for the token, and the opening of a queue, answer by the round in which they are asked.
use in_engine_net.Prelude.{
  ℕ, zero, suc, ◌+◌, ◌==◌, Bool, true, false, Option, none, some, List, [], ◌∷◌, ◌++◌, Result, ok,
  err, if◌then◌else◌, ltb,
}
use in_engine_net.Error.{QueueError}
use in_engine_net.Queue.Types.{QueueLane, QueueLengths}
use in_engine_net.Queue.Api
use in_engine_net.Queue.Api.{Queue}
use in_engine_net.Server.Consumers.{QueueSettings, consumer_count}

-- `select!` of the token and `Queue::open`.
pub data Opening (S : Type 0) : Type 0 where
  abandoned : Opening S
  opened : Result QueueError (Queue S) → Opening S

abbrev pub Opened : Type 0 → Type 0
Opened S = Option (Option (Queue S)) × S

-- The loop, on fuel: `none` when the fuel is used up, and `some none` when the token fired.
-- `open_queue n` is the opening of round `n`, and `sleep_fired n` whether the token fires during
-- the sleep after it.
module _ {S : Type 0} (open_queue : ℕ → S → Opening S × S) (sleep_fired : ℕ → Bool) where
  abbrev pub retry_open : ℕ → Opening S × S → (S → Opened S) → Opened S
  retry_open round (abandoned, s) rest = (some none, s)
  retry_open round (opened (ok q), s) rest = (some (some q), s)
  retry_open round (opened (err e), s) rest = if sleep_fired round then (some none, s) else rest s

  unfoldable pub open_with_retry : ℕ → ℕ → S → Opened S
  open_with_retry zero round s = (none, s)
  open_with_retry (suc fuel) round s =
      retry_open round (open_queue round s) (λ s'. open_with_retry fuel (round + 1) s')

-- What the start of a lane reports.
pub data Report : Type 0 where
  not_opened : Report
  recovered : ℕ → Report
  not_recovered : QueueError → Report
  in_progress_from_earlier : ℕ → Report
  nothing_in_progress : Report
  no_lengths : QueueError → Report

abbrev report_recovered : {S : Type 0} → Result QueueError ℕ × S → Option Report × S
report_recovered (ok count, s) = (some (recovered count), s)
report_recovered (err e, s) = (some (not_recovered e), s)

abbrev report_lengths : {S : Type 0} → Result QueueError QueueLengths × S → Option Report × S
report_lengths (ok lengths, s) =
    if ltb 0 lengths.in_progress
    then (some (in_progress_from_earlier lengths.in_progress), s)
    else (some nothing_in_progress, s)
report_lengths (err e, s) = (some (no_lengths e), s)

abbrev report_opened : {S : Type 0} → Bool → Opened S → Option Report × S
report_opened recover_on_start (none, s) = (none, s)
report_opened recover_on_start (some none, s) = (some not_opened, s)
report_opened true (some (some q), s) = report_recovered (Api.recover q s)
report_opened false (some (some q), s) = report_lengths (Api.lengths q s)

abbrev consumers_of : QueueLane → ℕ → ℕ → List (QueueLane × ℕ)
consumers_of lane id zero = []
consumers_of lane id (suc count) = (lane, id) ∷ consumers_of lane (id + 1) count

module _ {S : Type 0} (settings : QueueSettings) (recover_on_start : Bool)
    (open_lane : QueueLane → ℕ → S → Opening S × S) (sleep_fired : QueueLane → ℕ → Bool)
    (opens : ℕ) where
  -- The opening runs on the fuel `opens`.
  unfoldable pub recover_or_report_in_progress : QueueLane → S → Option Report × S
  unfolding open_with_retry
  recover_or_report_in_progress lane s =
      report_opened recover_on_start (open_with_retry (open_lane lane) (sleep_fired lane) opens 0 s)

  abbrev pub Started : Type 0
  Started = Option (List (QueueLane × Report) × List (QueueLane × ℕ)) × S

  abbrev add_lane : QueueLane → ℕ → Report → Started → Started
  add_lane lane count report (none, s) = (none, s)
  add_lane lane count report (some (reports, spawned), s) =
      (some ((lane, report) ∷ reports, consumers_of lane 0 count ++ spawned), s)

  abbrev start_lane : QueueLane → ℕ → Option Report × S → (S → Started) → Started
  start_lane lane count (none, s) rest = (none, s)
  start_lane lane count (some report, s) rest = add_lane lane count report (rest s)

  -- The start of `QueueConsumers::run`, lane after lane: the reports, and the consumers spawned.
  unfoldable pub start_lanes : List QueueLane → S → Started
  unfolding consumer_count recover_or_report_in_progress
  start_lanes [] s = (some ([], []), s)
  start_lanes (lane ∷ lanes) s =
      let count = consumer_count settings lane in
      let rest = start_lanes lanes in
      if count == 0
      then rest s
      else start_lane lane count (recover_or_report_in_progress lane s) rest
