-- ===== src/QueueAdmin/Management.antt =====
-- inengine-core/src/queue_admin/management.rs: the requests on the stages of a queue. A request
-- acts on the queue's state and on the output.
pub mod Peeking
pub mod Clearing
mod Examples
use Prim.Native.String.{String}
use in_engine_net.Prelude.{
  ℕ, zero, suc, ◌-◌, Bool, true, false, ◌||◌, Option, none, some, List, [], ◌∷◌, ◌++◌, Bytes, codes,
  Result, ok, err, if◌then◌else◌, length,
}
use in_engine_net.Error
use in_engine_net.Error.{CommandError, QueueError}
use in_engine_net.Output
use in_engine_net.Output.{Terminal, Output}
use in_engine_net.Exec.Pipe.{decimal}
use in_engine_net.Queue.Types.{
  QueueLane, Stage, pending, in_progress, failed, all_lanes, lane_as_str, stage_label, QueueDriver,
  QueueLengths,
}
use in_engine_net.Queue.Envelope.{Envelope}
use in_engine_net.Queue.Api
use in_engine_net.Queue.Api.{Queue, Driver, Action, PeekedMessage, malformed, open_queue}

unfoldable pub selected_stages : Bool → Bool → Bool → List Stage
selected_stages is_pending is_in_progress is_failed =
    (if is_pending then pending ∷ [] else [])
    ++ (if is_in_progress then in_progress ∷ [] else [])
    ++ (if is_failed then failed ∷ [] else [])

-- `{:>width}`, of ASCII text
abbrev pub spaces : ℕ → Bytes
spaces zero = []
spaces (suc n) = b' ' ∷ spaces n

abbrev pub right_aligned : ℕ → Bytes → Bytes
right_aligned width text = spaces (width - length text) ++ text

-- How the queue of a lane is opened: the driver of the settings, and what opens each kind.
pub record Opener (S : Type 0) : Type 0 where
  pub queue_driver : QueueDriver
  pub open_file : QueueLane → Action S (Driver S)
  pub open_redis : QueueLane → Action S (Driver S)

module _ (S : Type 0) (t : Terminal) where
  abbrev pub Admin : Type 0 → Type 0
  Admin A = S × Output t → Result CommandError A × (S × Output t)

module _ {S : Type 0} {t : Terminal} where
  abbrev pub go_on :
      {A B : Type 0}
      → Result CommandError A × (S × Output t)
      → (A → Admin S t B)
      → Result CommandError B × (S × Output t)
  go_on (ok a, st) f = f a st
  go_on (err e, st) f = (err e, st)

  -- `?`
  infixl 5 ◌>>=◌
  abbrev pub ◌>>=◌ : {A B : Type 0} → Admin S t A → (A → Admin S t B) → Admin S t B
  (m >>= f) st = go_on (m st) f

  abbrev pub done : Admin S t (Unit {0})
  done st = (ok tt, st)

  abbrev pub fail : {A : Type 0} → Bytes → Admin S t A
  fail text st = (err (Error.failed text), st)

  abbrev pub answered :
      {A : Type 0}
      → Bytes
      → Output t
      → Result QueueError A × S
      → Result CommandError A × (S × Output t)
  answered context o (ok a, s) = (ok a, (s, o))
  answered context o (err e, s) = (err (Error.failed context), (s, o))

  -- A request of the queue, with the text that `failed_with` gives its error.
  abbrev pub on_queue : {A : Type 0} → Bytes → Action S A → Admin S t A
  on_queue context call (s, o) = answered context o (call s)

  abbrev pub write : (Output t → Output t) → Admin S t (Unit {0})
  write change (s, o) = (ok tt, (s, change o))

  abbrev pub unless_empty : Bytes → List Stage → Admin S t (Unit {0}) → Admin S t (Unit {0})
  unless_empty text [] request = fail text
  unless_empty text (stage ∷ stages) request = request

abbrev pub removed_text : Stage → ℕ → Bytes
removed_text stage removed = stage_label stage ++ codes ": removed " ++ decimal 20 removed

module _ {S : Type 0} (t : Terminal) (opener : Opener S) where
  unfoldable pub open_lane : QueueLane → Admin S t (Queue S)
  unfolding open_queue lane_as_str
  open_lane lane st =
      on_queue (codes "could not open the " ++ lane_as_str lane ++ codes " queue")
        (open_queue opener.queue_driver (opener.open_file lane) (opener.open_redis lane)) st

  unfoldable pub clear_stages : Queue S → List Stage → Admin S t (Unit {0})
  unfolding stage_label decimal Api.clear
  clear_stages q [] = done
  clear_stages q (stage ∷ stages) = do
    removed ← on_queue (codes "could not clear " ++ stage_label stage) (Api.clear q stage)
    _ ← write (λ o. Output.info_line t o (removed_text stage removed))
    clear_stages q stages

  -- `Clear::run`
  unfoldable pub clear : Bool → Bool → Bool → QueueLane → Admin S t (Unit {0})
  unfolding selected_stages open_lane clear_stages
  clear is_pending is_in_progress is_failed lane =
      let stages = selected_stages is_pending is_in_progress is_failed in
      unless_empty
        (codes "specify at least one stage to clear: --pending, --failed, or --in-progress") stages
        (open_lane lane >>= λ q. clear_stages q stages)

  abbrev stage_line : Stage → ℕ → Output t → Output t
  stage_line stage count o =
      Output.line t (Output.info t o (right_aligned 14 (stage_label stage)))
        (right_aligned 10 (decimal 20 count))

  abbrev lane_lines : QueueLane → QueueLengths → Output t → Output t
  lane_lines lane lengths o =
      Output.newlines t
        (stage_line failed lengths.failed (
          stage_line in_progress lengths.in_progress (
            stage_line pending lengths.pending
              (Output.warning_line t o (lane_as_str lane ++ codes " Queue:")))))
        1

  unfoldable pub write_lane_lengths : List QueueLane → Admin S t (Unit {0})
  unfolding open_lane stage_label decimal lane_as_str Api.lengths
  write_lane_lengths [] = done
  write_lane_lengths (lane ∷ lanes) = do
    q ← open_lane lane
    lengths ← on_queue (codes "could not read the queue lengths") (Api.lengths q)
    _ ← write (lane_lines lane lengths)
    write_lane_lengths lanes

  unfoldable pub write_lengths : Admin S t (Unit {0})
  unfolding write_lane_lengths
  write_lengths = write_lane_lengths all_lanes

  -- `RepublishFailed::run`
  unfoldable pub republish_failed : ℕ → QueueLane → Admin S t (Unit {0})
  unfolding open_lane lane_as_str decimal Api.republish_failed
  republish_failed limit lane = do
    q ← open_lane lane
    count ← on_queue (codes "could not republish") (Api.republish_failed q limit)
    write (λ o. Output.info_line t o (
        codes "failed messages returned to pending in the "
        ++ lane_as_str lane
        ++ codes " queue: "
        ++ decimal 20 count))

  -- `Recover::run`
  unfoldable pub recover : QueueLane → Admin S t (Unit {0})
  unfolding open_lane lane_as_str decimal Api.recover
  recover lane = do
    q ← open_lane lane
    count ← on_queue (codes "could not recover") (Api.recover q)
    write (λ o. Output.info_line t o (
        codes "in-progress messages returned to pending in the "
        ++ lane_as_str lane
        ++ codes " queue: "
        ++ decimal 20 count))
