-- ===== src/QueueAdmin/Management/Peeking.antt =====
-- `Peek` of inengine-core/src/queue_admin/management.rs. serde_json, and the texts of an id and of
-- a time, are parameters.
use Prim.Native.String.{String}
use in_engine_net.Prelude.{ℕ, Bool, true, false, List, [], ◌∷◌, ◌++◌, Bytes, codes, Result, ok, err}
use in_engine_net.Output
use in_engine_net.Output.{Terminal, Output}
use in_engine_net.Queue.Types.{QueueLane, Stage, stage_label}
use in_engine_net.Queue.Envelope.{Envelope}
use in_engine_net.Queue.Api
use in_engine_net.Queue.Api.{Queue, Driver, Action, PeekedMessage, malformed}
use in_engine_net.QueueAdmin.Management.{
  Opener, Admin, ◌>>=◌, done, fail, on_queue, write, unless_empty, selected_stages, open_lane,
}

pub record Texts : Type 0 where
  pub id_text : ℕ → Bytes
  pub time_text : ℕ → Bytes
  pub string_text : String → Bytes
  pub envelope_json : Envelope → Result String Bytes
  pub malformed_json : String → Bytes → Bytes

module _ (t : Terminal) (texts : Texts) where
  abbrev labelled : Bytes → Bytes → Output t → Output t
  labelled label text o = Output.line t (Output.info t o label) text

  abbrev envelope_lines : Envelope → Output t → Output t
  envelope_lines e o =
      Output.newlines t
        (labelled (codes "  queued: ") (texts.time_text e.queued_at) (
          labelled (codes "  command: ") (texts.string_text e.command_name)
            (labelled (codes "  id: ") (texts.id_text e.id) o)))
        1

  abbrev malformed_lines : Bytes → String → Output t → Output t
  malformed_lines raw reason o =
      Output.newlines t
        (Output.line t
          (Output.line t (Output.error t o (codes "  malformed: ")) (texts.string_text reason)) raw)
        1

module _ {S : Type 0} (t : Terminal) (texts : Texts) where
  abbrev json_line : Result String Bytes → Admin S t (Unit {0})
  json_line (ok text) = write (λ o. Output.line t o text)
  json_line (err e) = fail (codes "could not format a message")

  unfoldable pub write_message : PeekedMessage → Bool → Admin S t (Unit {0})
  write_message (PeekedMessage.envelope e) true = json_line (texts.envelope_json e)
  write_message (malformed raw reason) true =
      write (λ o. Output.line t o (texts.malformed_json reason raw))
  write_message (PeekedMessage.envelope e) false = write (envelope_lines t texts e)
  write_message (malformed raw reason) false = write (malformed_lines t texts raw reason)

  unfoldable pub write_each : List PeekedMessage → Bool → Admin S t (Unit {0})
  unfolding write_message
  write_each [] json = done
  write_each (m ∷ ms) json = do _ ← write_message m json; write_each ms json

  abbrev write_stage : List PeekedMessage → Bool → Admin S t (Unit {0})
  write_stage [] json = write (λ o. Output.line t o (codes ": no messages available."))
  write_stage (m ∷ ms) json = do _ ← write (λ o. Output.newlines t o 1); write_each (m ∷ ms) json

  unfoldable pub write_messages : Stage → List PeekedMessage → Bool → Admin S t (Unit {0})
  unfolding write_each stage_label
  write_messages stage ms json = do
    _ ← write (λ o. Output.warning t o (stage_label stage))
    write_stage ms json

  unfoldable pub peek_stages : ℕ → ℕ → Bool → Queue S → List Stage → Admin S t (Unit {0})
  unfolding write_messages stage_label Api.peek
  peek_stages first last json q [] = done
  peek_stages first last json q (stage ∷ stages) = do
    ms ← on_queue (codes "could not peek " ++ stage_label stage) (Api.peek q stage first last)
    _ ← write_messages stage ms json
    peek_stages first last json q stages

  -- `Peek::run`
  unfoldable pub peek :
      Opener S → ℕ → ℕ → Bool → Bool → Bool → Bool → QueueLane → Admin S t (Unit {0})
  unfolding selected_stages open_lane peek_stages
  peek opener first last json is_pending is_in_progress is_failed lane =
      let stages = selected_stages is_pending is_in_progress is_failed in
      unless_empty
        (codes "specify at least one stage to peek: --pending, --failed, or --in-progress") stages
        (open_lane t opener lane >>= λ q. peek_stages first last json q stages)
