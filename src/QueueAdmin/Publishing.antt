-- ===== src/QueueAdmin/Publishing.antt =====
-- `Publish` of inengine-core/src/queue_admin/messaging.rs. serde_json's reading and writing of an
-- object, the new id and the time are parameters.
use Prim.Native.String.{String}
use in_engine_net.Prelude.{
  ℕ, ◌==◌, Bool, Option, none, some, List, [], ◌∷◌, ◌++◌, Bytes, codes, Result, ok, err,
  if◌then◌else◌,
}
use mathlib.Core.Option
use in_engine_net.Error
use in_engine_net.Error.{CommandError, QueueError}
use in_engine_net.Output
use in_engine_net.Output.{Terminal}
use in_engine_net.Queue.Types.{QueueLane, lane_as_str}
use in_engine_net.Queue.Envelope.{Envelope}
use in_engine_net.Queue.Compression.{Codecs, new_envelope}
use in_engine_net.Queue.Api
use in_engine_net.QueueAdmin.Management.{Opener, Admin, ◌>>=◌, on_queue, write, open_lane}

pub record Publish : Type 0 where
  pub plugin_name : String
  pub command_name : String
  pub args : List Bytes
  pub json : Option Bytes
  pub max_retries : Option ℕ
  pub lane : QueueLane

-- serde_json on objects: whether a text is one, and the text of one with string values.
pub record Objects : Type 0 where
  pub from_str : Bytes → Result String (Unit {0})
  pub to_string : List (Bytes × Bytes) → Result String Bytes

-- `split_once`
unfoldable pub split_once : ℕ → Bytes → Option (Bytes × Bytes)
split_once byte [] = none
split_once byte (b ∷ bs) =
    let rest = split_once byte bs in
    if b == byte then some ([], bs) else Option.map (λ p. (b ∷ p.0, p.1)) rest

abbrev add_field : Option (Bytes × Bytes) → List (Bytes × Bytes) → List (Bytes × Bytes)
add_field none fields = fields
add_field (some field) fields = field ∷ fields

-- The arguments that have a `=`, in order.
unfoldable pub fields_of : List Bytes → List (Bytes × Bytes)
unfolding split_once
fields_of [] = []
fields_of (arg ∷ args) = add_field (split_once b'=' arg) (fields_of args)

abbrev given : Bytes → Result String (Unit {0}) → Result CommandError Bytes
given json (ok object) = ok json
given json (err e) = err (Error.failed (codes "the payload is not a JSON object"))

abbrev serialized : Result String Bytes → Result CommandError Bytes
serialized (ok text) = ok text
serialized (err e) = err (Error.failed (codes "could not serialize args"))

abbrev payload_of : Objects → Option Bytes → List Bytes → Result CommandError Bytes
payload_of objects none args = serialized (objects.to_string (fields_of args))
payload_of objects (some json) args = given json (objects.from_str json)

-- `Publish::payload`
unfoldable pub payload : Objects → Publish → Result CommandError Bytes
unfolding fields_of
payload objects request = payload_of objects request.json request.args

abbrev pub or_default : Option ℕ → ℕ → ℕ
or_default none n = n
or_default (some m) n = m

-- `queue.use_compression` and `queue.max_retries`
pub record PublishSettings : Type 0 where
  pub use_compression : Bool
  pub max_retries : ℕ

module _ {S : Type 0} (t : Terminal) (opener : Opener S) (codecs : Codecs) (objects : Objects)
    (string_text : String → Bytes) (settings : PublishSettings) (id now : ℕ) where
  abbrev created : Result QueueError Envelope → Result CommandError Envelope
  created (ok e) = ok e
  created (err e) = err (Error.failed (codes "could not create the envelope"))

  abbrev from_result : {A : Type 0} → Result CommandError A → Admin S t A
  from_result r st = (r, st)

  unfoldable pub publish_envelope : Publish → Envelope → Admin S t (Unit {0})
  unfolding open_lane lane_as_str Api.publish
  publish_envelope request e = do
    q ← open_lane t opener request.lane
    _ ← on_queue (codes "could not publish") (Api.publish q e)
    write (λ o. Output.info_line t o (
        codes "published "
        ++ string_text request.command_name
        ++ codes " from "
        ++ string_text request.plugin_name
        ++ codes " to the "
        ++ lane_as_str request.lane
        ++ codes " queue"))

  -- `Publish::run`
  unfoldable pub publish : Publish → Admin S t (Unit {0})
  unfolding payload new_envelope publish_envelope
  publish request = do
    json ← from_result (payload objects request)
    e ← from_result (
        created (
          new_envelope codecs id now request.command_name request.plugin_name json
            settings.use_compression (or_default request.max_retries settings.max_retries)))
    publish_envelope request e
