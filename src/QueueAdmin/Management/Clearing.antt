-- ===== src/QueueAdmin/Management/Clearing.antt =====
-- What `Clear` of inengine-core/src/queue_admin/management.rs does to the stages of a queue that
-- clears them one request at a time, and what it reports.
use in_engine_net.Prelude.{
  ℕ, ◌≡◌, ◌≢◌, refl, ap, ◌⊎◌, inl, inr, Bool, true, false, if◌then◌else◌, List, [], ◌∷◌, ◌++◌,
  Bytes, codes, Result, ok, err,
}
use mathlib.Core.Path.{subst}
use in_engine_net.Error
use in_engine_net.Error.{CommandError, QueueError}
use in_engine_net.Output
use in_engine_net.Output.{Terminal, Output}
use in_engine_net.Queue.Types.{QueueLane, Stage, pending, in_progress, failed, stage_label}
use in_engine_net.Queue.Spec
use in_engine_net.Queue.Spec.{Stages}
use in_engine_net.Queue.Api
use in_engine_net.Queue.Api.{Queue, open_queue}
use in_engine_net.QueueAdmin.Management.{
  Opener, Admin, selected_stages, removed_text, answered, clear_stages, open_lane, unless_empty,
  clear, go_on,
}

-- A request is answered as the three lists answer it, or fails, before or after it was done.
abbrev pub Answered :
    {S A : Type 0} → (S → Stages → Type 0) → A → Stages → Stages → Result QueueError A × S → Type 0
Answered Holds a q q' (ok b, s) = (b ≡ a) × Holds s q'
Answered Holds a q q' (err e, s) = Holds s q ⊎ Holds s q'

-- What the request asks of a queue.
abbrev pub ClearsStages : {S : Type 0} → (S → Stages → Type 0) → Queue S → Type 0
ClearsStages {S} Holds queue =
    (stage : Stage) (s : S) (q : Stages)
    → Holds s q
    → Answered Holds (Spec.stage_length stage q) q (Spec.clear stage q) (Api.clear queue stage s)

abbrev pub clear_all : List Stage → Stages → Stages
clear_all [] q = q
clear_all (stage ∷ rest) q = clear_all rest (Spec.clear stage q)

-- Whether a stage's flag was given, and the stages whose flag was, in the order of their lives.
abbrev flag_of : Bool → Bool → Bool → Stage → Bool
flag_of is_pending is_in_progress is_failed pending = is_pending
flag_of is_pending is_in_progress is_failed in_progress = is_in_progress
flag_of is_pending is_in_progress is_failed failed = is_failed

abbrev keep_stages : (Stage → Bool) → List Stage → List Stage
keep_stages keeps [] = []
keep_stages keeps (stage ∷ stages) =
    if keeps stage then stage ∷ keep_stages keeps stages else keep_stages keeps stages

abbrev pub flagged : Bool → Bool → Bool → List Stage
flagged is_pending is_in_progress is_failed =
    keep_stages (flag_of is_pending is_in_progress is_failed) (pending ∷ in_progress ∷ failed ∷ [])

selected_stages-flagged :
    (is_pending is_in_progress is_failed : Bool)
    → selected_stages is_pending is_in_progress is_failed
      ≡ flagged is_pending is_in_progress is_failed
unfolding selected_stages
selected_stages-flagged true true true = refl
selected_stages-flagged true true false = refl
selected_stages-flagged true false true = refl
selected_stages-flagged true false false = refl
selected_stages-flagged false true true = refl
selected_stages-flagged false true false = refl
selected_stages-flagged false false true = refl
selected_stages-flagged false false false = refl

module _ {S : Type 0} (t : Terminal) (Holds : S → Stages → Type 0) where
  -- A line for each stage, with the number of its messages.
  abbrev pub report_all : List Stage → Stages → Output t → Output t
  report_all [] q o = o
  report_all (stage ∷ rest) q o =
      report_all rest (Spec.clear stage q)
        (Output.info_line t o (removed_text stage (Spec.stage_length stage q)))

  -- A request that stopped at a stage: those before it are cleared and reported.
  abbrev pub StoppedAt : List Stage → Stages → Output t → CommandError → S × Output t → Type 0
  StoppedAt stages q o e (s, o') =
      (before : List Stage) × (stage : Stage) × (rest : List Stage) × (stages
        ≡ before ++ stage ∷ rest)
      × (e ≡ Error.failed (codes "could not clear " ++ stage_label stage))
      × (Holds s (clear_all before q) ⊎ Holds s (clear_all (before ++ stage ∷ []) q))
      × (o' ≡ report_all before q o)

  abbrev pub ClearedAll :
      List Stage → Stages → Output t → Result CommandError (Unit {0}) × (S × Output t) → Type 0
  ClearedAll stages q o (ok done, (s, o')) =
      Holds s (clear_all stages q) × (o' ≡ report_all stages q o)
  ClearedAll stages q o (err e, st) = StoppedAt stages q o e st

  after_first :
      (stage : Stage) (stages : List Stage) (q : Stages) (o : Output t)
      (r : Result CommandError (Unit {0}) × (S × Output t))
      → ClearedAll stages
          (Spec.clear stage q)
          (Output.info_line t o (removed_text stage (Spec.stage_length stage q)))
          r
      → ClearedAll (stage ∷ stages) q o r
  after_first stage stages q o (ok done, (s, o')) h = h
  after_first stage stages q o (err e, (s, o')) (before, at, rest, split, text, held, wrote) =
      (stage ∷ before, at, rest, ap (◌∷◌ stage) split, text, held, wrote)

  -- The first stage of a list, cleared or not.
  cleared_stage :
      (opener : Opener S) (queue : Queue S) (stage : Stage) (stages : List Stage) (q : Stages)
      (o : Output t) (r : Result QueueError ℕ × S)
      → Answered Holds (Spec.stage_length stage q) q (Spec.clear stage q) r
      → ((s : S) (o : Output t)
          → Holds s (Spec.clear stage q)
          → ClearedAll stages (Spec.clear stage q) o (clear_stages t opener queue stages (s, o)))
      → ClearedAll (stage ∷ stages) q o (
          go_on (answered (codes "could not clear " ++ stage_label stage) o r) (λ removed st.
            clear_stages t opener queue stages
              (st.0, Output.info_line t st.1 (removed_text stage removed))))
  cleared_stage opener queue stage stages q o (ok n, s) h rest = after_first stage stages q o _ (
      rw (h.0) (rest s (Output.info_line t o (removed_text stage (Spec.stage_length stage q))) h.1))
  cleared_stage opener queue stage stages q o (err e, s) h rest =
      ([], stage, stages, refl, refl, h, refl)

  clear_stages-ClearedAll :
      (opener : Opener S) (queue : Queue S)
      → ClearsStages Holds queue
      → (stages : List Stage) (s : S) (q : Stages) (o : Output t) → Holds s q
      → ClearedAll stages q o (clear_stages t opener queue stages (s, o))
  unfolding clear_stages
  clear_stages-ClearedAll opener queue clears [] s q o h = (h, refl)
  clear_stages-ClearedAll opener queue clears (stage ∷ stages) s q o h =
      cleared_stage opener queue stage stages q o (Api.clear queue stage s) (clears stage s q h)
        (λ s' o' h'.
          clear_stages-ClearedAll opener queue clears stages s' (Spec.clear stage q) o' h')

  -- What the request asks of the opening of a lane's queue.
  abbrev pub Opens : Stages → Result QueueError (Queue S) × S → Type 0
  Opens q (ok queue, s) = ClearsStages Holds queue × Holds s q
  Opens q (err e, s) = Holds s q

  -- The request cleared its stages, of which there is one at least, or it changed and wrote
  -- nothing, or it stopped at a stage.
  abbrev pub Cleared :
      List Stage → Stages → Output t → Result CommandError (Unit {0}) × (S × Output t) → Type 0
  Cleared stages q o (ok done, (s, o')) =
      (stages ≢ []) × Holds s (clear_all stages q) × (o' ≡ report_all stages q o)
  Cleared stages q o (err e, (s, o')) = (Holds s q × (o' ≡ o)) ⊎ StoppedAt stages q o e (s, o')

  ClearedAll-Cleared :
      (stages : List Stage) (q : Stages) (o : Output t)
      (r : Result CommandError (Unit {0}) × (S × Output t))
      → stages ≢ []
      → ClearedAll stages q o r
      → Cleared stages q o r
  ClearedAll-Cleared stages q o (ok done, (s, o')) n h = (n, h.0, h.1)
  ClearedAll-Cleared stages q o (err e, (s, o')) n h = inr h

  opened_clears :
      (opener : Opener S) (context : Bytes) (stages : List Stage) (q : Stages) (o : Output t)
      (r : Result QueueError (Queue S) × S)
      → stages ≢ []
      → Opens q r
      → Cleared stages q o
          (go_on (answered context o r) (λ queue. clear_stages t opener queue stages))
  opened_clears opener context stages q o (ok queue, s) n h =
      ClearedAll-Cleared stages q o _ n (clear_stages-ClearedAll opener queue h.0 stages s q o h.1)
  opened_clears opener context stages q o (err e, s) n h = inl (h, refl)

  selected :
      (text : Bytes) (stages : List Stage) (request : Admin S t (Unit {0})) (s : S) (q : Stages)
      (o : Output t)
      → Holds s q
      → (stages ≢ [] → Cleared stages q o (request (s, o)))
      → Cleared stages q o (unless_empty text stages request (s, o))
  selected text [] request s q o h run = inl (h, refl)
  selected text (stage ∷ stages) request s q o h run = run (λ e. cc)

  -- On a queue that clears its stages as the three lists do, or fails, `Clear` with any flags
  -- succeeds only when a stage's flag is given, and has then cleared the flagged stages, pending
  -- first and failed last, and no other, and written the number of messages of each. When it fails,
  -- it has changed and written nothing, or it names the stage at which it stopped, cleared or not;
  -- those before it are cleared and reported, and no later one is cleared.
  pub clear_lem :
      (opener : Opener S) (is_pending is_in_progress is_failed : Bool) (lane : QueueLane) (s : S)
      (q : Stages) (o : Output t)
      → Holds s q
      → Opens q (open_queue opener.queue_driver (opener.open_file lane) (opener.open_redis lane) s)
      → Cleared
          (flagged is_pending is_in_progress is_failed)
          q
          o
          (clear t opener is_pending is_in_progress is_failed lane (s, o))
  unfolding clear open_lane
  clear_lem opener is_pending is_in_progress is_failed lane s q o h opens =
      subst
        (λ stages.
          Cleared stages q o (clear t opener is_pending is_in_progress is_failed lane (s, o)))
        (selected_stages-flagged is_pending is_in_progress is_failed)
        (selected _ (selected_stages is_pending is_in_progress is_failed) _ s q o h (λ n.
          opened_clears opener _ (selected_stages is_pending is_in_progress is_failed) q o
            (open_queue opener.queue_driver (opener.open_file lane) (opener.open_redis lane) s) n
            opens))
