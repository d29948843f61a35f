-- ===== src/FileQueue/Fifo/Requests.antt =====
-- Sequences of the requests that move messages on in the file queue of
-- inengine-core/src/queue/driver/file/store.rs: publish, claim and republish.
use Prim.Native.String.{String}
use mathlib.Core.Path.{subst}
use in_engine_net.Prelude.{
  length, take, ℕ, ◌≡◌, refl, Option, List, [], ◌∷◌, Bytes, Result, ok, err,
}
use in_engine_net.Error.{QueueError}
use in_engine_net.Queue.Types.{QueueLane}
use in_engine_net.Queue.Envelope.{Envelope, Json}
use in_engine_net.Queue.Delivery.{Delivery}
use in_engine_net.Queue.Spec
use in_engine_net.Queue.Spec.{Stages}
use in_engine_net.FileQueue.Disk.{World}
use in_engine_net.FileQueue.Prog.{run}
use in_engine_net.FileQueue.Store
use in_engine_net.FileQueue.Bulk
use in_engine_net.FileQueue.Claim.{claim_oldest}
use in_engine_net.FileQueue.Fifo.{stages, IsNaming, InOrder}
use in_engine_net.FileQueue.Fifo.Claiming.{Claims, claim_oldest_lem}
use in_engine_net.FileQueue.Fifo.Publishing.{Publishes, publish_lem}
use in_engine_net.FileQueue.Fifo.Republishing.{Republishes, republish_failed_lem}

pub data Request : Type 0 where
  publish : Envelope → Request
  claim : Request
  republish : ℕ → Request

abbrev published : Result String Bytes → Stages → Stages
published (ok text) q = Spec.publish text q
published (err x) q = q

-- The stages of a disk, and that it is in order.
abbrev pub Holds : (ℕ → Bytes) → Stages → World → Type 0
Holds name_of q w = (stages w ≡ q) × InOrder name_of w

module _ (name_of : ℕ → Bytes) (json : Json) (lane : QueueLane) where
  -- Each request of a list is answered as the three lists answer it, whatever came before, and the
  -- disk holds them at the end.
  unfoldable pub Performed : List Request → Stages → World → Type 0
  Performed [] q w = Holds name_of q w
  Performed (publish e ∷ rs) q w =
      let r = run name_of (Store.publish json e) w in
      Publishes name_of q w (json.to_vec_pretty e) r
      × Performed rs (published (json.to_vec_pretty e) q) r.1
  Performed (claim ∷ rs) q w =
      let r = run name_of (claim_oldest json lane) w in
      let c = Spec.claim json.from_slice q in Claims name_of lane c r × Performed rs c.1 r.1
  Performed (republish limit ∷ rs) q w =
      let r = run name_of (Bulk.republish_failed limit) w in
      Republishes name_of (Spec.republish limit q) (length (take limit q.failed)) r
      × Performed rs (Spec.republish limit q) r.1

module _ (name_of : ℕ → Bytes) (json : Json) (lane : QueueLane) where
  Claims-Holds :
      (c : Option (Bytes × Envelope) × Stages) (r : Result QueueError (Option Delivery) × World)
      → Claims name_of lane c r
      → Holds name_of c.1 r.1
  Claims-Holds (o, q) (err e, w) h = absurd h
  Claims-Holds (o, q) (ok d, w) h = (h.1, h.2)

  Publishes-Holds :
      (w : World) (s : Result String Bytes) (r : Result QueueError (Unit {0}) × World)
      → InOrder name_of w
      → Publishes name_of (stages w) w s r
      → Holds name_of (published s (stages w)) r.1
  Publishes-Holds w (ok text) r i h = (h.1, h.2)
  Publishes-Holds w (err x) r i h = rw h (refl, i)

module _ (name_of : ℕ → Bytes) (naming : IsNaming name_of) (json : Json) (lane : QueueLane) where
  next :
      (rs : List Request) (q : Stages) (w : World)
      → Holds name_of q w
      → ((w : World) → InOrder name_of w → Performed name_of json lane rs (stages w) w)
      → Performed name_of json lane rs q w
  next rs q w h rest = subst (λ x. Performed name_of json lane rs x w) h.0 (rest w h.1)

  -- From an undisturbed disk in order, in any sequence of publishes, claims and republishes of the
  -- file queue each is answered as by the three lists: a publish that serializes adds its message
  -- as the newest, and another changes nothing; a claim delivers the oldest message that can be
  -- read; a republish counts the messages that it moves. The disk holds the lists after each, in
  -- order.
  pub Performed-all :
      (rs : List Request) (w : World)
      → InOrder name_of w
      → Performed name_of json lane rs (stages w) w
  unfolding Performed
  Performed-all [] w h = (refl, h)
  Performed-all (publish e ∷ rs) w h =
      let p = publish_lem name_of naming json e w h in
      (
        p,
        next rs _ _ (Publishes-Holds name_of json lane w (json.to_vec_pretty e) _ h p)
            (Performed-all rs),
      )
  Performed-all (claim ∷ rs) w h =
      let c = claim_oldest_lem name_of naming json lane w h in
      (
        c,
        next rs _ _ (Claims-Holds name_of json lane (Spec.claim json.from_slice (stages w)) _ c)
            (Performed-all rs),
      )
  Performed-all (republish limit ∷ rs) w h =
      let r = republish_failed_lem name_of naming limit w h in
      (r, next rs _ _ (r.1, r.2) (Performed-all rs))
