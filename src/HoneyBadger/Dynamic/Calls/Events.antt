-- ===== src/HoneyBadger/Dynamic/Calls/Events.antt =====
-- dynamic_honey_badger.rs: a history of calls, what Honey Badger gives in it, and what it shows.
use Prim.Native.Nat.{compare, Ordering}
use mina_os.Base.{◌≡◌, refl, not, List, [], ◌∷◌, ◌++◌, if◌then◌else◌}
use mina_os.HoneyBadger.Deps.{Deps, Except, ok, err, Error}
use mina_os.HoneyBadger.KeyGen.{KeyGens, Message, honey_badger, message_era}
use mina_os.HoneyBadger.Batch.PublicView.{PublicView}
use mina_os.HoneyBadger.Engine.{Engine, HbBatch, InternalContrib}
use mina_os.HoneyBadger.Exec.{pure, follow, ◌>>=◌}
use mina_os.HoneyBadger.Dynamic.{World, Method}
use mina_os.HoneyBadger.Dynamic.Output.{process_batch, process_batches}
use mina_os.HoneyBadger.Dynamic.Output.AlikeSteps.{views}
use mina_os.HoneyBadger.Dynamic.Calls.{
  Input, user, change, run_propose, handle_input, run_message, handle_message,
}

-- What Honey Badger promises: a proposal or a message leaves its network and its parameters.
pub record Steady (d : Deps) (k : KeyGens d) (C : Type 0) (e : Engine d k C) : Type 0 where
  pub propose_netinfo :
      (b : k.HoneyBadger) (c : InternalContrib d k C) (r : e.Rng)
      → k.netinfo (e.hb_propose b c r).1 ≡ k.netinfo b
  pub propose_params :
      (b : k.HoneyBadger) (c : InternalContrib d k C) (r : e.Rng)
      → k.params (e.hb_propose b c r).1 ≡ k.params b
  pub message_netinfo :
      (b : k.HoneyBadger) (n : d.NodeId) (m : k.HbMessage)
      → k.netinfo (e.hb_handle_message b n m).1 ≡ k.netinfo b
  pub message_params :
      (b : k.HoneyBadger) (n : d.NodeId) (m : k.HbMessage)
      → k.params (e.hb_handle_message b n m).1 ≡ k.params b

module _ (d : Deps) (k : KeyGens d) (C : Type 0) (e : Engine d k C) where
  open e use {Step, HbStep}

  abbrev Failure : Type 0
  Failure = Error d.SerializeError d.HbError d.KeyGenError

  -- A call from outside.
  pub data Event : Type 0 where
    input : Input d k C e → Event
    message : d.NodeId → Message d k → Event

  abbrev pub perform : Event → Method d k C e Step
  perform (input i) = handle_input d k C e i
  perform (message sender m) = handle_message d k C e sender m

  -- The public views of the batches that a call returns.
  abbrev pub shown : Except Failure Step → List (PublicView d k C)
  shown (ok step) = views d k C e step
  shown (err x) = []

  abbrev pub shown_by : List Event → World d k C e → List (PublicView d k C)
  shown_by [] w = []
  shown_by (ev ∷ evs) w = shown (perform ev w).0 ++ shown_by evs (perform ev w).1

  -- The batches that Honey Badger gives within a call.
  abbrev pub given : Except Failure HbStep → List (HbBatch d k C)
  given (ok hb_step) = e.hb_output hb_step
  given (err x) = []

  abbrev pub agreed_at : Ordering → d.NodeId → Message d k → World d k C e → List (HbBatch d k C)
  agreed_at Ordering.eq sender (honey_badger era m) w =
      if not (e.is_node_validator (k.netinfo w.node.honey_badger) sender)
      then []
      else given (run_message d k C e sender m w).0
  agreed_at o sender m w = []

  abbrev pub agreed : Event → World d k C e → List (HbBatch d k C)
  agreed (input (user c)) w = given (run_propose d k C e c w).0
  agreed (input (change c)) w = []
  agreed (message sender m) w = agreed_at (compare (message_era d k m) w.node.era) sender m w

  abbrev pub agreed_by : List Event → World d k C e → List (HbBatch d k C)
  agreed_by [] w = []
  agreed_by (ev ∷ evs) w = agreed ev w ++ agreed_by evs (perform ev w).1

  abbrev pub end_of : List Event → World d k C e → World d k C e
  end_of [] w = w
  end_of (ev ∷ evs) w = end_of evs (perform ev w).1

  -- The rest `ys` may be left to the end.
  after_both :
      (xs ys : List (HbBatch d k C)) (r : Except Failure Step) (v : World d k C e)
      → ((s : Step) (v : World d k C e)
          → process_batches d k C e s (xs ++ ys) v
            ≡ follow
                (process_batches d k C e s xs v).0
                (λ s. process_batches d k C e s ys)
                (process_batches d k C e s xs v).1)
      → follow r (λ s. process_batches d k C e s (xs ++ ys)) v
        ≡ follow
            (follow r (λ s. process_batches d k C e s xs) v).0
            (λ s. process_batches d k C e s ys)
            (follow r (λ s. process_batches d k C e s xs) v).1
  unfolding follow
  after_both xs ys (ok s) v h = h s v
  after_both xs ys (err x) v h = refl

  pub process_batches-append :
      (step : Step) (xs ys : List (HbBatch d k C)) (w : World d k C e)
      → process_batches d k C e step (xs ++ ys) w
        ≡ follow
            (process_batches d k C e step xs w).0
            (λ s. process_batches d k C e s ys)
            (process_batches d k C e step xs w).1
  unfolding process_batches pure ◌>>=◌ follow
  process_batches-append step [] ys w = refl
  process_batches-append step (x ∷ xs) ys w =
      after_both xs ys (process_batch d k C e step x w).0 (process_batch d k C e step x w).1
        (λ s v. process_batches-append s xs ys v)
