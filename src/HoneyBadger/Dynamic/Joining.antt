-- ===== src/HoneyBadger/Dynamic/Joining.antt =====
-- dynamic_honey_badger.rs: a new node, and a node that joins a running network by a plan.
pub mod Agreement
mod Tests
use mina_os.Base.{ℕ, Bool, true, false, not, Option, none, some, List, [], ◌∷◌, if◌then◌else◌, ite}
use mina_os.HoneyBadger.Deps.{
  Deps, Except, ok, err, Error, PubKeyMap, Change, ChangeState, no_change, in_progress, complete,
  node_change, encryption_schedule, change_eq, invalid_join_plan,
}
use mina_os.HoneyBadger.Votes
use mina_os.HoneyBadger.KeyGen.{KeyGens, Params, DynamicHoneyBadger}
use mina_os.HoneyBadger.Batch.{JoinPlan}
use mina_os.HoneyBadger.Engine.{Engine}
use mina_os.HoneyBadger.Exec.{pure}
use mina_os.HoneyBadger.Dynamic.{World, Method, update_key_gen}
use mina_os.HoneyBadger.Dynamic.Output.{keys}

module _ (d : Deps) (k : KeyGens d) (C : Type 0) (e : Engine d k C) where
  open d use {NodeId}
  open e use {Step, Rng}

  unfoldable pub ids_eq : Discrete (List NodeId)
  ids_eq = hlevel d.node_ord.decide_eq

  -- `assert!(netinfo.all_ids().eq(pub_keys.keys()))`: `none` is the panic.
  unfoldable pub new :
      d.SecretKey
      → PubKeyMap d
      → k.NetworkInfo
      → Params d k.Strategy
      → ℕ
      → ℕ
      → Option (DynamicHoneyBadger d k)
  new secret_key pub_keys netinfo params era epoch =
      ite (ids_eq (k.all_ids netinfo) (keys pub_keys))
        (some (record {
          secret_key = secret_key;
          pub_keys = pub_keys;
          max_future_epochs = params.max_future_epochs;
          era = era;
          vote_counter = Votes.new d (k.our_id netinfo) secret_key pub_keys era;
          key_gen_msg_buffer = [];
          honey_badger = k.build netinfo era params epoch;
          key_gen_state = none;
        }))
        none

  -- A change that is complete has to be the plan's own schedule, or its keys.
  unfoldable pub completed : Change d → JoinPlan d k → Bool
  completed (encryption_schedule schedule) plan =
      ite (d.schedule_eq schedule plan.params.encryption_schedule) true false
  completed (node_change pub_keys) plan =
      ite (change_eq d (node_change pub_keys) (node_change plan.pub_keys)) true false

  -- The keys of the key generation that the node has to start.
  unfoldable pub new_pub_keys :
      ChangeState d
      → JoinPlan d k
      → Except (Error d.SerializeError d.HbError d.KeyGenError) (Option (PubKeyMap d))
  unfolding completed
  new_pub_keys no_change plan = ok none
  new_pub_keys (in_progress (encryption_schedule schedule)) plan = ok none
  new_pub_keys (in_progress (node_change pub_keys)) plan = ok (some pub_keys)
  new_pub_keys (complete change) plan =
      if not (completed change plan) then err invalid_join_plan else ok none

  unfoldable pub start_key_gen : ℕ → Option (PubKeyMap d) → Method d k C e Step
  unfolding update_key_gen
  start_key_gen era none = pure e.default
  start_key_gen era (some pub_keys) = update_key_gen d k C e era pub_keys

  -- An error, a panic in `new`, or the outcome of the first step with the node after it.
  pub data Joined : Type 0 where
    refused : Error d.SerializeError d.HbError d.KeyGenError → Joined
    panicked : Joined
    joined : Except (Error d.SerializeError d.HbError d.KeyGenError) Step → World d k C e → Joined

  unfoldable pub launch : ℕ → Option (PubKeyMap d) → Option (DynamicHoneyBadger d k) → Rng → Joined
  unfolding start_key_gen
  launch era keys none rng = panicked
  launch era keys (some node) rng =
      let (r, w) = start_key_gen era keys (record { node = node; rng = rng }) in joined r w

  unfoldable pub new_joining : NodeId → d.SecretKey → JoinPlan d k → Rng → Joined
  unfolding new new_pub_keys launch
  new_joining our_id secret_key plan rng =
      let netinfo = k.new_netinfo our_id none plan.pub_key_set (keys plan.pub_keys) in
      elim (new_pub_keys plan.change plan) [
        | err error ↦ refused error
        | ok new_keys ↦
            launch plan.era new_keys (new secret_key plan.pub_keys netinfo plan.params plan.era 0)
              rng
      ]
