-- ===== src/HoneyBadger/Builder.antt =====
-- builder.rs: the builder of a node.
pub mod First
mod Tests
use mina_os.Base.{ℕ, Option, none, some, List, [], ◌∷◌, ◌≡◌}
use mina_os.HoneyBadger.Deps.{Deps, PubKeyMap}
use mina_os.HoneyBadger.KeyGen.{KeyGens, Params, DynamicHoneyBadger}
use mina_os.HoneyBadger.Engine.{Engine}
use mina_os.HoneyBadger.Batch.{JoinPlan}
use mina_os.HoneyBadger.Dynamic.Output.{keys}
use mina_os.HoneyBadger.Dynamic.Joining
use mina_os.HoneyBadger.Dynamic.Joining.{new, Joined}

-- The random keys of the crate, `to_pub_keys`, and `Params::default`.  A call that draws random
-- numbers returns what is left of them.
pub record Keys (d : Deps) (k : KeyGens d) (C : Type 0) (e : Engine d k C) : Type 1 where
  pub SecretKeySet : Type 0
  pub random : ℕ → e.Rng → SecretKeySet × e.Rng
  pub public_keys : SecretKeySet → k.PublicKeySet
  pub secret_key_share : SecretKeySet → ℕ → k.SecretKeyShare
  pub gen : e.Rng → d.SecretKey × e.Rng
  pub to_pub_keys : List (d.NodeId × d.SecretKey) → PubKeyMap d
  pub keys-to_pub_keys :
      (n : d.NodeId) (sk : d.SecretKey) → keys (to_pub_keys ((n, sk) ∷ [])) ≡ n ∷ []
  pub default_params : Params d k.Strategy

module _ (d : Deps) (k : KeyGens d) (C : Type 0) (e : Engine d k C) (r : Keys d k C e) where
  open d use {NodeId, SecretKey}
  open e use {Rng}

  pub record DynamicHoneyBadgerBuilder : Type 0 where
    pub era : ℕ
    pub epoch : ℕ
    pub params : Params d k.Strategy

  unfoldable pub default : DynamicHoneyBadgerBuilder
  default = record { era = 0; epoch = 0; params = r.default_params }

  -- The setters, which return the builder.
  unfoldable pub era : ℕ → DynamicHoneyBadgerBuilder → DynamicHoneyBadgerBuilder
  era n b = record b { era = n }

  unfoldable pub epoch : ℕ → DynamicHoneyBadgerBuilder → DynamicHoneyBadgerBuilder
  epoch n b = record b { epoch = n }

  unfoldable pub max_future_epochs : ℕ → DynamicHoneyBadgerBuilder → DynamicHoneyBadgerBuilder
  max_future_epochs n b = record b { params = record b.params { max_future_epochs = n } }

  unfoldable pub subset_handling_strategy :
      k.Strategy → DynamicHoneyBadgerBuilder → DynamicHoneyBadgerBuilder
  subset_handling_strategy strategy b = record b {
    params = record b.params { subset_handling_strategy = strategy };
  }

  unfoldable pub encryption_schedule :
      d.EncryptionSchedule → DynamicHoneyBadgerBuilder → DynamicHoneyBadgerBuilder
  encryption_schedule schedule b = record b {
    params = record b.params { encryption_schedule = schedule };
  }

  unfoldable pub params :
      Params d k.Strategy → DynamicHoneyBadgerBuilder → DynamicHoneyBadgerBuilder
  params p b = record b { params = p }

  -- `none` is the panic of `new`.
  unfoldable pub build :
      k.NetworkInfo
      → SecretKey
      → PubKeyMap d
      → DynamicHoneyBadgerBuilder
      → Option (DynamicHoneyBadger d k)
  unfolding new
  build netinfo secret_key pub_keys b =
      new d k C e secret_key pub_keys netinfo b.params b.era b.epoch

  unfoldable pub build_first_node :
      NodeId → DynamicHoneyBadgerBuilder → Rng → Option (DynamicHoneyBadger d k) × Rng
  unfolding build
  build_first_node our_id b rng =
      let (sk_set, rng1) = r.random 0 rng in
      let pk_set = r.public_keys sk_set in
      let sks = r.secret_key_share sk_set 0 in
      let (sk, rng2) = r.gen rng1 in
      let pub_keys = r.to_pub_keys ((our_id, sk) ∷ []) in
      let netinfo = k.new_netinfo our_id (some sks) pk_set (our_id ∷ []) in
      (build netinfo sk pub_keys b, rng2)

  -- The builder is not used.
  unfoldable pub build_joining :
      NodeId → SecretKey → JoinPlan d k → DynamicHoneyBadgerBuilder → Rng → Joined d k C e
  unfolding Joining.new_joining
  build_joining our_id secret_key plan b rng =
      Joining.new_joining d k C e our_id secret_key plan rng
