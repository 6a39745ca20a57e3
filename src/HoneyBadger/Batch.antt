-- ===== src/HoneyBadger/Batch.antt =====
-- consensus/bft/honey_badger/batch.rs: what a node puts out for an epoch; and the plan, of mod.rs,
-- by which a new node joins after it.
pub mod Contents
pub mod PublicView
pub mod Views
mod Tests
use mina_os.Base.{
  ℕ, ◌+◌, ◌^◌, ◌≡◌, Bool, true, false, ◌&&◌, ◌==◌, Option, none, some, List, [], ◌∷◌, ◌++◌, length,
  ite,
}
use mina_os.Base.Word.{u64}
use mina_os.Base.BTreeMap.{BTreeMap}
use mina_os.HoneyBadger.Deps.{Deps, PubKeyMap, ChangeState, no_change, change_state_eq}
use mina_os.HoneyBadger.Votes.{values}
use mina_os.HoneyBadger.KeyGen.{KeyGens, Params}

-- `==` of a type with decidable equality.
abbrev pub same {ℓ} : {A : Type ℓ} → Discrete A → A → A → Bool
same e a b = ite (e a b) true false

module _ (d : Deps) (k : KeyGens d) where
  pub record JoinPlan : Type 0 where
    pub era : ℕ
    pub change : ChangeState d
    pub pub_keys : PubKeyMap d
    pub pub_key_set : k.PublicKeySet
    pub params : Params d k.Strategy

  unfoldable pub plan_next_epoch : JoinPlan → ℕ
  plan_next_epoch p = p.era

  -- `C` is the type of a node's contribution.
  module _ (C : Type 0) where
    pub record Batch : Type 0 where
      pub epoch : ℕ
      pub era : ℕ
      pub contributions : BTreeMap d.NodeId C
      pub change : ChangeState d
      pub pub_keys : PubKeyMap d
      pub netinfo : k.NetworkInfo
      pub params : Params d k.Strategy

    -- `if self.change == ChangeState::None`.
    unfoldable pub join_plan : Batch → Option JoinPlan
    join_plan b = ite (change_state_eq d b.change no_change) none (
        some (record {
          era = u64 (b.epoch + 1);
          change = b.change;
          pub_keys = b.pub_keys;
          pub_key_set = k.public_key_set b.netinfo;
          params = b.params;
        }))

    -- `flatten` and `flat_map`, over the contributions in the order of their nodes.
    unfoldable pub flatten : {T : Type 0} → (C → List T) → List C → List T
    flatten items [] = []
    flatten items (c ∷ cs) = items c ++ flatten items cs

    -- `into_iter` of a contribution, owned or borrowed.
    unfoldable pub iter : {T : Type 0} → (C → List T) → Batch → List T
    unfolding flatten
    iter into_iter b = flatten into_iter (values d b.contributions)

    unfoldable pub into_tx_iter : {T : Type 0} → (C → List T) → Batch → List T
    unfolding flatten
    into_tx_iter into_iter b = flatten into_iter (values d b.contributions)

    unfoldable pub sum_of : {T : Type 0} → (C → List T) → List C → ℕ
    sum_of as_ref [] = 0
    sum_of as_ref (c ∷ cs) = length (as_ref c) + sum_of as_ref cs

    -- `len`.  `as_ref` of a contribution is a slice.
    unfoldable pub total_len : {T : Type 0} → (C → List T) → Batch → ℕ
    unfolding sum_of
    total_len as_ref b = sum_of as_ref (values d b.contributions)

    unfoldable pub all_empty : {T : Type 0} → (C → List T) → List C → Bool
    all_empty as_ref [] = true
    all_empty as_ref (c ∷ cs) = (length (as_ref c) == 0) && all_empty as_ref cs

    unfoldable pub is_empty : {T : Type 0} → (C → List T) → Batch → Bool
    unfolding all_empty
    is_empty as_ref b = all_empty as_ref (values d b.contributions)

    module _ (contributions_eq : Discrete (BTreeMap d.NodeId C)) (keys_eq : Discrete (PubKeyMap d))
        (key_set_eq : Discrete k.PublicKeySet) (params_eq : Discrete (Params d k.Strategy)) where
      unfoldable pub public_eq : Batch → Batch → Bool
      public_eq a b =
          (a.epoch == b.epoch)
          && (a.era == b.era)
          && same contributions_eq a.contributions b.contributions
          && same (change_state_eq d) a.change b.change
          && same keys_eq a.pub_keys b.pub_keys
          && same key_set_eq (k.public_key_set a.netinfo) (k.public_key_set b.netinfo)
          && same params_eq a.params b.params
