-- ===== src/HoneyBadger/Batch/PublicView.antt =====
-- batch.rs: `public_eq` compares what every node of a batch sees.
use mina_os.Base.{ℕ, ◌≡◌, ◌↔◌, refl, ap, Bool, true, false, ◌&&◌, ite, arith}
use mina_os.Base.BTreeMap.{BTreeMap}
use mina_os.HoneyBadger.Deps.{Deps, PubKeyMap, ChangeState, change_state_eq}
use mina_os.HoneyBadger.KeyGen.{KeyGens, Params}
use mina_os.HoneyBadger.Batch.{Batch, same, public_eq}

pub same_iff {ℓ} : {A : Type ℓ} (e : Discrete A) (a b : A) → (same e a b ≡ true) ↔ (a ≡ b)
same_iff e a b = elim (e a b) as (λ r. (ite r true false ≡ true) ↔ (a ≡ b)) [
  | yes p ↦ (λ _. p, λ _. refl)
  | no n ↦ (λ q. cc, λ q. absurd (n q))
]

module _ (d : Deps) (k : KeyGens d) (C : Type 0) where
  -- A batch without the part of its network information that is the node's own.
  pub record PublicView : Type 0 where
    pub epoch : ℕ
    pub era : ℕ
    pub contributions : BTreeMap d.NodeId C
    pub change : ChangeState d
    pub pub_keys : PubKeyMap d
    pub public_key_set : k.PublicKeySet
    pub params : Params d k.Strategy

  unfoldable pub view : Batch d k C → PublicView
  view b = record {
    epoch = b.epoch;
    era = b.era;
    contributions = b.contributions;
    change = b.change;
    pub_keys = b.pub_keys;
    public_key_set = k.public_key_set b.netinfo;
    params = b.params;
  }

  and_iff :
      {P Q : Type 0} (a b : Bool) → (a ≡ true) ↔ P → (b ≡ true) ↔ Q → ((a && b) ≡ true) ↔ (P × Q)
  and_iff true b p q = (λ e. (p.0 refl, q.0 e), λ h. q.1 h.1)
  and_iff false b p q = (λ e. cc, λ h. p.1 h.0)

  module _ (contributions_eq : Discrete (BTreeMap d.NodeId C)) (keys_eq : Discrete (PubKeyMap d))
      (key_set_eq : Discrete k.PublicKeySet) (params_eq : Discrete (Params d k.Strategy)) where
    -- `public_eq` holds exactly if the two batches have the same public view.
    pub public_eq_iff :
        (a b : Batch d k C)
        → (public_eq d k C contributions_eq keys_eq key_set_eq params_eq a b ≡ true)
          ↔ (view a ≡ view b)
    unfolding public_eq view
    public_eq_iff a b = (
      λ e. ground (
        arith,
        same_iff contributions_eq a.contributions b.contributions,
        same_iff (change_state_eq d) a.change b.change,
        same_iff keys_eq a.pub_keys b.pub_keys,
        same_iff key_set_eq (k.public_key_set a.netinfo) (k.public_key_set b.netinfo),
        same_iff params_eq a.params b.params,
      ),
      λ e. ground (
        arith,
        ap (λ (v : PublicView). v.epoch) e,
        ap (λ (v : PublicView). v.era) e,
        ap (λ (v : PublicView). v.contributions) e,
        ap (λ (v : PublicView). v.change) e,
        ap (λ (v : PublicView). v.pub_keys) e,
        ap (λ (v : PublicView). v.public_key_set) e,
        ap (λ (v : PublicView). v.params) e,
        same_iff contributions_eq a.contributions b.contributions,
        same_iff (change_state_eq d) a.change b.change,
        same_iff keys_eq a.pub_keys b.pub_keys,
        same_iff key_set_eq (k.public_key_set a.netinfo) (k.public_key_set b.netinfo),
        same_iff params_eq a.params b.params,
      ),
    )
