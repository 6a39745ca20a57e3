-- ===== src/HoneyBadger/Dynamic/Views.antt =====
-- dynamic_honey_badger.rs: what a node shows of itself.
use mina_os.Base.{ℕ, Bool, false, List, [], ◌∷◌, ◌++◌}
use mina_os.HoneyBadger.Deps.{Deps, PubKeyMap}
use mina_os.HoneyBadger.Votes.{SignedVote}
use mina_os.HoneyBadger.KeyGen.{KeyGens, KeyGenState, DynamicHoneyBadger}
use mina_os.HoneyBadger.Engine.{Engine}

module _ (d : Deps) (k : KeyGens d) (C : Type 0) (e : Engine d k C) where
  unfoldable pub has_input : DynamicHoneyBadger d k → Bool
  has_input s = e.has_input s.honey_badger

  unfoldable pub secret_key : DynamicHoneyBadger d k → d.SecretKey
  secret_key s = s.secret_key

  unfoldable pub public_key : DynamicHoneyBadger d k → PubKeyMap d
  public_key s = s.pub_keys

  unfoldable pub netinfo : DynamicHoneyBadger d k → k.NetworkInfo
  netinfo s = k.netinfo s.honey_badger

  unfoldable pub honey_badger : DynamicHoneyBadger d k → k.HoneyBadger
  honey_badger s = s.honey_badger

  unfoldable pub max_future_epochs : DynamicHoneyBadger d k → ℕ
  max_future_epochs s = s.max_future_epochs

  -- A node never ends by itself.
  unfoldable pub terminated : DynamicHoneyBadger d k → Bool
  terminated s = false

  unfoldable pub our_id : DynamicHoneyBadger d k → d.NodeId
  unfolding netinfo
  our_id s = k.our_id (netinfo s)

  -- `fmt`, by the text of a node's name and of a number.
  module _ (debug : d.NodeId → List ℕ) (display : ℕ → List ℕ) where
    abbrev dhb_era : List ℕ
    dhb_era = 32 ∷ 68 ∷ 72 ∷ 66 ∷ 40 ∷ 101 ∷ 114 ∷ 97 ∷ 58 ∷ 32 ∷ []

    unfoldable pub fmt : DynamicHoneyBadger d k → List ℕ
    unfolding our_id
    fmt s = debug (our_id s) ++ dhb_era ++ display s.era ++ (41 ∷ [])

  -- mod.rs: `KeyGenState::public_keys`.
  unfoldable pub key_gen_public_keys : KeyGenState d k → PubKeyMap d
  key_gen_public_keys s = k.public_keys s.key_gen

  -- votes.rs: `SignedVote::era` and `SignedVote::voter`.
  unfoldable pub signed_vote_era : SignedVote d → ℕ
  signed_vote_era sv = sv.vote.era

  unfoldable pub signed_vote_voter : SignedVote d → d.NodeId
  signed_vote_voter sv = sv.voter
