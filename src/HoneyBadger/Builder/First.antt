-- ===== src/HoneyBadger/Builder/First.antt =====
-- builder.rs: the first node of a network.
use mina_os.Base.{ℕ, none, some, [], ◌∷◌, ◌≡◌, ◌∙◌, sym, refl, if_pos}
use mina_os.HoneyBadger.Deps.{Deps}
use mina_os.HoneyBadger.KeyGen.{KeyGens, Params, DynamicHoneyBadger}
use mina_os.HoneyBadger.Engine.{Engine}
use mina_os.HoneyBadger.Dynamic.Output.{keys}
use mina_os.HoneyBadger.Dynamic.Joining.{new, ids_eq}
use mina_os.HoneyBadger.Builder.{
  Keys, default, era, epoch, max_future_epochs, subset_handling_strategy, encryption_schedule,
  build, build_first_node,
}

module _ (d : Deps) (k : KeyGens d) (C : Type 0) (e : Engine d k C) (r : Keys d k C e) where
  -- The one node of a network, as it was asked for.
  pub record IsFirst (id : d.NodeId) (n m : ℕ) (p : Params d k.Strategy)
      (s : DynamicHoneyBadger d k) : Type 0 where
    pub era : s.era ≡ n
    pub counter_era : s.vote_counter.era ≡ n
    pub counter_id : s.vote_counter.our_id ≡ id
    pub same_key : s.vote_counter.secret_key ≡ s.secret_key
    pub keys : keys s.pub_keys ≡ id ∷ []
    pub public_key : s.pub_keys ≡ r.to_pub_keys ((id, s.secret_key) ∷ [])
    pub counter_keys : s.vote_counter.pub_keys ≡ s.pub_keys
    pub max_future_epochs : s.max_future_epochs ≡ p.max_future_epochs
    pub honey_badger :
        (netinfo : k.NetworkInfo) × (set : r.SecretKeySet) × (s.honey_badger
          ≡ k.build netinfo n p m)
        × (netinfo
            ≡ k.new_netinfo id (some (r.secret_key_share set 0)) (r.public_keys set) (id ∷ []))
        × (k.our_id netinfo ≡ id)
        × (k.all_ids netinfo ≡ id ∷ [])
    pub idle : s.key_gen_state ≡ none
    pub empty : s.key_gen_msg_buffer ≡ []

  -- A builder whose era, epoch and parameters have been set builds a first node, without a panic,
  -- that is the only one of its network: of that era, with those parameters, with its own id and the
  -- public key of its secret key alone, in a network of the public keys of one set of which it has the
  -- first share, with no key generation, and with no message buffered.
  pub build_first_node-IsFirst :
      (id : d.NodeId) (n m future : ℕ) (strategy : k.Strategy) (schedule : d.EncryptionSchedule)
      (rng : e.Rng)
      → let b = era d k C e r n (
          epoch d k C e r m (
            max_future_epochs d k C e r future (
              subset_handling_strategy d k C e r strategy
                (encryption_schedule d k C e r schedule (default d k C e r))))) in
        (s : DynamicHoneyBadger d k) × ((build_first_node d k C e r id b rng).0 ≡ some s)
        × IsFirst id n m
            (record {
              max_future_epochs = future;
              subset_handling_strategy = strategy;
              encryption_schedule = schedule;
            })
            s
  unfolding build_first_node build new era epoch max_future_epochs subset_handling_strategy
      encryption_schedule default mina_os.HoneyBadger.Votes.new
  build_first_node-IsFirst id n m future strategy schedule rng =
      let sk_set = (r.random 0 rng).0 in
      let sk = (r.gen (r.random 0 rng).1).0 in
      let pks = r.to_pub_keys ((id, sk) ∷ []) in
      let netinfo =
        k.new_netinfo id (some (r.secret_key_share sk_set 0)) (r.public_keys sk_set) (id ∷ []) in
      let our_id =
        k.our_id-new_netinfo id (some (r.secret_key_share sk_set 0)) (r.public_keys sk_set)
          (id ∷ []) in
      let all_ids =
        k.all_ids-new_netinfo id (some (r.secret_key_share sk_set 0)) (r.public_keys sk_set)
          (id ∷ []) in
      let ids = all_ids ∙ sym (r.keys-to_pub_keys id sk) in
      (
        _,
        if_pos (ids_eq d k C e (k.all_ids netinfo) (keys pks)) ids _ _,
        record {
          era = refl;
          counter_era = refl;
          counter_id = our_id;
          same_key = refl;
          keys = r.keys-to_pub_keys id sk;
          public_key = refl;
          counter_keys = refl;
          max_future_epochs = refl;
          honey_badger = (netinfo, sk_set, refl, refl, our_id, all_ids);
          idle = refl;
          empty = refl;
        },
      )
