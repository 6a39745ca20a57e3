-- ===== src/HoneyBadger/Dynamic/Calls/Replies.antt =====
-- dynamic_honey_badger.rs: when a node is to propose.
use mina_os.Base.{
  ◌≡◌, ◌↔◌, ◌⊎◌, refl, true, false, List, [], ◌∷◌, arith, ◌≤◌, ◌≢◌, All, if_pos, if_neg,
}
use mina_os.HoneyBadger.Deps.{Deps}
use mina_os.HoneyBadger.Votes.{SignedVote, pending_votes}
use mina_os.HoneyBadger.KeyGen.{KeyGens, DynamicHoneyBadger, SignedKeyGenMsg}
use mina_os.HoneyBadger.Engine.{Engine}
use mina_os.HoneyBadger.Dynamic.Calls.{any_of, should_propose}

module _ (d : Deps) (k : KeyGens d) (C : Type 0) (e : Engine d k C) where
  any_of_lem :
      (n : d.NodeId) (svs : List (SignedVote d))
      → (any_of d k C e n svs ≡ false) ↔ All (λ (sv : SignedVote d). sv.voter ≢ n) svs
  any_of_lem n [] = (λ q. tt, λ h. refl)
  any_of_lem n (sv ∷ svs) = elim (d.node_ord.decide_eq sv.voter n) [
    | yes p ↦ rw (if_pos (d.node_ord.decide_eq sv.voter n) p) (λ q. cc, λ h. absurd (h.0 p))
    | no p ↦
        let rest = any_of_lem n svs in
        rw (if_neg (d.node_ord.decide_eq sv.voter n) p) (λ q. (p, rest.0 q), λ h. rest.1 h.1)
  ]

  buffer_empty :
      (ms : List (SignedKeyGenMsg d k)) → ((elim ms [ [] ↦ false | _ ↦ true ]) ≡ false) ↔ (ms ≡ [])
  buffer_empty [] = (λ q. refl, λ q. refl)
  buffer_empty (m ∷ ms) = (λ q. cc, λ q. cc)

  -- A node is not to propose exactly if it has an input already, or if no more proposals than there
  -- may be faulty nodes have come in, none of the pending votes is its own, and no key generation
  -- message is buffered.
  pub should_propose_lem :
      (s : DynamicHoneyBadger d k)
      → (should_propose d k C e s ≡ false) ↔ (
          (e.has_input s.honey_badger ≡ true)
          ⊎ ((e.received_proposals s.honey_badger ≤ e.num_faulty (k.netinfo s.honey_badger))
              × All
                  (λ (sv : SignedVote d). sv.voter ≢ k.our_id (k.netinfo s.honey_badger))
                  (pending_votes d s.vote_counter)
              × (s.key_gen_msg_buffer ≡ [])))
  unfolding should_propose
  should_propose_lem s =
      let own = any_of_lem (k.our_id (k.netinfo s.honey_badger)) (pending_votes d s.vote_counter) in
      let empty = buffer_empty s.key_gen_msg_buffer in
      (λ q. ground (arith, own.0, empty.0), λ h. ground (arith, own.1, empty.1))
