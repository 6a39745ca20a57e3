-- ===== src/HoneyBadger/Voting.antt =====
-- consensus/bft/honey_badger/dynamic_honey_badger.rs: a node votes for a change.
mod Tests
use mina_os.Base.{
  ℕ, ◌≡◌, ◌≢◌, ◌∙◌, refl, Bool, true, false, not, Option, none, some, List, [], ◌∷◌, if◌then◌else◌,
  if_neg, Bool-cases, inl, inr,
}
use mina_os.Base.BTreeMap.{
  BTreeMap, get, insert, remove, get-insert_self, get-insert_ne, get-remove,
}
use mina_os.HoneyBadger.Deps.{
  Deps, Except, Except-cases, ok, err, Result, Change, node_change, serialize_vote,
}
use mina_os.HoneyBadger.Votes.{Vote, SignedVote, VoteCounter, sign_vote_for, find_pending, next_num}
use mina_os.HoneyBadger.KeyGen.{
  KeyGens, DynamicHoneyBadger, Message, signed_vote, key_gen, honey_badger,
}

module _ (d : Deps) (k : KeyGens d) (serialize : Vote d → Except d.SerializeError d.Bytes) where
  open d use {NodeId, PublicKey, node_ord}

  -- The signed vote is sent to all nodes, in one message of the step; an error is passed on.
  unfoldable pub announce :
      DynamicHoneyBadger d k
      → Result d (SignedVote d) × VoteCounter d
      → Result d (Option (Message d k)) × DynamicHoneyBadger d k
  announce s (err e, vc) = (err e, record s { vote_counter = vc })
  announce s (ok sv, vc) = (ok (some (signed_vote sv)), record s { vote_counter = vc })

  -- On a node that is no validator the step is empty.
  unfoldable pub vote_for :
      DynamicHoneyBadger d k → Change d → Result d (Option (Message d k)) × DynamicHoneyBadger d k
  unfolding announce
  vote_for s change =
      let voted = announce s (sign_vote_for d serialize s.vote_counter change) in
      if not (k.is_validator (k.netinfo s.honey_badger)) then (ok none, s) else voted

  unfoldable pub vote_to_add :
      DynamicHoneyBadger d k
      → NodeId
      → PublicKey
      → Result d (Option (Message d k)) × DynamicHoneyBadger d k
  unfolding vote_for
  vote_to_add s node_id pub_key =
      vote_for s (node_change (insert ⦃o = node_ord⦄ node_id pub_key s.pub_keys))

  unfoldable pub vote_to_remove :
      DynamicHoneyBadger d k → NodeId → Result d (Option (Message d k)) × DynamicHoneyBadger d k
  unfolding vote_for
  vote_to_remove s node_id = vote_for s (node_change (remove ⦃o = node_ord⦄ node_id s.pub_keys))

  -- The vote of this node for a change, numbered after its pending one.
  abbrev pub own_vote : DynamicHoneyBadger d k → Change d → Vote d
  own_vote s change = record {
    change = change;
    era = s.vote_counter.era;
    num = next_num d (find_pending d s.vote_counter s.vote_counter.our_id);
  }

  -- The outcomes of a call: an error or, on a node that is no validator, nothing, with the state as
  -- it was; or the message with the own vote, which is then the node's pending vote.
  abbrev pub Announced :
      DynamicHoneyBadger d k
      → Change d
      → Result d (Option (Message d k))
      → DynamicHoneyBadger d k
      → Type 0
  Announced s change (err e) s' = s' ≡ s
  Announced s change (ok none) s' = (k.is_validator (k.netinfo s.honey_badger) ≡ false) × (s' ≡ s)
  Announced s change (ok (some (signed_vote sv))) s' =
      (k.is_validator (k.netinfo s.honey_badger) ≡ true)
      × (sv.vote ≡ own_vote s change)
      × (find_pending d s'.vote_counter s.vote_counter.our_id ≡ some sv)
      × ((n : NodeId)
          → s.vote_counter.our_id ≢ n
          → find_pending d s'.vote_counter n ≡ find_pending d s.vote_counter n)
  Announced s change (ok (some _)) s' = ⊥

  announce-Announced :
      (s : DynamicHoneyBadger d k) (change : Change d)
      → k.is_validator (k.netinfo s.honey_badger) ≡ true
      → let out = announce s (sign_vote_for d serialize s.vote_counter change) in
        Announced s change out.0 out.1
  announce-Announced s change t = elim (Except-cases (serialize (own_vote s change))) [
    | inl (e, q) ↦
        let failed : sign_vote_for d serialize s.vote_counter change
            ≡ (err (serialize_vote e), s.vote_counter) =
          unfold sign_vote_for in rw (q, sign_vote_for) refl in
        rw failed (unfold announce in refl)
    | inr (ser, q) ↦
        let sv : SignedVote d = record {
          vote = own_vote s change;
          voter = s.vote_counter.our_id;
          sig = d.sign s.vote_counter.secret_key ser;
        } in
        let vc : VoteCounter d = record s.vote_counter {
          pending =
              insert ⦃o = node_ord⦄ s.vote_counter.our_id sv
                (remove ⦃o = node_ord⦄ s.vote_counter.our_id s.vote_counter.pending);
        } in
        let signed : sign_vote_for d serialize s.vote_counter change ≡ (ok sv, vc) =
          unfold sign_vote_for in rw (q, sign_vote_for) refl in
        rw signed (
          unfold announce in
          (
            t,
            refl,
            get-insert_self ⦃o = node_ord⦄ s.vote_counter.our_id sv _,
            λ n h.
                get-insert_ne ⦃o = node_ord⦄ s.vote_counter.our_id n sv _ h
                ∙ get-remove ⦃o = node_ord⦄ s.vote_counter.our_id n s.vote_counter.pending
                ∙ if_neg (node_ord.decide_eq s.vote_counter.our_id n) h none _,
          ))
  ]

  -- `vote_for` either leaves the state as it was, with an error or, exactly on a node that is no
  -- validator, with an empty step; or it sends this node's vote for the change, numbered after its
  -- pending one, to all, and that vote replaces this node's pending vote and no other node's.
  pub vote_for-Announced :
      (s : DynamicHoneyBadger d k) (change : Change d)
      → Announced s change (vote_for s change).0 (vote_for s change).1
  unfolding vote_for
  vote_for-Announced s change = elim (Bool-cases (k.is_validator (k.netinfo s.honey_badger))) [
    | inr f ↦ rw (f, vote_for) (f, refl)
    | inl t ↦ rw (t, vote_for) (announce-Announced s change t)
  ]
