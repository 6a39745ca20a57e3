-- ===== src/HoneyBadger/Dynamic/Output/AlikeContributions.antt =====
-- dynamic_honey_badger.rs: two nodes that share what is public commit a batch's contributions alike.
use mina_os.Base.{◌≡◌, refl, sym, ap, ap₂, ◌∙◌, not, ◌||◌, Option, none, some, List, [], ◌∷◌, ◌==◌}
use mina_os.Base.BTreeMap.{BTreeMap, get}
use mina_os.HoneyBadger.Deps.{Deps, ok, err, serialize_key_gen}
use mina_os.HoneyBadger.Votes.{SignedVote}
use mina_os.HoneyBadger.Votes.Public.{add_committed_votes-SameVotes}
use mina_os.HoneyBadger.KeyGen.{
  KeyGens, KeyGenMessage, part, ack, KeyGenState, SignedKeyGenMsg, verify_signature, candidate_keys,
  verified,
}
use mina_os.HoneyBadger.Batch.PublicView.{PublicView}
use mina_os.HoneyBadger.Engine.{Engine, InternalContrib}
use mina_os.HoneyBadger.Exec.Agree.{
  Agrees, Agrees-pure, Agrees-gets, Agrees-run, Agrees-modify, Agrees-bind, Agrees-given, Agrees-if,
  Agrees-beside, Agrees-weaken,
}
use mina_os.HoneyBadger.Dynamic.{World, on_node}
use mina_os.HoneyBadger.Dynamic.Alike.{Synchronous, SameState, Alike, Silent}
use mina_os.HoneyBadger.Dynamic.Alike.Generation.{handle_part-Alike, handle_ack-Alike}
use mina_os.HoneyBadger.Dynamic.Output.{
  commit_votes, drop_messages, handle_key_gen, verified_key_gen, commit_key_gen, commit_key_gens,
  commit_contribution, commit_contributions,
}
use mina_os.HoneyBadger.Dynamic.Output.AlikeSteps.{SameViews, extend_same, faulted, faults_same}

module _ (d : Deps) (k : KeyGens d) (C : Type 0) (e : Engine d k C)
    (Rel : k.SyncKeyGen → k.SyncKeyGen → Type 0) (sync : Synchronous d k C e Rel)
    (vs : List (PublicView d k C)) where
  open e use {Step}

  abbrev Both : World d k C e → World d k C e → Type 0
  Both = Alike d k C e Rel sync

  -- Two steps so far: what the second has put out in public is `vs`, and then what the first has.
  abbrev pub SameSteps : Step → Step → World d k C e → World d k C e → Type 0
  SameSteps step step' w w' = SameViews d k C e vs step step' × Both w w'

  commit_votes-Alike :
      (id : d.NodeId) (votes : List (SignedVote d))
      → Agrees Both
          (λ r r' w w'. Both w w')
          (on_node d k C e (commit_votes d k C e id votes))
          (on_node d k C e (commit_votes d k C e id votes))
  unfolding on_node commit_votes
  commit_votes-Alike id votes = Agrees-run _ _ λ w w' r r' h q q'. record {
    era = h.era;
    pub_keys = h.pub_keys;
    votes =
        (add_committed_votes-SameVotes d e.serialize_vote w.node.vote_counter w'.node.vote_counter
          id votes h.votes).1;
    params = h.params;
    key_set = h.key_set;
    key_gen = h.key_gen;
  }

  handle_key_gen-Alike :
      (sender : d.NodeId) (m : KeyGenMessage d k)
      → Agrees Both
          (Silent d k C e Rel sync)
          (handle_key_gen d k C e sender m)
          (handle_key_gen d k C e sender m)
  unfolding handle_key_gen
  handle_key_gen-Alike sender (part p) = handle_part-Alike d k C e Rel sync sender p
  handle_key_gen-Alike sender (ack a) = handle_ack-Alike d k C e Rel sync sender a

  candidate_keys_same :
      (g g' : Option (KeyGenState d k))
      → SameState d k C e Rel sync g g'
      → candidate_keys d k g ≡ candidate_keys d k g'
  candidate_keys_same none none h = refl
  candidate_keys_same none (some g') h = absurd h
  candidate_keys_same (some g) none h = absurd h
  candidate_keys_same (some g) (some g') h = sync.keys g.key_gen g'.key_gen h

  verify_same :
      (w w' : World d k C e) (m : SignedKeyGenMsg d k)
      → Both w w'
      → verify_signature d k e.serialize_key_gen w.node m.sender m.sig m.message
        ≡ verify_signature d k e.serialize_key_gen w'.node m.sender m.sig m.message
  unfolding verify_signature
  verify_same w w' m h =
      ap₂
        (λ pks candidates. elim (e.serialize_key_gen m.message) [
          | err x ↦ err (serialize_key_gen x)
          | ok ser ↦ ok (
              verified d k (get ⦃o = d.node_ord⦄ pks m.sender) m.sig ser
              || verified d k (get ⦃o = d.node_ord⦄ candidates m.sender) m.sig ser)
        ])
        h.pub_keys (candidate_keys_same w.node.key_gen_state w'.node.key_gen_state h.key_gen)

  verified_key_gen-Alike :
      (step step' : Step) (id : d.NodeId) (m : SignedKeyGenMsg d k)
      → Agrees
          (SameSteps step step')
          SameSteps
          (verified_key_gen d k C e step id m)
          (verified_key_gen d k C e step' id m)
  unfolding verified_key_gen on_node
  verified_key_gen-Alike step step' id m =
      Agrees-bind {Q = λ v v' w w'. (v ≡ v') × SameSteps step step' w w'} _ _ _ _
        (Agrees-run _ _ (λ w w' v v' h q q'.
          (let p : ok v ≡ ok v' = sym q ∙ verify_same w w' m h.1 ∙ q' in cc, h)))
        λ v v'. Agrees-given _ _ λ p.
          Agrees-if _ _ _ _ _ _ (ap not p)
            (Agrees-pure _ _ (λ w w' h. (faulted d k C e vs step step' id _ h.0, h.1)))
            (Agrees-bind
              {Q = λ more more' w w'.
                SameViews d k C e vs step step' × Silent d k C e Rel sync more more' w w'}
              _ _ _ _ (Agrees-beside _ _ (handle_key_gen-Alike m.sender m.message))
              λ more more'. Agrees-pure _ _ (λ w w' h.
                (extend_same d k C e vs step step' more more' h.0 h.1.0.0 h.1.0.1, h.1.1)))

  commit_key_gen-Alike :
      (step step' : Step) (id : d.NodeId) (m : SignedKeyGenMsg d k)
      → Agrees
          (SameSteps step step')
          SameSteps
          (commit_key_gen d k C e step id m)
          (commit_key_gen d k C e step' id m)
  unfolding commit_key_gen
  commit_key_gen-Alike step step' id m =
      Agrees-bind {Q = λ n n' w w'. (n ≡ n') × SameSteps step step' w w'} _ _ _ _
        (Agrees-gets _ (λ w w' h. (h.1.era, h)))
        λ n n'. Agrees-given _ _ λ p.
          Agrees-if _ _ _ _ _ _ (ap (λ i. not (m.era == i)) p)
            (Agrees-pure _ _ (λ w w' h. (faulted d k C e vs step step' id _ h.0, h.1)))
            (verified_key_gen-Alike step step' id m)

  commit_key_gens-Alike :
      (step step' : Step) (id : d.NodeId) (ms : List (SignedKeyGenMsg d k))
      → Agrees
          (SameSteps step step')
          SameSteps
          (commit_key_gens d k C e step id ms)
          (commit_key_gens d k C e step' id ms)
  unfolding commit_key_gens
  commit_key_gens-Alike step step' id [] = Agrees-pure _ _ (λ w w' h. h)
  commit_key_gens-Alike step step' id (m ∷ ms) =
      Agrees-bind _ _ _ _ (commit_key_gen-Alike step step' id m)
        (λ next next'. commit_key_gens-Alike next next' id ms)

  commit_contribution-Alike :
      (step step' : Step) (id : d.NodeId) (c : InternalContrib d k C)
      → Agrees
          (SameSteps step step')
          SameSteps
          (commit_contribution d k C e step id c)
          (commit_contribution d k C e step' id c)
  unfolding commit_contribution drop_messages
  commit_contribution-Alike step step' id c =
      Agrees-bind {Q = λ faults faults' w w'. SameSteps step step' w w'} _ _ _ _
        (Agrees-beside _ _ (commit_votes-Alike id c.votes))
        λ faults faults'.
          Agrees-bind {Q = λ u u' w w'. SameSteps step step' w w'} _ _ _ _
            (Agrees-modify _ _ (λ w w' h. (
              h.0,
              record {
                era = h.1.era;
                pub_keys = h.1.pub_keys;
                votes = h.1.votes;
                params = h.1.params;
                key_set = h.1.key_set;
                key_gen = h.1.key_gen;
              },
            )))
            λ u u'.
              Agrees-weaken _ _
                (commit_key_gens-Alike (e.extend_faults step faults) (e.extend_faults step' faults')
                  id c.key_gen_messages)
                (λ w w' h. (faults_same d k C e vs step step' faults faults' h.0, h.1))

  -- The step and the contributions so far.
  abbrev SameCommitted :
      Step × BTreeMap d.NodeId C
      → Step × BTreeMap d.NodeId C
      → World d k C e
      → World d k C e
      → Type 0
  SameCommitted r r' w w' = (r.1 ≡ r'.1) × SameSteps r.0 r'.0 w w'

  pub commit_contributions-Alike :
      (step step' : Step) (cs : BTreeMap d.NodeId (InternalContrib d k C))
      (done : BTreeMap d.NodeId C)
      → Agrees
          (SameSteps step step')
          SameCommitted
          (commit_contributions d k C e step cs done)
          (commit_contributions d k C e step' cs done)
  unfolding commit_contributions
  commit_contributions-Alike step step' [] done = Agrees-pure _ _ (λ w w' h. (refl, h))
  commit_contributions-Alike step step' ((id, c) ∷ cs) done =
      Agrees-bind _ _ _ _ (commit_contribution-Alike step step' id c)
        (λ next next'. commit_contributions-Alike next next' cs _)
