-- ===== src/HoneyBadger/Dynamic/Output/Sound.antt =====
-- dynamic_honey_badger.rs: `process_output` keeps a node sound, whatever it returns.
use mina_os.Base.{
  ℕ, ◌≡◌, refl, ◌∙◌, sym, Option, none, some, List, [], ◌∷◌, All, Bool-cases, inl, inr,
}
use mina_os.Base.BTreeMap.{BTreeMap}
use mina_os.HoneyBadger.Deps.{Deps, PubKeyMap, Change, node_change, encryption_schedule}
use mina_os.HoneyBadger.Votes.{SignedVote, VoteCounter, compute_winner}
use mina_os.HoneyBadger.Votes.Frame.{SameKeys, add_committed_votes-SameKeys}
use mina_os.HoneyBadger.KeyGen.{
  KeyGens, KeyGenMessage, part, ack, KeyGenState, SignedKeyGenMsg, DynamicHoneyBadger,
  take_ready_key_gen, state_is_ready,
}
use mina_os.HoneyBadger.Engine.{Engine, InternalContrib, HbBatch}
use mina_os.HoneyBadger.Exec.{pure, gets, ◌>>=◌}
use mina_os.HoneyBadger.Exec.Rules.{
  Keeps, Ensures-modify, Keeps-pure, Keeps-gets, Keeps-lift, Keeps-bind, Keeps-if, keeps_rules,
}
use mina_os.HoneyBadger.Dynamic.{World, on_node}
use mina_os.HoneyBadger.Dynamic.Sound.{
  IsSound, IsSoundWorld, Keeps-on_node, restart-Keeps, update_encryption_schedule-Keeps,
  update_key_gen-Keeps, handle_part-Keeps, handle_ack-Keeps,
}
use mina_os.HoneyBadger.Dynamic.Output.{
  contains, without, commit_votes, drop_messages, handle_key_gen, verified_key_gen, commit_key_gen,
  commit_key_gens, commit_contribution, commit_contributions, set_pub_keys, complete_key_gen,
  follow_winner, decide_change, process_batch, process_batches, process_output,
}

module _ (d : Deps) (k : KeyGens d) (sk : d.SecretKey) (C : Type 0) (e : Engine d k C) where
  open e use {Step, HbStep}

  without-All :
      (P : SignedKeyGenMsg d k → Type 0) (drop ms : List (SignedKeyGenMsg d k))
      → All P ms
      → All P (without e.key_gen_msg_eq drop ms)
  without-All P drop [] h = tt
  without-All P drop (m ∷ ms) h =
      let later = without-All P drop ms h.1 in
      elim (Bool-cases (contains e.key_gen_msg_eq m drop)) [
        | inl t ↦ rw t later
        | inr f ↦ rw f (h.0, later)
      ]

  -- A node whose counter changes as the methods of the counter change it.
  pub SameKeys-IsSound :
      (s s' : DynamicHoneyBadger d k)
      → s'.secret_key ≡ s.secret_key
      → s'.era ≡ s.era
      → s'.key_gen_msg_buffer ≡ s.key_gen_msg_buffer
      → SameKeys d e.serialize_vote s.vote_counter s'.vote_counter
      → IsSound d k sk s
      → IsSound d k sk s'
  SameKeys-IsSound s s' a b c keys h = record {
    secret_key = a ∙ h.secret_key;
    counter_key = keys.secret_key ∙ h.counter_key;
    counter_era = keys.era ∙ h.counter_era ∙ sym b;
    buffered = rw (b, c) h.buffered;
  }

  -- Neither the counter nor what is said of the node's other fields changes.
  same : (vc : VoteCounter d) → SameKeys d e.serialize_vote vc vc
  same vc = record { our_id = refl; secret_key = refl; pub_keys = refl; era = refl }

  commit_votes-Keeps :
      (id : d.NodeId) (votes : List (SignedVote d))
      → Keeps (IsSoundWorld d k sk C e) (on_node d k C e (commit_votes d k C e id votes))
  unfolding commit_votes
  commit_votes-Keeps id votes = Keeps-on_node d k sk C e _ λ s h.
      SameKeys-IsSound s _ refl refl refl
        (add_committed_votes-SameKeys d e.serialize_vote s.vote_counter id votes) h

  drop_messages-IsSound :
      (ms : List (SignedKeyGenMsg d k)) (w : World d k C e)
      → IsSoundWorld d k sk C e w
      → IsSoundWorld d k sk C e (drop_messages d k C e ms w)
  unfolding drop_messages
  drop_messages-IsSound ms w h = record {
    secret_key = h.secret_key;
    counter_key = h.counter_key;
    counter_era = h.counter_era;
    buffered = without-All _ ms w.node.key_gen_msg_buffer h.buffered;
  }

  handle_key_gen-Keeps :
      (sender : d.NodeId) (m : KeyGenMessage d k)
      → Keeps (IsSoundWorld d k sk C e) (handle_key_gen d k C e sender m)
  unfolding handle_key_gen
  handle_key_gen-Keeps sender (part p) = handle_part-Keeps d k sk C e sender p
  handle_key_gen-Keeps sender (ack a) = handle_ack-Keeps d k sk C e sender a

  verified_key_gen-Keeps :
      (step : Step) (id : d.NodeId) (m : SignedKeyGenMsg d k)
      → Keeps (IsSoundWorld d k sk C e) (verified_key_gen d k C e step id m)
  unfolding verified_key_gen
  verified_key_gen-Keeps step id m =
      Keeps-bind _ _ (Keeps-on_node d k sk C e _ (λ s h. h)) (λ valid.
        Keeps-if _ _ _ (Keeps-pure _)
          (Keeps-bind _ _ (handle_key_gen-Keeps m.sender m.message) (λ more. Keeps-pure _)))

  commit_key_gen-Keeps :
      (step : Step) (id : d.NodeId) (m : SignedKeyGenMsg d k)
      → Keeps (IsSoundWorld d k sk C e) (commit_key_gen d k C e step id m)
  unfolding commit_key_gen
  commit_key_gen-Keeps step id m = search (keeps_rules, verified_key_gen-Keeps)

  commit_key_gens-Keeps :
      (step : Step) (id : d.NodeId) (ms : List (SignedKeyGenMsg d k))
      → Keeps (IsSoundWorld d k sk C e) (commit_key_gens d k C e step id ms)
  unfolding commit_key_gens
  commit_key_gens-Keeps step id [] = Keeps-pure _
  commit_key_gens-Keeps step id (m ∷ ms) =
      Keeps-bind _ _ (commit_key_gen-Keeps step id m) (λ step'. commit_key_gens-Keeps step' id ms)

  commit_contribution-Keeps :
      (step : Step) (id : d.NodeId) (c : InternalContrib d k C)
      → Keeps (IsSoundWorld d k sk C e) (commit_contribution d k C e step id c)
  unfolding commit_contribution
  commit_contribution-Keeps step id c = Keeps-bind _ _ (commit_votes-Keeps id c.votes) λ faults.
      Keeps-bind _ _ (Ensures-modify _ (drop_messages-IsSound c.key_gen_messages))
        λ u. commit_key_gens-Keeps _ id c.key_gen_messages

  commit_contributions-Keeps :
      (step : Step) (cs : BTreeMap d.NodeId (InternalContrib d k C)) (done : BTreeMap d.NodeId C)
      → Keeps (IsSoundWorld d k sk C e) (commit_contributions d k C e step cs done)
  unfolding commit_contributions
  commit_contributions-Keeps step [] done = Keeps-pure _
  commit_contributions-Keeps step ((id, c) ∷ cs) done =
      Keeps-bind _ _ (commit_contribution-Keeps step id c)
        (λ step'. commit_contributions-Keeps step' cs _)

  take_ready-IsSound :
      (s : DynamicHoneyBadger d k) → IsSound d k sk s → IsSound d k sk (take_ready_key_gen d k s).1
  unfolding take_ready_key_gen
  take_ready-IsSound s h =
      elim s.key_gen_state
        as (λ g. IsSound d k sk (take_ready_key_gen d k (record s { key_gen_state = g })).1) [
          | none ↦ SameKeys-IsSound s _ refl refl refl (same s.vote_counter) h
          | some kgs ↦ elim (Bool-cases (state_is_ready d k kgs)) [
            | inl t ↦ rw t (SameKeys-IsSound s _ refl refl refl (same s.vote_counter) h)
            | inr f ↦ rw f (SameKeys-IsSound s _ refl refl refl (same s.vote_counter) h)
          ]
        ]

  set_pub_keys-IsSound :
      (pks : PubKeyMap d) (w : World d k C e)
      → IsSoundWorld d k sk C e w
      → IsSoundWorld d k sk C e (set_pub_keys d k C e pks w)
  unfolding set_pub_keys
  set_pub_keys-IsSound pks w h = record {
    secret_key = h.secret_key;
    counter_key = h.counter_key;
    counter_era = h.counter_era;
    buffered = h.buffered;
  }

  complete_key_gen-Keeps :
      (era : ℕ) (kgs : KeyGenState d k)
      → Keeps (IsSoundWorld d k sk C e) (complete_key_gen d k C e era kgs)
  unfolding complete_key_gen
  complete_key_gen-Keeps era kgs = Keeps-bind _ _ (Ensures-modify _ (set_pub_keys-IsSound _)) λ u.
      Keeps-bind _ _ (Keeps-lift _) λ made.
        Keeps-bind _ _ (Keeps-gets _)
          λ node. Keeps-bind _ _ (restart-Keeps d k sk C e _ _ _) λ u. Keeps-pure _

  follow_winner-Keeps :
      (step : Step) (era : ℕ) (winner : Option (Change d))
      → Keeps (IsSoundWorld d k sk C e) (follow_winner d k C e step era winner)
  unfolding follow_winner
  follow_winner-Keeps step era none = Keeps-pure _
  follow_winner-Keeps step era (some (node_change pks)) = search (keeps_rules, update_key_gen-Keeps)
  follow_winner-Keeps step era (some (encryption_schedule schedule)) =
      search (keeps_rules, update_encryption_schedule-Keeps)

  decide_change-Keeps :
      (step : Step) (era : ℕ) → Keeps (IsSoundWorld d k sk C e) (decide_change d k C e step era)
  unfolding decide_change
  decide_change-Keeps step era =
      Keeps-bind _ _ (Keeps-on_node d k sk C e _ take_ready-IsSound) λ ready.
        elim ready
          as (λ ready. Keeps (IsSoundWorld d k sk C e) (elim ready [
            | some kgs ↦ complete_key_gen d k C e era kgs >>= λ change. pure (step, change)
            | none ↦
                gets (λ w. compute_winner d w.node.vote_counter) >>= follow_winner d k C e step era
          ])) [
            | some kgs ↦ Keeps-bind _ _ (complete_key_gen-Keeps era kgs) (λ change. Keeps-pure _)
            | none ↦ Keeps-bind _ _ (Keeps-gets _) (follow_winner-Keeps step era)
          ]

  process_batch-Keeps :
      (step : Step) (b : HbBatch d k C)
      → Keeps (IsSoundWorld d k sk C e) (process_batch d k C e step b)
  unfolding process_batch
  process_batch-Keeps step b = Keeps-bind _ _ (Keeps-gets _) λ era.
      Keeps-bind _ _ (commit_contributions-Keeps step b.contributions []) λ committed.
        Keeps-bind _ _ (decide_change-Keeps committed.0 _)
          λ decided. Keeps-bind _ _ (Keeps-gets _) λ node. Keeps-pure _

  process_batches-Keeps :
      (step : Step) (bs : List (HbBatch d k C))
      → Keeps (IsSoundWorld d k sk C e) (process_batches d k C e step bs)
  unfolding process_batches
  process_batches-Keeps step [] = Keeps-pure _
  process_batches-Keeps step (b ∷ bs) =
      Keeps-bind _ _ (process_batch-Keeps step b) (λ step'. process_batches-Keeps step' bs)

  pub process_output-Keeps :
      (hb_step : HbStep) → Keeps (IsSoundWorld d k sk C e) (process_output d k C e hb_step)
  unfolding process_output
  process_output-Keeps hb_step =
      Keeps-bind _ _ (Keeps-gets _) (λ era. process_batches-Keeps _ (e.hb_output hb_step))
