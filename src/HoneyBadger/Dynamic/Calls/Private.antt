-- ===== src/HoneyBadger/Dynamic/Calls/Private.antt =====
-- dynamic_honey_badger.rs: a vote, and a message with a vote or of a key generation, make no batch and
-- leave what nodes share.
use mina_os.Base.{
  ◌≡◌, ap, ◌∙◌, Bool, true, false, not, Option, none, some, [], if◌then◌else◌, map, Bool-cases, inl,
  inr, arith,
}
use mina_os.HoneyBadger.Deps.{Deps, Except-cases, ok, err, Result, Change}
use mina_os.HoneyBadger.Votes.{
  SignedVote, VoteCounter, sign_vote_for, accept_pending, add_pending_vote,
}
use mina_os.HoneyBadger.Votes.Frame.{SameKeys, sign_vote_for-SameKeys, add_pending_vote-SameKeys}
use mina_os.HoneyBadger.KeyGen.{
  KeyGens, KeyGenMessage, Message, KeyGenState, DynamicHoneyBadger, handle_key_gen_message,
  buffer_message, count_messages, verify_signature,
}
use mina_os.HoneyBadger.Batch.PublicView.{view}
use mina_os.HoneyBadger.Voting
use mina_os.HoneyBadger.Voting.{announce}
use mina_os.HoneyBadger.Engine.{Engine}
use mina_os.HoneyBadger.Exec.{pure, ◌>>=◌}
use mina_os.HoneyBadger.Exec.Rules.{Ensures, Ensures-pure, Ensures-run, Ensures-bind}
use mina_os.HoneyBadger.Dynamic.{World, Method, on_node}
use mina_os.HoneyBadger.Dynamic.Alike.{Synchronous, shared, SameShared, SameState, Alike}
use mina_os.HoneyBadger.Dynamic.Output.AlikeSteps.{views}
use mina_os.HoneyBadger.Dynamic.Calls.{step_of, vote_for, pend_vote}

module _ (d : Deps) (k : KeyGens d) (C : Type 0) (e : Engine d k C)
    (Rel : k.SyncKeyGen → k.SyncKeyGen → Type 0) (sync : Synchronous d k C e Rel)
    (w' : World d k C e) where
  open e use {Step}

  abbrev Like : World d k C e → Type 0
  Like w = Alike d k C e Rel sync w w'

  abbrev Kept : DynamicHoneyBadger d k → Type 0
  Kept s =
      SameShared d k C e Rel sync
        (record {
          era = s.era;
          pub_keys = s.pub_keys;
          vote_counter = s.vote_counter;
          honey_badger = s.honey_badger;
          key_gen_state = s.key_gen_state;
        })
        (shared d k C e Rel sync w')

  abbrev SameGen : Option (KeyGenState d k) → Option (KeyGenState d k) → Type 0
  SameGen = SameState d k C e Rel sync

  -- A method that makes no batch and leaves what the node shares with `w'`.
  abbrev Silently : Method d k C e Step → Type 0
  Silently m = Ensures Like (λ more w. (views d k C e more ≡ []) × Like w) Like m

  revoted :
      (s : DynamicHoneyBadger d k) (vc : VoteCounter d)
      → SameKeys d e.serialize_vote s.vote_counter vc
      → vc.committed ≡ s.vote_counter.committed
      → Kept s
      → Kept (record s { vote_counter = vc })
  revoted s vc q c h = record {
    era = h.era;
    pub_keys = h.pub_keys;
    votes = record {
      era = q.era ∙ h.votes.era;
      pub_keys = q.pub_keys ∙ h.votes.pub_keys;
      committed = c ∙ h.votes.committed;
    };
    params = h.params;
    key_set = h.key_set;
    key_gen = h.key_gen;
  }

  sign_vote_for_committed :
      (vc : VoteCounter d) (c : Change d)
      → (sign_vote_for d e.serialize_vote vc c).1.committed ≡ vc.committed
  unfolding sign_vote_for
  sign_vote_for_committed vc c = ground arith

  accept_pending_committed :
      (vc : VoteCounter d) (sender : d.NodeId) (sv : SignedVote d)
      → (accept_pending d e.serialize_vote vc sender sv).1.committed ≡ vc.committed
  unfolding accept_pending
  accept_pending_committed vc sender sv = ground arith

  add_pending_vote_committed :
      (vc : VoteCounter d) (sender : d.NodeId) (sv : SignedVote d)
      → (add_pending_vote d e.serialize_vote vc sender sv).1.committed ≡ vc.committed
  unfolding add_pending_vote
  add_pending_vote_committed vc sender sv = ground (arith, accept_pending_committed vc sender sv)

  announce-Kept :
      (s : DynamicHoneyBadger d k) (r : Result d (SignedVote d) × VoteCounter d)
      → SameKeys d e.serialize_vote s.vote_counter r.1
      → r.1.committed ≡ s.vote_counter.committed
      → Kept s
      → Kept (announce d k e.serialize_vote s r).1
  unfolding announce
  announce-Kept s (err x, vc) q c h = revoted s vc q c h
  announce-Kept s (ok sv, vc) q c h = revoted s vc q c h

  vote-Kept :
      (c : Change d) (s : DynamicHoneyBadger d k)
      → Kept s
      → Kept (Voting.vote_for d k e.serialize_vote s c).1
  unfolding Voting.vote_for
  vote-Kept c s h = elim (Bool-cases (k.is_validator (k.netinfo s.honey_badger))) [
    | inl t ↦
        rw (t, Voting.vote_for)
          (announce-Kept s (sign_vote_for d e.serialize_vote s.vote_counter c)
            (sign_vote_for-SameKeys d e.serialize_vote s.vote_counter c)
            (sign_vote_for_committed s.vote_counter c) h)
    | inr f ↦ rw (f, Voting.vote_for) h
  ]

  pend-Kept :
      (sender : d.NodeId) (sv : SignedVote d) (s : DynamicHoneyBadger d k)
      → Kept s
      → Kept (pend_vote d k C e sender sv s).1
  unfolding pend_vote
  pend-Kept sender sv s h =
      revoted s _ (add_pending_vote-SameKeys d e.serialize_vote s.vote_counter sender sv)
        (add_pending_vote_committed s.vote_counter sender sv) h

  either :
      {A : Type 0} (b : Bool) (x y : A × DynamicHoneyBadger d k)
      → Kept x.1
      → Kept y.1
      → Kept (if b then x else y).1
  either true x y hx hy = hx
  either false x y hx hy = hy

  with_state :
      (s : DynamicHoneyBadger d k) (g : Option (KeyGenState d k))
      → Kept s
      → SameGen g w'.node.key_gen_state
      → Kept (record s { key_gen_state = g })
  with_state s g h q = record {
    era = h.era;
    pub_keys = h.pub_keys;
    votes = h.votes;
    params = h.params;
    key_set = h.key_set;
    key_gen = q;
  }

  counted_same :
      (g : KeyGenState d k) (n : d.NodeId) (g' : Option (KeyGenState d k))
      → SameGen (some g) g'
      → SameGen (some (count_messages d k g n).1) g'
  unfolding count_messages
  counted_same g n (some g') h = h
  counted_same g n none h = h

  buffer-Kept :
      (s : DynamicHoneyBadger d k) (n : d.NodeId) (m : KeyGenMessage d k) (sig : d.Signature)
      → Kept s
      → Kept (buffer_message d k e.serialize_key_gen s n m sig).1
  unfolding buffer_message count_messages
  buffer-Kept s n m sig h =
      elim s.key_gen_state
          as (λ g.
            SameGen g w'.node.key_gen_state
            → Kept
                (buffer_message d k e.serialize_key_gen (record s { key_gen_state = g }) n m
                  sig).1) [
                    | none ↦ λ q. with_state s none h q
                    | some kgs ↦ λ q.
                        let kept =
                          with_state s (some (count_messages d k kgs n).1) h
                            (counted_same kgs n w'.node.key_gen_state q) in
                        either _ _ _ kept kept
                  ]
        h.key_gen

  received-Kept :
      (n : d.NodeId) (m : KeyGenMessage d k) (sig : d.Signature) (s : DynamicHoneyBadger d k)
      → Kept s
      → Kept (handle_key_gen_message d k e.serialize_key_gen s n m sig).1
  unfolding handle_key_gen_message
  received-Kept n m sig s h =
      let kept = buffer-Kept s n m sig h in
      elim (Except-cases (verify_signature d k e.serialize_key_gen s n sig m)) [
        | inl (x, q) ↦ rw (q, handle_key_gen_message) h
        | inr (valid, q) ↦ rw (q, handle_key_gen_message) (either (not valid) _ _ kept kept)
      ]

  -- A change of the node that is kept, and then a step without a batch.
  on_node-Silently :
      {A : Type 0} (f : DynamicHoneyBadger d k → Result d A × DynamicHoneyBadger d k) (g : A → Step)
      → ((s : DynamicHoneyBadger d k) → Kept s → Kept (f s).1)
      → ((a : A) → e.output (g a) ≡ [])
      → Silently (on_node d k C e f >>= λ a. pure (g a))
  unfolding on_node
  on_node-Silently f g h q =
      Ensures-bind {Q = λ a w. Like w} _ _ (Ensures-run _ (λ w p a. h w.node p) (λ w p. h w.node p))
        (λ a. Ensures-pure _ (λ w p. (ap (map (view d k C)) (q a), p)))

  pub vote_for-Silently : (c : Change d) → Silently (vote_for d k C e c)
  unfolding vote_for step_of
  vote_for-Silently c = on_node-Silently _ (step_of d k C e) (vote-Kept c) sent
    where
      sent : (m : Option (Message d k)) → e.output (step_of d k C e m) ≡ []
      sent none = e.output-default
      sent (some m) = e.output-to_all m

  pub signed_vote-Silently :
      (sender : d.NodeId) (sv : SignedVote d)
      → Silently
          (on_node d k C e (pend_vote d k C e sender sv) >>= λ faults. pure (e.of_faults faults))
  signed_vote-Silently sender sv =
      on_node-Silently _ e.of_faults (pend-Kept sender sv) e.output-of_faults

  pub key_gen-Silently :
      (sender : d.NodeId) (m : KeyGenMessage d k) (sig : d.Signature)
      → Silently (
          on_node d k C e (λ s. handle_key_gen_message d k e.serialize_key_gen s sender m sig)
          >>= λ faults. pure (e.of_faults faults))
  key_gen-Silently sender m sig =
      on_node-Silently _ e.of_faults (received-Kept sender m sig) e.output-of_faults
