-- ===== src/HoneyBadger/Dynamic/Calls/Sound.antt =====
-- dynamic_honey_badger.rs: any history of calls from outside keeps a node sound, whatever they
-- return.
use Prim.Native.Nat.{Ordering}
use mina_os.Base.{
  if_pos, if_neg, ℕ, ◌≡◌, refl, Bool, true, false, none, some, List, [], ◌∷◌, ◌++◌, not,
  if◌then◌else◌, Bool-cases, inl, inr, arith,
}
use mina_os.HoneyBadger.Deps.{Deps, Except-cases, ok, err, PubKeyMap, Result, Change}
use mina_os.HoneyBadger.Votes.{SignedVote, VoteCounter, sign_vote_for}
use mina_os.HoneyBadger.Votes.Frame.{SameKeys, sign_vote_for-SameKeys, add_pending_vote-SameKeys}
use mina_os.HoneyBadger.KeyGen.{
  KeyGens, Params, KeyGenMessage, Message, honey_badger, key_gen, signed_vote, DynamicHoneyBadger,
  handle_key_gen_message, buffer_message, count_messages, verify_signature,
}
use mina_os.HoneyBadger.Voting
use mina_os.HoneyBadger.Voting.{announce}
use mina_os.HoneyBadger.Engine.{Engine}
use mina_os.HoneyBadger.Exec.Rules.{
  Keeps-lift, Post, Keeps, Keeps-pure, Keeps-gets, Keeps-bind, Keeps-if,
}
use mina_os.HoneyBadger.Dynamic.{World}
use mina_os.HoneyBadger.Dynamic.Sound.{IsSound, IsSoundWorld, Keeps-on_node, grown}
use mina_os.HoneyBadger.Dynamic.Output.Sound.{SameKeys-IsSound, process_output-Keeps}
use mina_os.HoneyBadger.Dynamic.Calls.{
  Input, user, change, run_propose, propose, vote_for, handle_input, run_message, handle_hb_message,
  pend_vote, dispatch, receive, handle_message,
}
use mina_os.HoneyBadger.Dynamic.Joining.{new, ids_eq}
use mina_os.HoneyBadger.Dynamic.Output.{keys}

module _ (d : Deps) (k : KeyGens d) (sk : d.SecretKey) (C : Type 0) (e : Engine d k C) where
  open e use {Step, Rng}

  run_propose-Keeps : (contrib : C) → Keeps (IsSoundWorld d k sk C e) (run_propose d k C e contrib)
  unfolding run_propose
  run_propose-Keeps contrib = record { at = λ w h. ground arith }

  run_message-Keeps :
      (sender : d.NodeId) (m : k.HbMessage)
      → Keeps (IsSoundWorld d k sk C e) (run_message d k C e sender m)
  unfolding run_message
  run_message-Keeps sender m = record { at = λ w h. ground arith }

  announce-IsSound :
      (s : DynamicHoneyBadger d k) (r : Result d (SignedVote d) × VoteCounter d)
      → SameKeys d e.serialize_vote s.vote_counter r.1
      → IsSound d k sk s
      → IsSound d k sk (announce d k e.serialize_vote s r).1
  unfolding announce
  announce-IsSound s (err x, vc) q h = SameKeys-IsSound d k sk C e s _ refl refl refl q h
  announce-IsSound s (ok sv, vc) q h = SameKeys-IsSound d k sk C e s _ refl refl refl q h

  vote-IsSound :
      (c : Change d) (s : DynamicHoneyBadger d k)
      → IsSound d k sk s
      → IsSound d k sk (Voting.vote_for d k e.serialize_vote s c).1
  unfolding Voting.vote_for
  vote-IsSound c s h = elim (Bool-cases (k.is_validator (k.netinfo s.honey_badger))) [
    | inl t ↦
        rw (t, Voting.vote_for)
          (announce-IsSound s (sign_vote_for d e.serialize_vote s.vote_counter c)
            (sign_vote_for-SameKeys d e.serialize_vote s.vote_counter c) h)
    | inr f ↦ rw (f, Voting.vote_for) h
  ]

  handle_input-Keeps :
      (input : Input d k C e) → Keeps (IsSoundWorld d k sk C e) (handle_input d k C e input)
  unfolding handle_input propose vote_for
  handle_input-Keeps (user contrib) =
      Keeps-bind _ _ (run_propose-Keeps contrib) (process_output-Keeps d k sk C e)
  handle_input-Keeps (change c) =
      Keeps-bind _ _ (Keeps-on_node d k sk C e _ (vote-IsSound c)) (λ m. Keeps-pure _)

  either :
      {A : Type 0} (b : Bool) (x y : A × DynamicHoneyBadger d k)
      → IsSound d k sk x.1
      → IsSound d k sk y.1
      → IsSound d k sk (if b then x else y).1
  either true x y hx hy = hx
  either false x y hx hy = hy

  without_state :
      (s : DynamicHoneyBadger d k)
      → IsSound d k sk s
      → IsSound d k sk (record s { key_gen_state = none })
  without_state s h = record {
    secret_key = h.secret_key;
    counter_key = h.counter_key;
    counter_era = h.counter_era;
    buffered = h.buffered;
  }

  buffer-IsSound :
      (s : DynamicHoneyBadger d k) (n : d.NodeId) (m : KeyGenMessage d k) (sig : d.Signature)
      → IsSound d k sk s
      → IsSound d k sk (buffer_message d k e.serialize_key_gen s n m sig).1
  unfolding buffer_message count_messages
  buffer-IsSound s n m sig h =
      elim s.key_gen_state
        as (λ g.
          IsSound d k sk
            (buffer_message d k e.serialize_key_gen (record s { key_gen_state = g }) n m sig).1) [
              | none ↦ without_state s h
              | some kgs ↦
                  let h' : IsSound d k sk (record s {
                    key_gen_msg_buffer =
                        s.key_gen_msg_buffer
                        ++ (record { era = s.era; sender = n; message = m; sig = sig } ∷ []);
                    key_gen_state = some (count_messages d k kgs n).1;
                  }) =
                    record {
                      secret_key = h.secret_key;
                      counter_key = h.counter_key;
                      counter_era = h.counter_era;
                      buffered = grown d k sk s _ refl h;
                    } in
                  either _ _ _ h' h'
            ]

  received-IsSound :
      (n : d.NodeId) (m : KeyGenMessage d k) (sig : d.Signature) (s : DynamicHoneyBadger d k)
      → IsSound d k sk s
      → IsSound d k sk (handle_key_gen_message d k e.serialize_key_gen s n m sig).1
  unfolding handle_key_gen_message
  received-IsSound n m sig s h =
      let kept = buffer-IsSound s n m sig h in
      elim (Except-cases (verify_signature d k e.serialize_key_gen s n sig m)) [
        | inl (x, q) ↦ rw (q, handle_key_gen_message) h
        | inr (valid, q) ↦ rw (q, handle_key_gen_message) (either (not valid) _ _ kept kept)
      ]

  pend-IsSound :
      (sender : d.NodeId) (sv : SignedVote d) (s : DynamicHoneyBadger d k)
      → IsSound d k sk s
      → IsSound d k sk (pend_vote d k C e sender sv s).1
  unfolding pend_vote
  pend-IsSound sender sv s h =
      SameKeys-IsSound d k sk C e s _ refl refl refl
        (add_pending_vote-SameKeys d e.serialize_vote s.vote_counter sender sv) h

  dispatch-Keeps :
      (sender : d.NodeId) (m : Message d k)
      → Keeps (IsSoundWorld d k sk C e) (dispatch d k C e sender m)
  unfolding dispatch handle_hb_message
  dispatch-Keeps sender (honey_badger era m) =
      let rest = Keeps-bind _ _ (run_message-Keeps sender m) (process_output-Keeps d k sk C e) in
      Keeps-bind _ _ (Keeps-gets _) (λ known. Keeps-if _ _ _ (Keeps-lift _) rest)
  dispatch-Keeps sender (key_gen era m sig) =
      Keeps-bind _ _ (Keeps-on_node d k sk C e _ (received-IsSound sender m sig))
        (λ faults. Keeps-pure _)
  dispatch-Keeps sender (signed_vote sv) =
      Keeps-bind _ _ (Keeps-on_node d k sk C e _ (pend-IsSound sender sv)) (λ faults. Keeps-pure _)

  receive-Keeps :
      (o : Ordering) (sender : d.NodeId) (m : Message d k)
      → Keeps (IsSoundWorld d k sk C e) (receive d k C e o sender m)
  unfolding receive
  receive-Keeps Ordering.gt sender m = Keeps-pure _
  receive-Keeps Ordering.lt sender m = Keeps-pure _
  receive-Keeps Ordering.eq sender m = dispatch-Keeps sender m

  handle_message-Keeps :
      (sender : d.NodeId) (m : Message d k)
      → Keeps (IsSoundWorld d k sk C e) (handle_message d k C e sender m)
  unfolding handle_message
  handle_message-Keeps sender m = Keeps-bind _ _ (Keeps-gets _) (λ era. receive-Keeps _ sender m)

  -- What is kept holds after a return as after a failure.
  ended :
      {A : Type 0} (r : Result d A) (w : World d k C e)
      → Post (λ (a : A) w. IsSoundWorld d k sk C e w) (IsSoundWorld d k sk C e) r w
      → IsSound d k sk w.node
  ended (ok a) w h = h
  ended (err x) w h = h

  -- A call from outside.
  pub data Call : Type 0 where
    input : Input d k C e → Call
    message : d.NodeId → Message d k → Call

  pub after : List Call → World d k C e → World d k C e
  after [] w = w
  after (input i ∷ cs) w = after cs (handle_input d k C e i w).1
  after (message sender m ∷ cs) w = after cs (handle_message d k C e sender m w).1

  after-IsSound :
      (cs : List Call) (w : World d k C e)
      → IsSound d k sk w.node
      → IsSound d k sk (after cs w).node
  unfolding after
  after-IsSound [] w h = h
  after-IsSound (input i ∷ cs) w h = after-IsSound cs _ (ended _ _ ((handle_input-Keeps i).at w h))
  after-IsSound (message sender m ∷ cs) w h =
      after-IsSound cs _ (ended _ _ ((handle_message-Keeps sender m).at w h))

  new-IsSound :
      (pks : PubKeyMap d) (netinfo : k.NetworkInfo) (params : Params d k.Strategy) (era epoch : ℕ)
      (node : DynamicHoneyBadger d k)
      → new d k C e sk pks netinfo params era epoch ≡ some node
      → IsSound d k sk node
  unfolding new mina_os.HoneyBadger.Votes.new
  new-IsSound pks netinfo params era epoch node made =
      elim (ids_eq d k C e (k.all_ids netinfo) (keys pks)) [
        | yes p ↦
            let q = rw (if_pos (ids_eq d k C e (k.all_ids netinfo) (keys pks)) p, new) at made in
            ground arith
        | no p ↦
            let q = rw (if_neg (ids_eq d k C e (k.all_ids netinfo) (keys pks)) p, new) at made in
            ground arith
      ]

  -- After any history of inputs and messages on a node that `new` has made, whether the calls return
  -- or fail, the node and its vote counter have the secret key that it was made with, the counter is
  -- of the node's era, and no buffered key generation message is of an earlier era.
  pub after-new-IsSound :
      (pks : PubKeyMap d) (netinfo : k.NetworkInfo) (params : Params d k.Strategy) (era epoch : ℕ)
      (node : DynamicHoneyBadger d k) (rng : Rng) (cs : List Call)
      → new d k C e sk pks netinfo params era epoch ≡ some node
      → IsSound d k sk (after cs (record { node = node; rng = rng })).node
  after-new-IsSound pks netinfo params era epoch node rng cs made =
      after-IsSound cs _ (new-IsSound pks netinfo params era epoch node made)
