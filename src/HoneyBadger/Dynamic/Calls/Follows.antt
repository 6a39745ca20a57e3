-- ===== src/HoneyBadger/Dynamic/Calls/Follows.antt =====
-- dynamic_honey_badger.rs: a call at one node, beside the batches of the call at another.
use Prim.Native.Nat.{compare, Ordering}
use mathlib.Core.List.{append-nil}
use mina_os.Base.{◌≡◌, ap, ◌∙◌, not, Bool-cases, inl, inr, List, [], ◌++◌, map, if◌then◌else◌}
use mina_os.HoneyBadger.Deps.{Deps, Except, ok, err, Error, unknown_sender}
use mina_os.HoneyBadger.KeyGen.{KeyGens, Message, honey_badger, key_gen, signed_vote, message_era}
use mina_os.HoneyBadger.Batch.PublicView.{PublicView, view}
use mina_os.HoneyBadger.Engine.{Engine}
use mina_os.HoneyBadger.Exec.{pure, gets, lift, follow, ◌>>=◌}
use mina_os.HoneyBadger.Exec.Rules.{Post}
use mina_os.HoneyBadger.Exec.Agree.{Pair, Returned, Returned-Pair}
use mina_os.HoneyBadger.Dynamic.{World}
use mina_os.HoneyBadger.Dynamic.Returns.{Works}
use mina_os.HoneyBadger.Dynamic.Alike.{Synchronous, Alike}
use mina_os.HoneyBadger.Dynamic.Output.{process_batches, process_output}
use mina_os.HoneyBadger.Dynamic.Output.Total.{process_batches-Returns, process_output-Returns}
use mina_os.HoneyBadger.Dynamic.Output.AlikeSteps.{views}
use mina_os.HoneyBadger.Dynamic.Output.AlikeContributions.{SameSteps}
use mina_os.HoneyBadger.Dynamic.Output.AlikeBatches.{process_batches-Alike}
use mina_os.HoneyBadger.Dynamic.Output.Alike.{start, views-start}
use mina_os.HoneyBadger.Dynamic.Calls.{
  user, change, run_propose, propose, vote_for, handle_input, run_message, handle_hb_message,
  dispatch, receive, handle_message,
}
use mina_os.HoneyBadger.Dynamic.Calls.Private.{
  vote_for-Silently, signed_vote-Silently, key_gen-Silently,
}
use mina_os.HoneyBadger.Dynamic.Calls.Events.{
  Steady, Event, input, message, perform, shown, given, agreed_at, agreed,
}

module _ (d : Deps) (k : KeyGens d) (C : Type 0) (e : Engine d k C)
    (Rel : k.SyncKeyGen → k.SyncKeyGen → Type 0) (sync : Synchronous d k C e Rel)
    (works : Works d k C e) (steady : Steady d k C e) where
  open e use {Step, HbStep}

  abbrev Like : World d k C e → World d k C e → Type 0
  Like = Alike d k C e Rel sync

  abbrev pub Ran : Type 0
  Ran = Except (Error d.SerializeError d.HbError d.KeyGenError) Step × World d k C e

  -- A run that comes after `step` has put out `out`, and its node shares with `w` what is public.
  abbrev pub Follows : Step → List (PublicView d k C) → World d k C e → Ran → Type 0
  Follows step out w (ok done, w') = (views d k C e step ++ out ≡ views d k C e done) × Like w w'
  Follows step out w (err x, w') = ⊥

  silent-Follows :
      (step : Step) (r : Ran) (w' : World d k C e)
      → Post (λ more w. (views d k C e more ≡ []) × Like w w') (λ w. Like w w') r.0 r.1
      → Follows step (shown d k C e r.0) r.1 (process_batches d k C e step [] w')
  unfolding process_batches pure
  silent-Follows step (ok more, w) w' h =
      (ap (λ vs. views d k C e step ++ vs) h.0 ∙ append-nil _, h.1)
  silent-Follows step (err x, w) w' h = (append-nil _, h)

  Returned-Follows :
      (step : Step) (r r' : Ran)
      → Returned (SameSteps d k C e Rel sync (views d k C e step)) r r'
      → Follows step (shown d k C e r.0) r.1 r'
  Returned-Follows step (ok more, w) (ok done, w') h = h
  Returned-Follows step (ok more, w) (err x, w') h = h
  Returned-Follows step (err x, w) r' h = absurd h

  process_output-Pair :
      (step : Step) (hb_step : HbStep) (w w' : World d k C e)
      → Like w w'
      → Pair
          (SameSteps d k C e Rel sync (views d k C e step))
          (process_output d k C e hb_step w)
          (process_batches d k C e step (e.hb_output hb_step) w')
  unfolding process_output gets ◌>>=◌ follow
  process_output-Pair step hb_step w w' h =
      (process_batches-Alike d k C e Rel sync (views d k C e step)
          (start d k C e Rel sync hb_step w.node.era) step (e.hb_output hb_step)).at
        w w'
        (
          ap (λ vs. views d k C e step ++ vs) (views-start d k C e Rel sync hb_step w.node.era)
              ∙ append-nil _,
          h,
        )

  process_output-Follows :
      (step : Step) (hb_step : HbStep) (w w' : World d k C e)
      → Like w w'
      → Follows step
          (shown d k C e (process_output d k C e hb_step w).0)
          (process_output d k C e hb_step w).1
          (process_batches d k C e step (e.hb_output hb_step) w')
  process_output-Follows step hb_step w w' h =
      Returned-Follows step (process_output d k C e hb_step w)
        (process_batches d k C e step (e.hb_output hb_step) w')
        (Returned-Pair _ (process_output d k C e hb_step w)
          (process_batches d k C e step (e.hb_output hb_step) w')
          (process_output-Pair step hb_step w w' h)
          ((process_output-Returns d k C e works hb_step).at w)
          ((process_batches-Returns d k C e works step (e.hb_output hb_step)).at w'))

  renewed :
      (b : k.HoneyBadger) (r : e.Rng) (w w' : World d k C e)
      → k.netinfo b ≡ k.netinfo w.node.honey_badger
      → k.params b ≡ k.params w.node.honey_badger
      → Like w w'
      → Like (record w { node = record w.node { honey_badger = b }; rng = r }) w'
  renewed b r w w' n p h = record {
    era = h.era;
    pub_keys = h.pub_keys;
    votes = h.votes;
    params = p ∙ h.params;
    key_set = ap k.public_key_set n ∙ h.key_set;
    key_gen = h.key_gen;
  }

  proposed : (c : C) (w w' : World d k C e) → Like w w' → Like (run_propose d k C e c w).1 w'
  unfolding run_propose
  proposed c w w' h =
      renewed _ w.rng w w' (steady.propose_netinfo _ _ _) (steady.propose_params _ _ _) h

  received :
      (sender : d.NodeId) (m : k.HbMessage) (w w' : World d k C e)
      → Like w w'
      → Like (run_message d k C e sender m w).1 w'
  unfolding run_message
  received sender m w w' h =
      renewed _ w.rng w w' (steady.message_netinfo _ _ _) (steady.message_params _ _ _) h

  -- A call that asks Honey Badger, and goes through what it gives.
  follow-Follows :
      (step : Step) (r : Except (Error d.SerializeError d.HbError d.KeyGenError) HbStep)
      (w w' : World d k C e)
      → Like w w'
      → Follows step
          (shown d k C e (follow r (process_output d k C e) w).0)
          (follow r (process_output d k C e) w).1
          (process_batches d k C e step (given d k C e r) w')
  unfolding follow
  follow-Follows step (ok hb_step) w w' h = process_output-Follows step hb_step w w' h
  follow-Follows step (err x) w w' h = silent-Follows step (err x, w) w' h

  propose-Follows :
      (step : Step) (c : C) (w w' : World d k C e)
      → Like w w'
      → Follows step
          (shown d k C e (propose d k C e c w).0)
          (propose d k C e c w).1
          (process_batches d k C e step (given d k C e (run_propose d k C e c w).0) w')
  unfolding propose ◌>>=◌
  propose-Follows step c w w' h =
      follow-Follows step (run_propose d k C e c w).0 (run_propose d k C e c w).1 w'
        (proposed c w w' h)

  handle_hb_message-Follows :
      (step : Step) (sender : d.NodeId) (m : k.HbMessage) (w w' : World d k C e)
      → Like w w'
      → Follows step
          (shown d k C e (handle_hb_message d k C e sender m w).0)
          (handle_hb_message d k C e sender m w).1
          (process_batches d k C e step
            (if not (e.is_node_validator (k.netinfo w.node.honey_badger) sender)
              then []
              else given d k C e (run_message d k C e sender m w).0)
            w')
  unfolding handle_hb_message ◌>>=◌ gets follow lift
  handle_hb_message-Follows step sender m w w' h =
      elim (Bool-cases (e.is_node_validator (k.netinfo w.node.honey_badger) sender)) [
        | inl t ↦
            rw (t, handle_hb_message)
              (follow-Follows step (run_message d k C e sender m w).0
                (run_message d k C e sender m w).1 w' (received sender m w w' h))
        | inr f ↦ rw (f, handle_hb_message) (silent-Follows step (err unknown_sender, w) w' h)
      ]

  dispatch-Follows :
      (step : Step) (sender : d.NodeId) (m : Message d k) (w w' : World d k C e)
      → Like w w'
      → Follows step
          (shown d k C e (dispatch d k C e sender m w).0)
          (dispatch d k C e sender m w).1
          (process_batches d k C e step (agreed_at d k C e Ordering.eq sender m w) w')
  unfolding dispatch
  dispatch-Follows step sender (honey_badger era m) w w' h =
      handle_hb_message-Follows step sender m w w' h
  dispatch-Follows step sender (key_gen era m sig) w w' h =
      silent-Follows step (dispatch d k C e sender (key_gen era m sig) w) w'
        ((key_gen-Silently d k C e Rel sync w' sender m sig).at w h)
  dispatch-Follows step sender (signed_vote sv) w w' h =
      silent-Follows step (dispatch d k C e sender (signed_vote sv) w) w'
        ((signed_vote-Silently d k C e Rel sync w' sender sv).at w h)

  receive-Follows :
      (o : Ordering) (step : Step) (sender : d.NodeId) (m : Message d k) (w w' : World d k C e)
      → Like w w'
      → Follows step
          (shown d k C e (receive d k C e o sender m w).0)
          (receive d k C e o sender m w).1
          (process_batches d k C e step (agreed_at d k C e o sender m w) w')
  unfolding receive pure
  receive-Follows Ordering.gt step sender m w w' h =
      silent-Follows step (receive d k C e Ordering.gt sender m w) w'
        (ap (map (view d k C)) (e.output-of_fault sender _), h)
  receive-Follows Ordering.lt step sender m w w' h =
      silent-Follows step (receive d k C e Ordering.lt sender m w) w'
        (ap (map (view d k C)) e.output-default, h)
  receive-Follows Ordering.eq step sender m w w' h = dispatch-Follows step sender m w w' h

  pub perform-Follows :
      (ev : Event d k C e) (step : Step) (w w' : World d k C e)
      → Like w w'
      → Follows step
          (shown d k C e (perform d k C e ev w).0)
          (perform d k C e ev w).1
          (process_batches d k C e step (agreed d k C e ev w) w')
  unfolding handle_input handle_message ◌>>=◌ gets follow
  perform-Follows (input (user c)) step w w' h = propose-Follows step c w w' h
  perform-Follows (input (change c)) step w w' h =
      silent-Follows step (vote_for d k C e c w) w'
        ((vote_for-Silently d k C e Rel sync w' c).at w h)
  perform-Follows (message sender m) step w w' h =
      receive-Follows (compare (message_era d k m) w.node.era) step sender m w w' h
