-- ===== src/HoneyBadger/Dynamic/Calls.antt =====
-- dynamic_honey_badger.rs: the calls from outside.
pub mod Sound
pub mod Replies
pub mod Private
pub mod Events
pub mod Follows
pub mod Agreement
pub mod Prefix
mod HistoryTests
mod AgreementTests
use Prim.Native.Nat.{compare, Ordering}
use mina_os.Base.{
  ℕ, ◌+◌, Bool, true, false, not, Option, none, some, List, [], ◌∷◌, ◌==◌, if◌then◌else◌, ltb, ite,
}
use mina_os.Base.Word.{u64}
use mina_os.HoneyBadger.Deps.{
  Deps, Except, ok, err, map_err, Error, PubKeyMap, FaultLog, Change, ChangeState, no_change,
  in_progress, complete, node_change, encryption_schedule, change_eq, invalid_join_plan,
  propose_honey_badger, handle_honey_badger_message, unexpected_dhb_message_era, unknown_sender,
}
use mina_os.HoneyBadger.Votes
use mina_os.HoneyBadger.Votes.{SignedVote, pending_votes, add_pending_vote}
use mina_os.HoneyBadger.KeyGen.{
  KeyGens, Params, DynamicHoneyBadger, KeyGenMessage, SignedKeyGenMsg, Message, honey_badger,
  key_gen, signed_vote, message_era, handle_key_gen_message,
}
use mina_os.HoneyBadger.Voting
use mina_os.HoneyBadger.Batch.{JoinPlan}
use mina_os.HoneyBadger.Engine.{Engine, InternalContrib}
use mina_os.HoneyBadger.Exec.{Exec, pure, gets, lift, modify, ◌>>=◌, ◌>>◌}
use mina_os.HoneyBadger.Dynamic.{World, Method, on_node, update_key_gen}
use mina_os.HoneyBadger.Dynamic.Output.{keys, process_output}

module _ (d : Deps) (k : KeyGens d) (C : Type 0) (e : Engine d k C) where
  open d use {NodeId}
  open e use {Step, HbStep, Rng}

  pub data Input : Type 0 where
    user : C → Input
    change : Change d → Input

  -- `filter(|kg_msg| kg_msg.era() == self.era)`.
  abbrev pub of_era : ℕ → List (SignedKeyGenMsg d k) → List (SignedKeyGenMsg d k)
  of_era era [] = []
  of_era era (m ∷ ms) = if m.era == era then m ∷ of_era era ms else of_era era ms

  unfoldable pub internal_contrib : C → DynamicHoneyBadger d k → InternalContrib d k C
  internal_contrib contrib s = record {
    contrib = contrib;
    key_gen_messages = of_era s.era s.key_gen_msg_buffer;
    votes = pending_votes d s.vote_counter;
  }

  unfoldable pub run_propose : C → Method d k C e HbStep
  unfolding internal_contrib
  run_propose contrib w =
      let (r, hb, rng) = e.hb_propose w.node.honey_badger (internal_contrib contrib w.node) w.rng in
      (
        map_err propose_honey_badger r,
        record w { node = record w.node { honey_badger = hb }; rng = rng },
      )

  unfoldable pub propose : C → Method d k C e Step
  unfolding run_propose process_output
  propose contrib = do hb_step ← run_propose contrib; process_output d k C e hb_step

  unfoldable pub step_of : Option (Message d k) → Step
  step_of none = e.default
  step_of (some m) = e.to_all m

  unfoldable pub vote_for : Change d → Method d k C e Step
  unfolding on_node step_of
  vote_for c = do
    m ← on_node d k C e (λ s. Voting.vote_for d k e.serialize_vote s c)
    pure (step_of m)

  unfoldable pub handle_input : Input → Method d k C e Step
  unfolding propose vote_for
  handle_input (user contrib) = propose contrib
  handle_input (change c) = vote_for c

  unfoldable pub run_message : NodeId → k.HbMessage → Method d k C e HbStep
  run_message sender m w =
      let (r, hb) = e.hb_handle_message w.node.honey_badger sender m in
      (
        map_err handle_honey_badger_message r,
        record w { node = record w.node { honey_badger = hb } },
      )

  -- The value `Err(Error::UnknownSender)` of the first block, which no statement takes, is returned.
  unfoldable pub handle_hb_message : NodeId → k.HbMessage → Method d k C e Step
  unfolding run_message process_output
  handle_hb_message sender m = do
    known ← gets (λ w. e.is_node_validator (k.netinfo w.node.honey_badger) sender)
    if not known then lift (err unknown_sender) else run_message sender m >>= process_output d k C e

  unfoldable pub pend_vote :
      NodeId
      → SignedVote d
      → DynamicHoneyBadger d k
      → Except (Error d.SerializeError d.HbError d.KeyGenError) d.logs.Log × DynamicHoneyBadger d k
  pend_vote sender sv s =
      let (r, vc) = add_pending_vote d e.serialize_vote s.vote_counter sender sv in
      (r, record s { vote_counter = vc })

  unfoldable pub dispatch : NodeId → Message d k → Method d k C e Step
  unfolding handle_hb_message on_node pend_vote
  dispatch sender (honey_badger era m) = handle_hb_message sender m
  dispatch sender (key_gen era m sig) = do
    faults ← on_node d k C e (λ s. handle_key_gen_message d k e.serialize_key_gen s sender m sig)
    pure (e.of_faults faults)
  dispatch sender (signed_vote sv) = do
    faults ← on_node d k C e (pend_vote sender sv)
    pure (e.of_faults faults)

  -- The match on how the message's era stands to the node's.
  unfoldable pub receive : Ordering → NodeId → Message d k → Method d k C e Step
  unfolding dispatch
  receive Ordering.gt sender m = pure (e.of_fault sender unexpected_dhb_message_era)
  receive Ordering.lt sender m = pure e.default
  receive Ordering.eq sender m = dispatch sender m

  unfoldable pub handle_message : NodeId → Message d k → Method d k C e Step
  unfolding receive
  handle_message sender m = do
    era ← gets (λ w. w.node.era)
    receive (compare (message_era d k m) era) sender m

  -- `signed_vote.voter() == self.our_id()`, for some vote.
  abbrev pub any_of : NodeId → List (SignedVote d) → Bool
  any_of n [] = false
  any_of n (sv ∷ svs) = ite (d.node_ord.decide_eq sv.voter n) true (any_of n svs)

  -- The values of the three blocks, which no statement takes, are returned.
  unfoldable pub should_propose : DynamicHoneyBadger d k → Bool
  should_propose s =
      if e.has_input s.honey_badger
      then false
      else if ltb (e.num_faulty (k.netinfo s.honey_badger)) (e.received_proposals s.honey_badger)
      then true
      else if any_of (k.our_id (k.netinfo s.honey_badger)) (pending_votes d s.vote_counter)
      then true
      else elim s.key_gen_msg_buffer [ [] ↦ false | _ ↦ true ]

  unfoldable pub next_epoch : DynamicHoneyBadger d k → ℕ
  next_epoch s = u64 (s.era + e.next_epoch s.honey_badger)

  unfoldable pub epoch : DynamicHoneyBadger d k → ℕ × ℕ
  epoch s = (s.era, e.epoch s.honey_badger)
