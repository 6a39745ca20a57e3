-- ===== src/HoneyBadger/Dynamic/Output.antt =====
-- dynamic_honey_badger.rs: `process_output`, which turns the batches of Honey Badger into batches of
-- the node.  In the source the loop over the key generation messages has its body behind an empty
-- pair of braces; the model puts it inside.
pub mod Sound
pub mod Committed
pub mod Made
pub mod Total
pub mod Alike
pub mod AlikeChange
pub mod AlikeSteps
pub mod AlikeBatches
pub mod AlikeContributions
mod Tests
mod AlikeTests
use mina_os.Base.{
  ℕ, ◌+◌, Bool, true, false, not, Option, none, some, List, [], ◌∷◌, ◌==◌, if◌then◌else◌, ite,
}
use mina_os.Base.Word.{u64}
use mina_os.Base.BTreeMap.{BTreeMap, insert}
use mina_os.HoneyBadger.Deps.{
  Deps, Except, ok, err, map_err, Error, PubKeyMap, Change, ChangeState, no_change, in_progress,
  complete, node_change, encryption_schedule, sync_key_gen, hb_fault, invalid_key_gen_message_era,
  invalid_key_gen_message_signature,
}
use mina_os.HoneyBadger.Votes.{SignedVote, add_committed_votes, compute_winner}
use mina_os.HoneyBadger.KeyGen.{
  KeyGens, DynamicHoneyBadger, KeyGenState, KeyGenMessage, part, ack, SignedKeyGenMsg, honey_badger,
  verify_signature, take_ready_key_gen,
}
use mina_os.HoneyBadger.Batch.{Batch}
use mina_os.HoneyBadger.Engine.{Engine, InternalContrib, HbBatch}
use mina_os.HoneyBadger.Exec.{Exec, pure, gets, lift, modify, ◌>>=◌, ◌>>◌}
use mina_os.HoneyBadger.Dynamic.{
  World, Method, on_node, restart, update_encryption_schedule, update_key_gen, handle_part,
  handle_ack,
}

-- `keys()` of a map.
abbrev pub keys : {K V : Type 0} → BTreeMap K V → List K
keys [] = []
keys ((n, v) ∷ m) = n ∷ keys m

-- `contains`.
abbrev pub contains : {A : Type 0} → Discrete A → A → List A → Bool
contains e a [] = false
contains e a (b ∷ bs) = ite (e b a) true (contains e a bs)

-- `retain(|x| !drop.contains(x))`.
abbrev pub without : {A : Type 0} → Discrete A → List A → List A → List A
without e drop [] = []
without e drop (a ∷ as') = if contains e a drop then without e drop as' else a ∷ without e drop as'

module _ (d : Deps) (k : KeyGens d) (C : Type 0) (e : Engine d k C) where
  open d use {NodeId, node_ord}
  open e use {Step, HbStep}

  -- The node with the votes that a contribution commits.
  unfoldable pub commit_votes :
      NodeId
      → List (SignedVote d)
      → DynamicHoneyBadger d k
      → Except (Error d.SerializeError d.HbError d.KeyGenError) d.logs.Log × DynamicHoneyBadger d k
  commit_votes id votes s =
      let (r, vc) = add_committed_votes d e.serialize_vote s.vote_counter id votes in
      (r, record s { vote_counter = vc })

  unfoldable pub drop_messages : List (SignedKeyGenMsg d k) → World d k C e → World d k C e
  drop_messages ms w = record w {
    node = record w.node {
      key_gen_msg_buffer = without e.key_gen_msg_eq ms w.node.key_gen_msg_buffer;
    };
  }

  unfoldable pub handle_key_gen : NodeId → KeyGenMessage d k → Method d k C e Step
  unfolding handle_part handle_ack
  handle_key_gen sender (part p) = handle_part d k C e sender p
  handle_key_gen sender (ack a) = handle_ack d k C e sender a

  unfoldable pub verified_key_gen : Step → NodeId → SignedKeyGenMsg d k → Method d k C e Step
  unfolding on_node handle_key_gen
  verified_key_gen step id m = do
    valid ←
        on_node d k C e
          (λ s. (verify_signature d k e.serialize_key_gen s m.sender m.sig m.message, s))
    let handled = do more ← handle_key_gen m.sender m.message; pure (e.extend step more)
    if not valid then pure (e.append_fault step id invalid_key_gen_message_signature) else handled

  -- One committed key generation message of the contribution of `id`.
  unfoldable pub commit_key_gen : Step → NodeId → SignedKeyGenMsg d k → Method d k C e Step
  unfolding verified_key_gen
  commit_key_gen step id m = do
    era ← gets (λ w. w.node.era)
    let current = verified_key_gen step id m
    if not (m.era == era)
        then pure (e.append_fault step id invalid_key_gen_message_era)
        else current

  -- The loop, which the source closes with `{}` before its body: the body is what stands after it, and
  -- uses the loop's variable.
  unfoldable pub commit_key_gens : Step → NodeId → List (SignedKeyGenMsg d k) → Method d k C e Step
  unfolding commit_key_gen
  commit_key_gens step id [] = pure step
  commit_key_gens step id (m ∷ ms) = do
    step' ← commit_key_gen step id m
    commit_key_gens step' id ms

  unfoldable pub commit_contribution : Step → NodeId → InternalContrib d k C → Method d k C e Step
  unfolding on_node commit_votes drop_messages commit_key_gens
  commit_contribution step id c = do
    faults ← on_node d k C e (commit_votes id c.votes)
    modify (drop_messages c.key_gen_messages)
    commit_key_gens (e.extend_faults step faults) id c.key_gen_messages

  -- The loop over the contributions, with the step and the map of contributions so far.
  unfoldable pub commit_contributions :
      Step
      → BTreeMap NodeId (InternalContrib d k C)
      → BTreeMap NodeId C
      → Method d k C e (Step × BTreeMap NodeId C)
  unfolding commit_contribution
  commit_contributions step [] batch_contributions = pure (step, batch_contributions)
  commit_contributions step ((id, c) ∷ cs) batch_contributions = do
    step' ← commit_contribution step id c
    commit_contributions step' cs (insert ⦃o = node_ord⦄ id c.contrib batch_contributions)

  unfoldable pub set_pub_keys : PubKeyMap d → World d k C e → World d k C e
  set_pub_keys pub_keys w = record w { node = record w.node { pub_keys = pub_keys } }

  -- A key generation that is ready gives the keys of the next era.
  unfoldable pub complete_key_gen : ℕ → KeyGenState d k → Method d k C e (ChangeState d)
  unfolding set_pub_keys restart
  complete_key_gen era kgs = do
    modify (set_pub_keys (k.public_keys kgs.key_gen))
    made ← lift (map_err sync_key_gen (e.generate kgs.key_gen))
    node ← gets (λ w. w.node)
    let our_id = k.our_id (k.netinfo node.honey_badger)
    let netinfo = k.new_netinfo our_id made.1 made.0 (keys node.pub_keys)
    restart d k C e era (k.params node.honey_badger) netinfo
    pure (complete (node_change node.pub_keys))

  unfoldable pub follow_winner :
      Step → ℕ → Option (Change d) → Method d k C e (Step × ChangeState d)
  unfolding update_key_gen update_encryption_schedule
  follow_winner step era none = pure (step, no_change)
  follow_winner step era (some (node_change pub_keys)) = do
    more ← update_key_gen d k C e era pub_keys
    pure (e.extend step more, in_progress (node_change pub_keys))
  follow_winner step era (some (encryption_schedule schedule)) = do
    update_encryption_schedule d k C e era schedule
    pure (step, complete (encryption_schedule schedule))

  -- `let change = ...`, where `era` is that of a restart.
  unfoldable pub decide_change : Step → ℕ → Method d k C e (Step × ChangeState d)
  unfolding on_node complete_key_gen follow_winner
  decide_change step era = do
    ready ← on_node d k C e (λ s. let (g, s') = take_ready_key_gen d k s in (ok g, s'))
    elim ready [
      | some kgs ↦ complete_key_gen era kgs >>= λ change. pure (step, change)
      | none ↦ gets (λ w. compute_winner d w.node.vote_counter) >>= follow_winner step era
    ]

  unfoldable pub process_batch : Step → HbBatch d k C → Method d k C e Step
  unfolding commit_contributions decide_change
  process_batch step hb_batch = do
    batch_era ← gets (λ w. w.node.era)
    let batch_epoch = u64 (hb_batch.epoch + batch_era)
    committed ← commit_contributions step hb_batch.contributions []
    decided ← decide_change committed.0 (u64 (batch_epoch + 1))
    node ← gets (λ w. w.node)
    pure (
        e.push_output decided.0 (record {
          epoch = batch_epoch;
          era = batch_era;
          contributions = committed.1;
          change = decided.1;
          pub_keys = node.pub_keys;
          netinfo = k.netinfo node.honey_badger;
          params = k.params node.honey_badger;
        }))

  unfoldable pub process_batches : Step → List (HbBatch d k C) → Method d k C e Step
  unfolding process_batch
  process_batches step [] = pure step
  process_batches step (b ∷ bs) = do step' ← process_batch step b; process_batches step' bs

  unfoldable pub process_output : HbStep → Method d k C e Step
  unfolding process_batches
  process_output hb_step = do
    era ← gets (λ w. w.node.era)
    process_batches (e.extend_with e.default hb_step hb_fault (honey_badger era))
        (e.hb_output hb_step)
