-- ===== src/HoneyBadger/Votes.antt =====
-- consensus/bft/honey_badger/votes.rs: votes for changes, and the counter that collects them.
-- A method takes the counter and returns its result with the counter after it, errors included.
pub mod Integrity
pub mod Winner
pub mod Order
pub mod Frame
pub mod History
mod Tests
mod ScenarioTests
pub mod Batches
pub mod Reorder
pub mod Travel
pub mod Public
pub mod Scenario
use mina_os.Base.{
  ℕ, zero, suc, ◌+◌, ◌%◌, ◌^◌, Bool, true, false, ◌||◌, not, Option, none, some, List, [], ◌∷◌,
  ◌==◌, ltb, leb, if◌then◌else◌, ite, length,
}
use mina_os.Base.BTreeMap.{BTreeMap, get, insert, remove}
use mina_os.HoneyBadger.Deps.{
  Deps, Except, ok, err, map_err, PubKeyMap, Kind, FaultKind, FaultLog, Result, Error, Change,
  change_eq, serialize_vote, invalid_vote_signature, invalid_committed_vote,
}

module _ (d : Deps) where
  open d use {NodeId, PublicKey, SecretKey, Signature, Bytes, SerializeError, node_ord}

  pub record Vote : Type 0 where
    pub change : Change d
    pub era : ℕ
    pub num : ℕ

  pub record SignedVote : Type 0 where
    pub vote : Vote
    pub voter : NodeId
    pub sig : Signature

  pub record VoteCounter : Type 0 where
    pub our_id : NodeId
    pub secret_key : SecretKey
    pub pub_keys : PubKeyMap d
    pub era : ℕ
    pub pending : BTreeMap NodeId SignedVote
    pub committed : BTreeMap NodeId Vote

  unfoldable pub new : NodeId → SecretKey → PubKeyMap d → ℕ → VoteCounter
  new our_id secret_key pub_keys era = record {
    our_id = our_id;
    secret_key = secret_key;
    pub_keys = pub_keys;
    era = era;
    pending = [];
    committed = [];
  }

  abbrev pub find_pending : VoteCounter → NodeId → Option SignedVote
  find_pending vc n = get ⦃o = node_ord⦄ vc.pending n

  abbrev pub find_committed : VoteCounter → NodeId → Option Vote
  find_committed vc n = get ⦃o = node_ord⦄ vc.committed n

  -- `map_or(false, |sv| sv.vote.num >= num)` on an entry of `pending`.
  abbrev pub pending_reaches : Option SignedVote → ℕ → Bool
  pending_reaches none num = false
  pending_reaches (some sv) num = leb num sv.vote.num

  -- The same on an entry of `committed`.
  abbrev pub committed_reaches : Option Vote → ℕ → Bool
  committed_reaches none num = false
  committed_reaches (some v) num = leb num v.num

  -- `map_or(0, |sv| sv.vote.num + 1)`.
  abbrev pub next_num : Option SignedVote → ℕ
  next_num none = 0
  next_num (some sv) = (sv.vote.num + 1) % 2 ^ 64

  -- `values()` of a map.
  abbrev pub values : {V : Type 0} → BTreeMap NodeId V → List V
  values [] = []
  values ((n, v) ∷ m) = v ∷ values m

  -- A vote is waiting if it is newer than the voter's committed vote, or there is none.
  abbrev pub is_newer : VoteCounter → SignedVote → Bool
  is_newer vc sv = elim (find_committed vc sv.voter) [
    | none ↦ true
    | some v ↦ ltb v.num sv.vote.num
  ]

  abbrev pub keep : (SignedVote → Bool) → List SignedVote → List SignedVote
  keep p [] = []
  keep p (sv ∷ svs) = if p sv then sv ∷ keep p svs else keep p svs

  unfoldable pub pending_votes : VoteCounter → List SignedVote
  pending_votes vc = keep (is_newer vc) (values vc.pending)

  -- `vote_counts`, a hash map from changes, as the function from a change to its count so far.
  unfoldable pub raise : Change d → (Change d → ℕ) → Change d → ℕ
  raise c counts c' = ite (change_eq d c c') (suc (counts c)) (counts c')

  -- The loop of `compute_winner`: the first change whose count passes the limit.
  unfoldable pub tally : ℕ → List Vote → (Change d → ℕ) → Option (Change d)
  tally limit [] counts = none
  tally limit (v ∷ vs) counts =
      let counts' = raise v.change counts in
      let rest = tally limit vs counts' in
      if ltb limit (counts' v.change) then some v.change else rest

  unfoldable pub compute_winner : VoteCounter → Option (Change d)
  compute_winner vc = tally (d.max_faulty (length vc.pub_keys)) (values vc.committed) (λ _. 0)

  -- `bincode::serialize` of a vote.
  module _ (serialize : Vote → Except SerializeError Bytes) where
    abbrev pub verifies : Option PublicKey → Signature → Bytes → Bool
    verifies none sig ser = false
    verifies (some pk) sig ser = d.verify pk sig ser

    unfoldable pub validate : VoteCounter → SignedVote → Result d Bool
    validate vc sv = elim (serialize sv.vote) [
      | err e ↦ err (serialize_vote e)
      | ok ser ↦ ok (verifies (get ⦃o = node_ord⦄ vc.pub_keys sv.voter) sv.sig ser)
    ]

    unfoldable pub sign_vote_for : VoteCounter → Change d → Result d SignedVote × VoteCounter
    sign_vote_for vc change =
        let vote : Vote = record {
          change = change;
          era = vc.era;
          num = next_num (find_pending vc vc.our_id);
        } in
        elim (serialize vote) [
          | err e ↦ (err (serialize_vote e), vc)
          | ok ser ↦
              let sv : SignedVote = record {
                vote = vote;
                voter = vc.our_id;
                sig = d.sign vc.secret_key ser;
              } in
              (
                ok sv,
                record vc {
                  pending =
                      insert ⦃o = node_ord⦄ vc.our_id sv
                        (remove ⦃o = node_ord⦄ vc.our_id vc.pending);
                },
              )
        ]

    -- The rest of `add_pending_vote` after its first `if`.
    unfoldable pub accept_pending :
        VoteCounter → NodeId → SignedVote → Result d (FaultLog d) × VoteCounter
    accept_pending vc sender_id sv = elim (validate vc sv) [
      | err e ↦ (err e, vc)
      | ok valid ↦
          if not valid
          then (ok (d.logs.init sender_id invalid_vote_signature), vc)
          else (ok d.logs.new, record vc { pending = insert ⦃o = node_ord⦄ sv.voter sv vc.pending })
    ]

    abbrev pub is_outdated : VoteCounter → SignedVote → Bool
    is_outdated vc sv =
        not (sv.vote.era == vc.era) || pending_reaches (find_pending vc sv.voter) sv.vote.num

    -- The body of the first `if` is `Ok(FaultLog::new());`, a statement with no `return`: its value
    -- is dropped, and both branches go on with the rest.
    unfoldable pub add_pending_vote :
        VoteCounter → NodeId → SignedVote → Result d (FaultLog d) × VoteCounter
    unfolding accept_pending
    add_pending_vote vc sender_id sv =
        let rest = accept_pending vc sender_id sv in if is_outdated vc sv then rest else rest

    -- The second `if` of `add_committed_vote`: `||` calls `validate` only in the counter's era.
    unfoldable pub commit_checked :
        Result d Bool → VoteCounter → NodeId → SignedVote → Result d (FaultLog d) × VoteCounter
    commit_checked (err e) vc proposer_id sv = (err e, vc)
    commit_checked (ok false) vc proposer_id sv =
        (ok (d.logs.init proposer_id invalid_committed_vote), vc)
    commit_checked (ok true) vc proposer_id sv = (
      ok d.logs.new,
      record vc { committed = insert ⦃o = node_ord⦄ sv.voter sv.vote vc.committed },
    )

    unfoldable pub add_committed_vote :
        VoteCounter → NodeId → SignedVote → Result d (FaultLog d) × VoteCounter
    unfolding commit_checked
    add_committed_vote vc proposer_id sv =
        if committed_reaches (find_committed vc sv.voter) sv.vote.num
        then (ok d.logs.new, vc)
        else commit_checked (if not (sv.vote.era == vc.era) then ok false else validate vc sv) vc
            proposer_id sv

    -- The loop of `add_committed_votes`, with the log so far; an error leaves the loop at once.
    unfoldable pub commit_each :
        VoteCounter → NodeId → List SignedVote → FaultLog d → Result d (FaultLog d) × VoteCounter
    commit_each vc proposer_id [] fault_log = (ok fault_log, vc)
    commit_each vc proposer_id (sv ∷ svs) fault_log =
        let (r, vc') = add_committed_vote vc proposer_id sv in
        elim r [
          | err e ↦ (err e, vc')
          | ok log ↦ commit_each vc' proposer_id svs (d.logs.extend fault_log log)
        ]

    unfoldable pub add_committed_votes :
        VoteCounter → NodeId → List SignedVote → Result d (FaultLog d) × VoteCounter
    unfolding commit_each
    add_committed_votes vc proposer_id svs = commit_each vc proposer_id svs d.logs.new
