-- ===== src/HoneyBadger/Sample/Machine.antt =====
-- A concrete Honey Badger that runs, and a node with it, on which the theorems are applied.
use mina_os.Base.{leb, ℕ, ℕ_discrete, ◌+◌, refl, false, none, some, List, [], ◌∷◌, ◌++◌}
use mina_os.HoneyBadger.Deps.{ok}
use mina_os.HoneyBadger.Batch.{Batch}
use mina_os.HoneyBadger.Engine.{Engine, HbBatch, PartOutcome, AckOutcome}
use mina_os.HoneyBadger.Dynamic.{World}
use mina_os.HoneyBadger.Sample.{deps, serialize, signed_vote, vote}
use mina_os.HoneyBadger.Sample.Badger.{gens, serialize_key_gen, badger}

-- A step is its batches.  A proposal makes the batch of the next epoch, with this contribution of
-- node 0 alone.
abbrev pub machine : Engine deps gens ℕ
machine = record {
  Step = List (Batch deps gens ℕ);
  default = [];
  of_fault = λ n f. [];
  of_faults = λ l. [];
  to_all = λ m. [];
  append_fault = λ s n f. s;
  extend_faults = λ s l. s;
  extend = λ s t. s ++ t;
  push_output = λ s b. s ++ (b ∷ []);
  output = λ s. s;
  output-default = refl;
  output-of_fault = λ n f. refl;
  output-of_faults = λ l. refl;
  output-to_all = λ m. refl;
  output-append_fault = λ s n f. refl;
  output-extend_faults = λ s l. refl;
  output-extend = λ s t. refl;
  output-push_output = λ s b. refl;
  HbStep = List (HbBatch deps gens ℕ);
  extend_with = λ s h f m. s;
  hb_output = λ h. h;
  output-extend_with = λ s h f m. refl;
  Rng = ℕ;
  hb_propose = λ b c r. (
    ok (record { epoch = b.epoch + 1; contributions = (0, c) ∷ [] } ∷ []),
    record b { epoch = b.epoch + 1 },
    r,
  );
  hb_handle_message = λ b n m. (ok [], b);
  has_input = λ b. false;
  received_proposals = λ b. 0;
  next_epoch = λ b. b.epoch;
  epoch = λ b. b.epoch;
  num_faulty = λ n. 1;
  is_node_validator = λ n i. leb i 4;
  new_key_gen = λ n sk pks t r. (ok (0, some 6), r + 1);
  kg_handle_part = λ g n p r. (ok (PartOutcome.valid (some p)), g + 1, r + 1);
  kg_handle_ack = λ g n a. (ok AckOutcome.valid, g);
  generate = λ g. ok (g, none);
  key_gen_msg_eq = hlevel ℕ_discrete;
  serialize_vote = serialize;
  serialize_key_gen = serialize_key_gen;
}

abbrev pub world : World deps gens ℕ machine
world = record { node = badger; rng = 3 }

-- A batch of Honey Badger, with a contribution of node 1 and its vote.
abbrev pub hb_batch : HbBatch deps gens ℕ
hb_batch = record {
  epoch = 2;
  contributions =
      (1, record { contrib = 40; key_gen_messages = []; votes = signed_vote 1 (vote 7 3) ∷ [] })
      ∷ [];
}
