-- ===== src/HoneyBadger/Sample/Badger.antt =====
-- A concrete Honey Badger and key generation, and a node, on which the theorems are applied.
use mina_os.Base.{ℕ, ◌+◌, ◌*◌, refl, true, some, List, [], ◌∷◌}
use mina_os.HoneyBadger.Deps.{Except, ok}
use mina_os.HoneyBadger.KeyGen.{Params, KeyGens, KeyGenMessage, part, ack, DynamicHoneyBadger}
use mina_os.HoneyBadger.Sample.{deps, counter}

pub record SampleNetwork : Type 0 where
  pub our_id : ℕ
  pub public_key_set : ℕ
  pub all_ids : List ℕ

pub record SampleBadger : Type 0 where
  pub netinfo : SampleNetwork
  pub params : Params deps (Unit {0})
  pub epoch : ℕ

-- A key generation is its number of complete parts.
abbrev pub gens : KeyGens deps
gens = record {
  Part = ℕ;
  Ack = ℕ;
  SyncKeyGen = ℕ;
  public_keys = λ g. (0, 10) ∷ (1, 11) ∷ (4, 14) ∷ [];
  num_nodes = λ g. 3;
  is_ready = λ g. true;
  count_complete = λ g. g;
  HoneyBadger = SampleBadger;
  HbMessage = ℕ;
  Strategy = Unit {0};
  PublicKeySet = ℕ;
  SecretKeyShare = ℕ;
  NetworkInfo = SampleNetwork;
  our_id = λ n. n.our_id;
  is_validator = λ n. true;
  public_key_set = λ n. n.public_key_set;
  all_ids = λ n. n.all_ids;
  new_netinfo = λ n sk pks ids. record { our_id = n; public_key_set = pks; all_ids = ids };
  our_id-new_netinfo = λ n sk pks ids. refl;
  public_key_set-new_netinfo = λ n sk pks ids. refl;
  all_ids-new_netinfo = λ n sk pks ids. refl;
  netinfo = λ b. b.netinfo;
  params = λ b. b.params;
  build = λ n era p epoch. record { netinfo = n; params = p; epoch = epoch };
  first_epoch = 0;
  netinfo-build = λ n era p epoch. refl;
  params-build = λ n era p epoch. refl;
}

abbrev pub params : ℕ → Params deps (Unit {0})
params schedule = record {
  max_future_epochs = 3;
  subset_handling_strategy = tt;
  encryption_schedule = schedule;
}

abbrev pub network : SampleNetwork
network = record { our_id = 0; public_key_set = 1; all_ids = 0 ∷ 1 ∷ 2 ∷ 3 ∷ [] }

abbrev pub serialize_key_gen : KeyGenMessage deps gens → Except (Unit {0}) ℕ
serialize_key_gen (part p) = ok (2 * p)
serialize_key_gen (ack a) = ok (2 * a + 1)

-- Node 0 in era 5, with a key generation under way and one message buffered.
abbrev pub badger : DynamicHoneyBadger deps gens
badger = record {
  secret_key = 10;
  pub_keys = counter.pub_keys;
  max_future_epochs = 3;
  era = 5;
  vote_counter = counter;
  key_gen_msg_buffer = record { era = 5; sender = 1; message = part 8; sig = (11, 16) } ∷ [];
  honey_badger = record { netinfo = network; params = params 7; epoch = 0 };
  key_gen_state = some (record { key_gen = 3; msg_count = [] });
}
