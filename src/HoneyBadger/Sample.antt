-- ===== src/HoneyBadger/Sample.antt =====
-- Concrete nodes, keys and signatures, on which the theorems of the consensus are applied.
pub mod Badger
pub mod Machine
pub mod Working
use mina_os.Base.{
  ℕ, ◌+◌, ◌-◌, ◌*◌, ◌/◌, ◌≡◌, refl, List, [], ◌∷◌, ◌++◌, arith, ◌==◌, ◌&&◌, ltb, length, ℕ_discrete,
  ◌≢◌, true, false,
}
use mina_os.Base.BTreeMap.{Ord}
use mina_os.HoneyBadger.Deps.{
  Deps, Except, ok, FaultLogs, FaultKind, Change, node_change, encryption_schedule,
}
use mina_os.HoneyBadger.Votes.{Vote, SignedVote, VoteCounter}

pub ltb_trans : (a b c : ℕ) → ltb a b ≡ true → ltb b c ≡ true → ltb a c ≡ true
ltb_trans a b c h k = ground arith

pub ltb_total : (a b : ℕ) → a ≢ b → ltb a b ≡ false → ltb b a ≡ true
ltb_total a b h k = ground arith

pub ltb_irrefl : (a : ℕ) → ltb a a ≡ false
ltb_irrefl a = ground arith

abbrev pub nat_ord : Ord ℕ
nat_ord = record {
  decide_eq = ℕ_discrete;
  lt = ltb;
  lt_irrefl = ltb_irrefl;
  lt_trans = ltb_trans;
  lt_total = ltb_total;
}

abbrev pub list_logs : (Kind : Type 0) → FaultLogs ℕ Kind
list_logs Kind = record {
  Log = List (ℕ × Kind);
  new = [];
  init = λ n k. (n, k) ∷ [];
  extend = λ a b. a ++ b;
  entries = λ l. l;
  entries-new = refl;
  entries-init = λ n k. refl;
  entries-extend = λ a b. refl;
}

-- A signature is the key with the signed number; a node's public key is its secret key.
abbrev pub deps : Deps
deps = record {
  NodeId = ℕ;
  PublicKey = ℕ;
  SecretKey = ℕ;
  Signature = ℕ × ℕ;
  EncryptionSchedule = ℕ;
  Bytes = ℕ;
  SerializeError = Unit {0};
  HbError = Unit {0};
  KeyGenError = Unit {0};
  HbFault = Unit {0};
  PartFault = Unit {0};
  AckFault = Unit {0};
  node_ord = nat_ord;
  public_key_eq = ℕ_discrete;
  schedule_eq = ℕ_discrete;
  sign = λ sk ser. (sk, ser);
  verify = λ pk sig ser. pk == sig.0 && ser == sig.1;
  max_faulty = λ n. (n - 1) / 3;
  logs = list_logs (FaultKind (Unit {0}) (Unit {0}) (Unit {0}));
}

abbrev pub change_code : Change deps → ℕ
change_code (node_change m) = length m
change_code (encryption_schedule s) = 100 + s

abbrev pub serialize : Vote deps → Except (Unit {0}) ℕ
serialize v = ok (change_code v.change + 1000 * v.num + 1000000 * v.era)

-- A vote of a node, signed with its key `10 + n`.
abbrev pub vote : ℕ → ℕ → Vote deps
vote schedule num = record { change = encryption_schedule schedule; era = 5; num = num }

abbrev pub signed_vote : ℕ → Vote deps → SignedVote deps
signed_vote n v = record {
  vote = v;
  voter = n;
  sig = (10 + n, change_code v.change + 1000 * v.num + 1000000 * v.era);
}

-- Node 0 of four, in era 5, with a committed vote of node 1 and a pending one of node 2.
abbrev pub counter : VoteCounter deps
counter = record {
  our_id = 0;
  secret_key = 10;
  pub_keys = (0, 10) ∷ (1, 11) ∷ (2, 12) ∷ (3, 13) ∷ [];
  era = 5;
  pending = (2, signed_vote 2 (vote 7 4)) ∷ [];
  committed = (1, vote 7 2) ∷ [];
}
