-- ===== src/HoneyBadger/Deps.antt =====
-- What consensus/bft/honey_badger takes from elsewhere: node names, keys, signatures, fault logs,
-- and the error and change types of the modules `change` and `error`, which the repository does not
-- hold; their constructors are those that the code matches on and builds.
use mina_os.Base.{ℕ, Bool, List, ◌++◌, [], ◌∷◌, ◌≡◌, ◌⊎◌, inl, inr, refl}
use mina_os.Base.BTreeMap.{Ord, BTreeMap}

-- Rust's `Result`.
pub data Except (E A : Type 0) : Type 0 where
  ok : A → Except E A
  err : E → Except E A

abbrev pub map_err : {E F A : Type 0} → (E → F) → Except E A → Except F A
map_err f (ok a) = ok a
map_err f (err e) = err (f e)

pub Except-cases :
    {E A : Type 0} (r : Except E A) → ((e : E) × (r ≡ err e)) ⊎ ((a : A) × (r ≡ ok a))
Except-cases (err e) = inl (e, refl)
Except-cases (ok a) = inr (a, refl)

-- `fault_log::FaultLog`: built by `new`, `init` and `extend`; `entries` is what it holds.
pub record FaultLogs (Node Kind : Type 0) : Type 1 where
  pub Log : Type 0
  pub new : Log
  pub init : Node → Kind → Log
  pub extend : Log → Log → Log
  pub entries : Log → List (Node × Kind)
  pub entries-new : entries new ≡ []
  pub entries-init : (n : Node) (k : Kind) → entries (init n k) ≡ (n, k) ∷ []
  pub entries-extend : (a b : Log) → entries (extend a b) ≡ entries a ++ entries b

-- The faults that the code reports of another node.
pub data FaultKind (HbFault PartFault AckFault : Type 0) : Type 0 where
  unexpected_dhb_message_era : FaultKind HbFault PartFault AckFault
  invalid_vote_signature : FaultKind HbFault PartFault AckFault
  invalid_committed_vote : FaultKind HbFault PartFault AckFault
  invalid_key_gen_message_signature : FaultKind HbFault PartFault AckFault
  invalid_key_gen_message_era : FaultKind HbFault PartFault AckFault
  unexpected_key_gen_message : FaultKind HbFault PartFault AckFault
  too_many_key_gen_messages : FaultKind HbFault PartFault AckFault
  unexpected_key_gen_part : FaultKind HbFault PartFault AckFault
  unexpected_key_gen_ack : FaultKind HbFault PartFault AckFault
  hb_fault : HbFault → FaultKind HbFault PartFault AckFault
  sync_key_gen_part : PartFault → FaultKind HbFault PartFault AckFault
  sync_key_gen_ack : AckFault → FaultKind HbFault PartFault AckFault

pub data Error (SerializeError HbError KeyGenError : Type 0) : Type 0 where
  invalid_join_plan unknown_sender : Error SerializeError HbError KeyGenError
  serialize_vote : SerializeError → Error SerializeError HbError KeyGenError
  serialize_key_gen : SerializeError → Error SerializeError HbError KeyGenError
  propose_honey_badger : HbError → Error SerializeError HbError KeyGenError
  handle_honey_badger_message : HbError → Error SerializeError HbError KeyGenError
  sync_key_gen : KeyGenError → Error SerializeError HbError KeyGenError

-- The types that the code is generic in or imports, and the functions of `crypto` and `util`.
pub record Deps : Type 1 where
  pub NodeId : Type 0
  pub PublicKey : Type 0
  pub SecretKey : Type 0
  pub Signature : Type 0
  pub EncryptionSchedule : Type 0
  pub Bytes : Type 0
  pub SerializeError : Type 0
  pub HbError : Type 0
  pub KeyGenError : Type 0
  pub HbFault : Type 0
  pub PartFault : Type 0
  pub AckFault : Type 0
  pub node_ord : Ord NodeId
  pub public_key_eq : Discrete PublicKey
  pub schedule_eq : Discrete EncryptionSchedule
  pub sign : SecretKey → Bytes → Signature
  pub verify : PublicKey → Signature → Bytes → Bool
  pub max_faulty : ℕ → ℕ
  pub logs : FaultLogs NodeId (FaultKind HbFault PartFault AckFault)

module _ (d : Deps) where
  open d use {NodeId, PublicKey, EncryptionSchedule}

  abbrev pub PubKeyMap : Type 0
  PubKeyMap = BTreeMap NodeId PublicKey

  abbrev pub Kind : Type 0
  Kind = FaultKind d.HbFault d.PartFault d.AckFault

  abbrev pub FaultLog : Type 0
  FaultLog = d.logs.Log

  abbrev pub Result : Type 0 → Type 0
  Result = Except (Error d.SerializeError d.HbError d.KeyGenError)

  -- `change::Change` and `change::ChangeState`.
  pub data Change : Type 0 where
    node_change : PubKeyMap → Change
    encryption_schedule : EncryptionSchedule → Change

  pub data ChangeState : Type 0 where
    no_change : ChangeState
    in_progress : Change → ChangeState
    complete : Change → ChangeState

  unfoldable pub change_eq : Discrete Change
  change_eq = hlevel (d.node_ord.decide_eq, d.public_key_eq, d.schedule_eq)

  unfoldable pub change_state_eq : Discrete ChangeState
  change_state_eq = hlevel change_eq
