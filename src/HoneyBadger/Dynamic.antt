-- ===== src/HoneyBadger/Dynamic.antt =====
-- consensus/bft/honey_badger/dynamic_honey_badger.rs: the restarts and the key generation of a
-- node.  `Dynamic.Output` has `process_output`, and `Dynamic.Calls` the calls from outside.
pub mod Views
pub mod Alike
pub mod Sound
pub mod Quiet
pub mod Returns
pub mod Output
pub mod Calls
pub mod Joining
use mina_os.Base.{
  ℕ, Bool, true, false, not, Option, none, some, List, [], ◌∷◌, if◌then◌else◌, length, ite,
}
use mina_os.HoneyBadger.Deps.{
  Deps, Except, ok, err, map_err, Error, PubKeyMap, Result, change_eq, node_change, sync_key_gen,
  unexpected_key_gen_part, unexpected_key_gen_ack, sync_key_gen_part, sync_key_gen_ack,
}
use mina_os.HoneyBadger.KeyGen
use mina_os.HoneyBadger.KeyGen.{
  KeyGens, Params, DynamicHoneyBadger, KeyGenState, KeyGenMessage, part, ack, Message, new_state,
  candidate_keys, restart_honey_badger,
}
use mina_os.HoneyBadger.Engine.{Engine, PartOutcome, AckOutcome, invalid}
use mina_os.HoneyBadger.Exec.{Exec, pure, gets, lift, modify, ◌>>=◌, ◌>>◌}

module _ (d : Deps) (k : KeyGens d) (C : Type 0) (e : Engine d k C) where
  open d use {NodeId}
  open e use {Step, Rng}

  -- A node with the random numbers.
  pub record World : Type 0 where
    pub node : DynamicHoneyBadger d k
    pub rng : Rng

  abbrev pub Method : Type 0 → Type 0
  Method = Exec (Error d.SerializeError d.HbError d.KeyGenError) World

  -- A method that draws no random numbers.
  unfoldable pub on_node :
      {A : Type 0} → (DynamicHoneyBadger d k → Result d A × DynamicHoneyBadger d k) → Method A
  on_node f w = let (r, s) = f w.node in (r, record w { node = s })

  unfoldable pub send_transaction : KeyGenMessage d k → Method Step
  send_transaction m = do
    msg ← on_node (λ s. KeyGen.send_transaction d k e.serialize_key_gen s m)
    pure (e.to_all msg)

  unfoldable pub restart : ℕ → Params d k.Strategy → k.NetworkInfo → Method (Unit {0})
  restart era params netinfo =
      modify λ w. record w { node = restart_honey_badger d k era params netinfo w.node }

  unfoldable pub update_encryption_schedule : ℕ → d.EncryptionSchedule → Method (Unit {0})
  unfolding restart
  update_encryption_schedule era schedule = do
    params ← gets (λ w. k.params w.node.honey_badger)
    netinfo ← gets (λ w. k.netinfo w.node.honey_badger)
    restart era (record params { encryption_schedule = schedule }) netinfo

  -- `SyncKeyGen::new`.
  unfoldable pub new_key_gen : PubKeyMap d → Method (k.SyncKeyGen × Option k.Part)
  new_key_gen pub_keys w =
      let our_id = k.our_id (k.netinfo w.node.honey_badger) in
      let (r, rng) =
        e.new_key_gen our_id w.node.secret_key pub_keys (d.max_faulty (length pub_keys)) w.rng in
      (map_err sync_key_gen r, record w { rng = rng })

  unfoldable pub set_key_gen_state : Option (KeyGenState d k) → World → World
  set_key_gen_state g w = record w { node = record w.node { key_gen_state = g } }

  unfoldable pub send_part : Option k.Part → Method Step
  unfolding send_transaction
  send_part none = pure e.default
  send_part (some p) = send_transaction (part p)

  -- The rest of `update_key_gen` after its first `if`.
  unfoldable pub renew_key_gen : ℕ → PubKeyMap d → Method Step
  unfolding restart new_key_gen set_key_gen_state send_part new_state
  renew_key_gen era pub_keys = do
    params ← gets (λ w. k.params w.node.honey_badger)
    netinfo ← gets (λ w. k.netinfo w.node.honey_badger)
    restart era params netinfo
    made ← new_key_gen pub_keys
    modify (set_key_gen_state (some (new_state d k made.0)))
    send_part made.1

  -- `key_gen_state.map(public_keys) == Some(&pub_keys)`.
  unfoldable pub generates : PubKeyMap d → DynamicHoneyBadger d k → Bool
  generates pub_keys s = elim s.key_gen_state [
    | none ↦ false
    | some kgs ↦
        ite (change_eq d (node_change (k.public_keys kgs.key_gen)) (node_change pub_keys)) true
          false
  ]

  -- The body of the first `if` is `Ok(Step::default());`, whose value is dropped.
  unfoldable pub update_key_gen : ℕ → PubKeyMap d → Method Step
  unfolding renew_key_gen generates
  update_key_gen era pub_keys = do
    same ← gets (λ w. generates pub_keys w.node)
    let rest = renew_key_gen era pub_keys
    if same then rest else rest

  unfoldable pub run_part :
      KeyGenState d k → NodeId → k.Part → Method (PartOutcome k.Ack d.PartFault)
  run_part kgs sender p w =
      let (r, kg, rng) = e.kg_handle_part kgs.key_gen sender p w.rng in
      (
        map_err sync_key_gen r,
        record w {
          node = record w.node { key_gen_state = some (record kgs { key_gen = kg }) };
          rng = rng;
        },
      )

  unfoldable pub part_step : NodeId → PartOutcome k.Ack d.PartFault → Method Step
  unfolding send_transaction
  part_step sender (PartOutcome.valid (some a)) = send_transaction (ack a)
  part_step sender (PartOutcome.valid none) = pure e.default
  part_step sender (PartOutcome.invalid f) = pure (e.of_fault sender (sync_key_gen_part f))

  -- With no key generation under way the fault is returned: the branch has no other value.
  unfoldable pub handle_part : NodeId → k.Part → Method Step
  unfolding run_part part_step
  handle_part sender p = do
    state ← gets (λ w. w.node.key_gen_state)
    elim state [
      | none ↦ pure (e.of_fault sender unexpected_key_gen_part)
      | some kgs ↦ run_part kgs sender p >>= part_step sender
    ]

  unfoldable pub run_ack : KeyGenState d k → NodeId → k.Ack → Method (AckOutcome d.AckFault)
  run_ack kgs sender a w =
      let (r, kg) = e.kg_handle_ack kgs.key_gen sender a in
      (
        map_err sync_key_gen r,
        record w { node = record w.node { key_gen_state = some (record kgs { key_gen = kg }) } },
      )

  unfoldable pub ack_step : NodeId → AckOutcome d.AckFault → Method Step
  ack_step sender AckOutcome.valid = pure e.default
  ack_step sender (AckOutcome.invalid f) = pure (e.of_fault sender (sync_key_gen_ack f))

  unfoldable pub handle_ack : NodeId → k.Ack → Method Step
  unfolding run_ack ack_step
  handle_ack sender a = do
    state ← gets (λ w. w.node.key_gen_state)
    elim state [
      | none ↦ pure (e.of_fault sender unexpected_key_gen_ack)
      | some kgs ↦ run_ack kgs sender a >>= ack_step sender
    ]
