-- ===== src/HoneyBadger/KeyGen/Era.antt =====
-- dynamic_honey_badger.rs: the buffer of key generation messages and the vote counter belong to the
-- current era.
use mina_os.Base.{ℕ, ◌<◌, ◌≡◌, All}
use mina_os.HoneyBadger.Deps.{Deps, Except}
use mina_os.HoneyBadger.KeyGen.{
  KeyGens, Params, KeyGenMessage, SignedKeyGenMsg, DynamicHoneyBadger, restart_honey_badger,
  take_ready_key_gen, handle_key_gen_message, send_transaction,
}

module _ (d : Deps) (k : KeyGens d)
    (serialize : KeyGenMessage d k → Except d.SerializeError d.Bytes) where
  open d use {NodeId, Signature}

  -- Every buffered message is of the current era, and so is the vote counter.
  pub record IsCurrent (s : DynamicHoneyBadger d k) : Type 0 where
    pub messages : All (λ (m : SignedKeyGenMsg d k). m.era ≡ s.era) s.key_gen_msg_buffer
    pub votes : s.vote_counter.era ≡ s.era

  -- The steps that change this state.
  pub data Step : Type 0 where
    received : NodeId → KeyGenMessage d k → Signature → Step
    sent : KeyGenMessage d k → Step
    taken : Step
    restarted : ℕ → Params d k.Strategy → k.NetworkInfo → Step

  -- A restart goes to a later era.
  abbrev pub Allowed : DynamicHoneyBadger d k → Step → Type 0
  Allowed s (restarted era params netinfo) = s.era < era
  Allowed s _ = Unit {0}

  abbrev pub step : DynamicHoneyBadger d k → Step → DynamicHoneyBadger d k
  step s (received n m sig) = (handle_key_gen_message d k serialize s n m sig).1
  step s (sent m) = (send_transaction d k serialize s m).1
  step s taken = (take_ready_key_gen d k s).1
  step s (restarted era params netinfo) = restart_honey_badger d k era params netinfo s

  pub data Reaches : DynamicHoneyBadger d k → DynamicHoneyBadger d k → Type 0 where
    here : (s : DynamicHoneyBadger d k) → Reaches s s
    next :
        (s t : DynamicHoneyBadger d k) (a : Step) → Allowed s a → Reaches (step s a) t → Reaches s t
