-- ===== src/HoneyBadger/KeyGen/Tests.antt =====
-- A key generation of three nodes, and the theorems at concrete inputs.
use mina_os.Base.{◌≡◌, refl, false, [], ◌∷◌, ◌++◌, ℕ_discrete}
use mina_os.Base.BTreeMap.{get}
use mina_os.HoneyBadger.Deps.{ok}
use mina_os.HoneyBadger.Sample.Badger.{gens, badger, params, network}
use mina_os.HoneyBadger.Sample.Badger.{serialize_key_gen as serialize}
use mina_os.HoneyBadger.Sample.{deps}
use mina_os.HoneyBadger.KeyGen.{ack, DynamicHoneyBadger, verify_signature, handle_key_gen_message}
use mina_os.HoneyBadger.KeyGen.Era.{Step, step, received, restarted}
use mina_os.HoneyBadger.KeyGen.Count.{handle_key_gen_message_unchecked}

-- A restart in era 7, a message of node 1, and one of this node.
abbrev restart : Step deps gens serialize
restart = restarted 7 (params 7) network

abbrev receipt : Step deps gens serialize
receipt = received 1 (ack 3) (11, 7)

abbrev later : DynamicHoneyBadger deps gens
later = step deps gens serialize (step deps gens serialize badger restart) receipt

-- The signature is that of another message.
unverified : verify_signature deps gens serialize badger 1 (11, 5) (ack 3) ≡ ok false
unfolding verify_signature get ℕ_discrete
unverified = refl

handle_key_gen_message_unchecked_example :
    ((handle_key_gen_message deps gens serialize badger 1 (ack 3) (11, 5)).0 ≡ ok [])
    × ((handle_key_gen_message deps gens serialize badger 1 (ack 3) (11, 5)).1.key_gen_msg_buffer
        ≡ badger.key_gen_msg_buffer
          ++ (record { era = 5; sender = 1; message = ack 3; sig = (11, 5) } ∷ []))
handle_key_gen_message_unchecked_example =
    handle_key_gen_message_unchecked deps gens serialize badger
      (record { key_gen = 3; msg_count = [] }) 1 (ack 3) (11, 5) false refl unverified
