-- ===== src/HoneyBadger/Sample/Working.antt =====
-- The concrete Honey Badger fails nowhere, and two of its nodes share what is public.
use mina_os.Base.{ℕ, ◌+◌, ◌≡◌, refl, sym, ap, ◌∙◌, []}
use mina_os.HoneyBadger.Deps.{Except, ok}
use mina_os.HoneyBadger.KeyGen.{KeyGenMessage, part, ack}
use mina_os.HoneyBadger.Sample.{deps, counter}
use mina_os.HoneyBadger.Sample.Badger.{gens, badger, network}
use mina_os.HoneyBadger.Sample.Machine.{machine, world}
use mina_os.HoneyBadger.Exec.Returns.{IsOk}
use mina_os.HoneyBadger.Dynamic.{World}
use mina_os.HoneyBadger.Dynamic.Returns.{Works}
use mina_os.HoneyBadger.Dynamic.Alike.{Synchronous, Alike}

messages_work : (m : KeyGenMessage deps gens) → IsOk (machine.serialize_key_gen m)
messages_work (part p) = tt
messages_work (ack a) = tt

pub works : Works deps gens ℕ machine
works = record {
  votes = λ v. tt;
  messages = messages_work;
  key_gens = λ n sk pks t r. tt;
  parts = λ g n p r. tt;
  acks = λ g n a. tt;
  keys = λ g. tt;
  proposals = λ b c r. tt;
  received = λ b n m. tt;
}

ok_fst :
    {X : Type 0} (p made : ℕ × X)
    → (let r : Except (Unit {0}) (ℕ × X) = ok p in r ≡ ok made)
    → p.0 ≡ made.0
ok_fst p made h = let q : p ≡ made = cc in ap (λ x. x.0) q

-- Key generations agree here where they have as many complete parts.
pub synchronous : Synchronous deps gens ℕ machine (λ g g'. g ≡ g')
synchronous = record {
  itself = λ g. refl;
  keys = λ g g' h. refl;
  ready = λ g g' h. refl;
  complete = λ g g' h. h;
  parts = λ g g' n p r r' h. ap (λ x. x + 1) h;
  acks = λ g g' n a h. h;
  fresh = λ n n' sk sk' pks t r r' made made' h h'. sym (ok_fst _ made h) ∙ ok_fst _ made' h';
  generated = λ g g' made made' r h h'. sym (ok_fst _ made h) ∙ (r ∙ ok_fst _ made' h');
}

-- Node 3 of the same network: its name, key, pending votes, buffer and random numbers are its own.
abbrev pub peer : World deps gens ℕ machine
peer = record {
  node = record badger {
    secret_key = 13;
    vote_counter = record counter { our_id = 3; secret_key = 13; pending = [] };
    honey_badger = record badger.honey_badger { netinfo = record network { our_id = 3 } };
    key_gen_msg_buffer = [];
  };
  rng = 9;
}

pub world-Alike : Alike deps gens ℕ machine (λ g g'. g ≡ g') synchronous world peer
world-Alike = record {
  era = refl;
  pub_keys = refl;
  votes = record { era = refl; pub_keys = refl; committed = refl };
  params = refl;
  key_set = refl;
  key_gen = refl;
}
