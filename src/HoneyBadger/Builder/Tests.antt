-- ===== src/HoneyBadger/Builder/Tests.antt =====
-- Node 7 starts a network.
use mina_os.Base.{ℕ, ◌+◌, ◌≡◌, refl, some, List, [], ◌∷◌}
use mina_os.HoneyBadger.Deps.{PubKeyMap}
use mina_os.HoneyBadger.KeyGen.{DynamicHoneyBadger}
use mina_os.HoneyBadger.Sample.{deps}
use mina_os.HoneyBadger.Sample.Badger.{gens, params}
use mina_os.HoneyBadger.Sample.Machine.{machine}
use mina_os.HoneyBadger.Builder.{
  Keys, default, era, epoch, max_future_epochs, subset_handling_strategy, encryption_schedule,
  build_first_node,
}
use mina_os.HoneyBadger.Builder.First.{IsFirst, build_first_node-IsFirst}

abbrev to_keys : List (ℕ × ℕ) → PubKeyMap deps
to_keys [] = []
to_keys ((n, sk) ∷ m) = (n, sk) ∷ to_keys m

abbrev sample_keys : Keys deps gens ℕ machine
sample_keys = record {
  SecretKeySet = ℕ;
  random = λ t r. (r, r + 1);
  public_keys = λ s. s;
  secret_key_share = λ s i. i;
  gen = λ r. (r, r + 1);
  to_pub_keys = to_keys;
  keys-to_pub_keys = λ n sk. refl;
  default_params = params 0;
}

build_first_node-IsFirst_example :
    (s : DynamicHoneyBadger deps gens) × ((build_first_node deps gens ℕ machine sample_keys 7
        (era deps gens ℕ machine sample_keys 2 (
          epoch deps gens ℕ machine sample_keys 3 (
            max_future_epochs deps gens ℕ machine sample_keys 4 (
              subset_handling_strategy deps gens ℕ machine sample_keys tt (
                encryption_schedule deps gens ℕ machine sample_keys 9
                  (default deps gens ℕ machine sample_keys))))))
        11).0
      ≡ some s)
    × IsFirst deps gens ℕ machine sample_keys 7 2 3
        (record { max_future_epochs = 4; subset_handling_strategy = tt; encryption_schedule = 9 })
        s
build_first_node-IsFirst_example =
    build_first_node-IsFirst deps gens ℕ machine sample_keys 7 2 3 4 tt 9 11
