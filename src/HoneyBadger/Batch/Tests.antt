-- ===== src/HoneyBadger/Batch/Tests.antt =====
-- Batches with two contributions, and the theorems at concrete inputs.
use mina_os.Base.{ℕ, ◌≡◌, ◌↔◌, true, List, [], ◌∷◌, ℕ_discrete}
use mina_os.Base.BTreeMap.{BTreeMap}
use mina_os.HoneyBadger.Deps.{PubKeyMap, no_change}
use mina_os.HoneyBadger.KeyGen.{Params}
use mina_os.HoneyBadger.Sample.{deps, counter}
use mina_os.HoneyBadger.Sample.Badger.{gens, params, network}
use mina_os.HoneyBadger.Batch.{Batch, public_eq}
use mina_os.HoneyBadger.Batch.PublicView.{view, public_eq_iff}

abbrev batch : Batch deps gens (List ℕ)
batch = record {
  epoch = 7;
  era = 5;
  contributions = (0, []) ∷ (2, 30 ∷ 31 ∷ []) ∷ [];
  change = no_change;
  pub_keys = counter.pub_keys;
  netinfo = network;
  params = params 7;
}

-- The same batch, as node 1 sees it.
abbrev other : Batch deps gens (List ℕ)
other = record batch { netinfo = record network { our_id = 1 } }

contributions_eq : Discrete (BTreeMap ℕ (List ℕ))
contributions_eq = hlevel ℕ_discrete

keys_eq : Discrete (PubKeyMap deps)
keys_eq = hlevel ℕ_discrete

params_eq : Discrete (Params deps (Unit {0}))
params_eq = hlevel ℕ_discrete

public_eq_iff_example :
    (public_eq deps gens (List ℕ) contributions_eq keys_eq ℕ_discrete params_eq batch other ≡ true)
    ↔ (view deps gens (List ℕ) batch ≡ view deps gens (List ℕ) other)
public_eq_iff_example =
    public_eq_iff deps gens (List ℕ) contributions_eq keys_eq ℕ_discrete params_eq batch other
