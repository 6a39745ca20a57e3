-- ===== src/HoneyBadger/Batch/Views.antt =====
-- batch.rs: what a batch shows of itself.
use mina_os.Base.{ℕ, List}
use mina_os.HoneyBadger.Deps.{Deps, PubKeyMap, ChangeState}
use mina_os.HoneyBadger.KeyGen.{KeyGens}
use mina_os.HoneyBadger.Batch.{Batch}

module _ (d : Deps) (k : KeyGens d) (C : Type 0) where
  unfoldable pub epoch : Batch d k C → ℕ
  epoch b = b.epoch

  unfoldable pub era : Batch d k C → ℕ
  era b = b.era

  unfoldable pub change : Batch d k C → ChangeState d
  change b = b.change

  unfoldable pub public_keys : Batch d k C → PubKeyMap d
  public_keys b = b.pub_keys

  unfoldable pub network_info : Batch d k C → k.NetworkInfo
  network_info b = b.netinfo

  -- The pairs in the order of their nodes.
  unfoldable pub contributions : Batch d k C → List (d.NodeId × C)
  contributions b = b.contributions
