-- ===== src/HoneyBadger.antt =====
-- consensus/bft/honey_badger: the dynamic Honey Badger consensus.
pub mod Deps
pub mod Votes
pub mod KeyGen
pub mod Voting
pub mod Batch
pub mod Engine
pub mod Exec
pub mod Dynamic
pub mod Builder
mod Sample
