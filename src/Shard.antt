-- ===== src/Shard.antt =====
-- crates/market-engine/src/shard.rs: the routing of a ticker to a shard.
use market_data_v.Common.{ℕ, ◌%◌, ◌<◌, Bytes, arith}

-- `AHasher::default()`, `write`, `finish`: a fixed function of the bytes.
pub record Hasher : Type 0 where
  pub hash : Bytes → ℕ

module _ ⦃h : Hasher⦄ where
  unfoldable pub shard_for : Bytes → ℕ → ℕ
  shard_for ticker n_shards = h.hash ticker % n_shards

  -- With a shard to route to, the index is within the shards.
  pub shard_for-lt : (ticker : Bytes) (n : ℕ) → 0 < n → shard_for ticker n < n
  unfolding shard_for
  shard_for-lt ticker n p = grind arith

-- The same routing with a hasher built from `build_hasher()`.
unfoldable pub shard_with : Hasher → Bytes → ℕ → ℕ
shard_with builder ticker n_shards = builder.hash ticker % n_shards
