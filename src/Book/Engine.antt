-- ===== src/Book/Engine.antt =====
-- crates/market-engine/src/book/engine.rs: the sharded registry of order books.
-- Each call runs under the mutex of one shard, so calls are atomic; a poisoned lock is not modelled.
pub mod Refine
use market_data_v.Common.{
  bytes_keys, ℕ, zero, suc, ◌+◌, ◌<◌, Bool, true, false, Option, none, some, List, [], ◌∷◌, Bytes,
  ◌==◌, if◌then◌else◌, length, get_elem?, set, replicate,
}
use market_data_v.Common.HashMap
use market_data_v.Common.HashMap.{HashMap}
use market_data_v.Shard.{Hasher, shard_for}
use market_data_v.Types.{BookOp}
use market_data_v.Book.Order
use market_data_v.Book.Order.{OrderBook}

abbrev pub Shard : Type 0
Shard = HashMap Bytes OrderBook

pub record BookEngine : Type 0 where
  pub shards : List Shard
  pub allowed : Option (HashMap Bytes (Unit {0}))

unfoldable pub new : ℕ → BookEngine
new n_shards = record {
  shards = replicate (if n_shards == 0 then 8 else n_shards) HashMap.empty;
  allowed = none;
}

unfoldable pub set_allowed : Option (HashMap Bytes (Unit {0})) → BookEngine → BookEngine
set_allowed allowed e = record e { allowed = allowed }

unfoldable pub is_allowed : BookEngine → Bytes → Bool
is_allowed e ticker = elim e.allowed [
  | none ↦ true
  | some tickers ↦ elim (HashMap.get tickers ticker) [ none ↦ false | some u ↦ true ]
]

-- `guard.entry(ticker).or_default()`
abbrev pub or_default : Option OrderBook → OrderBook
or_default none = Order.default
or_default (some b) = b

module _ ⦃h : Hasher⦄ where
  -- `none` where `self.shards[idx]` is out of bounds.
  unfoldable pub apply : BookEngine → Bytes → BookOp → Option (BookEngine × Bool)
  apply e ticker op =
      if is_allowed e ticker
      then (let idx = shard_for ticker (length e.shards) in
          elim (get_elem? e.shards idx) [
            | none ↦ none
            | some guard ↦
                let (book, observable) = Order.apply op (or_default (HashMap.get guard ticker)) in
                some (
                  record e { shards = set e.shards idx (HashMap.insert ticker book guard) },
                  observable,
                )
          ])
      else some (e, false)

  -- What `with_book` hands to its closure.
  unfoldable pub with_book : BookEngine → Bytes → Option (Option OrderBook)
  with_book e ticker = elim (get_elem? e.shards (shard_for ticker (length e.shards))) [
    | none ↦ none
    | some guard ↦ some (HashMap.get guard ticker)
  ]

abbrev sum_len : List Shard → ℕ
sum_len [] = 0
sum_len (s ∷ ss) = HashMap.len s + sum_len ss

unfoldable pub len : BookEngine → ℕ
len e = sum_len e.shards

unfoldable pub is_empty : BookEngine → Bool
unfolding len
is_empty e = len e == 0
