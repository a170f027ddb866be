-- ===== src/Trades.antt =====
-- crates/market-engine/src/trade.rs: the last trades of each ticker.
-- A call holds the lock of the ticker's entry, so calls on one ticker are atomic. Metrics are left out.
pub mod Queues
pub mod Bounds
pub mod History
use market_data_v.Common.{
  bytes_keys, bytes_eq, ℕ, zero, suc, ◌+◌, ◌-◌, min, max, Bool, true, false, Option, none, some,
  List, [], ◌∷◌, ◌++◌, Bytes, ◌==◌, if◌then◌else◌, length, take, drop,
}
use market_data_v.Common.HashMap
use market_data_v.Common.HashMap.{HashMap}
use market_data_v.Enums.{TradeCondition, TradeAggressor}
use market_data_v.Types.{F64, Trade}
use mathlib.Core.List.{reverse}

pub record TradeRecord : Type 0 where
  pub time_hhmmss : ℕ
  pub price : F64
  pub quantity : ℕ
  pub trade_id : Bytes
  pub broker_buy_id : ℕ
  pub broker_sell_id : ℕ
  pub condition : TradeCondition
  pub aggressor : TradeAggressor

unfoldable pub record_of : Trade → TradeRecord
record_of t = record {
  time_hhmmss = t.time_hhmmss;
  price = t.price;
  quantity = t.quantity;
  trade_id = t.trade_id;
  broker_buy_id = t.broker_buy_id;
  broker_sell_id = t.broker_sell_id;
  condition = t.condition;
  aggressor = t.aggressor;
}

pub record TradeBuffer : Type 0 where
  pub per_ticker_capacity : ℕ
  pub inner : HashMap Bytes (List TradeRecord)

unfoldable pub new : ℕ → TradeBuffer
new per_ticker_capacity = record {
  per_ticker_capacity = max per_ticker_capacity 1;
  inner = HashMap.empty;
}

-- `entry(ticker).or_default()`
abbrev pub or_empty : Option (List TradeRecord) → List TradeRecord
or_empty none = []
or_empty (some q) = q

-- `VecDeque::pop_front`
abbrev pub pop_front : List TradeRecord → List TradeRecord
pop_front [] = []
pop_front (t ∷ ts) = ts

-- The queue after `push` with the capacity `cap`.
unfoldable pub pushed : ℕ → TradeRecord → List TradeRecord → List TradeRecord
pushed cap trade entry = (if length entry == cap then pop_front entry else entry) ++ (trade ∷ [])

unfoldable pub push : Bytes → TradeRecord → TradeBuffer → TradeBuffer
push ticker trade b = record b {
  inner =
      HashMap.insert ticker
        (pushed b.per_ticker_capacity trade (or_empty (HashMap.get b.inner ticker))) b.inner;
}

-- The queue without the first trade of the id, if there is one.
unfoldable pub without_first : Bytes → List TradeRecord → Option (List TradeRecord)
without_first trade_id [] = none
without_first trade_id (t ∷ ts) =
    let rest = without_first trade_id ts in
    if bytes_eq t.trade_id trade_id
    then some ts
    else elim rest [ none ↦ none | some us ↦ some (t ∷ us) ]

-- What `remove` does with the entry of its ticker.
unfoldable pub removed :
    Bytes → Bytes → Option (List TradeRecord) → TradeBuffer → TradeBuffer × Bool
removed ticker trade_id none b = (b, false)
removed ticker trade_id (some entry) b = elim (without_first trade_id entry) [
  | none ↦ (b, false)
  | some entry' ↦ (record b { inner = HashMap.insert ticker entry' b.inner }, true)
]

unfoldable pub remove : Bytes → Bytes → TradeBuffer → TradeBuffer × Bool
remove ticker trade_id b = removed ticker trade_id (HashMap.get b.inner ticker) b

unfoldable pub clear : Bytes → TradeBuffer → TradeBuffer
clear ticker b = elim (HashMap.get b.inner ticker) [
  | none ↦ b
  | some entry ↦ record b { inner = HashMap.insert ticker [] b.inner }
]

unfoldable pub snapshot : Bytes → ℕ → TradeBuffer → List TradeRecord
snapshot ticker limit b = elim (HashMap.get b.inner ticker) [
  | none ↦ []
  | some entry ↦ reverse (take (min limit (length entry)) (reverse entry))
]

unfoldable pub len_for : Bytes → TradeBuffer → ℕ
len_for ticker b = elim (HashMap.get b.inner ticker) [ none ↦ 0 | some e ↦ length e ]

unfoldable pub known_tickers : TradeBuffer → ℕ
known_tickers b = HashMap.len b.inner
