-- ===== src/Quote.antt =====
-- crates/market-engine/src/quote.rs: the registry of consolidated quotes.
-- A call holds the lock of the ticker's entry, so calls on one ticker are atomic. Metrics are left out.
pub mod Diffs
use market_data_v.Common.{
  bytes_keys, nat_eq, ℕ, ◌+◌, ◌%◌, ◌^◌, Bool, Option, none, some, List, [], ◌∷◌, Bytes, ◌==◌,
  length, map,
}
use market_data_v.Common.HashMap
use market_data_v.Common.HashMap.{HashMap}
use market_data_v.Types.{QuoteDiff, QuoteFieldValue}

pub record QuoteState : Type 0 where
  pub time_hhmmss : ℕ
  pub version : ℕ
  pub fields : HashMap ℕ QuoteFieldValue

unfoldable pub default : QuoteState
default = record { time_hhmmss = 0; version = 0; fields = HashMap.empty }

-- The loop over the diff.
unfoldable pub insert_all : QuoteDiff → HashMap ℕ QuoteFieldValue → HashMap ℕ QuoteFieldValue
insert_all [] fields = fields
insert_all ((idx, value) ∷ diff) fields = insert_all diff (HashMap.insert idx value fields)

-- `version` is a `u64` and wraps.
unfoldable pub apply_diff : ℕ → QuoteDiff → QuoteState → QuoteState × ℕ
apply_diff time_hhmmss diff s = (
  record {
    time_hhmmss = time_hhmmss;
    version = (s.version + 1) % 2 ^ 64;
    fields = insert_all diff s.fields;
  },
  length diff,
)

unfoldable pub get : QuoteState → ℕ → Option QuoteFieldValue
get s idx = HashMap.get s.fields idx

pub record QuoteEngine : Type 0 where
  pub states : HashMap Bytes QuoteState

unfoldable pub new : QuoteEngine
new = record { states = HashMap.empty }

-- `entry(ticker).or_default()`
abbrev pub or_default : Option QuoteState → QuoteState
or_default none = default
or_default (some s) = s

unfoldable pub apply : Bytes → ℕ → QuoteDiff → QuoteEngine → QuoteEngine × ℕ
apply ticker time_hhmmss diff e =
    let (s, updated) = apply_diff time_hhmmss diff (or_default (HashMap.get e.states ticker)) in
    (record { states = HashMap.insert ticker s e.states }, updated)

-- What `with_state` hands to its closure.
unfoldable pub with_state : QuoteEngine → Bytes → Option QuoteState
with_state e ticker = HashMap.get e.states ticker

unfoldable pub known_tickers : QuoteEngine → List (Bytes × ℕ × ℕ)
known_tickers e = map (λ kv. (kv.0, kv.1.version, kv.1.time_hhmmss)) (HashMap.to_list e.states)

unfoldable pub len : QuoteEngine → ℕ
len e = HashMap.len e.states

unfoldable pub is_empty : QuoteEngine → Bool
unfolding len
is_empty e = len e == 0
