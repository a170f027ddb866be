-- ===== src/Client/Subscriptions.antt =====
-- crates/cedro-client/src/subscription.rs: the registry of the subscriptions, replayed after a reconnect.
-- Each call holds the lock, and a poisoned lock is not modelled. The set is a map to the unit.
pub mod Held
use market_data_v.Common.{
  ℕ, Bool, true, false, ◌&&◌, ◌≡◌, ◌↔◌, Option, none, some, List, [], ◌∷◌, Bytes, bytes_eq,
  bytes_eq_iff, Eq, ◌==◌, codes, if◌then◌else◌, map, arith,
}
use market_data_v.Common.HashMap
use market_data_v.Common.HashMap.{HashMap}

pub data SubscriptionKind : Type 0 where
  quote book_detailed book_aggregated trades : SubscriptionKind

unfoldable pub as_str : SubscriptionKind → Bytes
as_str quote = codes "quote"
as_str book_detailed = codes "book_detailed"
as_str book_aggregated = codes "book_aggregated"
as_str trades = codes "trades"

-- The derived equality of the kinds: the place of a variant tells it from the others.
place : SubscriptionKind → ℕ
place quote = 0
place book_detailed = 1
place book_aggregated = 2
place trades = 3

unfoldable pub kind_eq : SubscriptionKind → SubscriptionKind → Bool
unfolding place
kind_eq a b = place a == place b

pub kind_eq_iff : (a b : SubscriptionKind) → (kind_eq a b ≡ true) ↔ (a ≡ b)
unfolding kind_eq place
kind_eq_iff a b = ground arith

-- A kind and a ticker.
pub record Subscription : Type 0 where
  pub kind : SubscriptionKind
  pub ticker : Bytes

unfoldable pub subscription_eq : Subscription → Subscription → Bool
subscription_eq a b = kind_eq a.kind b.kind && bytes_eq a.ticker b.ticker

pub subscription_eq_iff : (a b : Subscription) → (subscription_eq a b ≡ true) ↔ (a ≡ b)
unfolding subscription_eq
subscription_eq_iff a b = ground (arith, kind_eq_iff a.kind b.kind, bytes_eq_iff a.ticker b.ticker)

instance abbrev pub subscription_keys : Eq Subscription
subscription_keys = record { beq = subscription_eq; beq_iff = subscription_eq_iff }

pub record SubscriptionRegistry : Type 0 where
  pub inner : HashMap Subscription (Unit {0})

unfoldable pub new : SubscriptionRegistry
new = record { inner = HashMap.empty }

-- `contains`, which `insert` and `remove` answer by.
unfoldable pub contains : SubscriptionRegistry → Subscription → Bool
contains r s = elim (HashMap.get r.inner s) [ none ↦ false | some u ↦ true ]

unfoldable pub add : SubscriptionKind → Bytes → SubscriptionRegistry → SubscriptionRegistry × Bool
add kind ticker r =
    let key : Subscription = record { kind = kind; ticker = ticker } in
    if contains r key then (r, false) else (record { inner = HashMap.insert key tt r.inner }, true)

unfoldable pub remove :
    SubscriptionKind → Bytes → SubscriptionRegistry → SubscriptionRegistry × Bool
remove kind ticker r =
    let key : Subscription = record { kind = kind; ticker = ticker } in
    (record { inner = HashMap.remove key r.inner }, contains r key)

unfoldable pub len : SubscriptionRegistry → ℕ
len r = HashMap.len r.inner

unfoldable pub is_empty : SubscriptionRegistry → Bool
unfolding len
is_empty r = len r == 0

unfoldable pub snapshot : SubscriptionRegistry → List Subscription
snapshot r = HashMap.keys r.inner

-- `filter` on the kind and `map` to the ticker
unfoldable pub tickers_of : SubscriptionKind → List Subscription → List Bytes
tickers_of kind [] = []
tickers_of kind (s ∷ ss) =
    let rest = tickers_of kind ss in if kind_eq s.kind kind then s.ticker ∷ rest else rest

unfoldable pub snapshot_by_kind : SubscriptionKind → SubscriptionRegistry → List Bytes
unfolding snapshot
snapshot_by_kind kind r = tickers_of kind (snapshot r)
