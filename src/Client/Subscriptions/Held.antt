-- ===== src/Client/Subscriptions/Held.antt =====
-- The registry holds the subscriptions that were added and not removed since, each of them once.
use market_data_v.Common.{
  ℕ, ◌≡◌, refl, ap, ◌∙◌, Bool, true, false, not, ◌&&◌, List, [], ◌∷◌, Bytes, bytes_keys, bytes_eq,
  bytes_eq_iff, if◌then◌else◌, Bool-cases, inl, inr, arith,
}
use market_data_v.Common.HashMap
use market_data_v.Common.HashMap.{
  HashMap, IsUnique, remove-IsUnique, occurrences, one_if_some, occurrences-keys, empty-IsUnique,
  insert-IsUnique, get-insert, get-remove, get-empty,
}
use market_data_v.Client.Subscriptions
use market_data_v.Client.Subscriptions.{
  SubscriptionKind, kind_eq, kind_eq_iff, Subscription, subscription_eq, subscription_eq_iff,
  subscription_keys, SubscriptionRegistry, new, contains, snapshot, tickers_of, snapshot_by_kind,
}

-- A call on the registry.
pub data Call : Type 0 where
  add remove : SubscriptionKind → Bytes → Call

unfoldable pub perform : Call → SubscriptionRegistry → SubscriptionRegistry × Bool
perform (add kind ticker) r = Subscriptions.add kind ticker r
perform (remove kind ticker) r = Subscriptions.remove kind ticker r

unfoldable pub perform_all : List Call → SubscriptionRegistry → SubscriptionRegistry
perform_all [] r = r
perform_all (c ∷ cs) r = perform_all cs (perform c r).0

subscription_of : SubscriptionKind → Bytes → Subscription
subscription_of kind ticker = record { kind = kind; ticker = ticker }

-- What a call means for whether a subscription is held.
abbrev pub held_after : Call → SubscriptionKind → Bytes → Bool → Bool
held_after (add k t) kind ticker held = if kind_eq k kind && bytes_eq t ticker then true else held
held_after (remove k t) kind ticker held =
    if kind_eq k kind && bytes_eq t ticker then false else held

-- Whether the last call on a subscription, if there is one, added it.
abbrev pub held : List Call → SubscriptionKind → Bytes → Bool → Bool
held [] kind ticker before = before
held (c ∷ cs) kind ticker before = held cs kind ticker (held_after c kind ticker before)

abbrev pub one_if : Bool → ℕ
one_if true = 1
one_if false = 0

perform-contains :
    (c : Call) (r : SubscriptionRegistry) (kind : SubscriptionKind) (ticker : Bytes)
    → contains (perform c r).0 (record { kind = kind; ticker = ticker })
      ≡ held_after c kind ticker (contains r (record { kind = kind; ticker = ticker }))
unfolding perform Subscriptions.add Subscriptions.remove contains subscription_eq
perform-contains (add k t) r kind ticker =
    let key : Subscription = record { kind = k; ticker = t } in
    let other : Subscription = record { kind = kind; ticker = ticker } in
    ground (arith, get-insert key other tt r.inner, kind_eq_iff k kind, bytes_eq_iff t ticker)
perform-contains (remove k t) r kind ticker =
    let key : Subscription = record { kind = k; ticker = t } in
    let other : Subscription = record { kind = kind; ticker = ticker } in
    ground (arith, get-remove key other r.inner)

perform-IsUnique :
    (c : Call) (r : SubscriptionRegistry) → IsUnique r.inner → IsUnique (perform c r).0.inner
unfolding perform Subscriptions.add Subscriptions.remove
perform-IsUnique (add k t) r h =
    let key : Subscription = record { kind = k; ticker = t } in
    elim (Bool-cases (contains r key)) [
      | inl q ↦ rw q h
      | inr q ↦ rw q (insert-IsUnique key tt r.inner h)
    ]
perform-IsUnique (remove k t) r h = remove-IsUnique (record { kind = k; ticker = t }) r.inner h

count-tickers_of :
    (kind : SubscriptionKind) (ticker : Bytes) (ss : List Subscription)
    → occurrences ticker (tickers_of kind ss)
      ≡ occurrences (record { kind = kind; ticker = ticker }) ss
unfolding tickers_of subscription_eq
count-tickers_of kind ticker [] = refl
count-tickers_of kind ticker (s ∷ ss) = ground (arith, count-tickers_of kind ticker ss)

contains-perform_all :
    (cs : List Call) (r : SubscriptionRegistry) (kind : SubscriptionKind) (ticker : Bytes)
    → contains (perform_all cs r) (record { kind = kind; ticker = ticker })
      ≡ held cs kind ticker (contains r (record { kind = kind; ticker = ticker }))
unfolding perform_all
contains-perform_all [] r kind ticker = refl
contains-perform_all (c ∷ cs) r kind ticker =
    contains-perform_all cs (perform c r).0 kind ticker
    ∙ ap (held cs kind ticker) (perform-contains c r kind ticker)

one_if-contains :
    (r : SubscriptionRegistry) (s : Subscription)
    → one_if_some (HashMap.get r.inner s) ≡ one_if (contains r s)
unfolding contains
one_if-contains r s = ground arith

perform_all-held :
    (cs : List Call) (r : SubscriptionRegistry) (kind : SubscriptionKind) (ticker : Bytes)
    → IsUnique r.inner
    → occurrences ticker (snapshot_by_kind kind (perform_all cs r))
      ≡ one_if (held cs kind ticker (contains r (record { kind = kind; ticker = ticker })))
unfolding perform_all snapshot_by_kind snapshot
perform_all-held [] r kind ticker h =
    let key : Subscription = record { kind = kind; ticker = ticker } in
    count-tickers_of kind ticker (HashMap.keys r.inner)
    ∙ occurrences-keys key r.inner h
    ∙ one_if-contains r key
perform_all-held (c ∷ cs) r kind ticker h =
    perform_all-held cs (perform c r).0 kind ticker (perform-IsUnique c r h)
    ∙ ap (λ b. one_if (held cs kind ticker b)) (perform-contains c r kind ticker)

contains-new : (s : Subscription) → contains new s ≡ false
unfolding contains new
contains-new s = rw (get-empty {V = Unit {0}} s, contains) refl

answers :
    (kind : SubscriptionKind) (ticker : Bytes) (r : SubscriptionRegistry)
    → ((perform (add kind ticker) r).1 ≡ not (contains r (record { kind = kind; ticker = ticker })))
      × ((perform (remove kind ticker) r).1 ≡ contains r (record { kind = kind; ticker = ticker }))
unfolding perform Subscriptions.add Subscriptions.remove
answers kind ticker r = (ground arith, refl)

-- After any calls on a fresh registry, the snapshot of a kind that a reconnect replays holds a ticker
-- once if the last call on the two was an `add`, and otherwise not at all; and a call answers whether
-- it changed that.
pub snapshot_by_kind-held :
    (cs : List Call) (kind : SubscriptionKind) (ticker : Bytes)
    → (occurrences ticker (snapshot_by_kind kind (perform_all cs new))
        ≡ one_if (held cs kind ticker false))
      × ((perform (add kind ticker) (perform_all cs new)).1 ≡ not (held cs kind ticker false))
      × ((perform (remove kind ticker) (perform_all cs new)).1 ≡ held cs kind ticker false)
unfolding new
snapshot_by_kind-held cs kind ticker =
    let key : Subscription = record { kind = kind; ticker = ticker } in
    let fresh = ap (held cs kind ticker) (contains-new key) in
    let c = contains-perform_all cs new kind ticker ∙ fresh in
    let (added, removed) = answers kind ticker (perform_all cs new) in
    (
      perform_all-held cs new kind ticker empty-IsUnique ∙ ap one_if fresh,
      added ∙ ap not c,
      removed ∙ c,
    )
