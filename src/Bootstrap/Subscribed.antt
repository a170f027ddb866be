-- ===== src/Bootstrap/Subscribed.antt =====
-- Which subscriptions the boot makes, and which books the engine takes after it.
use market_data_v.Common.{
  bytes_keys, ◌≡◌, refl, ap, ◌∙◌, false, none, some, List, [], ◌∷◌, Bytes, codes, if◌then◌else◌,
  length, Bool-cases, Option-cases, inl, inr,
}
use market_data_v.Common.HashMap.{HashMap, get-empty, keys-empty}
use market_data_v.Shard.{Hasher}
use market_data_v.Types.{BookOp}
use market_data_v.Book.Engine as BookEngines
use market_data_v.Book.Engine.{is_allowed}
use market_data_v.Client.Commands
use market_data_v.Client.Commands.{CommandSink}
use market_data_v.Client.Commands.Calls.{Call, perform, perform_all}
use market_data_v.Client.Commands.Calls
use market_data_v.Client.Subscriptions
use market_data_v.Client.Subscriptions.{SubscriptionRegistry}
use market_data_v.Client.Subscriptions.Held as Held
use market_data_v.Pipeline.{Pipeline, Task, submits, appends, run_task, flush_fanout}
use market_data_v.Pipeline.Symbols as Symbols
use market_data_v.Pipeline.Symbols.{Catalog, symbols, book_universe}
use market_data_v.Bootstrap.{
  Query, mqc_queries, list_markets, discover, is_in, subscribe_commands, register, subscribe_all,
  subscribe_universe, run, Waiting, runs, flushes, wait, boot,
}

-- The commands of the discovery.
abbrev pub queries : List Query → List Call
queries [] = []
queries ((market, asset_type, subtype) ∷ qs) =
    Calls.list_market market asset_type subtype ∷ queries qs

-- The commands for the symbols, one of which has a book where the set holds it.
abbrev pub subscriptions : HashMap Bytes (Unit {0}) → List Bytes → List Call
subscriptions books [] = []
subscriptions books (t ∷ ts) =
    if is_in books t
    then Calls.subscribe_quote t false
      ∷ Calls.subscribe_book_detailed t
      ∷ Calls.subscribe_trades t (some 50)
      ∷ subscriptions books ts
    else Calls.subscribe_quote t false ∷ Calls.subscribe_trades t (some 50) ∷ subscriptions books ts

-- What the registry is told of them.
abbrev pub registrations : HashMap Bytes (Unit {0}) → List Bytes → List Held.Call
registrations books [] = []
registrations books (t ∷ ts) =
    if is_in books t
    then Held.add Subscriptions.quote t
      ∷ Held.add Subscriptions.book_detailed t
      ∷ Held.add Subscriptions.trades t
      ∷ registrations books ts
    else Held.add Subscriptions.quote t ∷ Held.add Subscriptions.trades t ∷ registrations books ts

list_markets-queries :
    (qs : List Query) (cmd : CommandSink) → list_markets qs cmd ≡ perform_all (queries qs) cmd
unfolding list_markets perform_all perform
list_markets-queries [] cmd = refl
list_markets-queries ((market, asset_type, subtype) ∷ qs) cmd =
    list_markets-queries qs (Commands.list_market none market asset_type subtype cmd).0

subscribe_all_lem :
    (books : HashMap Bytes (Unit {0})) (ts : List Bytes) (cmd : CommandSink)
    (r : SubscriptionRegistry)
    → subscribe_all books ts (cmd, r)
      ≡ (perform_all (subscriptions books ts) cmd, Held.perform_all (registrations books ts) r)
unfolding subscribe_all perform_all perform Held.perform_all Held.perform subscribe_commands
    register
subscribe_all_lem books [] cmd r = refl
subscribe_all_lem books (t ∷ ts) cmd r = elim (Bool-cases (is_in books t)) [
  | inl e ↦ rw e (subscribe_all_lem books ts _ _)
  | inr e ↦ rw e (subscribe_all_lem books ts _ _)
]

discover_lem :
    (cmd : CommandSink)
    → discover cmd ≡ perform_all (Calls.list_brokers (codes "BOVESPA") ∷ queries mqc_queries) cmd
unfolding discover perform_all perform
discover_lem cmd =
    list_markets-queries mqc_queries (Commands.list_brokers none (codes "BOVESPA") cmd).0

filter_set :
    (e : BookEngines.BookEngine) (set : HashMap Bytes (Unit {0})) (u : Bytes)
    → is_allowed (BookEngines.set_allowed (some set) e) u ≡ is_in set u
unfolding is_allowed BookEngines.set_allowed
filter_set e set u = refl

-- The boot writes the commands of the discovery and then, for each symbol that the catalog has by then,
-- those for its quote, its book if the symbol is one of the book universe, and its last 50 trades; the
-- registry is told the same; and from then on the book engine takes exactly the tickers of the book
-- universe.
pub run-subscriptions :
    (meanwhile : Pipeline → Pipeline) (cmd : CommandSink) (p : Pipeline)
    → let (cmd', p', universe) = run meanwhile cmd p in
      let books = book_universe (meanwhile p).catalog in
      let tickers = symbols (meanwhile p).catalog in
      (cmd'
        ≡ perform_all
            (subscriptions books tickers)
            (perform_all (Calls.list_brokers (codes "BOVESPA") ∷ queries mqc_queries) cmd))
      × (p'.subscriptions
          ≡ Held.perform_all (registrations books tickers) (meanwhile p).subscriptions)
      × ((u : Bytes) → is_allowed p'.engine.book u ≡ is_in books u)
      × (universe.total ≡ length tickers)
unfolding run subscribe_universe
run-subscriptions meanwhile cmd p =
    let q = meanwhile p in
    let books = book_universe q.catalog in
    let tickers = symbols q.catalog in
    let found = discover_lem cmd in
    let all = subscribe_all_lem books tickers (discover cmd) q.subscriptions in
    (
      ap (λ (x : CommandSink × SubscriptionRegistry). x.0) all
          ∙ ap (perform_all (subscriptions books tickers)) found,
      ap (λ (x : CommandSink × SubscriptionRegistry). x.1) all,
      filter_set q.engine.book books,
      refl,
    )

catalog-run_task : (task : Task) (p : Pipeline) → (run_task task p).catalog ≡ p.catalog
unfolding run_task
catalog-run_task (submits key payload) p = refl
catalog-run_task (appends payload) p = elim (Option-cases p.trade_writer) [
  | inl e ↦ rw (e, run_task) refl
  | inr (w, e) ↦ rw (e, run_task) refl
]

catalog-flush_fanout : (p : Pipeline) → (flush_fanout p).catalog ≡ p.catalog
unfolding flush_fanout
catalog-flush_fanout p = refl

catalog-wait : (ws : List Waiting) (p : Pipeline) → (wait ws p).catalog ≡ p.catalog
unfolding wait
catalog-wait [] p = refl
catalog-wait (runs task ∷ ws) p = catalog-wait ws (run_task task p) ∙ catalog-run_task task p
catalog-wait (flushes ∷ ws) p = catalog-wait ws (flush_fanout p) ∙ catalog-flush_fanout p

symbols-default : symbols Symbols.default ≡ []
unfolding symbols Symbols.default
symbols-default = keys-empty Bytes (Unit {0})

is_in-default : (u : Bytes) → is_in (book_universe Symbols.default) u ≡ false
unfolding book_universe Symbols.default
is_in-default u = rw (get-empty {V = Unit {0}} u, is_in) refl

subscribe_all_none :
    (books : HashMap Bytes (Unit {0})) (ts : List Bytes) (cmd : CommandSink)
    (r : SubscriptionRegistry)
    → ts ≡ []
    → subscribe_all books ts (cmd, r) ≡ (cmd, r)
unfolding subscribe_all
subscribe_all_none books ts cmd r e = ap (λ x. subscribe_all books x (cmd, r)) e

module _ ⦃h : Hasher⦄ where
  refused :
      (e : BookEngines.BookEngine) (t : Bytes) (op : BookOp)
      → is_allowed e t ≡ false
      → BookEngines.apply e t op ≡ some (e, false)
  unfolding BookEngines.apply
  refused e t op a = rw a refl

  -- In the order in which the daemon boots, no worker handles a frame before the boot is over. So from
  -- an empty catalog, whatever the other tasks do meanwhile: no symbol is found, nothing but the queries
  -- is sent, no subscription is registered that was not there, and afterwards the book engine refuses
  -- every operation on every ticker.
  pub boot-nothing :
      (ws : List Waiting) (cmd : CommandSink) (p : Pipeline)
      → p.catalog ≡ Symbols.default
      → let (cmd', p', universe) = boot ws cmd p in
        (universe.total ≡ 0)
        × (cmd' ≡ discover cmd)
        × (p'.subscriptions ≡ (wait ws p).subscriptions)
        × ((t : Bytes) (op : BookOp)
            → BookEngines.apply p'.engine.book t op ≡ some (p'.engine.book, false))
  unfolding boot run subscribe_universe
  boot-nothing ws cmd p e =
      let q = wait ws p in
      let same : q.catalog ≡ Symbols.default = catalog-wait ws p ∙ e in
      let none_found : symbols q.catalog ≡ [] = ap symbols same ∙ symbols-default in
      let books = book_universe q.catalog in
      let all =
        subscribe_all_none books (symbols q.catalog) (discover cmd) q.subscriptions none_found in
      (
        ap length none_found,
        ap (λ (x : CommandSink × SubscriptionRegistry). x.0) all,
        ap (λ (x : CommandSink × SubscriptionRegistry). x.1) all,
        λ t op. refused (BookEngines.set_allowed (some books) q.engine.book) t op (
            filter_set q.engine.book books t
            ∙ ap (λ c. is_in (book_universe c) t) same
            ∙ is_in-default t),
      )
