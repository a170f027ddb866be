-- ===== src/Bootstrap.antt =====
-- bin/ingest-daemon/src/bootstrap.rs: the discovery of the symbols and the subscriptions, and the order of
-- the boot in bin/ingest-daemon/src/main.rs.
-- A sleep is a time in which the other tasks and threads act; `meanwhile` is what the pipeline is after
-- the sleeps of the discovery. The sink's writer accepts everything. The sleep behind each 500 symbols
-- and the log line are left out.
pub mod Subscribed
use market_data_v.Common.{
  bytes_keys, ℕ, ◌+◌, Bool, true, false, Option, none, some, List, [], ◌∷◌, Bytes, codes,
  if◌then◌else◌, length,
}
use market_data_v.Common.HashMap
use market_data_v.Common.HashMap.{HashMap}
use market_data_v.Book.Engine as BookEngines
use market_data_v.Client.Commands
use market_data_v.Client.Commands.{CommandSink}
use market_data_v.Client.Subscriptions
use market_data_v.Client.Subscriptions.{SubscriptionRegistry}
use market_data_v.Pipeline.{Pipeline, Task, run_task, flush_fanout}
use market_data_v.Pipeline.Symbols.{symbols, book_universe}

-- The catalog queries: a market, a type, and a subtype.
abbrev pub Query : Type 0
Query = Bytes × ℕ × Option ℕ

abbrev pub mqc_queries : List Query
mqc_queries =
    (codes "Bovespa", 1, none)
    ∷ (codes "Bovespa", 2, none)
    ∷ (codes "Bovespa", 3, none)
    ∷ (codes "Bovespa", 10, none)
    ∷ (codes "Bovespa", 13, none)
    ∷ (codes "Bovespa", 20, none)
    ∷ (codes "BMF", 7, some 130)
    ∷ (codes "BMF", 7, some 60)
    ∷ (codes "BMF", 7, some 50)
    ∷ (codes "BMF", 7, some 40)
    ∷ (codes "BMF", 7, some 30)
    ∷ (codes "BMF", 7, some 20)
    ∷ (codes "BMF", 2, some 150)
    ∷ []

unfoldable pub list_markets : List Query → CommandSink → CommandSink
list_markets [] cmd = cmd
list_markets ((market, asset_type, subtype) ∷ queries) cmd =
    list_markets queries (Commands.list_market none market asset_type subtype cmd).0

-- The brokers and the catalog are asked for.
unfoldable pub discover : CommandSink → CommandSink
discover cmd = list_markets mqc_queries (Commands.list_brokers none (codes "BOVESPA") cmd).0

abbrev pub is_in : HashMap Bytes (Unit {0}) → Bytes → Bool
is_in set ticker = elim (HashMap.get set ticker) [ none ↦ false | some u ↦ true ]

-- The commands for a symbol.
unfoldable pub subscribe_commands : Bool → Bytes → CommandSink → CommandSink
subscribe_commands has_book ticker cmd =
    let quotes = (Commands.subscribe_quote none ticker false cmd).0 in
    let books =
      if has_book then (Commands.subscribe_book_detailed none ticker quotes).0 else quotes in
    (Commands.subscribe_trades none ticker (some 50) books).0

-- What the registry keeps of them.
unfoldable pub register : Bool → Bytes → SubscriptionRegistry → SubscriptionRegistry
register has_book ticker r =
    let quotes = (Subscriptions.add Subscriptions.quote ticker r).0 in
    let books =
      if has_book
      then (Subscriptions.add Subscriptions.book_detailed ticker quotes).0
      else quotes in
    (Subscriptions.add Subscriptions.trades ticker books).0

-- The loop over the symbols.
unfoldable pub subscribe_all :
    HashMap Bytes (Unit {0})
    → List Bytes
    → CommandSink × SubscriptionRegistry
    → CommandSink × SubscriptionRegistry
subscribe_all book_set [] (cmd, r) = (cmd, r)
subscribe_all book_set (ticker ∷ tickers) (cmd, r) =
    let has_book = is_in book_set ticker in
    subscribe_all book_set tickers
      (subscribe_commands has_book ticker cmd, register has_book ticker r)

pub record Universe : Type 0 where
  pub total : ℕ
  pub book_set : HashMap Bytes (Unit {0})

-- The part behind the sleeps.
unfoldable pub subscribe_universe : CommandSink → Pipeline → CommandSink × Pipeline × Universe
subscribe_universe cmd p =
    let universe_set = symbols p.catalog in
    let book_set = book_universe p.catalog in
    let (cmd', registry) = subscribe_all book_set universe_set (cmd, p.subscriptions) in
    (
      cmd',
      record p {
        engine = record p.engine { book = BookEngines.set_allowed (some book_set) p.engine.book };
        subscriptions = registry;
      },
      record { total = length universe_set; book_set = book_set },
    )

-- `run`, with what happens to the pipeline while it sleeps.
unfoldable pub run :
    (Pipeline → Pipeline) → CommandSink → Pipeline → CommandSink × Pipeline × Universe
run meanwhile cmd p = subscribe_universe (discover cmd) (meanwhile p)

-- What acts while `main` boots: the runtime's tasks and the timer of the fan-out. The workers are spawned
-- behind the boot.
pub data Waiting : Type 0 where
  runs : Task → Waiting
  flushes : Waiting

unfoldable pub wait : List Waiting → Pipeline → Pipeline
wait [] p = p
wait (runs task ∷ ws) p = wait ws (run_task task p)
wait (flushes ∷ ws) p = wait ws (flush_fanout p)

-- The boot as `main` does it.
unfoldable pub boot : List Waiting → CommandSink → Pipeline → CommandSink × Pipeline × Universe
boot waiting cmd p = run (wait waiting) cmd p
