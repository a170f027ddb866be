-- ===== src/Pipeline.antt =====
-- bin/ingest-daemon/src/pipeline.rs: the workers' dispatch of a message to the engines, the log and the
-- fan-out.
-- `tasks` are the futures that were handed to the runtime and have not run; a worker runs inside the
-- runtime, so that `try_current` succeeds. `published` is what the sink received. A step that would panic
-- gives `none`. The clock's reading comes with the frame. Metrics and tracing are left out.
pub mod Symbols
pub mod Views
pub mod Dispatch
pub mod Handled
pub mod Workers
pub mod Rows
pub mod Dry
pub mod Build
pub mod Timer
pub mod Unstaged
use market_data_v.Common.{
  bytes_keys, ℕ, zero, suc, ◌+◌, ◌-◌, ◌/◌, ◌%◌, ◌^◌, Bool, true, false, ◌&&◌, Option, none, some,
  List, [], ◌∷◌, ◌++◌, Bytes, codes, ltb, if◌then◌else◌, Result, ok, err, String,
}
use market_data_v.Frame.{FrameKind, Frame}
use market_data_v.Memchr.{Memchr}
use market_data_v.Shard.{Hasher}
use market_data_v.Enums.{TradeAggressor, TradeCondition}
use market_data_v.Types.{
  FloatText, ProtocolMessage, Trade, TradeOperation, MqcItem, GpnItem, BookOp, QuoteDiff,
}
use market_data_v.Utf8.{is_utf8}
use market_data_v.Parser.{parse_frame}
use market_data_v.Quote
use market_data_v.Book.Engine as BookEngines
use market_data_v.Trades
use market_data_v.Wal
use market_data_v.Staged.{StagedTrade}
use market_data_v.Writer
use market_data_v.Writer.{TradeWriter}
use market_data_v.Coalescer
use market_data_v.Coalescer.{Coalescer, PublishKey, Published, Kind}
use market_data_v.Archive.{ArchiveHandle, try_push}
use market_data_v.Assets.{AssetCache}
use market_data_v.Assets
use market_data_v.Client.Subscriptions.{SubscriptionRegistry}
use market_data_v.Pipeline.Symbols.{Catalog, insert_symbol, insert_broker}

-- `serde_json::to_vec` of the object that `encode_wal_blob` builds.
pub record Json : Type 0 where
  pub trade_object : StagedTrade → Bytes

pub record Engine : Type 0 where
  pub quote : Quote.QuoteEngine
  pub book : BookEngines.BookEngine
  pub trades : Trades.TradeBuffer

-- What a spawned future will do.
pub data Task : Type 0 where
  submits : PublishKey → Bytes → Task
  appends : Bytes → Task

pub record Pipeline : Type 0 where
  pub engine : Engine
  pub fanout : Coalescer
  pub archive : ArchiveHandle
  pub trade_writer : Option TradeWriter
  pub asset_cache : AssetCache
  pub catalog : Catalog
  pub subscriptions : SubscriptionRegistry
  pub tasks : List Task
  pub published : Published

-- `i64::try_from(n).unwrap_or(i64::MAX)` on a `u64`
abbrev pub saturated : ℕ → ℕ
saturated n = if ltb n (2 ^ 63) then n else 2 ^ 63 - 1

-- `i32::try_from(n).ok()` on a `u32`
abbrev pub narrowed : ℕ → Option ℕ
narrowed n = if ltb n (2 ^ 31) then some n else none

unfoldable pub side_of : TradeAggressor → Option ℕ
side_of TradeAggressor.buyer = some 1
side_of TradeAggressor.seller = some 2
side_of _ = none

unfoldable pub is_direct : TradeCondition → Bool
is_direct TradeCondition.direct = true
is_direct _ = false

-- `str::from_utf8(b).ok()`
abbrev pub utf8_text : Bytes → Option Bytes
utf8_text b = if is_utf8 b then some b else none

-- `now` is the reading of the clock, `Utc::now`, in nanoseconds since 1970.
unfoldable pub staged_with : ℕ → ℕ → Trade → StagedTrade
staged_with now asset_id t = record {
  time = record { timestamp_micros = now / 1000; nanos = now % 1000 };
  asset_id = asset_id;
  price = t.price;
  amount = saturated t.quantity;
  buyer_id = narrowed t.broker_buy_id;
  seller_id = narrowed t.broker_sell_id;
  aggressor_side = side_of t.aggressor;
  trade_id = utf8_text t.trade_id;
  is_direct = is_direct t.condition;
}

unfoldable pub build_staged_trade : ℕ → AssetCache → Bytes → Trade → Option StagedTrade
build_staged_trade now cache ticker t =
    if is_utf8 ticker
    then elim (Assets.get cache ticker) [
      | none ↦ none
      | some asset_id ↦ some (staged_with now asset_id t)
    ]
    else none

unfoldable pub spawn_fanout : PublishKey → Bytes → Pipeline → Pipeline
spawn_fanout key payload p = record p { tasks = p.tasks ++ (submits key payload ∷ []) }

-- `let _ = wal.append(payload)` on the writer's log
unfoldable pub append_ignored : Bytes → TradeWriter → TradeWriter
append_ignored payload w = elim (Wal.append payload w.wal) [
  | err e ↦ w
  | ok (wal, offset) ↦ record w { wal = wal }
]

module _ ⦃j : Json⦄ where
  unfoldable pub spawn_persist : StagedTrade → Pipeline → Pipeline
  spawn_persist staged p = record p { tasks = p.tasks ++ (appends (j.trade_object staged) ∷ []) }

  -- The trade goes to the log, if there is a writer and the asset is known.
  unfoldable pub persist : Option StagedTrade → Option TradeWriter → Pipeline → Pipeline
  persist staged none p = p
  persist none (some w) p = p
  persist (some staged) (some w) p =
      spawn_persist staged (record p { trade_writer = some (append_ignored [] w) })

  unfoldable pub dispatch_trade : ℕ → Bytes → TradeOperation → Pipeline → Pipeline
  dispatch_trade now ticker (TradeOperation.add t) p =
      let pushed = record p {
        engine = record p.engine {
          trades = Trades.push ticker (Trades.record_of t) p.engine.trades;
        };
      } in
      spawn_fanout (record { kind = Kind.trade; ticker = ticker }) (codes "t")
        (persist (build_staged_trade now p.asset_cache ticker t) p.trade_writer pushed)
  dispatch_trade now ticker (TradeOperation.delete id) p = record p {
    engine = record p.engine { trades = (Trades.remove ticker id p.engine.trades).0 };
  }
  dispatch_trade now ticker TradeOperation.remove_all p = record p {
    engine = record p.engine { trades = Trades.clear ticker p.engine.trades };
  }
  dispatch_trade now ticker TradeOperation.end_of_subscribe p = p
  dispatch_trade now ticker (TradeOperation.end_of_snapshot id) p = p

unfoldable pub dispatch_symbol : MqcItem → Pipeline → Pipeline
dispatch_symbol (MqcItem.symbol market ticker) p =
    if is_utf8 market && is_utf8 ticker
    then record p { catalog = insert_symbol market ticker p.catalog }
    else p
dispatch_symbol (MqcItem.list_end market) p = p

unfoldable pub dispatch_broker : GpnItem → Pipeline → Pipeline
dispatch_broker item p =
    if is_utf8 item.cedro_id && is_utf8 item.code && is_utf8 item.name
    then record p {
      catalog =
          insert_broker item.cedro_id
            (record { code = item.code; name = item.name; active = item.active }) p.catalog;
    }
    else p

module _ ⦃h : Hasher⦄ ⦃j : Json⦄ where
  unfoldable pub dispatch_book : Bytes → BookOp → Pipeline → Option Pipeline
  dispatch_book ticker op p = elim (BookEngines.apply p.engine.book ticker op) [
    | none ↦ none
    | some (book, observable) ↦ some (
        spawn_fanout (record { kind = Kind.book; ticker = ticker }) (codes "b")
          (record p { engine = record p.engine { book = book } }))
  ]

  unfoldable pub dispatch : ℕ → ProtocolMessage → Pipeline → Option Pipeline
  dispatch now (ProtocolMessage.quote ticker time_hhmmss diff) p = some (
      spawn_fanout (record { kind = Kind.quote; ticker = ticker }) (codes "q")
        (record p {
          engine = record p.engine {
            quote = (Quote.apply ticker time_hhmmss diff p.engine.quote).0;
          };
        }))
  dispatch now (ProtocolMessage.book ticker op) p = dispatch_book ticker op p
  dispatch now (ProtocolMessage.trade ticker op) p = some (dispatch_trade now ticker op p)
  dispatch now (ProtocolMessage.mqc_item item) p = some (dispatch_symbol item p)
  dispatch now (ProtocolMessage.gpn_item item) p = some (dispatch_broker item p)
  dispatch now _ p = some p

  module _ ⦃m : Memchr⦄ ⦃f : FloatText⦄ where
    -- One round of the worker's loop: the archive, then the parser and the dispatch.
    unfoldable pub handle : ℕ → Frame → Pipeline → Option Pipeline
    handle now (kind, frame) p =
        let archived = record p { archive = (try_push frame p.archive).0 } in
        elim (parse_frame kind frame) [ err e ↦ some archived | ok msg ↦ dispatch now msg archived ]

    -- The loop on the frames that are received, each with the clock's reading.
    unfoldable pub worker_loop : List (ℕ × Frame) → Pipeline → Option Pipeline
    worker_loop [] p = some p
    worker_loop ((now, frame) ∷ frames) p = elim (handle now frame p) [
      | none ↦ none
      | some p' ↦ worker_loop frames p'
    ]

-- The runtime polls a task to its end.
unfoldable pub run_task : Task → Pipeline → Pipeline
run_task (submits key payload) p =
    let (fanout, out) = Coalescer.submit key payload p.fanout in
    record p { fanout = fanout; published = p.published ++ out }
run_task (appends payload) p = elim p.trade_writer [
  | none ↦ p
  | some w ↦ record p { trade_writer = some (append_ignored payload w) }
]

-- `flush_all`: the writer's error ends it. Whether an insertion succeeds is an argument.
unfoldable pub flush_fanout : Pipeline → Pipeline
flush_fanout p =
    let (fanout, out) = Coalescer.flush_once p.fanout in
    record p { fanout = fanout; published = p.published ++ out }

unfoldable pub flush_writer : Bool → Pipeline → Pipeline × Result String ℕ
flush_writer inserts p = elim p.trade_writer [
  | none ↦ (p, ok 0)
  | some w ↦ let (w', r) = Writer.flush inserts w in (record p { trade_writer = some w' }, r)
]

abbrev pub and_fanout : Pipeline × Result String ℕ → Pipeline × Result String (Unit {0})
and_fanout (p, ok n) = (flush_fanout p, ok tt)
and_fanout (p, err e) = (p, err e)

unfoldable pub flush_all : Bool → Pipeline → Pipeline × Result String (Unit {0})
flush_all inserts p = and_fanout (flush_writer inserts p)
