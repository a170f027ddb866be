-- ===== src/Tests/Pipelines.antt =====
-- The pipeline and the boot on concrete frames, and their theorems there.
use market_data_v.Common.{
  bytes_keys, ◌≢◌, ℕ, ◌≡◌, refl, false, true, none, some, List, [], ◌∷◌, ◌++◌, Bytes, codes, length,
  map, ok, arith,
}
use market_data_v.Common.{pos}
use market_data_v.Memchr.{plain_scan}
use market_data_v.Frame.{newline, Frame}
use market_data_v.Types.{BookOp}
use market_data_v.Quote as Quotes
use market_data_v.Book.Engine as BookEngines
use market_data_v.Book.Engine.{is_allowed}
use market_data_v.Trades
use market_data_v.Trades.Bounds.{new-IsBounded}
use market_data_v.Wal.{open_wal}
use market_data_v.Writer.{from_parts}
use market_data_v.Coalescer
use market_data_v.Archive
use market_data_v.Assets
use market_data_v.Client.Commands
use market_data_v.Client.Commands.{CommandSink}
use market_data_v.Client.Commands.Calls
use market_data_v.Client.Subscriptions
use market_data_v.Client.Subscriptions.Held
use market_data_v.Pipeline.{Json, Pipeline, worker_loop, flush_writer, appends}
use market_data_v.Pipeline.Symbols
use market_data_v.Pipeline.Symbols.{symbols, book_universe, insert_symbol}
use market_data_v.Pipeline.Views.{IsReady}
use market_data_v.Pipeline.Dry.{IsDry}
use market_data_v.Pipeline.Build.{RuntimeConfig, build, build-IsDry}
use market_data_v.Pipeline.Timer
use market_data_v.Pipeline.Timer.{spawn_flush_timer, returned, spawn_flush_timer-lost}
use market_data_v.Pipeline.Handled.{messages, Handled, worker_loop-Handled}
use market_data_v.Pipeline.Workers.{
  Workers, spawn_workers, Reach, start, next, receives, Reach-worker_loop, Reach-either_order,
}
use market_data_v.Pipeline.Rows.{buffer_of, committed_of}
use market_data_v.Pipeline.Unstaged.{Action, handles, act_all, act_all-uncommitted}
use market_data_v.Pipeline.Unstaged
use market_data_v.Bootstrap
use market_data_v.Bootstrap.{run, wait, boot, discover, is_in, mqc_queries}
use market_data_v.Bootstrap.Subscribed.{
  subscriptions, registrations, queries, run-subscriptions, boot-nothing,
}
use market_data_v.Tests.Data.{petr, sum_hasher, float_table}

instance abbrev no_text : Json
no_text = record { trade_object = λ t. [] }

-- The daemon before its boot, with a trade writer and one known asset.
abbrev booted : Pipeline
booted = record {
  engine = record { quote = Quotes.new; book = BookEngines.new 2; trades = Trades.new 4 };
  fanout = Coalescer.new;
  archive = Archive.spawn Archive.default;
  trade_writer = some (from_parts (open_wal []) 2 []);
  asset_cache = Assets.insert petr 7 Assets.new;
  catalog = Symbols.default;
  subscriptions = Subscriptions.new;
  tasks = [];
  published = [];
}

booted-IsReady : IsReady booted.engine
unfolding BookEngines.new
booted-IsReady = record { shards = omega arith; bounded = new-IsBounded 4 }

abbrev added : Frame
added = (newline, codes "B:PETR4:A:0:A:99.5:100:131:11041005:X1:L")

abbrev cancelled : Frame
cancelled = (newline, codes "B:PETR4:D:3")

abbrev frames : List (ℕ × Frame)
frames = (1, added) ∷ (2, cancelled) ∷ []

worker_loop-Handled_example :
    (p' : Pipeline) × (worker_loop frames booted ≡ some p')
    × Handled (messages frames) booted.engine p'.engine
worker_loop-Handled_example = worker_loop-Handled frames booted booted-IsReady

-- The first frame is in hand, the other one still in the channel.
abbrev one_busy :
    Reach 1
      (spawn_workers (added ∷ cancelled ∷ []) booted)
      (record { queue = cancelled ∷ []; busy = added ∷ []; pipeline = booted })
unfolding spawn_workers
one_busy = next start (receives added (cancelled ∷ []) refl (omega arith))

Reach-worker_loop_example :
    (handled : List (ℕ × Frame)) × (worker_loop handled booted ≡ some booted)
    × (map (λ (x : ℕ × Frame). x.1) handled ++ ((added ∷ []) ++ (cancelled ∷ []))
        ≡ added ∷ cancelled ∷ [])
Reach-worker_loop_example = Reach-worker_loop (added ∷ cancelled ∷ []) booted one_busy

Reach-either_order_example :
    (s t : Workers) × Reach 8 (spawn_workers (added ∷ cancelled ∷ []) booted) s
    × (worker_loop ((1, added) ∷ (2, cancelled) ∷ []) booted ≡ some s.pipeline)
    × Reach 8 (spawn_workers (added ∷ cancelled ∷ []) booted) t
    × (worker_loop ((1, cancelled) ∷ (2, added) ∷ []) booted ≡ some t.pipeline)
Reach-either_order_example =
    Reach-either_order 8 added cancelled [] 1 2 booted (omega arith) booted-IsReady

abbrev sold : Frame
sold = (newline, codes "V:PETR4:A:101500:99.5:3:85:100:7001:1:A:X")

abbrev actions : List Action
actions = handles 1 sold ∷ Unstaged.runs (appends []) ∷ Unstaged.flushes true ∷ []

act_all-uncommitted_example :
    (p' : Pipeline) × (act_all actions booted ≡ some p')
    × (buffer_of p'.trade_writer ≡ [])
    × (committed_of p'.trade_writer ≡ committed_of booted.trade_writer)
    × ((flush_writer true p').1 ≡ ok 0)
unfolding from_parts
act_all-uncommitted_example = act_all-uncommitted actions booted true booted-IsReady refl

-- With the discovery's answer there, as the code means it.
abbrev answered : Pipeline → Pipeline
answered p = record p { catalog = insert_symbol (codes "BOVESPA") petr p.catalog }

run-subscriptions_example :
    let (cmd', p', universe) = run answered Commands.new booted in
    let books = book_universe (answered booted).catalog in
    let tickers = symbols (answered booted).catalog in
    (cmd'
      ≡ Calls.perform_all (subscriptions books tickers) (
          Calls.perform_all
            (Calls.list_brokers (codes "BOVESPA") ∷ queries mqc_queries)
            Commands.new))
    × (p'.subscriptions
        ≡ Held.perform_all (registrations books tickers) (answered booted).subscriptions)
    × ((u : Bytes) → is_allowed p'.engine.book u ≡ is_in books u)
    × (universe.total ≡ length tickers)
run-subscriptions_example = run-subscriptions answered Commands.new booted

boot-nothing_example :
    let (cmd', p', universe) = boot (Bootstrap.flushes ∷ []) Commands.new booted in
    (universe.total ≡ 0)
    × (cmd' ≡ discover Commands.new)
    × (p'.subscriptions ≡ (wait (Bootstrap.flushes ∷ []) booted).subscriptions)
    × ((t : Bytes) (op : BookOp)
        → BookEngines.apply p'.engine.book t op ≡ some (p'.engine.book, false))
boot-nothing_example = boot-nothing (Bootstrap.flushes ∷ []) Commands.new booted refl

abbrev defaults : RuntimeConfig
defaults = record {
  log_filter = codes "info";
  log_json = true;
  metrics_bind = codes "0.0.0.0:9100";
  cedro_host = codes "127.0.0.1";
  cedro_port = 81;
  cedro_software_key = [];
  cedro_username = codes "user";
  cedro_password = codes "word";
  so_rcvbuf = 134217728;
  frame_channel_capacity = 2097152;
  reader_cpu = none;
  watchdog_cpu = none;
  n_parser_workers = 8;
  n_book_shards = 8;
  trade_buffer_per_ticker = 100;
  nats_url = codes "nats://127.0.0.1:4222";
  redis_url = codes "redis://127.0.0.1/";
  snapshot_ttl_seconds = none;
  raw_archive_dir = codes "/var/data/raw";
  raw_archive_zstd_level = pos 3;
  database_url = codes "postgres://127.0.0.1/";
  db_pool_size = 4;
  wal_path = codes "/var/data/trades.wal";
  trade_batch_size = 5000;
  trade_flush_interval_ms = 100;
}

build-IsDry_example :
    (p p' : Pipeline) × (build defaults true (some (from_parts (open_wal []) 2 [])) ≡ ok p)
    × (worker_loop ((1, sold) ∷ []) p ≡ some p')
    × IsDry (some (from_parts (open_wal []) 2 [])) p'
build-IsDry_example = build-IsDry defaults (some (from_parts (open_wal []) 2 [])) ((1, sold) ∷ [])

spawn_flush_timer-lost_example :
    ((s : Timer.Shutdown) × Timer.Reach (spawn_flush_timer booted) s × (s.stopped ≡ true))
    × ((s : Timer.Shutdown) × Timer.Reach (spawn_flush_timer booted) s
        × (s.signalled ≡ true)
        × ((t : Timer.Shutdown) → Timer.Reach s t → (t.phase ≢ returned) × (t.stopped ≡ false)))
spawn_flush_timer-lost_example = spawn_flush_timer-lost booted
