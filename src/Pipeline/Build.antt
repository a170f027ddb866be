-- ===== src/Pipeline/Build.antt =====
-- bin/ingest-daemon/src/pipeline.rs: `build`, and what the pipeline that it builds does with trades.
-- Whether the archive starts is an argument, and so is the writer that the database gives, `none` where
-- the connection fails. Which sink is behind the fan-out is left out.
use market_data_v.Common.{
  bytes_keys, ℕ, ◌≡◌, refl, Bool, true, Option, some, List, [], Bytes, if◌then◌else◌, Result, ok,
  err, String,
}
use market_data_v.Common.{ℤ}
use market_data_v.Coalescer.{Kind, PublishKey}
use market_data_v.Pipeline.Symbols.{Catalog}
use market_data_v.Frame.{Frame}
use market_data_v.Memchr.{Memchr}
use market_data_v.Shard.{Hasher}
use market_data_v.Types.{FloatText}
use market_data_v.Quote
use market_data_v.Book.Engine as BookEngines
use market_data_v.Book.Engine.Refine.{new-book_of}
use market_data_v.Trades
use market_data_v.Trades.Bounds.{new-IsBounded}
use market_data_v.Coalescer
use market_data_v.Archive
use market_data_v.Archive.{try_push}
use market_data_v.Assets
use market_data_v.Client.Subscriptions
use market_data_v.Writer.{TradeWriter}
use market_data_v.Pipeline.{Json, Pipeline, worker_loop}
use market_data_v.Pipeline.Symbols
use market_data_v.Pipeline.Views.{IsReady}
use market_data_v.Pipeline.Dry.{IsDry, worker_loop-IsDry}

pub record RuntimeConfig : Type 0 where
  pub log_filter : Bytes
  pub log_json : Bool
  pub metrics_bind : Bytes
  pub cedro_host : Bytes
  pub cedro_port : ℕ
  pub cedro_software_key : Bytes
  pub cedro_username : Bytes
  pub cedro_password : Bytes
  pub so_rcvbuf : ℕ
  pub frame_channel_capacity : ℕ
  pub reader_cpu : Option ℕ
  pub watchdog_cpu : Option ℕ
  pub n_parser_workers : ℕ
  pub n_book_shards : ℕ
  pub trade_buffer_per_ticker : ℕ
  pub nats_url : Bytes
  pub redis_url : Bytes
  pub snapshot_ttl_seconds : Option ℕ
  pub raw_archive_dir : Bytes
  pub raw_archive_zstd_level : ℤ
  pub database_url : Bytes
  pub db_pool_size : ℕ
  pub wal_path : Bytes
  pub trade_batch_size : ℕ
  pub trade_flush_interval_ms : ℕ

unfoldable pub build : RuntimeConfig → Bool → Option TradeWriter → Result String Pipeline
build cfg archive_starts trade_writer =
    let archive : Archive.ArchiveConfig = record Archive.default {
      root = cfg.raw_archive_dir;
      zstd_level = cfg.raw_archive_zstd_level;
    } in
    if archive_starts
    then ok (record {
      engine = record {
        quote = Quote.new;
        book = BookEngines.new cfg.n_book_shards;
        trades = Trades.new cfg.trade_buffer_per_ticker;
      };
      fanout = Coalescer.new;
      archive = Archive.spawn archive;
      trade_writer = trade_writer;
      asset_cache = Assets.new;
      catalog = Symbols.default;
      subscriptions = Subscriptions.new;
      tasks = [];
      published = [];
    })
    else err "raw archive"

module _ ⦃m : Memchr⦄ ⦃f : FloatText⦄ ⦃h : Hasher⦄ ⦃j : Json⦄ where
  built-IsReady :
      (cfg : RuntimeConfig) (w : Option TradeWriter)
      → (p : Pipeline) × (build cfg true w ≡ ok p) × IsReady p.engine × IsDry w p
  unfolding build
  built-IsReady cfg w = (
    _,
    refl,
    record {
      shards = (new-book_of cfg.n_book_shards).0;
      bounded = new-IsBounded cfg.trade_buffer_per_ticker;
    },
    record { no_assets = refl; same_writer = refl; only_submits = tt },
  )

  -- The daemon never fills the cache of the assets. So from the pipeline that it builds, with any
  -- configuration and any trade writer, a worker that handles any frames never panics, and afterwards the
  -- writer is as it was, its log included, no asset is known, and every task that was spawned is one of the
  -- fan-out: no trade is on its way to the log or to the database.
  pub build-IsDry :
      (cfg : RuntimeConfig) (w : Option TradeWriter) (frames : List (ℕ × Frame))
      → (p p' : Pipeline) × (build cfg true w ≡ ok p)
        × (worker_loop frames p ≡ some p')
        × IsDry w p'
  build-IsDry cfg w frames =
      let (p, b, r, d) = built-IsReady cfg w in
      let (p', e, d') = worker_loop-IsDry w frames p r d in (p, p', b, e, d')
