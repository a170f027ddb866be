-- ===== src/Lib.antt =====
-- Verification library of the market data service: a gateway that reads the Cedro feed, a line protocol
-- over TCP, keeps the state of the market, and passes it on.
--
-- Bytes from the socket go into the frame splitter, which cuts them at `!` and line feeds. `parse_frame`
-- dispatches a frame on its header to one of ten parsers, each a run over the colon-separated tokens of
-- the frame. The messages go to three engines keyed by ticker: order books in shards, quotes, and the
-- last trades. Staged trades go through a write-ahead log.
--
-- Around this core: a login on a fresh connection; a reader thread that passes frames through a bounded
-- channel to the workers; each worker archives a frame, parses it, and dispatches the message to the
-- engines, to the log and, as a task of the runtime, to the coalescer, which publishes the latest payload
-- of a key; and a boot that asks for the catalog and subscribes to what it finds.
--
-- The files, and the code that each is about:
--   Common         shared names; Bytes, Result, ℤ over the native numbers, hash maps
--   Memchr         the memchr crate, by its documented contract, with one implementation
--   Frame          crates/cedro-protocol/src/frame.rs (FrameSplitter: next_frame, drain)
--   Enums          crates/cedro-protocol/src/enums.rs (from_code, from_byte of every enumeration)
--   Types          crates/cedro-protocol/src/types.rs (ProtocolMessage and what it holds)
--   Utf8           core::str::from_utf8, as far as its verdict
--   Scanner        crates/cedro-protocol/src/parser/scanner.rs (Scanner, parse_u64 and the others)
--   Parser         crates/cedro-protocol/src/parser/mod.rs (parse_frame), with a child for each of
--                  bqt.rs, sab.rs, gqt.rs, sqt.rs, nem.rs, vap.rs, mqc.rs, gpn.rs, gtc.rs and error.rs
--   Shard          crates/market-engine/src/shard.rs (shard_for)
--   Book           crates/market-engine/src/book/ (OrderBook in Book/Order, BookEngine in Book/Engine)
--   Quote          crates/market-engine/src/quote.rs (QuoteEngine)
--   Trades         crates/market-engine/src/trade.rs (TradeBuffer)
--   Wal            crates/persistence/src/wal.rs (TradeWal, compute_crc32)
--   Staged         crates/persistence/src/trade_writer.rs (StagedTrade: encode_wal, decode_wal)
--   Writer         crates/persistence/src/trade_writer.rs (TradeWriter: stage, flush, recover_from_wal)
--                  Writer/Interleaved has `flush` in its steps
--   Coalescer      crates/fanout/src/coalescer.rs, types.rs (Coalescer, PublishKey; the submissions
--                  and flushes side by side in Coalescer/Steps, the subjects and keys in
--                  Coalescer/Keys)
--   Client         crates/cedro-client/src/error.rs, with Client/Commands (commands.rs),
--                  Client/Subscriptions (subscription.rs), Client/Config (config.rs) and
--                  Client/Handshake (handshake.rs)
--   Reader         crates/cedro-client/src/reader.rs (reader_loop and its channel; watchdog_loop)
--   Archive        crates/raw-archive/src/writer.rs (try_push, writer_loop, HourFile)
--   Assets         crates/persistence/src/asset_cache.rs (AssetCache)
--   Pipeline       bin/ingest-daemon/src/pipeline.rs (dispatch, worker_loop, flush_all; the catalog in
--                  Pipeline/Symbols, the workers side by side in Pipeline/Workers, build in
--                  Pipeline/Build, the timer of the flush and its shutdown in Pipeline/Timer)
--   Bootstrap      bin/ingest-daemon/src/bootstrap.rs (run), and the order of the boot in main.rs
--   Tests          runs on concrete data, and the theorems applied to them
--
-- Conventions. `&mut self` is a state passed in and out. A parser takes the scanner and returns a result
-- with the scanner behind it; `?` is the bind of a do block. Rust's debug assertions on a header are left
-- out. An unsigned integer is a number that its parser bounds by the width; an f64 is its bit pattern.
-- A position is a u32 widened to usize, so adding one does not wrap. A call on a shard runs under that
-- shard's mutex and is one atomic step; a poisoned lock is not modelled. Slices and `Bytes` are lists.
--
-- Interfaces for code that is not in the repository: Memchr (the first index of a byte), FloatText
-- (`str::parse::<f64>`), Hasher (a function of the bytes), Clock (the times of chrono), Memmem (the first
-- place of a text in another), Scale and FloatOrder (the product of a size and a float, the order of
-- floats), Json (`serde_json` on a trade), Lossy (`String::from_utf8_lossy`). A hash map is a list of
-- entries whose order no theorem depends on. Threads are step relations, each step one atomic action:
-- Reader for the reader thread, its channel and the workers that take from it, Pipeline/Workers for the
-- workers, Pipeline/Timer for the timer and the end of `main`, Coalescer/Steps for the submissions and
-- flushes of the coalescer. What a socket, a file system, a
-- database or a clock answers comes as an argument with the step that asks.
--
-- Fuel. The splitter's loop has one unit for each buffered byte, and each frame takes one. The loops over
-- tokens have two units more than the frame has bytes, and a frame has at most one token more than bytes.
-- A replay has one unit for each byte of the file, and each record takes eight bytes at least; the reading
-- of an archive file likewise, with five. A decimal has one unit for each of twenty digits, enough for 64
-- bits.
--
-- Not modelled: the sockets' options and their opening (connection.rs), the database itself, the Redis
-- publisher, the HTTP and WebSocket server, the reading of the environment, metrics and logging.
pub mod Common
pub mod Memchr
pub mod Frame
pub mod Enums
pub mod Types
pub mod Shard
pub mod Book
pub mod Utf8
pub mod Scanner
pub mod Parser
pub mod Quote
pub mod Trades
pub mod Wal
pub mod Staged
pub mod Writer
pub mod Coalescer
pub mod Client
pub mod Reader
pub mod Archive
pub mod Assets
pub mod Pipeline
pub mod Bootstrap
pub mod Tests
