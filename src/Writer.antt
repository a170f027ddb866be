-- ===== src/Writer.antt =====
-- crates/persistence/src/trade_writer.rs: `TradeWriter`, one call after the other.
-- The outcome of an insertion is an argument; `committed` lists the rows of the insertions that
-- succeeded, before the database drops those that it has already. Metrics are left out.
pub mod Kept
pub mod Recovery
pub mod Interleaved
use market_data_v.Common.{
  ℕ, suc, ◌+◌, Bool, true, false, Option, none, some, List, [], ◌∷◌, ◌++◌, Bytes, String, leb, ◌==◌,
  if◌then◌else◌, length, Result, ok, err,
}
use market_data_v.Wal.{TradeWal, open_wal, append, sync, replay, truncate}
use market_data_v.Staged.{Clock, StagedTrade, encode_wal, decode_wal}

pub record TradeWriter : Type 0 where
  pub wal : TradeWal
  pub buffer : List StagedTrade
  pub batch_size : ℕ
  pub committed : List StagedTrade

-- `from_parts`
unfoldable pub from_parts : TradeWal → ℕ → List StagedTrade → TradeWriter
from_parts wal batch_size committed = record {
  wal = wal;
  buffer = [];
  batch_size = batch_size;
  committed = committed;
}

-- The insertion of a batch that was taken from the buffer.
unfoldable pub flush_drained :
    Bool → List StagedTrade → TradeWriter → TradeWriter × Result String (Unit {0})
flush_drained inserts [] w = (w, ok tt)
flush_drained inserts (t ∷ ts) w =
    let wal = sync w.wal in
    if inserts
    then (record w { wal = truncate wal; committed = w.committed ++ (t ∷ ts) }, ok tt)
    else (record w { wal = wal }, err "database")

-- The second half of `stage`: a full buffer is taken and flushed.
unfoldable pub flush_full : Bool → TradeWriter → TradeWriter × Result String (Unit {0})
flush_full inserts w =
    if leb w.batch_size (length w.buffer)
    then flush_drained inserts w.buffer (record w { buffer = [] })
    else (w, ok tt)

unfoldable pub stage : Bool → StagedTrade → TradeWriter → TradeWriter × Result String (Unit {0})
stage inserts trade w = elim (append (encode_wal trade) w.wal) [
  | err e ↦ (w, err e)
  | ok (wal, offset) ↦
      flush_full inserts (record w { wal = wal; buffer = w.buffer ++ (trade ∷ []) })
]

-- The answer of `flush` behind `?`.
unfoldable pub counted : ℕ → TradeWriter × Result String (Unit {0}) → TradeWriter × Result String ℕ
counted n (w, ok u) = (w, ok n)
counted n (w, err e) = (w, err e)

unfoldable pub flush : Bool → TradeWriter → TradeWriter × Result String ℕ
flush inserts w =
    if length w.buffer == 0
    then (w, ok 0)
    else counted (length w.buffer) (flush_drained inserts w.buffer (record w { buffer = [] }))

module _ ⦃c : Clock⦄ where
  -- The records that decode.
  unfoldable pub decode_all : List Bytes → List StagedTrade
  decode_all [] = []
  decode_all (raw ∷ records) =
      let rest = decode_all records in
      elim (decode_wal raw) [ none ↦ rest | some trade ↦ trade ∷ rest ]

  unfoldable pub recover_from_wal : TradeWriter → TradeWriter × ℕ
  recover_from_wal w =
      let (wal, records) = replay w.wal in
      let trades = decode_all records in
      (record w { wal = wal; buffer = w.buffer ++ trades }, length trades)
