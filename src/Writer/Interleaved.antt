-- ===== src/Writer/Interleaved.antt =====
-- crates/persistence/src/trade_writer.rs: `flush` in its steps, between which other calls can run. Its
-- `await` on the database is such a point, and `stage` locks nothing that a flush holds.
use market_data_v.Common.{
  ◌^◌, ◌<◌, ◌≡◌, refl, ap, true, false, List, [], ◌∷◌, ◌++◌, leb, ◌==◌, length, ok, arith,
}
use market_data_v.Wal.{TradeWal, open_wal, sync, replay, replay_loop, truncate, flush as flush_file}
use market_data_v.Wal.Crash.{contents, append_lem}
use market_data_v.Staged.{Clock, StagedTrade, encode_wal}
use market_data_v.Writer.{
  TradeWriter, from_parts, flush_drained, flush_full, stage, counted, flush, decode_all,
  recover_from_wal,
}

-- `std::mem::take` under the lock of the buffer.
unfoldable pub take_buffer : TradeWriter → TradeWriter × List StagedTrade
take_buffer w = (record w { buffer = [] }, w.buffer)

-- `self.wal.sync()`
unfoldable pub sync_wal : TradeWriter → TradeWriter
sync_wal w = record w { wal = sync w.wal }

-- The insertion commits.
unfoldable pub insert_batch : List StagedTrade → TradeWriter → TradeWriter
insert_batch batch w = record w { committed = w.committed ++ batch }

-- `self.wal.truncate()`
unfoldable pub truncate_wal : TradeWriter → TradeWriter
truncate_wal w = record w { wal = truncate w.wal }

-- A flush up to the commit.
unfoldable pub flush_to_commit : TradeWriter → TradeWriter
unfolding take_buffer sync_wal insert_batch
flush_to_commit w = let (w', batch) = take_buffer w in insert_batch batch (sync_wal w')

flush_drained-batch :
    (b : List StagedTrade) (w : TradeWriter)
    → 0 < length b
    → flush_drained true b w
      ≡ (record w { wal = truncate (sync w.wal); committed = w.committed ++ b }, ok tt)
unfolding flush_drained
flush_drained-batch [] w h = absurd (omega arith)
flush_drained-batch (t ∷ ts) w h = refl

flush-steps :
    (w : TradeWriter)
    → 0 < length w.buffer
    → flush true w ≡ (truncate_wal (flush_to_commit w), ok (length w.buffer))
unfolding flush counted flush_to_commit truncate_wal
flush-steps w h =
    let some_left : (length w.buffer == 0) ≡ false = ground arith in
    rw some_left
      (ap (counted (length w.buffer)) (flush_drained-batch w.buffer (record w { buffer = [] }) h))

stage-flush_to_commit :
    (t : StagedTrade) (w : TradeWriter)
    → 1 < w.batch_size
    → length (encode_wal t) < 2 ^ 32
    → (wal : TradeWal) × (stage true t (flush_to_commit w)
        ≡ (record w { wal = wal; buffer = t ∷ []; committed = w.committed ++ w.buffer }, ok tt))
unfolding stage flush_full flush_to_commit
stage-flush_to_commit t w b f =
    let (wal, a, _, _) = (append_lem (encode_wal t) (sync w.wal)).0 f in
    let room : leb w.batch_size 1 ≡ false = ground arith in (wal, rw (a, stage) (rw room refl))

module _ ⦃c : Clock⦄ where
  -- A flush of a buffer with a trade in it is its steps in a row. Where a `stage` of another trade, one
  -- that does not fill the buffer and is encoded in less than 2^32 bytes, runs between the commit and
  -- the truncation of the log: it succeeds, its trade is then in the buffer and in no record, and a
  -- new writer on the file after a crash has an empty buffer; the trade is not among those committed.
  pub stage-truncate_lost :
      (t : StagedTrade) (w : TradeWriter)
      → 0 < length w.buffer
      → 1 < w.batch_size
      → length (encode_wal t) < 2 ^ 32
      → let (staged, answer) = stage true t (flush_to_commit w) in
        let after = truncate_wal staged in
        (flush true w ≡ (truncate_wal (flush_to_commit w), ok (length w.buffer)))
        × (answer ≡ ok tt)
        × (after.buffer ≡ t ∷ [])
        × (after.committed ≡ w.committed ++ w.buffer)
        × ((recover_from_wal
              (from_parts (open_wal (contents after.wal)) w.batch_size after.committed)).0.buffer
            ≡ [])
  unfolding truncate_wal truncate decode_all replay_loop recover_from_wal from_parts open_wal replay
      flush_file
  stage-truncate_lost t w h b f =
      let (wal, e) = stage-flush_to_commit t w b f in
      (flush-steps w h, ap (λ r. r.1) e, ap (λ r. r.0.buffer) e, ap (λ r. r.0.committed) e, refl)
