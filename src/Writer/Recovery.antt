-- ===== src/Writer/Recovery.antt =====
-- crates/persistence/src/trade_writer.rs: the recovery of a writer behind a restart, and a flush.
use market_data_v.Common.{
  ℕ, ◌^◌, ◌<◌, ◌≡◌, refl, sym, ap, ◌∙◌, Bool, true, false, List, [], ◌∷◌, ◌++◌, String, ◌==◌,
  if◌then◌else◌, length, map, Result, ok, err, All, arith, Bool-cases, inl, inr,
}
use mathlib.Core.List.{append-nil}
use market_data_v.Wal.{TradeWal, open_wal, sync, replay, replay_loop, truncate, flush as flush_file}
use market_data_v.Wal.Records.{log_bytes, Fits}
use market_data_v.Wal.Crash.{contents, append_lem, replay_loop_whole_log}
use market_data_v.Staged.{Clock, StagedTrade, encode_wal, flags_of}
use market_data_v.Staged.RoundTrip.{IsStaged, cut_time, decode_wal-cut_time}
use market_data_v.Writer.{
  TradeWriter, from_parts, flush_drained, flush_full, stage, counted, flush, decode_all,
  recover_from_wal,
}
use market_data_v.Writer.Kept.{encodings, IsKept, flush_drained-IsKept}

pub fresh-IsKept : (n : ℕ) → IsKept [] (from_parts (open_wal []) n [])
unfolding from_parts open_wal log_bytes
fresh-IsKept n = record { all = refl; logged = refl }

-- Where the trades taken are committed or in the buffer and the log holds the buffer, a flush that
-- succeeds keeps this, and answers the length of the buffer.
pub flush-IsKept :
    (history : List StagedTrade) (w : TradeWriter)
    → IsKept history w
    → IsKept history (flush true w).0 × ((flush true w).1 ≡ ok (length w.buffer))
unfolding flush counted
flush-IsKept history w h = elim (Bool-cases (length w.buffer == 0)) [
  | inl e ↦ let n : 0 ≡ length w.buffer = ground arith in rw (e) (h, ap ok n)
  | inr e ↦
      let (k, q) =
        flush_drained-IsKept w.buffer history (record w { buffer = [] }) refl h.all h.logged in
      rw (e) (
        counted_kept history (length w.buffer)
          (flush_drained true w.buffer (record w { buffer = [] })) k q)
]
  where
    counted_kept :
        (history : List StagedTrade) (n : ℕ) (r : TradeWriter × Result String (Unit {0}))
        → IsKept history r.0
        → r.1 ≡ ok tt
        → IsKept history (counted n r).0 × ((counted n r).1 ≡ ok n)
    counted_kept history n (w, ok u) k q = (k, refl)
    counted_kept history n (w, err x) k q = absurd (cc)

module _ ⦃c : Clock⦄ where
  decode_all-encodings :
      (ts : List StagedTrade) → All IsStaged ts → decode_all (encodings ts) ≡ map cut_time ts
  unfolding decode_all
  decode_all-encodings [] h = refl
  decode_all-encodings (t ∷ ts) h =
      rw (decode_wal-cut_time t h.0, decode_all)
        (ap (λ x. cut_time t ∷ x) (decode_all-encodings ts h.1))

  encodings-cut_time : (ts : List StagedTrade) → encodings (map cut_time ts) ≡ encodings ts
  unfolding encode_wal flags_of
  encodings-cut_time [] = refl
  encodings-cut_time (t ∷ ts) = ap (λ x. encode_wal t ∷ x) (encodings-cut_time ts)

  -- Where the trades taken are committed or in the buffer and the log holds the buffer, and each trade
  -- of the buffer fits its fields and is encoded in less than 2^32 bytes: after a crash that keeps the
  -- log, a new writer on the file recovers exactly the trades of the buffer, in order, each with its time
  -- cut to the microsecond; and the new writer has taken the committed trades and these, in that its log
  -- holds exactly its buffer.
  pub recover_from_wal-IsKept :
      (history : List StagedTrade) (w : TradeWriter)
      → IsKept history w
      → All IsStaged w.buffer
      → All Fits (encodings w.buffer)
      → (recover_from_wal
            (from_parts (open_wal (contents w.wal)) w.batch_size w.committed)).0.buffer
          ≡ map cut_time w.buffer
        × IsKept
            (w.committed ++ map cut_time w.buffer)
            (recover_from_wal (from_parts (open_wal (contents w.wal)) w.batch_size w.committed)).0
  unfolding recover_from_wal from_parts open_wal replay flush_file
  recover_from_wal-IsKept history w h s f =
      let l : contents w.wal ++ [] ≡ log_bytes (encodings w.buffer) =
        append-nil (contents w.wal) ∙ h.logged in
      let r : decode_all (replay_loop (length (contents w.wal ++ [])) (contents w.wal ++ []))
          ≡ map cut_time w.buffer =
        ap (λ b. decode_all (replay_loop (length b) b)) l
        ∙ ap decode_all (replay_loop_whole_log (encodings w.buffer) f)
        ∙ decode_all-encodings w.buffer s in
      (
        r,
        record {
          all = ap (λ b. w.committed ++ b) r;
          logged =
              append-nil (contents w.wal ++ [])
              ∙ l
              ∙ sym (ap log_bytes (ap encodings r ∙ encodings-cut_time w.buffer));
        },
      )

stage-from_parts :
    (inserts : Bool) (a : StagedTrade) (wal : TradeWal) (cs : List StagedTrade)
    → length (encode_wal a) < 2 ^ 32
    → (wal' : TradeWal) × (stage inserts a (from_parts wal 1 cs) ≡ (
        if inserts
        then (from_parts (truncate (sync wal')) 1 (cs ++ (a ∷ [])), ok tt)
        else (from_parts (sync wal') 1 cs, err "database")))
unfolding stage flush_full flush_drained from_parts
stage-from_parts true a wal cs f =
    let (wal', x, c, n) = (append_lem (encode_wal a) wal).0 f in (wal', rw (x, stage) refl)
stage-from_parts false a wal cs f =
    let (wal', x, c, n) = (append_lem (encode_wal a) wal).0 f in (wal', rw (x, stage) refl)

-- With a batch of one, an empty buffer and trades that are encoded in less than 2^32 bytes: a trade
-- whose insertion fails is gone for good once the next trade is inserted. It is not committed, not in
-- the buffer, and no longer in the log.
pub stage-lost :
    (a b : StagedTrade) (wal : TradeWal) (cs : List StagedTrade)
    → length (encode_wal a) < 2 ^ 32
    → length (encode_wal b) < 2 ^ 32
    → (wal₁ wal₂ : TradeWal) × (stage false a (from_parts wal 1 cs)
        ≡ (from_parts wal₁ 1 cs, err "database"))
      × (stage true b (from_parts wal₁ 1 cs) ≡ (from_parts wal₂ 1 (cs ++ (b ∷ [])), ok tt))
      × (contents wal₂ ≡ [])
unfolding truncate
stage-lost a b wal cs f g =
    let (w₁, p) = stage-from_parts false a wal cs f in
    let (w₂, q) = stage-from_parts true b (sync w₁) cs g in
    (sync w₁, truncate (sync w₂), p, q, refl)
