-- ===== src/Tests/Writers.antt =====
-- The trade writer on concrete trades, and its theorems there.
use market_data_v.Common.{
  ◌^◌, ◌<◌, ◌≡◌, ◌↔◌, refl, true, false, none, some, [], ◌∷◌, codes, length, ltb, arith, ok, err,
}
use market_data_v.Utf8.{is_utf8}
use market_data_v.Wal.{TradeWal, open_wal}
use market_data_v.Wal.Records.{log_bytes}
use market_data_v.Wal.Crash.{contents}
use mathlib.Core.List.{append-nil}
use market_data_v.Staged.{Clock, StagedTrade, encode_wal, decode_wal}
use market_data_v.Staged.RoundTrip.{IsStaged, cut_time, decode_wal-encode_wal}
use market_data_v.Writer.{TradeWriter, from_parts, stage, flush, recover_from_wal}
use market_data_v.Writer.Interleaved.{flush_to_commit, truncate_wal, stage-truncate_lost}
use market_data_v.Writer.Kept.{encodings, IsKept, stage-IsKept}
use market_data_v.Writer.Recovery.{fresh-IsKept, flush-IsKept, recover_from_wal-IsKept, stage-lost}

instance abbrev near_times : Clock
near_times = record { representable = λ micros. ltb micros (2 ^ 52) }

abbrev first : StagedTrade
first = record {
  time = record { timestamp_micros = 1704188100000000; nanos = 250 };
  asset_id = 7;
  price = 4636737291354636288;
  amount = 100;
  buyer_id = some 3;
  seller_id = none;
  aggressor_side = some 1;
  trade_id = some (codes "7001");
  is_direct = true;
}

abbrev second : StagedTrade
second = record first { trade_id = none; is_direct = false }

first-IsStaged : IsStaged first
unfolding is_utf8
first-IsStaged = record {
  time_fits = omega arith;
  time = refl;
  asset_id = omega arith;
  price = omega arith;
  amount = omega arith;
  buyer_id = omega arith;
  seller_id = tt;
  aggressor_side = omega arith;
  trade_id = (omega arith, refl);
}

decode_wal-encode_wal_example :
    (decode_wal (encode_wal first) ≡ some (cut_time first))
    × ((decode_wal (encode_wal first) ≡ some first) ↔ (first.time.nanos ≡ 0))
decode_wal-encode_wal_example = decode_wal-encode_wal first first-IsStaged

first_short : length (encode_wal first) < 2 ^ 32
unfolding encode_wal
first_short = omega arith

second_short : length (encode_wal second) < 2 ^ 32
unfolding encode_wal
second_short = omega arith

abbrev fresh : TradeWriter
fresh = from_parts (open_wal []) 2 []

stage-IsKept_example :
    IsKept (first ∷ []) (stage true first fresh).0 × ((stage true first fresh).1 ≡ ok tt)
stage-IsKept_example = stage-IsKept first [] fresh first_short (fresh-IsKept 2)

flush-IsKept_example :
    IsKept [] (flush true fresh).0 × ((flush true fresh).1 ≡ ok (length fresh.buffer))
flush-IsKept_example = flush-IsKept [] fresh (fresh-IsKept 2)

stage-lost_example :
    (wal₁ wal₂ : TradeWal) × (stage false first (from_parts (open_wal []) 1 [])
      ≡ (from_parts wal₁ 1 [], err "database"))
    × (stage true second (from_parts wal₁ 1 []) ≡ (from_parts wal₂ 1 (second ∷ []), ok tt))
    × (contents wal₂ ≡ [])
stage-lost_example = stage-lost first second (open_wal []) [] first_short second_short

-- A writer with one trade that is staged and logged.
abbrev loaded : TradeWriter
loaded = record {
  wal = open_wal (log_bytes (encodings (first ∷ [])));
  buffer = first ∷ [];
  batch_size = 2;
  committed = second ∷ [];
}

loaded-IsKept : IsKept (second ∷ first ∷ []) loaded
unfolding open_wal
loaded-IsKept = record { all = refl; logged = append-nil (log_bytes (encodings (first ∷ []))) }

recover_from_wal-IsKept_example :
    (recover_from_wal (from_parts (open_wal (contents loaded.wal)) 2 (second ∷ []))).0.buffer
      ≡ cut_time first ∷ []
    × IsKept
        (second ∷ cut_time first ∷ [])
        (recover_from_wal (from_parts (open_wal (contents loaded.wal)) 2 (second ∷ []))).0
recover_from_wal-IsKept_example =
    recover_from_wal-IsKept (second ∷ first ∷ []) loaded loaded-IsKept (first-IsStaged, tt)
      (first_short, tt)

stage-truncate_lost_example :
    let (staged, answer) = stage true second (flush_to_commit loaded) in
    let after = truncate_wal staged in
    (flush true loaded ≡ (truncate_wal (flush_to_commit loaded), ok 1))
    × (answer ≡ ok tt)
    × (after.buffer ≡ second ∷ [])
    × (after.committed ≡ second ∷ first ∷ [])
    × ((recover_from_wal (from_parts (open_wal (contents after.wal)) 2 after.committed)).0.buffer
        ≡ [])
stage-truncate_lost_example =
    stage-truncate_lost second loaded (omega arith) (omega arith) second_short
