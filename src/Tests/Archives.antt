-- ===== src/Tests/Archives.antt =====
-- The archive and the cache of the assets on concrete data, and their theorems there.
use market_data_v.Common.{
  bytes_keys, ℕ, ◌<◌, ◌≡◌, refl, true, none, some, List, [], ◌∷◌, Bytes, codes, length, ok, arith,
}
use market_data_v.Common.HashMap
use market_data_v.Common.HashMap.{HashMap}
use market_data_v.Common.Text.{decimal}
use market_data_v.Archive.{
  default, HourKey, same_hour, file_name, padded, Round, writer_loop, fresh,
}
use market_data_v.Archive.Files.{text}
use market_data_v.Archive.ReadBack.{read_frames, read_frames-writer_loop}
use market_data_v.Archive.Names.{IsHour, frames_of}
use market_data_v.Assets.{Rows, new, get, refresh, refresh_states}
use market_data_v.Assets.Refresh.{last_id, refresh-get}
use market_data_v.Tests.Data.{petr}

abbrev at : ℕ → HourKey
at hour = record { year = 2026; month = 3; day = 9; hour = hour }

abbrev kept : HourKey → Bytes → Round
kept now frame = record { frame = frame; now = now; finalizes = true; opens = true; writes = true }

-- The clock steps back behind the second frame.
abbrev rounds : List Round
rounds =
    kept (at 14) (codes "T:PETR4")
    ∷ kept (at 15) (codes "T:VALE3")
    ∷ kept (at 14) (codes "B:PETR4")
    ∷ []

hour_text : file_name (at 9) ≡ codes "2026-03-09T09.zst"
unfolding file_name padded decimal
hour_text = refl

two_frames : frames_of (at 14) rounds ≡ codes "T:PETR4" ∷ codes "B:PETR4" ∷ []
unfolding same_hour
two_frames = refl

at-IsHour : (hour : ℕ) → hour < 24 → IsHour (at hour)
at-IsHour hour l = record {
  year = omega arith;
  month = omega arith;
  day = omega arith;
  hour = omega arith;
}

read_frames-writer_loop_example :
    read_frames (text (writer_loop default rounds true (fresh HashMap.empty)) (file_name (at 14)))
    ≡ frames_of (at 14) rounds
unfolding same_hour
read_frames-writer_loop_example =
    read_frames-writer_loop default rounds (at 14)
      ((refl, refl, refl), ((refl, refl, refl), ((refl, refl, refl), tt)))
      (at-IsHour 14 (omega arith))
      (at-IsHour 14 (omega arith), (at-IsHour 15 (omega arith), (at-IsHour 14 (omega arith), tt)))
      (omega arith, (omega arith, tt))

abbrev rows : Rows
rows = (1, petr) ∷ (2, codes "VALE3") ∷ (3, petr) ∷ []

refresh-get_example :
    ((ticker : Bytes) → get (refresh (some rows) new).0 ticker ≡ last_id ticker none rows)
    × ((refresh (some rows) new).1 ≡ ok (length rows))
    × ((refresh none new).0 ≡ new)
    × ((cleared : HashMap Bytes ℕ) × (later : List (HashMap Bytes ℕ)) × (refresh_states rows
          ≡ cleared ∷ later)
        × ((ticker : Bytes) → HashMap.get cleared ticker ≡ none))
refresh-get_example = refresh-get rows new
