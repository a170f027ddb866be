-- ===== src/Tests/Logs.antt =====
-- The write-ahead log on concrete payloads, and its theorems there.
use market_data_v.Common.{ℕ, ◌≡◌, refl, List, [], ◌∷◌, Bytes, codes, take, arith, ok}
use market_data_v.Wal.{TradeWal, open_wal, replay}
use market_data_v.Wal.Crc.{
  compute_crc32, crc_bytes, crc_byte, crc_bit, xor_bits, and_bits, to_le_bytes,
}
use market_data_v.Wal.Records.{complete}
use market_data_v.Wal.Crash.{contents, append_all, append_all-replay}

check_sum : compute_crc32 1 (codes "a") ≡ 3254226787
unfolding compute_crc32 crc_bytes crc_byte crc_bit xor_bits and_bits to_le_bytes
check_sum = refl

abbrev two : List Bytes
two = codes "trade-1" ∷ codes "" ∷ []

append_all-replay_example :
    (w : TradeWal) × (append_all two (open_wal []) ≡ ok w)
    × ((replay w).1 ≡ two)
    × ((k : ℕ) → (replay (open_wal (take k (contents w)))).1 ≡ complete k two)
append_all-replay_example = append_all-replay two (omega arith, (omega arith, tt))
