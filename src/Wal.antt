-- ===== src/Wal.antt =====
-- crates/persistence/src/wal.rs: the write-ahead log.
-- The state is the bytes of the file, those that `BufWriter` still holds, and the counter. An input or
-- output that fails is not modelled; a crash is, as a file that ends early. Metrics are left out.
pub mod Crc
pub mod Records
pub mod Crash
use market_data_v.Common.{
  ℕ, zero, suc, ◌+◌, ◌-◌, ◌*◌, ◌^◌, ◌%◌, ◌/◌, Bool, true, false, Option, none, some, List, [], ◌∷◌,
  ◌++◌, Bytes, String, ltb, leb, ◌==◌, if◌then◌else◌, length, take, drop, Result, ok, err,
}
use market_data_v.Wal.Crc.{compute_crc32, to_le_bytes, from_le_bytes}

pub record TradeWal : Type 0 where
  pub file : Bytes
  pub buffer : Bytes
  pub bytes_written : ℕ

abbrev pub buffer_capacity : ℕ
buffer_capacity = 64 * 1024

-- `TradeWal::open` on a file with some contents.
unfoldable pub open_wal : Bytes → TradeWal
open_wal contents = record { file = contents; buffer = []; bytes_written = length contents }

-- `BufWriter::flush`
unfoldable pub flush : TradeWal → TradeWal
flush w = record w { file = w.file ++ w.buffer; buffer = [] }

-- `BufWriter::write_all` behind a flush, if there was no room.
unfoldable pub write_flushed : Bytes → TradeWal → TradeWal
write_flushed bytes w =
    if leb buffer_capacity (length bytes)
    then record w { file = w.file ++ bytes }
    else record w { buffer = w.buffer ++ bytes }

-- `BufWriter::write_all`
unfoldable pub write_all : Bytes → TradeWal → TradeWal
write_all bytes w =
    let spare = buffer_capacity - length w.buffer in
    if ltb (length bytes) spare
    then record w { buffer = w.buffer ++ bytes }
    else write_flushed bytes (if ltb spare (length bytes) then flush w else w)

unfoldable pub append : Bytes → TradeWal → Result String (TradeWal × ℕ)
append payload w =
    if ltb (length payload) (2 ^ 32)
    then (let w₁ = write_all (to_le_bytes (length payload)) w in
        let w₂ = write_all payload w₁ in
        let w₃ = write_all (to_le_bytes (compute_crc32 (length payload) payload)) w₂ in
        let offset = w₃.bytes_written + (4 + length payload + 4) in
        ok (record w₃ { bytes_written = offset }, offset))
    else err "payload larger than 4 GiB rejected"

-- `sync`: what `flush` does, and the file on the disk.
unfoldable pub sync : TradeWal → TradeWal
sync w = flush w

unfoldable pub bytes_written : TradeWal → ℕ
bytes_written w = w.bytes_written

-- A payload of `len` bytes with its check sum at the start of `body`, and the bytes behind them.
unfoldable pub read_payload : ℕ → Bytes → Option (Bytes × Bytes)
read_payload len body =
    if ltb (length body) (len + 4)
    then none
    else if from_le_bytes (take 4 (drop len body)) == compute_crc32 len (take len body)
    then some (take len body, drop (len + 4) body)
    else none

-- One round of the loop of `replay`, over the bytes from `pos` on; `none` where it ends.
unfoldable pub read_record : Bytes → Option (Bytes × Bytes)
read_record rest =
    if leb 4 (length rest) then read_payload (from_le_bytes (take 4 rest)) (drop 4 rest) else none

-- The loop of `replay` on fuel; a record takes eight bytes at least.
unfoldable pub replay_loop : ℕ → Bytes → List Bytes
replay_loop zero rest = []
replay_loop (suc fuel) rest = elim (read_record rest) [
  | none ↦ []
  | some (payload, behind) ↦ payload ∷ replay_loop fuel behind
]

unfoldable pub replay : TradeWal → TradeWal × List Bytes
replay w = let w' = flush w in (w', replay_loop (length w'.file) w'.file)

unfoldable pub truncate : TradeWal → TradeWal
truncate w = record { file = []; buffer = []; bytes_written = 0 }
