-- ===== src/Archive.antt =====
-- crates/raw-archive/src/writer.rs: the archive of the raw frames, one compressed file for each hour.
-- The channel is its queue. A file is the text that its zstd stream decodes to, and an encoder holds what
-- it was given until a flush or the end of the stream, the latest that zstd allows; one that is dropped
-- loses what it holds. Each frame comes with the clock's hour and the outcome of the calls of the file
-- system. Metrics and logging are left out.
pub mod Names
pub mod Files
pub mod ReadBack
use market_data_v.Common.{
  bytes_keys, ℕ, zero, suc, ◌+◌, ◌-◌, ◌*◌, ◌%◌, ◌^◌, Bool, true, false, not, ◌&&◌, ◌||◌, Option,
  none, some, List, [], ◌∷◌, ◌++◌, Bytes, codes, ltb, leb, ◌==◌, if◌then◌else◌, length, replicate,
}
use market_data_v.Common.{ℤ, pos}
use market_data_v.Common.Text.{decimal}
use market_data_v.Common.HashMap
use market_data_v.Common.HashMap.{HashMap}
use market_data_v.Wal.Crc.{to_le_bytes}

pub record ArchiveConfig : Type 0 where
  pub root : Bytes
  pub zstd_level : ℤ
  pub channel_capacity : ℕ
  pub flush_every_bytes : ℕ

unfoldable pub default : ArchiveConfig
default = record {
  root = codes "/var/data/raw";
  zstd_level = pos 3;
  channel_capacity = 65536;
  flush_every_bytes = 1024 * 1024;
}

-- The channel behind the handle; `writer` tells whether the thread is there to receive.
pub record ArchiveHandle : Type 0 where
  pub queue : List Bytes
  pub capacity : ℕ
  pub writer : Bool

unfoldable pub spawn : ArchiveConfig → ArchiveHandle
spawn cfg = record { queue = []; capacity = cfg.channel_capacity; writer = true }

unfoldable pub try_push : Bytes → ArchiveHandle → ArchiveHandle × Bool
try_push frame h =
    if h.writer && ltb (length h.queue) h.capacity
    then (record h { queue = h.queue ++ (frame ∷ []) }, true)
    else (h, false)

-- `(year, month, day, hour)`, for a year after Christ.
pub record HourKey : Type 0 where
  pub year : ℕ
  pub month : ℕ
  pub day : ℕ
  pub hour : ℕ

unfoldable pub same_hour : HourKey → HourKey → Bool
same_hour a b = a.year == b.year && a.month == b.month && a.day == b.day && a.hour == b.hour

-- `{:0w}`
unfoldable pub padded : ℕ → ℕ → Bytes
padded width n = let d = decimal n in replicate (width - length d) b'0' ++ d

-- The name of the file, under the root.
unfoldable pub file_name : HourKey → Bytes
file_name k =
    padded 4 k.year
    ++ (b'-'
        ∷ (padded 2 k.month
            ++ (b'-' ∷ (padded 2 k.day ++ (b'T' ∷ (padded 2 k.hour ++ codes ".zst"))))))

pub record HourFile : Type 0 where
  pub encoder : Bytes
  pub hour_key : HourKey
  pub bytes_since_flush : ℕ
  pub flush_threshold : ℕ

-- The files by their names.
abbrev pub Disk : Type 0
Disk = HashMap Bytes Bytes

abbrev pub text_of : Option Bytes → Bytes
text_of none = []
text_of (some b) = b

unfoldable pub append_to : Bytes → Bytes → Disk → Disk
append_to name text disk = HashMap.insert name (text_of (HashMap.get disk name) ++ text) disk

-- `HourFile::open`: the file is there from now on.
unfoldable pub open_file : ArchiveConfig → HourKey → Disk → HourFile × Disk
open_file cfg now disk = (
  record {
    encoder = [];
    hour_key = now;
    bytes_since_flush = 0;
    flush_threshold = cfg.flush_every_bytes;
  },
  append_to (file_name now) [] disk,
)

-- The length as a `u32`, the frame, and a line feed.
unfoldable pub record_of : Bytes → Bytes
record_of frame = to_le_bytes (length frame % 2 ^ 32) ++ (frame ++ (b'\n' ∷ []))

unfoldable pub write_frame : Bytes → HourFile → Disk → HourFile × Disk
write_frame frame f disk =
    let text = f.encoder ++ record_of frame in
    let since = f.bytes_since_flush + (length frame + 5) in
    if leb f.flush_threshold since
    then (
      record f { encoder = []; bytes_since_flush = 0 },
      append_to (file_name f.hour_key) text disk,
    )
    else (record f { encoder = text; bytes_since_flush = since }, disk)

-- `finalize` ends the stream.
unfoldable pub finalize : HourFile → Disk → Disk
finalize f disk = append_to (file_name f.hour_key) f.encoder disk

-- What comes with a frame: the hour, and whether each call succeeds that the frame leads to.
pub record Round : Type 0 where
  pub frame : Bytes
  pub now : HourKey
  pub finalizes : Bool
  pub opens : Bool
  pub writes : Bool

pub record Archive : Type 0 where
  pub state : Option HourFile
  pub disk : Disk

-- `state.take()` and `finalize`, whose error is only logged.
unfoldable pub close : Bool → Option HourFile → Disk → Disk
close finalizes none disk = disk
close finalizes (some f) disk = if finalizes then finalize f disk else disk

-- `need_rotate`
unfoldable pub need_rotate : HourKey → Option HourFile → Bool
need_rotate now none = true
need_rotate now (some f) = not (same_hour f.hour_key now)

unfoldable pub reopen : ArchiveConfig → Round → Archive → Archive
reopen cfg r a =
    let disk = close r.finalizes a.state a.disk in
    if r.opens
    then (let (f, opened) = open_file cfg r.now disk in record { state = some f; disk = opened })
    else record { state = none; disk = disk }

unfoldable pub rotate : ArchiveConfig → Round → Archive → Archive
rotate cfg r a = if need_rotate r.now a.state then reopen cfg r a else a

-- The write into the open file, if there is one.
unfoldable pub write : Round → Option HourFile → Disk → Archive
write r none disk = record { state = none; disk = disk }
write r (some f) disk =
    if r.writes
    then (let (f', disk') = write_frame r.frame f disk in record { state = some f'; disk = disk' })
    else record { state = none; disk = disk }

-- One round of the loop.
unfoldable pub write_round : ArchiveConfig → Round → Archive → Archive
write_round cfg r a = let b = rotate cfg r a in write r b.state b.disk

-- The frames until the channel is closed and empty, and the end of the last file.
unfoldable pub writer_loop : ArchiveConfig → List Round → Bool → Archive → Disk
writer_loop cfg [] finalizes a = close finalizes a.state a.disk
writer_loop cfg (r ∷ rs) finalizes a = writer_loop cfg rs finalizes (write_round cfg r a)

abbrev pub fresh : Disk → Archive
fresh disk = record { state = none; disk = disk }
