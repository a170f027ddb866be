-- ===== src/Archive/ReadBack.antt =====
-- The records of a file give the frames back.
use mathlib.Core.List.{append_assoc}
use market_data_v.Common.{
  bytes_keys, bytes_eq, ℕ, zero, suc, ◌+◌, ◌%◌, ◌^◌, ◌≤◌, ◌<◌, ◌≡◌, refl, sym, ap, ◌∙◌, true, false,
  Option, none, some, List, [], ◌∷◌, ◌++◌, Bytes, ltb, if◌then◌else◌, length, All, take, drop,
  length-append, take-append_length, drop-append_length, drop-drop, Bool-cases, inl, inr, arith,
}
use market_data_v.Common.HashMap
use market_data_v.Common.HashMap.{HashMap, get-empty}
use market_data_v.Wal.Crc.{to_le_bytes, from_le_bytes, from_le_bytes-to_le_bytes}
use market_data_v.Archive.Names.{IsHour, frames_of, frames_in, frames_in-file_name}
use market_data_v.Archive.{ArchiveConfig, HourKey, file_name, record_of, Round, writer_loop, fresh}
use market_data_v.Archive.Files.{text, IsOk, records_in, writer_loop-fresh-text}

-- A record at the start of a decompressed file: the length, as many bytes, and a line feed.
pub read_body : ℕ → Bytes → Option (Bytes × Bytes)
read_body len body =
    if ltb (length body) (len + 1) then none else some (take len body, drop (len + 1) body)

pub read_one : Bytes → Option (Bytes × Bytes)
unfolding read_body
read_one b = if ltb (length b) 4 then none else read_body (from_le_bytes (take 4 b)) (drop 4 b)

-- One unit of fuel for each byte; a record takes five at least.
pub read_loop : ℕ → Bytes → List Bytes
read_loop zero b = []
read_loop (suc fuel) b = elim (read_one b) [
  | none ↦ []
  | some (frame, rest) ↦ frame ∷ read_loop fuel rest
]

pub read_frames : Bytes → List Bytes
read_frames b = read_loop (length b) b

records : List Bytes → Bytes
records [] = []
records (f ∷ fs) = record_of f ++ records fs

records_in-records :
    (name : Bytes) (rs : List Round) → records_in name rs ≡ records (frames_in name rs)
unfolding records
records_in-records name [] = refl
records_in-records name (r ∷ rs) = elim (Bool-cases (bytes_eq (file_name r.now) name)) [
  | inl e ↦ rw e (ap (λ x. record_of r.frame ++ x) (records_in-records name rs))
  | inr e ↦ rw e (records_in-records name rs)
]

read_body-append :
    (frame rest : Bytes) → read_body (length frame) (frame ++ (b'\n' ∷ rest)) ≡ some (frame, rest)
unfolding read_body
read_body-append frame rest =
    let b = frame ++ (b'\n' ∷ rest) in
    let long : ltb (length b) (length frame + 1) ≡ false =
      ground (arith, length-append frame (b'\n' ∷ rest)) in
    let first : take (length frame) b ≡ frame = take-append_length frame (b'\n' ∷ rest) in
    let behind : drop (length frame + 1) b ≡ rest =
      sym (drop-drop 1 (length frame) b) ∙ ap (drop 1) (drop-append_length frame (b'\n' ∷ rest)) in
    rw long (ap (λ t. some (t, drop (length frame + 1) b)) first ∙ ap (λ r. some (frame, r)) behind)

read_one-record :
    (frame rest : Bytes)
    → length frame < 2 ^ 32
    → read_one (record_of frame ++ rest) ≡ some (frame, rest)
unfolding read_one record_of to_le_bytes
read_one-record frame rest h =
    let len = length frame % 2 ^ 32 in
    let small : len ≡ length frame = omega arith in
    let len_read : from_le_bytes (to_le_bytes len ++ []) ≡ length frame =
      from_le_bytes-to_le_bytes len [] (omega arith) ∙ small in
    let body : Bytes = (frame ++ (b'\n' ∷ [])) ++ rest in
    let long : ltb (suc (suc (suc (suc (length body))))) 4 ≡ false = ground arith in
    rw long (
      ap (λ n. read_body n body) len_read
      ∙ ap (read_body (length frame)) (append_assoc frame (b'\n' ∷ []) rest)
      ∙ read_body-append frame rest)

length-record_of : (frame : Bytes) → 1 ≤ length (record_of frame)
unfolding record_of to_le_bytes
length-record_of frame = omega arith

read_loop-records :
    (fs : List Bytes) (fuel : ℕ)
    → length (records fs) ≤ fuel
    → All (λ f. length f < 2 ^ 32) fs
    → read_loop fuel (records fs) ≡ fs
unfolding read_loop records read_one
read_loop-records [] zero l h = refl
read_loop-records [] (suc fuel) l h = refl
read_loop-records (f ∷ fs) zero l h =
    absurd (omega (arith, length-append (record_of f) (records fs), length-record_of f))
read_loop-records (f ∷ fs) (suc fuel) l h =
    let less : length (records fs) ≤ fuel =
      omega (arith, length-append (record_of f) (records fs), length-record_of f) in
    rw (read_one-record f (records fs) h.0, read_loop)
      (ap (λ x. f ∷ x) (read_loop-records fs fuel less h.1))

-- On an empty disk, with frames of less than 2^32 bytes, hours whose fields fit their types and no
-- failing call: once the channel is closed, the records in the file of an hour are read back as exactly
-- the frames that came in that hour, in order, whatever the level of the buffer and however the clock
-- went.
pub read_frames-writer_loop :
    (cfg : ArchiveConfig) (rs : List Round) (key : HourKey)
    → All IsOk rs
    → IsHour key
    → All (λ r. IsHour r.now) rs
    → All (λ f. length f < 2 ^ 32) (frames_of key rs)
    → read_frames (text (writer_loop cfg rs true (fresh HashMap.empty)) (file_name key))
      ≡ frames_of key rs
unfolding read_frames
read_frames-writer_loop cfg rs key h k ks l =
    let name = file_name key in
    ap read_frames (
      writer_loop-fresh-text cfg rs name h
      ∙ records_in-records name rs
      ∙ ap records (frames_in-file_name key rs k ks))
    ∙ read_loop-records (frames_of key rs) (length (records (frames_of key rs))) (omega arith) l
