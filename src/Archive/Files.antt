-- ===== src/Archive/Files.antt =====
-- The files hold the frames of their hours, and the records in them can be read back.
use mathlib.Core.List.{append_assoc, append-nil}
use market_data_v.Common.{
  bytes_keys, bytes_eq, bytes_eq_iff, ◌+◌, ◌≡◌, refl, sym, ap, ◌∙◌, Bool, true, false, Option, none,
  some, List, [], ◌∷◌, ◌++◌, Bytes, leb, if◌then◌else◌, length, All, Bool-cases, inl, inr, arith,
}
use market_data_v.Common.HashMap
use market_data_v.Common.HashMap.{HashMap, get-insert, get-empty}
use market_data_v.Archive.{
  ArchiveConfig, HourKey, same_hour, file_name, HourFile, Disk, text_of, append_to, open_file,
  record_of, write_frame, finalize, Round, Archive, close, need_rotate, reopen, rotate, write,
  write_round, writer_loop, fresh,
}

abbrev pub text : Disk → Bytes → Bytes
text disk name = text_of (HashMap.get disk name)

text-append_to :
    (name other t : Bytes) (disk : Disk)
    → text (append_to name t disk) other
      ≡ text disk other ++ (if bytes_eq name other then t else [])
unfolding append_to
text-append_to name other t disk = elim (Bool-cases (bytes_eq name other)) [
  | inl e ↦
      let same : name ≡ other = (bytes_eq_iff name other).0 e in
      ap text_of (get-insert name other (text disk name ++ t) disk)
      ∙ rw e (ap (λ x. text disk x ++ t) same)
  | inr e ↦
      ap text_of (get-insert name other (text disk name ++ t) disk)
      ∙ rw e (sym (append-nil (text disk other)))
]

-- What an open file will add to a file's text.
abbrev unwritten : Option HourFile → Bytes → Bytes
unwritten none name = []
unwritten (some f) name = if bytes_eq (file_name f.hour_key) name then f.encoder else []

-- The text of a file once the open one is finalized.
final_text : Archive → Bytes → Bytes
final_text a name = text a.disk name ++ unwritten a.state name

close_lem : (a : Archive) (name : Bytes) → text (close true a.state a.disk) name ≡ final_text a name
unfolding close finalize final_text
close_lem a name = at a.state
  where
    at :
        (s : Option HourFile)
        → text (close true s a.disk) name ≡ text a.disk name ++ unwritten s name
    at none = sym (append-nil (text a.disk name))
    at (some f) = text-append_to (file_name f.hour_key) name f.encoder a.disk

-- The record of a frame, in the file of its hour only.
abbrev pub record_in : Bytes → Bytes → HourKey → Bytes
record_in name frame key = if bytes_eq (file_name key) name then record_of frame else []

nil_if : (b : Bool) → if◌then◌else◌ {A = Bytes} b [] [] ≡ []
nil_if true = refl
nil_if false = refl

assoc_if :
    (b : Bool) (t x y : Bytes)
    → t ++ (if b then x ++ y else []) ≡ (t ++ (if b then x else [])) ++ (if b then y else [])
assoc_if true t x y = sym (append_assoc t x y)
assoc_if false t x y = sym (append-nil (t ++ []))

write_frame-final_text :
    (frame name : Bytes) (f : HourFile) (disk : Disk)
    → let (f', disk') = write_frame frame f disk in
      final_text (record { state = some f'; disk = disk' }) name
      ≡ final_text (record { state = some f; disk = disk }) name ++ record_in name frame f.hour_key
unfolding write_frame final_text
write_frame-final_text frame name f disk =
    let b = bytes_eq (file_name f.hour_key) name in
    let joined = assoc_if b (text disk name) f.encoder (record_of frame) in
    elim (Bool-cases (leb f.flush_threshold (f.bytes_since_flush + (length frame + 5)))) [
      | inl e ↦ rw e (
          ap (λ x. x ++ (if b then [] else []))
            (text-append_to (file_name f.hour_key) name (f.encoder ++ record_of frame) disk)
          ∙ ap (λ x. (text disk name ++ (if b then f.encoder ++ record_of frame else [])) ++ x)
              (nil_if b)
          ∙ append-nil (text disk name ++ (if b then f.encoder ++ record_of frame else []))
          ∙ joined)
      | inr e ↦ rw e joined
    ]

same_hour-file_name : (a b : HourKey) → same_hour a b ≡ true → file_name a ≡ file_name b
unfolding same_hour
same_hour-file_name a b h = ap file_name (ground arith)

-- Every call of the file system succeeds.
abbrev pub IsOk : Round → Type 0
IsOk r = (r.finalizes ≡ true) × (r.opens ≡ true) × (r.writes ≡ true)

-- An open file of the hour, with nothing lost.
record Rotated (r : Round) (a b : Archive) : Type 0 where
  file : HourFile
  opened : b.state ≡ some file
  same_name : file_name file.hour_key ≡ file_name r.now
  kept : (name : Bytes) → final_text b name ≡ final_text a name

reopen-Rotated :
    (cfg : ArchiveConfig) (r : Round) (a : Archive) → IsOk r → Rotated r a (reopen cfg r a)
unfolding reopen open_file final_text
reopen-Rotated cfg r a h =
    let disk = close true a.state a.disk in
    let b = bytes_eq (file_name r.now) in
    rw (h.0, h.1)
      (record {
        file = (open_file cfg r.now disk).0;
        opened = refl;
        same_name = refl;
        kept = λ name.
            ap (λ x. text (append_to (file_name r.now) [] disk) name ++ x) (nil_if (b name))
            ∙ append-nil (text (append_to (file_name r.now) [] disk) name)
            ∙ text-append_to (file_name r.now) name [] disk
            ∙ ap (λ x. text disk name ++ x) (nil_if (b name))
            ∙ append-nil (text disk name)
            ∙ close_lem a name;
      })

need_rotate-state :
    (r : Round) (a : Archive)
    → need_rotate r.now a.state ≡ false
    → (f : HourFile) × (a.state ≡ some f) × (same_hour f.hour_key r.now ≡ true)
unfolding need_rotate
need_rotate-state r a = at a.state refl
  where
    at :
        (s : Option HourFile)
        → a.state ≡ s
        → need_rotate r.now s ≡ false
        → (f : HourFile) × (a.state ≡ some f) × (same_hour f.hour_key r.now ≡ true)
    at none e h = absurd (cc)
    at (some f) e h = (f, e, ground arith)

rotate-Rotated :
    (cfg : ArchiveConfig) (r : Round) (a : Archive) → IsOk r → Rotated r a (rotate cfg r a)
unfolding rotate
rotate-Rotated cfg r a h = elim (Bool-cases (need_rotate r.now a.state)) [
  | inl e ↦ rw e (reopen-Rotated cfg r a h)
  | inr e ↦
      let (f, open_now, same) = need_rotate-state r a e in
      rw e (record {
        file = f;
        opened = open_now;
        same_name = same_hour-file_name f.hour_key r.now same;
        kept = λ name. refl;
      })
]

write-final_text :
    (r : Round) (f : HourFile) (disk : Disk) (name : Bytes)
    → IsOk r
    → final_text (write r (some f) disk) name
      ≡ final_text (record { state = some f; disk = disk }) name
        ++ record_in name r.frame f.hour_key
unfolding write
write-final_text r f disk name h = rw h.2 (write_frame-final_text r.frame name f disk)

write_round-final_text :
    (cfg : ArchiveConfig) (r : Round) (a : Archive) (name : Bytes)
    → IsOk r
    → final_text (write_round cfg r a) name ≡ final_text a name ++ record_in name r.frame r.now
unfolding write_round
write_round-final_text cfg r a name h =
    let t = rotate-Rotated cfg r a h in
    let b = rotate cfg r a in
    ap (λ s. final_text (write r s b.disk) name) t.opened
    ∙ write-final_text r t.file b.disk name h
    ∙ ap
        (λ s.
          final_text (record { state = s; disk = b.disk }) name
          ++ record_in name r.frame t.file.hour_key)
        (sym t.opened)
    ∙ ap (λ x. x ++ record_in name r.frame t.file.hour_key) (t.kept name)
    ∙ ap (λ n. final_text a name ++ (if bytes_eq n name then record_of r.frame else [])) t.same_name

-- The records of the frames whose hour has the file, in order.
abbrev pub records_in : Bytes → List Round → Bytes
records_in name [] = []
records_in name (r ∷ rs) = record_in name r.frame r.now ++ records_in name rs

writer_loop-text :
    (cfg : ArchiveConfig) (rs : List Round) (a : Archive) (name : Bytes)
    → All IsOk rs
    → text (writer_loop cfg rs true a) name ≡ final_text a name ++ records_in name rs
unfolding writer_loop
writer_loop-text cfg [] a name h = close_lem a name ∙ sym (append-nil (final_text a name))
writer_loop-text cfg (r ∷ rs) a name h =
    writer_loop-text cfg rs (write_round cfg r a) name h.1
    ∙ ap (λ x. x ++ records_in name rs) (write_round-final_text cfg r a name h.0)
    ∙ append_assoc (final_text a name) (record_in name r.frame r.now) (records_in name rs)

pub writer_loop-fresh-text :
    (cfg : ArchiveConfig) (rs : List Round) (name : Bytes)
    → All IsOk rs
    → text (writer_loop cfg rs true (fresh HashMap.empty)) name ≡ records_in name rs
unfolding final_text
writer_loop-fresh-text cfg rs name h =
    writer_loop-text cfg rs (fresh HashMap.empty) name h
    ∙ ap (λ o. (text_of o ++ []) ++ records_in name rs) (get-empty {V = Bytes} name)
