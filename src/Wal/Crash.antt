-- ===== src/Wal/Crash.antt =====
-- What the log holds after appends, and after a crash that keeps the start of it.
use market_data_v.Common.{
  ℕ, ◌+◌, ◌-◌, ◌^◌, ◌≤◌, ◌<◌, ◌≡◌, refl, sym, ap, ◌∙◌, true, List, [], ◌∷◌, ◌++◌, Bytes, String,
  ltb, leb, length, take, arith, Bool-cases, inl, inr, All, length-append, take_all, Result, ok,
  err, lt→ltb, ge→ltb, leb→le,
}
use mathlib.Core.List.{append_assoc, append-nil}
use market_data_v.Wal.{
  TradeWal, buffer_capacity, open_wal, flush, write_flushed, write_all, append, replay, replay_loop,
}
use market_data_v.Wal.Crc.{compute_crc32, to_le_bytes}
use market_data_v.Wal.Records.{
  record_bytes, length-record_bytes, log_bytes, Fits, complete, replay_loop-take,
}

-- The bytes of the log, in the file and in the buffer.
abbrev pub contents : TradeWal → Bytes
contents w = w.file ++ w.buffer

abbrev pub append_all : List Bytes → TradeWal → Result String TradeWal
append_all [] w = ok w
append_all (p ∷ ps) w = elim (append p w) [ ok (w', offset) ↦ append_all ps w' | err e ↦ err e ]

-- A direct write goes behind an empty buffer only.
contents-write_flushed :
    (bytes : Bytes) (w : TradeWal)
    → (buffer_capacity ≤ length bytes → w.buffer ≡ [])
    → contents (write_flushed bytes w) ≡ contents w ++ bytes
unfolding write_flushed
contents-write_flushed bytes w h = elim (Bool-cases (leb buffer_capacity (length bytes))) [
  | inl e ↦
      let q : w.buffer ≡ [] = h (leb→le buffer_capacity (length bytes) e) in
      rw (e, q) (append-nil (w.file ++ bytes) ∙ ap (λ x. x ++ bytes) (sym (append-nil w.file)))
  | inr e ↦ rw e (sym (append_assoc w.file w.buffer bytes))
]

no_buffer : (b : Bytes) → length b ≤ 0 → b ≡ []
no_buffer [] l = refl
no_buffer (c ∷ cs) l = absurd (omega arith)

-- Whatever is buffered or written through, the bytes come behind those that are there.
contents-write_all :
    (bytes : Bytes) (w : TradeWal) → contents (write_all bytes w) ≡ contents w ++ bytes
unfolding write_all flush
contents-write_all bytes w =
    let spare = buffer_capacity - length w.buffer in
    elim (Bool-cases (ltb (length bytes) spare)) [
      | inl e ↦ rw e (sym (append_assoc w.file w.buffer bytes))
      | inr e ↦ elim (Bool-cases (ltb spare (length bytes))) [
        | inl f ↦
            rw (e, f)
              (contents-write_flushed bytes (flush w) (λ l. refl)
                ∙ ap (λ x. x ++ bytes) (append-nil (w.file ++ w.buffer)))
        | inr f ↦
            rw (e, f) (contents-write_flushed bytes w (λ l. no_buffer w.buffer (ground arith)))
      ]
    ]

write_all-bytes_written :
    (bytes : Bytes) (w : TradeWal) → (write_all bytes w).bytes_written ≡ w.bytes_written
unfolding write_all write_flushed flush
write_all-bytes_written bytes w = ground arith

-- A payload of less than 2^32 bytes is appended as one record behind everything in the log, and the
-- answer is the counter after it, which has moved by the size of the record. A longer payload is refused.
pub append_lem :
    (p : Bytes) (w : TradeWal)
    → (length p < 2 ^ 32
        → (w' : TradeWal) × (append p w ≡ ok (w', w.bytes_written + length (record_bytes p)))
          × (contents w' ≡ contents w ++ record_bytes p)
          × (w'.bytes_written ≡ w.bytes_written + length (record_bytes p)))
      × (2 ^ 32 ≤ length p → append p w ≡ err "payload larger than 4 GiB rejected")
unfolding append record_bytes
append_lem p w = (
  λ h.
      let n = to_le_bytes (length p) in
      let c = to_le_bytes (compute_crc32 (length p) p) in
      let w₁ = write_all n w in
      let w₂ = write_all p w₁ in
      let w₃ = write_all c w₂ in
      let counted : w₃.bytes_written ≡ w.bytes_written =
        write_all-bytes_written c w₂ ∙ write_all-bytes_written p w₁ ∙ write_all-bytes_written n w in
      let whole : length (n ++ (p ++ c)) ≡ 8 + length p = length-record_bytes p in
      let size : w₃.bytes_written + (4 + length p + 4) ≡ w.bytes_written + length (n ++ (p ++ c)) =
        omega (arith, counted, whole) in
      let there : contents w₃ ≡ contents w ++ (n ++ (p ++ c)) =
        contents-write_all c w₂
        ∙ ap (λ x. x ++ c) (contents-write_all p w₁ ∙ ap (λ x. x ++ p) (contents-write_all n w))
        ∙ append_assoc (contents w ++ n) p c
        ∙ append_assoc (contents w) n (p ++ c) in
      let offset = w₃.bytes_written + (4 + length p + 4) in
      (
        record w₃ { bytes_written = offset },
        rw (lt→ltb (length p) (2 ^ 32) h)
            (ap (λ o. ok (record w₃ { bytes_written = offset }, o)) size),
        there,
        size,
      ),
  λ h. rw (ge→ltb (length p) (2 ^ 32) h) refl,
)

append_all-contents :
    (ps : List Bytes) (w : TradeWal)
    → All Fits ps
    → (w' : TradeWal) × (append_all ps w ≡ ok w') × (contents w' ≡ contents w ++ log_bytes ps)
unfolding log_bytes
append_all-contents [] w h = (w, refl, sym (append-nil (contents w)))
append_all-contents (p ∷ ps) w h =
    let (w₁, a, c, n) = (append_lem p w).0 h.0 in
    let (w', b, d) = append_all-contents ps w₁ h.1 in
    (
      w',
      rw (a, append_all) b,
      d ∙ ap (λ x. x ++ log_bytes ps) c ∙ append_assoc (contents w) (record_bytes p) (log_bytes ps),
    )

complete_all : (ps : List Bytes) → complete (length (log_bytes ps)) ps ≡ ps
unfolding log_bytes
complete_all [] = refl
complete_all (p ∷ ps) =
    let n : length (record_bytes p ++ log_bytes ps) ≡ 8 + length p + length (log_bytes ps) =
      omega (arith, length-append (record_bytes p) (log_bytes ps), length-record_bytes p) in
    let e : leb (8 + length p) (8 + length p + length (log_bytes ps)) ≡ true = ground arith in
    let k : 8 + length p + length (log_bytes ps) - (8 + length p) ≡ length (log_bytes ps) =
      omega arith in
    rw (n, e, k) (ap (λ x. p ∷ x) (complete_all ps))

replay-open_wal :
    (k : ℕ) (ps : List Bytes)
    → All Fits ps
    → (replay (open_wal (take k (log_bytes ps)))).1 ≡ complete k ps
unfolding replay open_wal flush
replay-open_wal k ps h =
    let b = take k (log_bytes ps) in
    ap (λ f. replay_loop (length f) f) (append-nil b)
    ∙ replay_loop-take (length b) k ps h (omega arith)

pub replay_loop_whole_log :
    (ps : List Bytes) → All Fits ps → replay_loop (length (log_bytes ps)) (log_bytes ps) ≡ ps
replay_loop_whole_log ps h =
    let n = length (log_bytes ps) in
    let t : take n (log_bytes ps) ≡ log_bytes ps = take_all n (log_bytes ps) (omega arith) in
    ap (replay_loop n) (sym t) ∙ replay_loop-take n n ps h (rw t (omega arith)) ∙ complete_all ps

-- Payloads of less than 2^32 bytes each can all be appended to a fresh log. A replay gives them back in
-- order. After a crash that leaves the first `k` bytes of the log in the file, a replay of that file
-- gives the payloads whose records those bytes hold to the end: nothing false, and nothing out of order.
pub append_all-replay :
    (ps : List Bytes)
    → All Fits ps
    → (w : TradeWal) × (append_all ps (open_wal []) ≡ ok w)
      × ((replay w).1 ≡ ps)
      × ((k : ℕ) → (replay (open_wal (take k (contents w)))).1 ≡ complete k ps)
unfolding replay flush open_wal
append_all-replay ps h =
    let (w, a, c) = append_all-contents ps (open_wal []) h in
    let d : contents w ≡ log_bytes ps = c in
    (
      w,
      a,
      ap (λ f. replay_loop (length f) f) d ∙ replay_loop_whole_log ps h,
      λ k. rw d (replay-open_wal k ps h),
    )
