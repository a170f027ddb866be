-- ===== src/Frame.antt =====
-- crates/cedro-protocol/src/frame.rs: the splitter of the byte stream into frames.
-- `BytesMut` and `Bytes` are their contents; capacity is not modelled.
pub mod Split
pub mod Stream
pub mod Rounds
use market_data_v.Common.{
  ℕ, zero, suc, ◌+◌, Bool, Option, none, some, List, [], ◌∷◌, ◌++◌, Bytes, ◌==◌, leb, get_elem?,
  take, drop, length, if◌then◌else◌,
}
use market_data_v.Memchr.{Memchr, first_index}

pub data FrameKind : Type 0 where
  bang : FrameKind
  newline : FrameKind

abbrev pub Frame : Type 0
Frame = FrameKind × Bytes

pub record FrameSplitter : Type 0 where
  pub buf : Bytes

abbrev pub new : FrameSplitter
new = record { buf = [] }

unfoldable pub extend_from_slice : FrameSplitter → Bytes → FrameSplitter
extend_from_slice s src = record { buf = s.buf ++ src }

unfoldable pub pending : FrameSplitter → ℕ
pending s = length s.buf

-- `self.buf[idx] == b'!'`
kind_at : Bytes → ℕ → FrameKind
kind_at buf idx = elim (get_elem? buf idx) [
  | none ↦ newline
  | some b ↦ if b == b'!' then bang else newline
]

module _ ⦃m : Memchr⦄ where
  -- `split_to(idx + 1)` leaves the rest in the buffer; `truncate(idx)` drops the terminator.
  unfoldable pub next_frame : FrameSplitter → Option (Frame × FrameSplitter)
  unfolding kind_at
  next_frame s = elim s.buf [
    | [] ↦ none
    | b ∷ bs ↦ elim (m.memchr2 b'\n' b'!' s.buf) [
      | none ↦ none
      | some idx ↦ some (
        (kind_at s.buf idx, take idx (take (suc idx) s.buf)),
        record { buf = drop (suc idx) s.buf },
      )
    ]
  ]

  -- The `while let` loop, with the frames for which it calls `f`; each round takes a byte at least.
  drain_loop : ℕ → FrameSplitter → List Frame × FrameSplitter
  drain_loop zero s = ([], s)
  drain_loop (suc fuel) s = elim (next_frame s) [
    | none ↦ ([], s)
    | some (frame, s') ↦ let (frames, t) = drain_loop fuel s' in (frame ∷ frames, t)
  ]

  unfoldable pub drain : FrameSplitter → List Frame × FrameSplitter
  unfolding drain_loop
  drain s = drain_loop (length s.buf) s

-- `BytesMut::advance` panics past the end: `none`.
unfoldable pub advance : FrameSplitter → ℕ → Option FrameSplitter
advance s n = if leb n (length s.buf) then some (record { buf = drop n s.buf }) else none
