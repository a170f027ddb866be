-- ===== src/Tests/Frames.antt =====
-- The splitter on concrete streams, and its theorems there.
use market_data_v.Common.{◌≡◌, refl, List, [], ◌∷◌, ◌++◌, codes, All}
use market_data_v.Memchr.{plain_scan, first_index}
use market_data_v.Frame.{
  bang, newline, Frame, FrameSplitter, new, extend_from_slice, next_frame, drain,
}
use market_data_v.Frame.Split.{is_terminator, encode, IsFrame, IsPayload}
use market_data_v.Frame.Stream.{drain-encode, drain_lossless, drain-extend}
use market_data_v.Tests.Data.{none_of-All}

abbrev two_frames : List Frame
two_frames = (bang, codes "T:PETR4") ∷ (newline, codes "B:PETR4:E") ∷ []

two_frames_drained :
    drain (extend_from_slice new (codes "T:PETR4!" ++ (codes "B:PETR4:E" ++ (b'\n' ∷ codes "V:"))))
    ≡ (two_frames, record { buf = codes "V:" })
unfolding drain next_frame extend_from_slice first_index
two_frames_drained = refl

drain-extend_example : drain (extend_from_slice new (codes "T:PE" ++ codes "TR4!B")) ≡ (
    let (fs, t) = drain (extend_from_slice new (codes "T:PE")) in
    let (gs, u) = drain (extend_from_slice t (codes "TR4!B")) in (fs ++ gs, u))
drain-extend_example = drain-extend new (codes "T:PE") (codes "TR4!B")

abbrev half : FrameSplitter
half = record { buf = codes "T:PETR4!B:" }

drain_lossless_example :
    (encode (drain half).0 ++ (drain half).1.buf ≡ codes "T:PETR4!B:")
    × All IsFrame (drain half).0
    × IsPayload (drain half).1.buf
drain_lossless_example = drain_lossless half

drain-encode_example :
    drain (record { buf = encode two_frames ++ codes "V:" })
    ≡ (two_frames, record { buf = codes "V:" })
drain-encode_example =
    drain-encode two_frames (codes "V:")
      (
        none_of-All is_terminator (codes "T:PETR4") refl,
        (none_of-All is_terminator (codes "B:PETR4:E") refl, tt),
      )
      (none_of-All is_terminator (codes "V:") refl)
