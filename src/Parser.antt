-- ===== src/Parser.antt =====
-- crates/cedro-protocol/src/parser/mod.rs: the dispatch of a frame on its header.
pub mod Op
pub mod Drain
pub mod Bqt
pub mod Sab
pub mod Mqc
pub mod Gpn
pub mod Gtc
pub mod Nem
pub mod Vap
pub mod Gqt
pub mod Sqt
pub mod ErrorFrame
pub mod Dispatch
pub mod Messages
use market_data_v.Common.{
  ℕ, ◌≡◌, Bool, true, false, ◌&&◌, Option, List, [], ◌∷◌, Bytes, String, Result, ok, err, codes,
  if◌then◌else◌, ◌==◌,
}
use market_data_v.Frame.{FrameKind}
use market_data_v.Memchr.{Memchr}
use market_data_v.Types.{FloatText, ProtocolMessage}
use market_data_v.Scanner.{ParseError, empty, unknown_header}
use market_data_v.Parser.Sqt
use market_data_v.Parser.Bqt
use market_data_v.Parser.Sab
use market_data_v.Parser.Gqt
use market_data_v.Parser.Nem
use market_data_v.Parser.Vap
use market_data_v.Parser.Gtc
use market_data_v.Parser.Mqc
use market_data_v.Parser.Gpn
use market_data_v.Parser.ErrorFrame

-- `frame.starts_with(prefix)`
unfoldable pub starts_with : Bytes → Bytes → Bool
starts_with [] frame = true
starts_with (p ∷ ps) [] = false
starts_with (p ∷ ps) (c ∷ cs) = c == p && starts_with ps cs

module _ ⦃m : Memchr⦄ ⦃f : FloatText⦄ where
  unfoldable pub parse_frame : FrameKind → Bytes → Result ParseError ProtocolMessage
  parse_frame kind [] = err empty
  parse_frame kind (c ∷ cs) =
      if starts_with (codes "T:") (c ∷ cs)
      then Sqt.parse (c ∷ cs)
      else if starts_with (codes "B:") (c ∷ cs)
      then Bqt.parse (c ∷ cs)
      else if starts_with (codes "Z:") (c ∷ cs)
      then Sab.parse (c ∷ cs)
      else if starts_with (codes "V:") (c ∷ cs)
      then Gqt.parse (c ∷ cs)
      else if starts_with (codes "O:") (c ∷ cs)
      then Nem.parse (c ∷ cs)
      else if starts_with (codes "VAP:") (c ∷ cs)
      then Vap.parse (c ∷ cs)
      else if starts_with (codes "GTC:") (c ∷ cs)
      then Gtc.parse (c ∷ cs)
      else if starts_with (codes "C:") (c ∷ cs)
      then Mqc.parse (c ∷ cs)
      else if starts_with (codes "G:") (c ∷ cs)
      then Gpn.parse (c ∷ cs)
      else if starts_with (codes "E:") (c ∷ cs)
      then ErrorFrame.parse (c ∷ cs)
      else err (unknown_header (c ∷ cs))
