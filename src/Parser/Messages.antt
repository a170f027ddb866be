-- ===== src/Parser/Messages.antt =====
-- crates/cedro-protocol/src/parser/: the frames of all headers together.
use market_data_v.Common.{ℕ, ◌≡◌, List, ◌∷◌, ◌++◌, Bytes, codes, length}
use market_data_v.Memchr.{Memchr}
use market_data_v.Types.{
  FloatText, QuoteDiff, BookOp, AggBookOp, TradeOperation, NewsMessage, VapEntry, ServerTime,
  MqcItem, GpnItem, CedroError, ProtocolMessage, quote, book, agg_book, trade, news, vap,
  server_time, mqc_item, gpn_item, error,
}
use market_data_v.Scanner.Wire.{IsU16, IsU32}
use market_data_v.Parser.Sqt.Grammar as Sqt
use market_data_v.Parser.Bqt.Grammar as Bqt
use market_data_v.Parser.Sab.Grammar as Sab
use market_data_v.Parser.Gqt.Grammar as Gqt
use market_data_v.Parser.Nem.Grammar as Nem
use market_data_v.Parser.Vap.Grammar as Vap
use market_data_v.Parser.Mqc as Mqc
use market_data_v.Parser.Gpn as Gpn
use market_data_v.Parser.Gtc as Gtc
use market_data_v.Parser.ErrorFrame as ErrorFrame

-- The tokens of a frame and the message that they mean.
pub data IsMessage ⦃m : Memchr⦄ ⦃f : FloatText⦄ : List Bytes → ProtocolMessage → Type 0 where
  quoted :
      (ticker t : Bytes) (ts : List Bytes) (n : ℕ) (d : QuoteDiff)
      → IsU32 t n
      → Sqt.IsDiff ts d
      → IsMessage (codes "T" ∷ ticker ∷ t ∷ ts) (quote ticker n d)
  booked :
      (ticker code : Bytes) (ts : List Bytes) (op : BookOp)
      → Bqt.IsOp code ts op
      → IsMessage (codes "B" ∷ ticker ∷ code ∷ ts) (book ticker op)
  aggregated :
      (ticker code : Bytes) (ts : List Bytes) (op : AggBookOp)
      → Sab.IsOp code ts op
      → IsMessage (codes "Z" ∷ ticker ∷ code ∷ ts) (agg_book ticker op)
  traded :
      (ticker code : Bytes) (ts : List Bytes) (op : TradeOperation)
      → Gqt.IsOp code ts op
      → IsMessage (codes "V" ∷ ticker ∷ code ∷ ts) (trade ticker op)
  published :
      (kind : Bytes) (ts : List Bytes) (msg : NewsMessage)
      → Nem.IsNews kind ts msg
      → IsMessage (codes "O" ∷ kind ∷ ts) (news msg)
  priced :
      (ticker third : Bytes) (ts : List Bytes) (e : VapEntry)
      → Vap.IsVap ticker third ts e
      → IsMessage (codes "VAP" ∷ ticker ∷ third ∷ ts) (vap e)
  timed :
      (d t : Bytes) (ts : List Bytes) (s : ServerTime)
      → length d ≡ 8
      → length t ≡ 6
      → IsU32 d s.date
      → IsU32 t s.time
      → IsMessage (codes "GTC" ∷ (d ++ t) ∷ ts) (server_time s)
  listed :
      (market third : Bytes) (ts : List Bytes) (item : MqcItem)
      → Mqc.IsItem market third ts item
      → IsMessage (codes "C" ∷ market ∷ third ∷ ts) (mqc_item item)
  brokered :
      (g : GpnItem) (ts : List Bytes)
      → IsMessage
          (codes "G" ∷ g.exchange ∷ g.code ∷ g.name ∷ g.cedro_id ∷ Gpn.flag_text g.active ∷ ts)
          (gpn_item g)
  failed :
      (c : Bytes) (e : CedroError)
      → IsU16 c e.code
      → IsMessage (codes "E" ∷ c ∷ e.context) (error e)
