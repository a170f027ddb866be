-- ===== src/Parser/Sab.antt =====
-- crates/cedro-protocol/src/parser/sab.rs: the frames of the aggregated book.
pub mod Grammar
use market_data_v.Common.{
  ℕ, ◌≡◌, refl, Bool, true, false, Option, none, some, List, [], ◌∷◌, Bytes, String, Result, ok,
  err, if◌then◌else◌, bytes_eq,
}
use market_data_v.Memchr.{Memchr}
use market_data_v.Types.{
  FloatText, AggBookLevel, BookDelete, single, clear_all, AggBookOp, ProtocolMessage, agg_book,
}
use market_data_v.Scanner.{
  ParseError, Parser, lift, ◌>>=◌, pure, required, parse_u32, required_u64, required_u32,
  required_f64,
}
use market_data_v.Parser.Op.{is_text, invalid, parse_side, run}

abbrev pub book_side : String
book_side = "agg book side"

module _ ⦃m : Memchr⦄ where
  -- The match on the kind of a deletion.
  unfoldable pub delete_of : Bytes → Parser BookDelete
  delete_of kind_bytes =
      if is_text kind_bytes "1"
      then (do
        side_bytes ← required "side"
        side ← lift (parse_side book_side side_bytes)
        position ← required_u32 "position"
        pure (single side position))
      else if is_text kind_bytes "3"
      then pure clear_all
      else if is_text kind_bytes "2"
      then lift (invalid "delete kind" "SAB does not accept delete kind 2 (BQT-only)")
      else lift (invalid "delete kind" "expected 1 or 3")

  unfoldable pub parse_delete : Parser BookDelete
  parse_delete = do kind_bytes ← required "delete kind"; delete_of kind_bytes

module _ ⦃m : Memchr⦄ ⦃f : FloatText⦄ where
  unfoldable pub read_level : Parser AggBookLevel
  read_level = do
    position ← required_u32 "position"
    side_bytes ← required "side"
    side ← lift (parse_side book_side side_bytes)
    price ← required_f64 "price"
    quantity ← required_u64 "quantity"
    offer_count ← required_u32 "offer count"
    ts_bytes ← required "DDMMHHMM"
    timestamp_ddmmhhmm ← lift (parse_u32 ts_bytes "DDMMHHMM")
    pure (record {
      position = position;
      side = side;
      price = price;
      quantity = quantity;
      offer_count = offer_count;
      timestamp_ddmmhhmm = timestamp_ddmmhhmm;
    })

  -- The match on the operation's code.
  unfoldable pub op_of : Bytes → Parser AggBookOp
  op_of op_code =
      if is_text op_code "A"
      then (do level ← read_level; pure (AggBookOp.add level))
      else if is_text op_code "U"
      then (do level ← read_level; pure (AggBookOp.update level))
      else if is_text op_code "D"
      then (do delete ← parse_delete; pure (AggBookOp.delete delete))
      else if is_text op_code "E"
      then pure AggBookOp.end_of_initial
      else lift (invalid "agg book op" "expected A, U, D, or E")

  unfoldable pub body : Parser ProtocolMessage
  body = do
    header ← required "Z header"
    ticker ← required "ticker"
    op_code ← required "agg book op"
    op ← op_of op_code
    pure (agg_book ticker op)

  unfoldable pub parse : Bytes → Result ParseError ProtocolMessage
  parse frame = run body frame
