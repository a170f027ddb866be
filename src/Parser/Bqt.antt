-- ===== src/Parser/Bqt.antt =====
-- crates/cedro-protocol/src/parser/bqt.rs: the frames of the detailed book.
-- The debug assertion on the header is left out: `parse_frame` calls this parser on `B:` only.
pub mod Grammar
use market_data_v.Common.{
  ℕ, ◌≡◌, refl, Bool, true, false, Option, none, some, List, [], ◌∷◌, Bytes, String, Result, ok,
  err, if◌then◌else◌, bytes_eq,
}
use market_data_v.Enums.{Side}
use market_data_v.Memchr.{Memchr}
use market_data_v.Types.{
  FloatText, BookEntry, BookDelete, single, prefix_inclusive, clear_all, BookOp, ProtocolMessage,
  book,
}
use market_data_v.Scanner.{
  ParseError, Parser, lift, ◌>>=◌, pure, next, required, parse_u32, required_u64, required_u32,
  required_f64,
}
use market_data_v.Parser.Op.{is_text, invalid, parse_side, run}

abbrev pub book_side : String
book_side = "book side"

-- The single byte of the offer type.
unfoldable pub offer_type_of : Bytes → Result ParseError ℕ
offer_type_of (c ∷ []) = ok c
offer_type_of [] = invalid "offer type" "expected one byte (L or O)"
offer_type_of (c ∷ d ∷ cs) = invalid "offer type" "expected one byte (L or O)"

module _ ⦃m : Memchr⦄ where
  unfoldable pub tail_of : Option Bytes → Parser (Option Bytes × Option ℕ)
  tail_of none = pure (none, none)
  tail_of (some id_bytes) = do
    type_bytes ← required "offer type"
    offer_type ← lift (offer_type_of type_bytes)
    pure (some id_bytes, some offer_type)

  unfoldable pub read_tail : Parser (Option Bytes × Option ℕ)
  read_tail = do id_bytes ← next; tail_of id_bytes

  unfoldable pub delete_at : (Side → ℕ → BookDelete) → Parser BookOp
  delete_at kind = do
    side_bytes ← required "side"
    side ← lift (parse_side book_side side_bytes)
    position ← required_u32 "position"
    pure (BookOp.delete (kind side position))

  -- The match on the kind of a deletion.
  unfoldable pub delete_of : Bytes → Parser BookOp
  delete_of kind_bytes =
      if is_text kind_bytes "1"
      then delete_at single
      else if is_text kind_bytes "2"
      then delete_at prefix_inclusive
      else if is_text kind_bytes "3"
      then pure (BookOp.delete clear_all)
      else lift (invalid "delete kind" "expected 1, 2 or 3")

  unfoldable pub parse_delete : Parser BookOp
  parse_delete = do kind_bytes ← required "delete kind"; delete_of kind_bytes

module _ ⦃m : Memchr⦄ ⦃f : FloatText⦄ where
  unfoldable pub read_entry_tail : ℕ → Parser BookEntry
  read_entry_tail position = do
    side_bytes ← required "side"
    side ← lift (parse_side book_side side_bytes)
    price ← required_f64 "price"
    quantity ← required_u64 "quantity"
    broker_id ← required_u32 "broker id"
    ts_bytes ← required "DDMMHHMM"
    timestamp_ddmmhhmm ← lift (parse_u32 ts_bytes "DDMMHHMM")
    t ← read_tail
    pure (record {
      position = position;
      side = side;
      price = price;
      quantity = quantity;
      broker_id = broker_id;
      timestamp_ddmmhhmm = timestamp_ddmmhhmm;
      order_id = t.0;
      offer_type = t.1;
    })

  unfoldable pub parse_add : Parser BookOp
  parse_add = do
    position ← required_u32 "position"
    entry ← read_entry_tail position
    pure (BookOp.add entry)

  unfoldable pub parse_update : Parser BookOp
  parse_update = do
    new_pos ← required_u32 "new position"
    old_pos ← required_u32 "old position"
    entry ← read_entry_tail new_pos
    pure (BookOp.update old_pos entry)

  -- The match on the operation's code.
  unfoldable pub op_of : Bytes → Parser BookOp
  op_of op_code =
      if is_text op_code "A"
      then parse_add
      else if is_text op_code "U"
      then parse_update
      else if is_text op_code "D"
      then parse_delete
      else if is_text op_code "E"
      then pure BookOp.end_of_initial
      else lift (invalid "book op" "expected A, U, D, or E")

  unfoldable pub body : Parser ProtocolMessage
  body = do
    header ← required "B header"
    ticker ← required "ticker"
    op_code ← required "book op"
    op ← op_of op_code
    pure (book ticker op)

  unfoldable pub parse : Bytes → Result ParseError ProtocolMessage
  parse frame = run body frame
