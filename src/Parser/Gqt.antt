-- ===== src/Parser/Gqt.antt =====
-- crates/cedro-protocol/src/parser/gqt.rs: the trade frames.
pub mod Grammar
pub mod Original
use market_data_v.Common.{
  ℕ, suc, ◌≡◌, refl, Bool, true, false, Option, none, some, List, [], ◌∷◌, Bytes, String, Result,
  ok, err, if◌then◌else◌, bytes_eq,
}
use market_data_v.Enums.{trade_condition_from_code, trade_aggressor_from_byte}
use market_data_v.Memchr.{Memchr}
use market_data_v.Types.{FloatText, Trade, TradeOperation, ProtocolMessage, trade}
use market_data_v.Scanner.{
  ParseError, Parser, lift, ◌>>=◌, pure, next, required, parse_u16, parse_u32, parse_u64, parse_f64,
}
use market_data_v.Parser.Op.{is_text, invalid, run}
use market_data_v.Parser.Drain.{drain_fields, is_empty, frame_fuel}

unfoldable pub single_byte : Bytes → String → Result ParseError ℕ
single_byte (c ∷ []) field = ok c
single_byte [] field = invalid field "expected exactly one byte"
single_byte (c ∷ d ∷ cs) field = invalid field "expected exactly one byte"

-- The nine fields of a trade.
pub record TradeFields : Type 0 where
  pub time : Bytes
  pub price : Bytes
  pub broker_buy : Bytes
  pub broker_sell : Bytes
  pub quantity : Bytes
  pub id : Bytes
  pub condition : Bytes
  pub aggressor : Bytes
  pub original : Bytes

-- Nine fields are those of the stream; of ten, the seventh is the request id of a snapshot.
unfoldable pub layout : List Bytes → Result ParseError (Option Bytes × TradeFields)
layout (a ∷ b ∷ c ∷ d ∷ e ∷ f ∷ g ∷ h ∷ i ∷ []) = ok (
  none,
  record {
    time = a;
    price = b;
    broker_buy = c;
    broker_sell = d;
    quantity = e;
    id = f;
    condition = g;
    aggressor = h;
    original = i;
  },
)
layout (a ∷ b ∷ c ∷ d ∷ e ∷ f ∷ r ∷ g ∷ h ∷ i ∷ []) = ok (
  some r,
  record {
    time = a;
    price = b;
    broker_buy = c;
    broker_sell = d;
    quantity = e;
    id = f;
    condition = g;
    aggressor = h;
    original = i;
  },
)
layout fields = invalid "trade fields" "expected 9 (subscribe) or 10 (snapshot) fields after A"

module _ ⦃f : FloatText⦄ where
  -- The conversion of the fields, in the order of the code.
  unfoldable pub trade_of : ℕ → Option Bytes × TradeFields → Parser TradeOperation
  trade_of op_byte l = do
    time_hhmmss ← lift (parse_u32 l.1.time "trade time")
    price ← lift (parse_f64 l.1.price "trade price")
    broker_buy_id ← lift (parse_u32 l.1.broker_buy "trade broker buy")
    broker_sell_id ← lift (parse_u32 l.1.broker_sell "trade broker sell")
    quantity ← lift (parse_u64 l.1.quantity "trade quantity")
    condition_code ← lift (parse_u16 l.1.condition "trade condition")
    aggressor_byte ← lift (single_byte l.1.aggressor "trade aggressor")
    pure (
        TradeOperation.add (record {
          operation_code = op_byte;
          time_hhmmss = time_hhmmss;
          price = price;
          broker_buy_id = broker_buy_id;
          broker_sell_id = broker_sell_id;
          quantity = quantity;
          trade_id = l.1.id;
          request_id = l.0;
          condition = trade_condition_from_code condition_code;
          aggressor = trade_aggressor_from_byte aggressor_byte;
          original_conditions = l.1.original;
        }))

-- The end of the subscription's trades, or of a snapshot where a request id follows.
unfoldable pub end_of : Option Bytes → TradeOperation
end_of none = TradeOperation.end_of_subscribe
end_of (some req) =
    if is_empty req then TradeOperation.end_of_subscribe else TradeOperation.end_of_snapshot req

module _ ⦃m : Memchr⦄ ⦃f : FloatText⦄ where
  unfoldable pub parse_add : ℕ → ℕ → Parser TradeOperation
  parse_add fuel op_byte = do
    fields ← drain_fields fuel 0
    l ← lift (layout fields)
    trade_of op_byte l

  -- The match on the operation's code; `op_field[0]` is `A` where it is used.
  unfoldable pub op_of : ℕ → Bytes → Parser TradeOperation
  op_of fuel op_field =
      if is_text op_field "A"
      then parse_add fuel b'A'
      else if is_text op_field "D"
      then (do trade_id ← required "trade id"; pure (TradeOperation.delete trade_id))
      else if is_text op_field "R"
      then pure TradeOperation.remove_all
      else if is_text op_field "E"
      then (do req ← next; pure (end_of req))
      else lift (invalid "trade op" "expected A, D, R or E")

  unfoldable pub body : ℕ → Parser ProtocolMessage
  body fuel = do
    header ← required "V header"
    ticker ← required "ticker"
    op_field ← required "trade op"
    op ← op_of fuel op_field
    pure (trade ticker op)

  unfoldable pub parse : Bytes → Result ParseError ProtocolMessage
  parse frame = run (body (frame_fuel frame)) frame
