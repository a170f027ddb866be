-- ===== src/Types.antt =====
-- crates/cedro-protocol/src/types.rs: the messages that the parsers produce.
-- An unsigned integer is a number; the parsers bound it by its width. An `f64` is its bit pattern,
-- with which nothing but the text conversion computes.
use market_data_v.Common.{ℕ, Bool, Option, List, Bytes, ℤ, ◌==◌, leb, ◌||◌, ◌&&◌}
use market_data_v.Enums.{Side, TradeAggressor, TradeCondition}

abbrev pub F64 : Type 0
F64 = ℕ

-- `0.0_f64`
abbrev pub zero_f64 : F64
zero_f64 = 0

-- `str::parse::<f64>`
pub record FloatText : Type 0 where
  pub float_of_text : Bytes → Option F64

abbrev pub QuoteFieldId : Type 0
QuoteFieldId = ℕ

pub data QuoteFieldValue : Type 0 where
  float : F64 → QuoteFieldValue
  int : ℤ → QuoteFieldValue
  time : ℕ → QuoteFieldValue
  date : ℕ → QuoteFieldValue
  date_time : ℕ → QuoteFieldValue
  char : ℕ → QuoteFieldValue
  phase : ℕ × ℕ → QuoteFieldValue
  str : Bytes → QuoteFieldValue

abbrev pub QuoteDiff : Type 0
QuoteDiff = List (QuoteFieldId × QuoteFieldValue)

pub record BookEntry : Type 0 where
  pub position : ℕ
  pub side : Side
  pub price : F64
  pub quantity : ℕ
  pub broker_id : ℕ
  pub timestamp_ddmmhhmm : ℕ
  pub order_id : Option Bytes
  pub offer_type : Option ℕ

pub data BookDelete : Type 0 where
  single : Side → ℕ → BookDelete
  prefix_inclusive : Side → ℕ → BookDelete
  clear_all : BookDelete

pub data BookOp : Type 0 where
  add : BookEntry → BookOp
  update : ℕ → BookEntry → BookOp
  delete : BookDelete → BookOp
  end_of_initial : BookOp

pub record AggBookLevel : Type 0 where
  pub position : ℕ
  pub side : Side
  pub price : F64
  pub quantity : ℕ
  pub offer_count : ℕ
  pub timestamp_ddmmhhmm : ℕ

pub data AggBookOp : Type 0 where
  add : AggBookLevel → AggBookOp
  update : AggBookLevel → AggBookOp
  delete : BookDelete → AggBookOp
  end_of_initial : AggBookOp

pub record Trade : Type 0 where
  pub operation_code : ℕ
  pub time_hhmmss : ℕ
  pub price : F64
  pub broker_buy_id : ℕ
  pub broker_sell_id : ℕ
  pub quantity : ℕ
  pub trade_id : Bytes
  pub request_id : Option Bytes
  pub condition : TradeCondition
  pub aggressor : TradeAggressor
  pub original_conditions : Bytes

pub data TradeOperation : Type 0 where
  add : Trade → TradeOperation
  delete : Bytes → TradeOperation
  remove_all : TradeOperation
  end_of_subscribe : TradeOperation
  end_of_snapshot : Bytes → TradeOperation

pub record NewsHeadline : Type 0 where
  pub agency : Bytes
  pub code : Bytes
  pub date : ℕ
  pub time : ℕ
  pub category : ℕ
  pub title : Bytes

pub record NewsBody : Type 0 where
  pub request_id : Bytes
  pub agency : Bytes
  pub code : Bytes
  pub body_raw : Bytes

pub data NewsMessage : Type 0 where
  headline : NewsHeadline → NewsMessage
  history_item : Bytes → NewsHeadline → NewsMessage
  history_end : Bytes → NewsMessage
  body : NewsBody → NewsMessage

pub record VapEntry : Type 0 where
  pub ticker : Bytes
  pub price : F64
  pub buyer_trades : F64
  pub buyer_volume : F64
  pub seller_trades : F64
  pub seller_volume : F64
  pub direct_trades : F64
  pub direct_volume : F64
  pub undefined_trades : F64
  pub undefined_volume : F64
  pub period_minutes : Option ℕ
  pub rlp_trades : F64
  pub rlp_volume : F64
  pub auction_trades : F64
  pub auction_volume : F64

pub record ServerTime : Type 0 where
  pub date : ℕ
  pub time : ℕ

pub data MqcItem : Type 0 where
  symbol : Bytes → Bytes → MqcItem
  list_end : Bytes → MqcItem

pub record GpnItem : Type 0 where
  pub exchange : Bytes
  pub code : Bytes
  pub name : Bytes
  pub cedro_id : Bytes
  pub active : Bool

pub record CedroError : Type 0 where
  pub code : ℕ
  pub context : List Bytes

unfoldable pub is_client_bug : CedroError → Bool
is_client_bug e =
    e.code == 1 || e.code == 4 || e.code == 5 || e.code == 10 || e.code == 13 || e.code == 14

unfoldable pub is_transient_server : CedroError → Bool
is_transient_server e = e.code == 11 || e.code == 15

unfoldable pub is_migration : CedroError → Bool
is_migration e = e.code == 12

unfoldable pub is_forced_disconnect : CedroError → Bool
is_forced_disconnect e = leb 6 e.code && leb e.code 9

pub data ProtocolMessage : Type 0 where
  quote : Bytes → ℕ → QuoteDiff → ProtocolMessage
  book : Bytes → BookOp → ProtocolMessage
  agg_book : Bytes → AggBookOp → ProtocolMessage
  trade : Bytes → TradeOperation → ProtocolMessage
  news : NewsMessage → ProtocolMessage
  vap : VapEntry → ProtocolMessage
  server_time : ServerTime → ProtocolMessage
  mqc_item : MqcItem → ProtocolMessage
  gpn_item : GpnItem → ProtocolMessage
  error : CedroError → ProtocolMessage
