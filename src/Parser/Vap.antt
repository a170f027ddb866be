-- ===== src/Parser/Vap.antt =====
-- crates/cedro-protocol/src/parser/vap.rs: the frames of the volume at price.
pub mod Grammar
use market_data_v.Common.{
  ℕ, ◌≡◌, refl, Bool, true, false, ◌||◌, Option, none, some, List, [], ◌∷◌, Bytes, String, Result,
  ok, err, if◌then◌else◌, bytes_eq,
}
use market_data_v.Memchr.{Memchr}
use market_data_v.Types.{F64, zero_f64, FloatText, VapEntry, ProtocolMessage, vap}
use market_data_v.Scanner.{
  ParseError, Parser, lift, ◌>>=◌, pure, next, required, parse_u32, parse_f64, required_f64,
}
use market_data_v.Parser.Op.{is_text, run}
use market_data_v.Parser.Drain.{is_empty}

-- `scanner_parse_u32`
abbrev pub minutes : Bytes → Parser (Option ℕ)
minutes b = do n ← lift (parse_u32 b "vap period"); pure (some n)

-- The window of a terminator.
unfoldable pub end_period : Option Bytes → Parser (Option ℕ)
end_period none = pure none
end_period (some p) = if is_empty p then pure none else minutes p

-- The window of a data line.
unfoldable pub period_of : Bytes → Parser (Option ℕ)
period_of p = if is_text p "0" || is_empty p then pure none else minutes p

-- The entry that stands for a terminator.
abbrev pub terminator : Bytes → Option ℕ → VapEntry
terminator ticker period_minutes = record {
  ticker = ticker;
  price = zero_f64;
  buyer_trades = zero_f64;
  buyer_volume = zero_f64;
  seller_trades = zero_f64;
  seller_volume = zero_f64;
  direct_trades = zero_f64;
  direct_volume = zero_f64;
  undefined_trades = zero_f64;
  undefined_volume = zero_f64;
  period_minutes = period_minutes;
  rlp_trades = zero_f64;
  rlp_volume = zero_f64;
  auction_trades = zero_f64;
  auction_volume = zero_f64;
}

module _ ⦃m : Memchr⦄ where
  unfoldable pub read_end : Bytes → Parser VapEntry
  read_end ticker = do
    p ← next
    period_minutes ← end_period p
    pure (terminator ticker period_minutes)

module _ ⦃m : Memchr⦄ ⦃f : FloatText⦄ where
  unfoldable pub read_line : Bytes → Bytes → Parser VapEntry
  read_line ticker third = do
    price ← lift (parse_f64 third "vap price")
    buyer_trades ← required_f64 "vap buyer_trades"
    buyer_volume ← required_f64 "vap buyer_volume"
    seller_trades ← required_f64 "vap seller_trades"
    seller_volume ← required_f64 "vap seller_volume"
    direct_trades ← required_f64 "vap direct_trades"
    direct_volume ← required_f64 "vap direct_volume"
    undefined_trades ← required_f64 "vap undefined_trades"
    undefined_volume ← required_f64 "vap undefined_volume"
    period_raw ← required "vap period"
    period_minutes ← period_of period_raw
    rlp_trades ← required_f64 "vap rlp_trades"
    rlp_volume ← required_f64 "vap rlp_volume"
    auction_trades ← required_f64 "vap auction_trades"
    auction_volume ← required_f64 "vap auction_volume"
    pure (record {
      ticker = ticker;
      price = price;
      buyer_trades = buyer_trades;
      buyer_volume = buyer_volume;
      seller_trades = seller_trades;
      seller_volume = seller_volume;
      direct_trades = direct_trades;
      direct_volume = direct_volume;
      undefined_trades = undefined_trades;
      undefined_volume = undefined_volume;
      period_minutes = period_minutes;
      rlp_trades = rlp_trades;
      rlp_volume = rlp_volume;
      auction_trades = auction_trades;
      auction_volume = auction_volume;
    })

  -- A terminator is told from a data line by the text `E` in place of the price.
  unfoldable pub entry_of : Bytes → Bytes → Parser VapEntry
  entry_of ticker third = if is_text third "E" then read_end ticker else read_line ticker third

  unfoldable pub body : Parser ProtocolMessage
  body = do
    header ← required "VAP header"
    ticker ← required "ticker"
    third ← required "price or terminator"
    entry ← entry_of ticker third
    pure (vap entry)

  unfoldable pub parse : Bytes → Result ParseError ProtocolMessage
  parse frame = run body frame
