-- ===== src/Enums/Codes.antt =====
-- The codes of crates/cedro-protocol/src/enums.rs, read back.
use market_data_v.Common.{ℕ, ◌≡◌, refl, ℤ, pos, negsuc, arith, some, ◌↔◌}
use market_data_v.Enums.Match.{match_code, match_code-inverse}
use market_data_v.Enums.Market.{
  MarketCode, AssetType, AssetStatus, OptionStyle, OptionDirection, InstrumentStatus, vacant,
  market_code_from_code, asset_type_from_code, asset_status_from_code, option_style_from_byte,
  option_direction_from_byte, instrument_status_from_code,
}
use market_data_v.Enums.{
  TradeAggressor, TradeCondition, Side, trade_aggressor_from_byte, trade_condition_from_code,
  side_from_byte, side_as_byte,
}

abbrev pub code_of_market_code : MarketCode → ℕ
code_of_market_code MarketCode.bovespa = 1
code_of_market_code MarketCode.dow_jones = 2
code_of_market_code MarketCode.bmf = 3
code_of_market_code MarketCode.indices = 4
code_of_market_code MarketCode.money = 5
code_of_market_code MarketCode.forex = 7
code_of_market_code MarketCode.indicators = 8
code_of_market_code MarketCode.nyse = 10
code_of_market_code MarketCode.nasdaq = 12
code_of_market_code MarketCode.cfd = 13
code_of_market_code MarketCode.bitcoin = 30
code_of_market_code MarketCode.datagro = 44
code_of_market_code MarketCode.inews = 45
code_of_market_code MarketCode.amex = 52
code_of_market_code MarketCode.tesouro_direto = 64
code_of_market_code MarketCode.nyse_fmv = 76
code_of_market_code MarketCode.nasdaq_fmv = 77
code_of_market_code MarketCode.amex_fmv = 78
code_of_market_code (MarketCode.unknown c) = c

abbrev pub code_of_asset_type : AssetType → ℕ
code_of_asset_type AssetType.spot = 1
code_of_asset_type AssetType.option = 2
code_of_asset_type AssetType.index = 3
code_of_asset_type AssetType.commodity = 4
code_of_asset_type AssetType.currency = 5
code_of_asset_type AssetType.term = 6
code_of_asset_type AssetType.future = 7
code_of_asset_type AssetType.auction = 8
code_of_asset_type AssetType.bond = 9
code_of_asset_type AssetType.fractional = 10
code_of_asset_type AssetType.option_exercise = 11
code_of_asset_type AssetType.indicator = 12
code_of_asset_type AssetType.etf = 13
code_of_asset_type AssetType.volume = 15
code_of_asset_type AssetType.option_on_spot = 16
code_of_asset_type AssetType.option_on_future = 17
code_of_asset_type AssetType.test = 18
code_of_asset_type AssetType.strategy = 19
code_of_asset_type AssetType.corp = 20
code_of_asset_type AssetType.secloan = 21
code_of_asset_type AssetType.tesouro_direto = 22
code_of_asset_type (AssetType.unknown c) = c

abbrev pub code_of_asset_status : AssetStatus → ℕ
code_of_asset_status AssetStatus.normal = 0
code_of_asset_status AssetStatus.frozen = 1
code_of_asset_status AssetStatus.suspended = 2
code_of_asset_status AssetStatus.auction = 3
code_of_asset_status AssetStatus.inhibited = 4
code_of_asset_status (AssetStatus.unknown c) = c

abbrev pub code_of_option_style : OptionStyle → ℕ
code_of_option_style OptionStyle.american = b'A'
code_of_option_style OptionStyle.european = b'E'
code_of_option_style OptionStyle.no_style = b'0'
code_of_option_style (OptionStyle.unknown c) = c

abbrev pub code_of_option_direction : OptionDirection → ℕ
code_of_option_direction OptionDirection.put = b'P'
code_of_option_direction OptionDirection.call = b'C'
code_of_option_direction (OptionDirection.unknown c) = c

abbrev pub code_of_trade_aggressor : TradeAggressor → ℕ
code_of_trade_aggressor TradeAggressor.undefined = b'I'
code_of_trade_aggressor TradeAggressor.buyer = b'A'
code_of_trade_aggressor TradeAggressor.seller = b'V'
code_of_trade_aggressor (TradeAggressor.unknown c) = c

abbrev pub code_of_trade_condition : TradeCondition → ℕ
code_of_trade_condition TradeCondition.not_direct = 0
code_of_trade_condition TradeCondition.direct = 1
code_of_trade_condition TradeCondition.rlp = 2
code_of_trade_condition TradeCondition.rfq = 3
code_of_trade_condition TradeCondition.midpoint_trade = 4
code_of_trade_condition TradeCondition.opening_price = 5
code_of_trade_condition TradeCondition.point_in_time_auction = 6
code_of_trade_condition (TradeCondition.unknown c) = c

abbrev pub code_of_instrument_status : InstrumentStatus → ℤ
code_of_instrument_status InstrumentStatus.normal = pos 101
code_of_instrument_status InstrumentStatus.auction = pos 102
code_of_instrument_status InstrumentStatus.suspended = pos 105
code_of_instrument_status InstrumentStatus.frozen = pos 118
code_of_instrument_status vacant = negsuc 0
code_of_instrument_status (InstrumentStatus.unknown c) = c

code_of-market_code : (c : ℕ) → code_of_market_code (market_code_from_code c) ≡ c
unfolding market_code_from_code
code_of-market_code c = match_code-inverse code_of_market_code c _ _ (omega arith) refl

code_of-asset_type : (c : ℕ) → code_of_asset_type (asset_type_from_code c) ≡ c
unfolding asset_type_from_code
code_of-asset_type c = match_code-inverse code_of_asset_type c _ _ (omega arith) refl

code_of-asset_status : (c : ℕ) → code_of_asset_status (asset_status_from_code c) ≡ c
unfolding asset_status_from_code
code_of-asset_status c = match_code-inverse code_of_asset_status c _ _ (omega arith) refl

code_of-option_style : (c : ℕ) → code_of_option_style (option_style_from_byte c) ≡ c
unfolding option_style_from_byte
code_of-option_style c = match_code-inverse code_of_option_style c _ _ (omega arith) refl

code_of-option_direction : (c : ℕ) → code_of_option_direction (option_direction_from_byte c) ≡ c
unfolding option_direction_from_byte
code_of-option_direction c = match_code-inverse code_of_option_direction c _ _ (omega arith) refl

code_of-trade_aggressor : (c : ℕ) → code_of_trade_aggressor (trade_aggressor_from_byte c) ≡ c
unfolding trade_aggressor_from_byte
code_of-trade_aggressor c = match_code-inverse code_of_trade_aggressor c _ _ (omega arith) refl

code_of-trade_condition : (c : ℕ) → code_of_trade_condition (trade_condition_from_code c) ≡ c
unfolding trade_condition_from_code
code_of-trade_condition c = match_code-inverse code_of_trade_condition c _ _ (omega arith) refl

code_of-instrument_status : (c : ℤ) → code_of_instrument_status (instrument_status_from_code c) ≡ c
unfolding instrument_status_from_code match_code
code_of-instrument_status (pos c) = ground arith
code_of-instrument_status (negsuc c) = ground arith

-- Every enumeration read from a number, all but the group phase and the side, keeps its code: the code can be read back from the variant that `from_code` or
-- `from_byte` returns, the unknown codes included, so that no two codes share a variant.
pub codes_kept :
    ((c : ℕ) → code_of_market_code (market_code_from_code c) ≡ c)
    × ((c : ℕ) → code_of_asset_type (asset_type_from_code c) ≡ c)
    × ((c : ℕ) → code_of_asset_status (asset_status_from_code c) ≡ c)
    × ((c : ℤ) → code_of_instrument_status (instrument_status_from_code c) ≡ c)
    × ((c : ℕ) → code_of_option_style (option_style_from_byte c) ≡ c)
    × ((c : ℕ) → code_of_option_direction (option_direction_from_byte c) ≡ c)
    × ((c : ℕ) → code_of_trade_aggressor (trade_aggressor_from_byte c) ≡ c)
    × ((c : ℕ) → code_of_trade_condition (trade_condition_from_code c) ≡ c)
codes_kept = (
  code_of-market_code, code_of-asset_type, code_of-asset_status, code_of-instrument_status,
  code_of-option_style, code_of-option_direction, code_of-trade_aggressor, code_of-trade_condition,
)

-- `Side::from_byte` accepts the byte of each side and no other.
pub side_from_byte_iff : (b : ℕ) (s : Side) → (side_from_byte b ≡ some s) ↔ (b ≡ side_as_byte s)
unfolding side_from_byte side_as_byte
side_from_byte_iff b s = ground arith
