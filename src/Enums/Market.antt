-- ===== src/Enums/Market.antt =====
-- crates/cedro-protocol/src/enums.rs: markets, asset types and the status enumerations.
use market_data_v.Common.{ℕ, [], ◌∷◌, ◌==◌, if◌then◌else◌, ℤ, pos, negsuc}
use market_data_v.Enums.Match.{match_code}

pub data MarketCode : Type 0 where
  bovespa dow_jones bmf indices money forex indicators nyse nasdaq cfd bitcoin datagro inews amex
        tesouro_direto nyse_fmv nasdaq_fmv amex_fmv :
      MarketCode
  unknown : ℕ → MarketCode

unfoldable pub market_code_from_code : ℕ → MarketCode
market_code_from_code c =
    match_code c
      ((1, MarketCode.bovespa)
        ∷ (2, MarketCode.dow_jones)
        ∷ (3, MarketCode.bmf)
        ∷ (4, MarketCode.indices)
        ∷ (5, MarketCode.money)
        ∷ (7, MarketCode.forex)
        ∷ (8, MarketCode.indicators)
        ∷ (10, MarketCode.nyse)
        ∷ (12, MarketCode.nasdaq)
        ∷ (13, MarketCode.cfd)
        ∷ (30, MarketCode.bitcoin)
        ∷ (44, MarketCode.datagro)
        ∷ (45, MarketCode.inews)
        ∷ (52, MarketCode.amex)
        ∷ (64, MarketCode.tesouro_direto)
        ∷ (76, MarketCode.nyse_fmv)
        ∷ (77, MarketCode.nasdaq_fmv)
        ∷ (78, MarketCode.amex_fmv)
        ∷ [])
      (MarketCode.unknown c)

pub data AssetType : Type 0 where
  spot option index commodity currency term future auction bond fractional option_exercise indicator
        etf volume option_on_spot option_on_future test strategy corp secloan tesouro_direto :
      AssetType
  unknown : ℕ → AssetType

unfoldable pub asset_type_from_code : ℕ → AssetType
asset_type_from_code c =
    match_code c
      ((1, AssetType.spot)
        ∷ (2, AssetType.option)
        ∷ (3, AssetType.index)
        ∷ (4, AssetType.commodity)
        ∷ (5, AssetType.currency)
        ∷ (6, AssetType.term)
        ∷ (7, AssetType.future)
        ∷ (8, AssetType.auction)
        ∷ (9, AssetType.bond)
        ∷ (10, AssetType.fractional)
        ∷ (11, AssetType.option_exercise)
        ∷ (12, AssetType.indicator)
        ∷ (13, AssetType.etf)
        ∷ (15, AssetType.volume)
        ∷ (16, AssetType.option_on_spot)
        ∷ (17, AssetType.option_on_future)
        ∷ (18, AssetType.test)
        ∷ (19, AssetType.strategy)
        ∷ (20, AssetType.corp)
        ∷ (21, AssetType.secloan)
        ∷ (22, AssetType.tesouro_direto)
        ∷ [])
      (AssetType.unknown c)

pub data AssetStatus : Type 0 where
  normal frozen suspended auction inhibited : AssetStatus
  unknown : ℕ → AssetStatus

unfoldable pub asset_status_from_code : ℕ → AssetStatus
asset_status_from_code c =
    match_code c
      ((0, AssetStatus.normal)
        ∷ (1, AssetStatus.frozen)
        ∷ (2, AssetStatus.suspended)
        ∷ (3, AssetStatus.auction)
        ∷ (4, AssetStatus.inhibited)
        ∷ [])
      (AssetStatus.unknown c)

pub data OptionStyle : Type 0 where
  american european no_style : OptionStyle
  unknown : ℕ → OptionStyle

unfoldable pub option_style_from_byte : ℕ → OptionStyle
option_style_from_byte c =
    match_code c
      ((b'A', OptionStyle.american)
        ∷ (b'E', OptionStyle.european)
        ∷ (b'0', OptionStyle.no_style)
        ∷ [])
      (OptionStyle.unknown c)

pub data OptionDirection : Type 0 where
  put call : OptionDirection
  unknown : ℕ → OptionDirection

unfoldable pub option_direction_from_byte : ℕ → OptionDirection
option_direction_from_byte c =
    match_code c ((b'P', OptionDirection.put) ∷ (b'C', OptionDirection.call) ∷ [])
      (OptionDirection.unknown c)

pub data InstrumentStatus : Type 0 where
  normal auction suspended frozen vacant : InstrumentStatus
  unknown : ℤ → InstrumentStatus

-- An `i16` code; the arm `-1 => Empty` is the last but one.
unfoldable pub instrument_status_from_code : ℤ → InstrumentStatus
instrument_status_from_code (pos c) =
    match_code c
      ((101, InstrumentStatus.normal)
        ∷ (102, InstrumentStatus.auction)
        ∷ (105, InstrumentStatus.suspended)
        ∷ (118, InstrumentStatus.frozen)
        ∷ [])
      (InstrumentStatus.unknown (pos c))
instrument_status_from_code (negsuc c) =
    if c == 0 then vacant else InstrumentStatus.unknown (negsuc c)
