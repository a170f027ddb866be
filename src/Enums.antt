-- ===== src/Enums.antt =====
-- crates/cedro-protocol/src/enums.rs: the protocol's enumerations. A constructor that two of them
-- share is named behind its type.
mod Match
pub mod Market
pub mod Codes
use market_data_v.Common.{
  ℕ, Bool, true, false, Option, none, some, List, [], ◌∷◌, Bytes, bytes_eq, codes, ◌==◌,
  if◌then◌else◌, ℤ, pos, negsuc, int_eq,
}
use Match.{match_code}

pub data TradeAggressor : Type 0 where
  undefined buyer seller : TradeAggressor
  unknown : ℕ → TradeAggressor

unfoldable pub trade_aggressor_from_byte : ℕ → TradeAggressor
trade_aggressor_from_byte c =
    match_code c
      ((b'I', TradeAggressor.undefined)
        ∷ (b'A', TradeAggressor.buyer)
        ∷ (b'V', TradeAggressor.seller)
        ∷ [])
      (TradeAggressor.unknown c)

pub data TradeCondition : Type 0 where
  not_direct direct rlp rfq midpoint_trade opening_price point_in_time_auction : TradeCondition
  unknown : ℕ → TradeCondition

unfoldable pub trade_condition_from_code : ℕ → TradeCondition
trade_condition_from_code c =
    match_code c
      ((0, TradeCondition.not_direct)
        ∷ (1, TradeCondition.direct)
        ∷ (2, TradeCondition.rlp)
        ∷ (3, TradeCondition.rfq)
        ∷ (4, TradeCondition.midpoint_trade)
        ∷ (5, TradeCondition.opening_price)
        ∷ (6, TradeCondition.point_in_time_auction)
        ∷ [])
      (TradeCondition.unknown c)

pub data AssetGroupPhase : Type 0 where
  pre_open open_phase pre_close close pre_after_open after_open after_close final closed paused :
      AssetGroupPhase
  unknown : ℕ × ℕ → AssetGroupPhase

-- `[0u8; 2]` with the first `min(len, 2)` bytes copied in.
unfoldable pub two_bytes : Bytes → ℕ × ℕ
two_bytes [] = (0, 0)
two_bytes (a ∷ []) = (a, 0)
two_bytes (a ∷ b ∷ r) = (a, b)

unfoldable pub phase_from_code : Bytes → AssetGroupPhase
unfolding two_bytes
phase_from_code c =
    if bytes_eq c (codes "P")
    then pre_open
    else if bytes_eq c (codes "A")
    then open_phase
    else if bytes_eq c (codes "PN")
    then pre_close
    else if bytes_eq c (codes "N")
    then close
    else if bytes_eq c (codes "E")
    then pre_after_open
    else if bytes_eq c (codes "R")
    then after_open
    else if bytes_eq c (codes "NE")
    then after_close
    else if bytes_eq c (codes "F")
    then final
    else if bytes_eq c (codes "NO")
    then closed
    else if bytes_eq c (codes "T")
    then paused
    else AssetGroupPhase.unknown (two_bytes c)

pub data Side : Type 0 where
  buy sell : Side

unfoldable pub side_from_byte : ℕ → Option Side
side_from_byte b = if b == b'A' then some buy else if b == b'V' then some sell else none

unfoldable pub side_as_byte : Side → ℕ
side_as_byte buy = b'A'
side_as_byte sell = b'V'

-- The derived `==`.
abbrev pub side_eq : Side → Side → Bool
side_eq buy buy = true
side_eq buy sell = false
side_eq sell buy = false
side_eq sell sell = true

unfoldable pub side_fmt : Side → Bytes
side_fmt buy = codes "buy"
side_fmt sell = codes "sell"
