-- ===== src/Parser/Sqt.antt =====
-- crates/cedro-protocol/src/parser/sqt.rs: the quote frames.
pub mod Grammar
use market_data_v.Common.{
  ℕ, zero, suc, ◌^◌, ◌≡◌, refl, Bool, true, false, ◌&&◌, ◌||◌, Option, none, some, List, [], ◌∷◌,
  Bytes, String, Result, ok, err, if◌then◌else◌, ◌==◌, leb,
}
use market_data_v.Enums.{two_bytes}
use market_data_v.Memchr.{Memchr}
use market_data_v.Types.{
  FloatText, QuoteFieldId, QuoteFieldValue, QuoteDiff, float, int, time, date, date_time, char,
  phase, str, ProtocolMessage, quote,
}
use market_data_v.Scanner.{
  ParseError, Parser, lift, ◌>>=◌, pure, next, required, narrow, parse_u16, parse_u32, parse_u64,
  parse_i64, parse_f64,
}
use market_data_v.Parser.Op.{invalid, run}
use market_data_v.Parser.Drain.{is_empty, frame_fuel}

pub data FieldType : Type 0 where
  float_type int_type time_type time_ms_type date_type date_time_type char_type phase_type
        str_type :
      FieldType

unfoldable pub one_of : ℕ → List ℕ → Bool
one_of i [] = false
one_of i (j ∷ js) = i == j || one_of i js

abbrev pub time_indices : List ℕ
time_indices = 0 ∷ 5 ∷ 15 ∷ 16 ∷ 58 ∷ 59 ∷ []

abbrev pub date_indices : List ℕ
date_indices = 1 ∷ 54 ∷ 64 ∷ 87 ∷ 129 ∷ 141 ∷ 154 ∷ 208 ∷ []

abbrev pub date_time_indices : List ℕ
date_time_indices = 50 ∷ 51 ∷ 125 ∷ []

abbrev pub int_indices : List ℕ
int_indices =
    6 ∷ 7 ∷ 8 ∷ 9 ∷ 19 ∷ 20 ∷ 44 ∷ 45 ∷ 46 ∷ 49 ∷ 57 ∷ 60 ∷ 61 ∷ 62 ∷ 63 ∷ 65 ∷ 67 ∷ 84 ∷ 100 ∷ 101
    ∷ 102 ∷ 110 ∷ 111 ∷ 113 ∷ 114 ∷ 115 ∷ 118 ∷ 119 ∷ 130 ∷ 136 ∷ 137 ∷ 138 ∷ 203 ∷ 205 ∷ 209 ∷ 213
    ∷ []

abbrev pub char_indices : List ℕ
char_indices = 56 ∷ 72 ∷ 74 ∷ 106 ∷ []

abbrev pub str_indices : List ℕ
str_indices =
    47 ∷ 48 ∷ 52 ∷ 53 ∷ 66 ∷ 81 ∷ 96 ∷ 105 ∷ 109 ∷ 116 ∷ 117 ∷ 122 ∷ 126 ∷ 139 ∷ 204 ∷ 206 ∷ 207
    ∷ 214 ∷ 215 ∷ []

unfoldable pub field_type : ℕ → FieldType
field_type idx =
    if one_of idx time_indices
    then time_type
    else if leb 142 idx && leb idx 145
    then time_ms_type
    else if one_of idx date_indices
    then date_type
    else if one_of idx date_time_indices
    then date_time_type
    else if one_of idx int_indices
    then int_type
    else if idx == 88
    then phase_type
    else if one_of idx char_indices
    then char_type
    else if one_of idx str_indices
    then str_type
    else float_type

-- The constructor of a value behind `?`.
unfoldable pub tagged :
    {A : Type 0} → (A → QuoteFieldValue) → Result ParseError A → Result ParseError QuoteFieldValue
tagged tag (ok a) = ok (tag a)
tagged tag (err e) = err e

unfoldable pub char_value : Bytes → Result ParseError QuoteFieldValue
char_value (c ∷ []) = ok (char c)
char_value [] = invalid "quote char" "expected exactly one byte"
char_value (c ∷ d ∷ cs) = invalid "quote char" "expected exactly one byte"

module _ ⦃f : FloatText⦄ where
  unfoldable pub value_of : FieldType → Bytes → Result ParseError QuoteFieldValue
  value_of float_type raw = tagged float (parse_f64 raw "quote float")
  value_of int_type raw = tagged int (parse_i64 raw "quote int")
  value_of time_type raw = tagged time (parse_u32 raw "quote time")
  value_of time_ms_type raw =
      tagged time (narrow (2 ^ 32) "quote time-ms" (parse_u64 raw "quote time-ms"))
  value_of date_type raw = tagged date (parse_u32 raw "quote date")
  value_of date_time_type raw = tagged date_time (parse_u64 raw "quote datetime")
  value_of char_type raw = char_value raw
  value_of phase_type raw = ok (phase (two_bytes raw))
  value_of str_type raw = ok (str raw)

  unfoldable pub decode_value : ℕ → Bytes → Result ParseError QuoteFieldValue
  decode_value idx raw = value_of (field_type idx) raw

module _ ⦃m : Memchr⦄ ⦃f : FloatText⦄ where
  -- The loop over the pairs of an index and a value, on fuel.
  unfoldable pub pairs : ℕ → Parser QuoteDiff
  pairs zero = pure []
  pairs (suc n) = next >>= λ idx_field. elim idx_field [
    | none ↦ pure []
    | some t ↦ if is_empty t then pure [] else (do
      idx_num ← lift (parse_u16 t "quote index")
      value_bytes ← required "quote value"
      value ← lift (decode_value idx_num value_bytes)
      diff ← pairs n
      pure ((idx_num, value) ∷ diff))
  ]

  unfoldable pub body : ℕ → Parser ProtocolMessage
  body fuel = do
    header ← required "T header"
    ticker ← required "ticker"
    time_bytes ← required "HHMMSS"
    time_hhmmss ← lift (parse_u32 time_bytes "HHMMSS")
    diff ← pairs fuel
    pure (quote ticker time_hhmmss diff)

  unfoldable pub parse : Bytes → Result ParseError ProtocolMessage
  parse frame = run (body (frame_fuel frame)) frame
