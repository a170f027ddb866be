-- ===== src/Parser/Sqt/Grammar.antt =====
-- crates/cedro-protocol/src/parser/sqt.rs: the grammar of the frames, and that they are parsed.
use market_data_v.Common.{
  ℕ, zero, suc, ◌+◌, ◌^◌, ◌<◌, ◌≡◌, refl, ap, false, List, [], ◌∷◌, Bytes, ok, length, arith, ℤ,
}
use market_data_v.Enums.{two_bytes}
use market_data_v.Memchr.{Memchr}
use market_data_v.Types.{F64, FloatText, QuoteFieldValue, QuoteDiff, quote}
use market_data_v.Scanner.Tokens.{split}
use market_data_v.Scanner.Numbers.{
  DenotesInt, parse_u32_iff, parse_u64_iff, parse_i64_iff, narrow-Denotes,
}
use market_data_v.Scanner.Reads.{
  Leaves, step, ◌⨟◌, Reads-pure, Reads-lift, Reads-required, Reads-next, Reads-next_end,
}
use market_data_v.Scanner.Wire.{IsU16, IsU32, IsU64, IsFloat, Reads-u16, Reads-u32, parse_f64_lem}
use market_data_v.Parser.Op.{run-Reads}
use market_data_v.Parser.Drain.{is_empty, frame_fuel, fuel_enough}
use market_data_v.Parser.Sqt.{
  FieldType, float_type, int_type, time_type, time_ms_type, date_type, date_time_type, char_type,
  phase_type, str_type, field_type, tagged, char_value, value_of, decode_value, pairs, body, parse,
}

-- The text of a value of each type.
pub data IsValue ⦃f : FloatText⦄ : FieldType → Bytes → QuoteFieldValue → Type 0 where
  float : (b : Bytes) (x : F64) → IsFloat b x → IsValue float_type b (QuoteFieldValue.float x)
  int : (b : Bytes) (z : ℤ) → DenotesInt b z → IsValue int_type b (QuoteFieldValue.int z)
  time : (b : Bytes) (n : ℕ) → IsU32 b n → IsValue time_type b (QuoteFieldValue.time n)
  time_ms : (b : Bytes) (n : ℕ) → IsU32 b n → IsValue time_ms_type b (QuoteFieldValue.time n)
  date : (b : Bytes) (n : ℕ) → IsU32 b n → IsValue date_type b (QuoteFieldValue.date n)
  date_time :
      (b : Bytes) (n : ℕ) → IsU64 b n → IsValue date_time_type b (QuoteFieldValue.date_time n)
  char : (c : ℕ) → IsValue char_type (c ∷ []) (QuoteFieldValue.char c)
  phase : (b : Bytes) → IsValue phase_type b (QuoteFieldValue.phase (two_bytes b))
  str : (b : Bytes) → IsValue str_type b (QuoteFieldValue.str b)

-- Pairs of an index and a value, up to the end of the frame or an empty token.
pub data IsDiff ⦃f : FloatText⦄ : List Bytes → QuoteDiff → Type 0 where
  finished : IsDiff [] []
  dangling : (ts : List Bytes) → IsDiff ([] ∷ ts) []
  pair :
      (t raw : Bytes) (ts : List Bytes) (idx : ℕ) (v : QuoteFieldValue) (d : QuoteDiff)
      → IsU16 t idx
      → IsValue (field_type idx) raw v
      → IsDiff ts d
      → IsDiff (t ∷ raw ∷ ts) ((idx, v) ∷ d)

full : (b : Bytes) (n : ℕ) → IsU16 b n → is_empty b ≡ false
full [] n h = absurd (h.not_empty refl)
full (c ∷ cs) n h = refl

module _ ⦃f : FloatText⦄ where
  value_of_lem :
      (t : FieldType) (b : Bytes) (v : QuoteFieldValue) → IsValue t b v → value_of t b ≡ ok v
  unfolding value_of tagged char_value
  value_of_lem _ _ _ (IsValue.float b x h) =
      ap (tagged QuoteFieldValue.float) (parse_f64_lem b _ x h)
  value_of_lem _ _ _ (IsValue.int b z h) =
      ap (tagged QuoteFieldValue.int) ((parse_i64_iff b _ z).1 h)
  value_of_lem _ _ _ (IsValue.time b n h) =
      ap (tagged QuoteFieldValue.time) ((parse_u32_iff b _ n).1 h)
  value_of_lem _ _ _ (IsValue.time_ms b n h) =
      ap (tagged QuoteFieldValue.time) ((narrow-Denotes (2 ^ 32) b _ n (omega arith)).1 h)
  value_of_lem _ _ _ (IsValue.date b n h) =
      ap (tagged QuoteFieldValue.date) ((parse_u32_iff b _ n).1 h)
  value_of_lem _ _ _ (IsValue.date_time b n h) =
      ap (tagged QuoteFieldValue.date_time) ((parse_u64_iff b _ n).1 h)
  value_of_lem _ _ _ (IsValue.char c) = refl
  value_of_lem _ _ _ (IsValue.phase b) = refl
  value_of_lem _ _ _ (IsValue.str b) = refl

module _ ⦃m : Memchr⦄ ⦃f : FloatText⦄ where
  pairs_lem :
      (n k : ℕ) (ts : List Bytes) (d : QuoteDiff)
      → length ts < n
      → IsDiff ts d
      → Leaves (pairs n) k ts d
  unfolding pairs decode_value
  pairs_lem zero k ts d l h = absurd (omega arith)
  pairs_lem (suc n) k _ _ l IsDiff.finished =
      (k, [], step _ _ (Reads-next_end k) ⨟ Reads-pure [] k [])
  pairs_lem (suc n) k _ _ l (IsDiff.dangling ts) =
      (k + 1, ts, step _ _ (Reads-next k [] ts) ⨟ Reads-pure [] _ ts)
  pairs_lem (suc n) k _ _ l (IsDiff.pair t raw ts idx v d x y h) =
      let (o, us, r) = pairs_lem n (k + 1 + 1) ts d (omega arith) h in
      (
        o,
        us,
        step _ _ (Reads-next k t (raw ∷ ts))
            ⨟ rw (full t idx x) (
                step _ _ (Reads-u16 t _ idx (k + 1) _ x)
                ⨟ step _ _ (Reads-required _ _ raw ts)
                ⨟ step _ _ (Reads-lift _ v _ _ (value_of_lem (field_type idx) raw v y))
                ⨟ step _ _ r
                ⨟ Reads-pure ((idx, v) ∷ d) o us),
      )

  -- A frame of a header, a ticker, a time and pairs of an index and a value of its type is parsed to
  -- the quote with exactly those pairs in that order; an empty index ends the pairs.
  pub parse-IsDiff :
      (frame h ticker t : Bytes) (ts : List Bytes) (n : ℕ) (d : QuoteDiff)
      → split frame ≡ h ∷ ticker ∷ t ∷ ts
      → IsU32 t n
      → IsDiff ts d
      → parse frame ≡ ok (quote ticker n d)
  unfolding parse body
  parse-IsDiff frame h ticker t ts n d e x y =
      let fuel : length ts < frame_fuel frame = omega (arith, fuel_enough frame h _ e) in
      let (o, us, r) = pairs_lem (frame_fuel frame) (0 + 1 + 1 + 1) ts d fuel y in
      run-Reads (body (frame_fuel frame)) frame e (
        step _ _ (Reads-required _ 0 h _)
        ⨟ step _ _ (Reads-required _ _ ticker _)
        ⨟ step _ _ (Reads-required _ _ t ts)
        ⨟ step _ _ (Reads-u32 t _ n _ ts x)
        ⨟ step _ _ r
        ⨟ Reads-pure _ o us)
