-- ===== src/Scanner.antt =====
-- crates/cedro-protocol/src/parser/scanner.rs and `ParseError` of parser/mod.rs: the tokenizer of a
-- colon-separated payload, and the conversions of its tokens.
pub mod Tokens
pub mod Numbers
pub mod Reads
pub mod Wire
use market_data_v.Common.{
  ℕ, zero, suc, ◌+◌, ◌-◌, ◌*◌, ◌^◌, Bool, true, false, ◌&&◌, Option, none, some, List, [], ◌∷◌,
  Bytes, String, ltb, leb, ◌==◌, if◌then◌else◌, length, take, drop, Result, ok, err, ℤ, pos,
  neg_of_nat,
}
use market_data_v.Memchr.{Memchr}
use market_data_v.Types.{F64, FloatText}
use market_data_v.Utf8.{is_utf8}

pub data ParseError : Type 0 where
  empty : ParseError
  unknown_header : Bytes → ParseError
  missing_field : ℕ → String → ParseError
  invalid_field : String → String → ParseError
  bad_encoding : String → ParseError
  bad_integer : String → ParseError
  bad_float : String → ParseError
  not_implemented : String → ParseError

pub record Scanner : Type 0 where
  pub buf : Bytes
  pub pos : ℕ
  pub field_index : ℕ

unfoldable pub new : Bytes → Scanner
new buf = record { buf = buf; pos = 0; field_index = 0 }

-- A parser that is given `&mut Scanner`. After an error no caller looks at the scanner again.
abbrev pub Parser : Type 0 → Type 0
Parser A = Scanner → Result ParseError (A × Scanner)

infixl 5 ◌>>=◌
unfoldable pub ◌>>=◌ : {A B : Type 0} → Parser A → (A → Parser B) → Parser B
◌>>=◌ m f s = elim (m s) [ ok (a, t) ↦ f a t | err e ↦ err e ]

unfoldable pub pure : {A : Type 0} → A → Parser A
pure a s = ok (a, s)

-- `Err(e)`, or `r?` on the result of a conversion
unfoldable pub lift : {A : Type 0} → Result ParseError A → Parser A
lift (ok a) s = ok (a, s)
lift (err e) s = err e

unfoldable pub token_or : String → Option Bytes × Scanner → Result ParseError (Bytes × Scanner)
token_or expected (some token, s) = ok (token, s)
token_or expected (none, s) = err (missing_field (s.field_index + 1) expected)

module _ ⦃m : Memchr⦄ where
  unfoldable pub next_token : Scanner → Option Bytes × Scanner
  next_token s =
      if ltb (length s.buf) s.pos
      then (none, s)
      else if s.pos == length s.buf
      then (some [], record s { pos = length s.buf + 1; field_index = s.field_index + 1 })
      else (let rest = drop s.pos s.buf in
          elim (m.memchr b':' rest) [
            | some rel ↦ (
              some (take rel rest),
              record s { pos = s.pos + (rel + 1); field_index = s.field_index + 1 },
            )
            | none ↦
                (some rest, record s { pos = length s.buf + 1; field_index = s.field_index + 1 })
          ])

  unfoldable pub next : Parser (Option Bytes)
  next s = ok (next_token s)

  -- `self.next().ok_or(..)`: the position is that of the token that is not there.
  unfoldable pub required : String → Parser Bytes
  unfolding token_or
  required expected s = token_or expected (next_token s)

unfoldable pub fields_consumed : Scanner → ℕ
fields_consumed s = s.field_index

unfoldable pub rest : Scanner → Bytes
rest s = if ltb (length s.buf) s.pos then [] else drop s.pos s.buf

unfoldable pub take_rest : Parser Bytes
unfolding rest
take_rest s = ok (rest s, record s { pos = length s.buf + 1 })

abbrev pub is_ascii_digit : ℕ → Bool
is_ascii_digit c = leb b'0' c && leb c b'9'

-- `checked_mul` and `checked_add`: `none` where the result does not fit.
abbrev pub checked : ℕ → ℕ → Option ℕ
checked limit v = if ltb v limit then some v else none

-- The loops of `parse_u64` and `parse_i64`, whose `n` has the limit 2^64 and 2^63.
unfoldable pub decimal_loop : ℕ → String → ℕ → Bytes → Result ParseError ℕ
decimal_loop limit field n [] = ok n
decimal_loop limit field n (c ∷ cs) = elim (is_ascii_digit c) [
  | false ↦ err (bad_integer field)
  | true ↦ elim (checked limit (n * 10)) [
    | none ↦ err (bad_integer field)
    | some v ↦ elim (checked limit (v + (c - b'0'))) [
      | none ↦ err (bad_integer field)
      | some n' ↦ decimal_loop limit field n' cs
    ]
  ]
]

unfoldable pub parse_u64 : Bytes → String → Result ParseError ℕ
parse_u64 [] field = err (bad_integer field)
parse_u64 (c ∷ cs) field = decimal_loop (2 ^ 64) field 0 (c ∷ cs)

-- `u32::try_from(n)`, `u16::try_from(n)`
unfoldable pub narrow : ℕ → String → Result ParseError ℕ → Result ParseError ℕ
narrow limit field (ok n) = if ltb n limit then ok n else err (bad_integer field)
narrow limit field (err e) = err e

unfoldable pub parse_u32 : Bytes → String → Result ParseError ℕ
parse_u32 b field = narrow (2 ^ 32) field (parse_u64 b field)

unfoldable pub parse_u16 : Bytes → String → Result ParseError ℕ
parse_u16 b field = narrow (2 ^ 16) field (parse_u64 b field)

signed : (ℕ → ℤ) → Result ParseError ℕ → Result ParseError ℤ
signed sign (ok n) = ok (sign n)
signed sign (err e) = err e

magnitude : Bytes → String → Result ParseError ℕ
magnitude [] field = err (bad_integer field)
magnitude (c ∷ cs) field = decimal_loop (2 ^ 63) field 0 (c ∷ cs)

unfoldable pub parse_i64 : Bytes → String → Result ParseError ℤ
unfolding signed magnitude
parse_i64 [] field = err (bad_integer field)
parse_i64 (c ∷ cs) field =
    if c == b'-'
    then signed neg_of_nat (magnitude cs field)
    else signed pos (magnitude (c ∷ cs) field)

module _ ⦃f : FloatText⦄ where
  unfoldable pub float_or : String → Option F64 → Result ParseError F64
  float_or field (some x) = ok x
  float_or field none = err (bad_float field)

  unfoldable pub parse_f64 : Bytes → String → Result ParseError F64
  unfolding float_or
  parse_f64 [] field = err (bad_float field)
  parse_f64 (c ∷ cs) field =
      if is_utf8 (c ∷ cs)
      then float_or field (f.float_of_text (c ∷ cs))
      else err (bad_encoding field)

module _ ⦃m : Memchr⦄ where
  unfoldable pub required_u64 : String → Parser ℕ
  required_u64 field = do bytes ← required field; lift (parse_u64 bytes field)

  unfoldable pub required_u32 : String → Parser ℕ
  required_u32 field = do bytes ← required field; lift (parse_u32 bytes field)

  unfoldable pub required_f64 : ⦃f : FloatText⦄ → String → Parser F64
  required_f64 field = do bytes ← required field; lift (parse_f64 bytes field)
