-- ===== src/Parser/Op.antt =====
-- crates/cedro-protocol/src/parser/: what the parsers of several headers share, the match of a field
-- with fixed texts, the side of a book entry, and the run of a parser on a frame.
use market_data_v.Common.{
  ℕ, ◌≡◌, refl, ap, Bool, List, [], ◌∷◌, Bytes, String, Result, ok, err, codes, bytes_eq, ok_or,
}
use market_data_v.Enums.{Side, side_from_byte}
use market_data_v.Scanner.{ParseError, invalid_field, Scanner, new, Parser, lift}
use market_data_v.Scanner.Tokens.{split}
use market_data_v.Scanner.Reads.{At-new, Reads, Fails, Reads-lift}

-- `b.as_ref() == b"..."`
abbrev pub is_text : Bytes → String → Bool
is_text b s = bytes_eq b (codes s)

abbrev pub invalid {ℓ} : {A : Type ℓ} → String → String → Result ParseError A
invalid field reason = err (invalid_field field reason)

-- `parse_side` of bqt.rs and sab.rs, which differ in the name of the field.
unfoldable pub parse_side : String → Bytes → Result ParseError Side
parse_side field [] = invalid field "expected one byte (A or V)"
parse_side field (c ∷ []) =
    ok_or (side_from_byte c) (invalid_field field "expected A (buy) or V (sell)")
parse_side field (c ∷ d ∷ cs) = invalid field "expected one byte (A or V)"

fst_ok : {A : Type 0} → Result ParseError (A × Scanner) → Result ParseError A
fst_ok (ok (a, s)) = ok a
fst_ok (err e) = err e

-- The result of a parser that owns the scanner.
unfoldable pub run : {A : Type 0} → Parser A → Bytes → Result ParseError A
unfolding fst_ok
run m frame = fst_ok (m (new frame))

-- The text of a side.
pub data IsSide : Bytes → Side → Type 0 where
  buy : IsSide (codes "A") Side.buy
  sell : IsSide (codes "V") Side.sell

pub parse_side_lem :
    (field : String) (b : Bytes) (side : Side) → IsSide b side → parse_side field b ≡ ok side
unfolding parse_side side_from_byte
parse_side_lem field _ _ IsSide.buy = refl
parse_side_lem field _ _ IsSide.sell = refl

pub Reads-side :
    (field : String) (b : Bytes) (side : Side) (k : ℕ) (ts : List Bytes)
    → IsSide b side
    → Reads (lift (parse_side field b)) k ts side k ts
Reads-side field b side k ts h = Reads-lift _ side k ts (parse_side_lem field b side h)

pub run-Reads :
    {A : Type 0} (m : Parser A) (frame : Bytes) {ts us : List Bytes} {n : ℕ} {a : A}
    → split frame ≡ ts
    → Reads m 0 ts a n us
    → run m frame ≡ ok a
unfolding run fst_ok
run-Reads m frame {ts} e r = let (t, p, g) = r.run (new frame) (At-new frame ts e) in ap fst_ok p

pub run-Fails :
    {A : Type 0} (m : Parser A) (frame : Bytes) {ts : List Bytes} {x : ParseError}
    → split frame ≡ ts
    → Fails m 0 ts x
    → run m frame ≡ err x
unfolding run fst_ok
run-Fails m frame {ts} e r = ap fst_ok (r.run (new frame) (At-new frame ts e))
