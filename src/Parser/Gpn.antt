-- ===== src/Parser/Gpn.antt =====
-- crates/cedro-protocol/src/parser/gpn.rs: the lines of the broker dictionary.
use market_data_v.Common.{
  ◌≡◌, refl, Bool, true, false, List, ◌∷◌, Bytes, Result, ok, codes, if◌then◌else◌, bytes_eq,
}
use market_data_v.Memchr.{Memchr}
use market_data_v.Types.{GpnItem, ProtocolMessage, gpn_item}
use market_data_v.Scanner.{ParseError, Parser, ◌>>=◌, pure, lift, required}
use market_data_v.Scanner.Tokens.{split}
use market_data_v.Scanner.Reads.{step, ◌⨟◌, Reads-pure, Reads-lift, Reads-required}
use market_data_v.Parser.Op.{is_text, invalid, run, run-Reads}

-- The match on the active flag.
unfoldable pub active_of : Bytes → Result ParseError Bool
active_of b =
    if is_text b "1"
    then ok true
    else if is_text b "0"
    then ok false
    else invalid "active flag" "expected '0' or '1'"

module _ ⦃m : Memchr⦄ where
  unfoldable pub body : Parser ProtocolMessage
  body = do
    header ← required "G header"
    exchange ← required "exchange"
    code ← required "broker code"
    name ← required "broker name"
    cedro_id ← required "cedro id"
    active_field ← required "active flag"
    active ← lift (active_of active_field)
    pure (
        gpn_item (record {
          exchange = exchange;
          code = code;
          name = name;
          cedro_id = cedro_id;
          active = active;
        }))

  unfoldable pub parse : Bytes → Result ParseError ProtocolMessage
  parse frame = run body frame

-- The text of the flag.
abbrev pub flag_text : Bool → Bytes
flag_text true = codes "1"
flag_text false = codes "0"

active_of_lem : (b : Bool) → active_of (flag_text b) ≡ ok b
unfolding active_of bytes_eq
active_of_lem true = refl
active_of_lem false = refl

-- A line with the fields of a broker is read as that broker, whatever stands behind them.
pub parse-broker :
    ⦃m : Memchr⦄ (frame h : Bytes) (g : GpnItem) (ts : List Bytes)
    → split frame ≡ h ∷ g.exchange ∷ g.code ∷ g.name ∷ g.cedro_id ∷ flag_text g.active ∷ ts
    → parse frame ≡ ok (gpn_item g)
unfolding parse body
parse-broker frame h g ts e = run-Reads body frame e (
    step _ _ (Reads-required _ 0 h _)
    ⨟ step _ _ (Reads-required _ _ g.exchange _)
    ⨟ step _ _ (Reads-required _ _ g.code _)
    ⨟ step _ _ (Reads-required _ _ g.name _)
    ⨟ step _ _ (Reads-required _ _ g.cedro_id _)
    ⨟ step _ _ (Reads-required _ _ (flag_text g.active) ts)
    ⨟ step _ _ (Reads-lift _ g.active _ _ (active_of_lem g.active))
    ⨟ Reads-pure _ _ ts)
