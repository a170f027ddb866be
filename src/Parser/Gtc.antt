-- ===== src/Parser/Gtc.antt =====
-- crates/cedro-protocol/src/parser/gtc.rs: the frames of the server time.
use market_data_v.Common.{
  ◌≡◌, refl, ◌∙◌, List, ◌∷◌, ◌++◌, Bytes, Result, ok, if◌then◌else◌, ◌==◌, length, take, drop,
  length-append, take-append_length, drop-append_length, arith,
}
use market_data_v.Memchr.{Memchr}
use market_data_v.Types.{ServerTime, ProtocolMessage, server_time}
use market_data_v.Scanner.{ParseError, Parser, ◌>>=◌, pure, lift, required, parse_u32}
use market_data_v.Scanner.Tokens.{split}
use market_data_v.Scanner.Reads.{step, ◌⨟◌, Reads-pure, Reads-lift, Reads-required}
use market_data_v.Scanner.Wire.{IsU32, Reads-u32}
use market_data_v.Parser.Op.{invalid, run, run-Reads}

-- The payload, if it has 14 bytes, the date and the time.
unfoldable pub halves : Bytes → Result ParseError (Bytes × Bytes)
halves payload =
    if length payload == 14
    then ok (take 8 payload, drop 8 payload)
    else invalid "server time" "expected 14-digit YYYYMMDDHHMMSS"

module _ ⦃m : Memchr⦄ where
  unfoldable pub body : Parser ProtocolMessage
  body = do
    header ← required "GTC header"
    payload ← required "server time payload"
    h ← lift (halves payload)
    date ← lift (parse_u32 h.0 "GTC date")
    time ← lift (parse_u32 h.1 "GTC time")
    pure (server_time (record { date = date; time = time }))

  unfoldable pub parse : Bytes → Result ParseError ProtocolMessage
  parse frame = run body frame

halves_lem : (d t : Bytes) → length d ≡ 8 → length t ≡ 6 → halves (d ++ t) ≡ ok (d, t)
unfolding halves
halves_lem d t p q =
    let l : length (d ++ t) ≡ 14 = length-append d t ∙ omega (arith, p, q) in
    let x : take 8 (d ++ t) ≡ d = rw p at (take-append_length d t) in
    let y : drop 8 (d ++ t) ≡ t = rw p at (drop-append_length d t) in rw (l, x, y) refl

-- A frame whose payload is a numeral of eight digits and one of six, joined without a colon, is read as
-- that date and that time.
pub parse-date_time :
    ⦃m : Memchr⦄ (frame h d t : Bytes) (ts : List Bytes) (s : ServerTime)
    → split frame ≡ h ∷ (d ++ t) ∷ ts
    → length d ≡ 8
    → length t ≡ 6
    → IsU32 d s.date
    → IsU32 t s.time
    → parse frame ≡ ok (server_time s)
unfolding parse body
parse-date_time frame h d t ts s e p q x y = run-Reads body frame e (
    step _ _ (Reads-required _ 0 h _)
    ⨟ step _ _ (Reads-required _ _ (d ++ t) ts)
    ⨟ step _ _ (Reads-lift _ (d, t) _ _ (halves_lem d t p q))
    ⨟ step _ _ (Reads-u32 d _ s.date _ _ x)
    ⨟ step _ _ (Reads-u32 t _ s.time _ _ y)
    ⨟ Reads-pure _ _ ts)
