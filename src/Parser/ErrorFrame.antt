-- ===== src/Parser/ErrorFrame.antt =====
-- crates/cedro-protocol/src/parser/error.rs: the frames of a server error.
use market_data_v.Common.{ℕ, ◌+◌, ◌≡◌, [], ◌∷◌, Bytes, Result, ok, arith}
use market_data_v.Memchr.{Memchr}
use market_data_v.Types.{CedroError, ProtocolMessage, error}
use market_data_v.Scanner.{ParseError, Parser, ◌>>=◌, pure, lift, required, parse_u16}
use market_data_v.Scanner.Tokens.{split}
use market_data_v.Scanner.Reads.{step, ◌⨟◌, Reads-pure, Reads-required}
use market_data_v.Scanner.Wire.{IsU16, Reads-u16}
use market_data_v.Parser.Op.{run, run-Reads}
use market_data_v.Parser.Drain.{drain, drain_lem, frame_fuel, fuel_enough}

module _ ⦃m : Memchr⦄ where
  unfoldable pub body : ℕ → Parser ProtocolMessage
  body fuel = do
    header ← required "E header"
    code_bytes ← required "error code"
    code ← lift (parse_u16 code_bytes "error code")
    context ← drain fuel
    pure (error (record { code = code; context = context }))

  unfoldable pub parse : Bytes → Result ParseError ProtocolMessage
  parse frame = run (body (frame_fuel frame)) frame

  -- An error frame is read as its code and the list of all its further tokens.
  pub parse-context :
      (frame h c : Bytes) (e : CedroError)
      → split frame ≡ h ∷ c ∷ e.context
      → IsU16 c e.code
      → parse frame ≡ ok (error e)
  unfolding parse body
  parse-context frame h c e q r =
      let (o, d) =
        drain_lem (frame_fuel frame) (0 + 1 + 1) e.context
          (omega (arith, fuel_enough frame h _ q)) in
      run-Reads (body (frame_fuel frame)) frame q (
        step _ _ (Reads-required _ 0 h _)
        ⨟ step _ _ (Reads-required _ _ c _)
        ⨟ step _ _ (Reads-u16 c _ e.code _ _ r)
        ⨟ step _ _ d
        ⨟ Reads-pure _ o [])
