-- ===== src/Parser/Mqc.antt =====
-- crates/cedro-protocol/src/parser/mqc.rs: the lines of the catalog.
use market_data_v.Common.{
  ℕ, ◌+◌, ◌≡◌, ◌≢◌, Bool, true, false, Option, none, some, List, [], ◌∷◌, Bytes, Result, ok, codes,
  if◌then◌else◌, bytes_eq, bytes_eq_iff, Bool-cases, inl, inr,
}
use market_data_v.Memchr.{Memchr}
use market_data_v.Types.{MqcItem, symbol, list_end, ProtocolMessage, mqc_item}
use market_data_v.Scanner.{ParseError, Parser, ◌>>=◌, pure, next, required}
use market_data_v.Scanner.Tokens.{split}
use market_data_v.Scanner.Reads.{
  Leaves, step, ◌⨟◌, Reads-pure, Reads-next, Reads-next_end, Reads-required,
}
use market_data_v.Parser.Op.{is_text, run, run-Reads}

-- `o.is_none()`
abbrev pub is_none : Option Bytes → Bool
is_none none = true
is_none (some t) = false

module _ ⦃m : Memchr⦄ where
  -- The end of the list: the text `E` with nothing behind it, which is looked for only then.
  unfoldable pub is_end : Bytes → Parser Bool
  is_end third = if is_text third "E" then (do t ← next; pure (is_none t)) else pure false

  unfoldable pub body : Parser ProtocolMessage
  body = do
    header ← required "C header"
    market ← required "market"
    third ← required "ticker or end-sentinel"
    end ← is_end third
    pure (mqc_item (if end then list_end market else symbol market third))

  unfoldable pub parse : Bytes → Result ParseError ProtocolMessage
  parse frame = run body frame

  -- The line is the end of the list exactly if `E` is its third token and its last; any other line
  -- names a symbol, also `E` with a token behind it.
  pub data IsItem : Bytes → Bytes → List Bytes → MqcItem → Type 0 where
    ended : (market : Bytes) → IsItem market (codes "E") [] (list_end market)
    named :
        (market ticker : Bytes) (ts : List Bytes)
        → ticker ≢ codes "E"
        → IsItem market ticker ts (symbol market ticker)
    named_e :
        (market t : Bytes) (ts : List Bytes)
        → IsItem market (codes "E") (t ∷ ts) (symbol market (codes "E"))

  item_reads :
      (k : ℕ) (market third : Bytes) (ts : List Bytes) (item : MqcItem)
      → IsItem market third ts item
      → Leaves
          (do
            end ← is_end third
            pure (mqc_item (if end then list_end market else symbol market third)))
          k
          ts
          (mqc_item item)
  unfolding is_end bytes_eq
  item_reads k market _ _ _ (IsItem.ended _) =
      (k, [], step _ _ (step _ _ (Reads-next_end k) ⨟ Reads-pure true k []) ⨟ Reads-pure _ k [])
  item_reads k market _ _ _ (IsItem.named_e _ t ts) = (
    k + 1,
    ts,
    step _ _ (step _ _ (Reads-next k t ts) ⨟ Reads-pure false (k + 1) ts) ⨟ Reads-pure _ _ ts,
  )
  item_reads k market third ts _ (IsItem.named _ _ _ h) = elim (Bool-cases (is_text third "E")) [
    | inl e ↦ absurd (h ((bytes_eq_iff third (codes "E")).0 e))
    | inr e ↦ (k, ts, rw e (step _ _ (Reads-pure false k ts) ⨟ Reads-pure _ k ts))
  ]

  -- A line of three tokens or more is the end of its market's list if the third token is `E` and the
  -- last, and otherwise names the third token as a symbol of the market.
  pub parse-IsItem :
      (frame h market third : Bytes) (ts : List Bytes) (item : MqcItem)
      → split frame ≡ h ∷ market ∷ third ∷ ts
      → IsItem market third ts item
      → parse frame ≡ ok (mqc_item item)
  unfolding parse body
  parse-IsItem frame h market third ts item e r =
      let (n, us, q) = item_reads (0 + 1 + 1 + 1) market third ts item r in
      run-Reads body frame e (
        step _ _ (Reads-required _ 0 h _)
        ⨟ step _ _ (Reads-required _ _ market _)
        ⨟ step _ _ (Reads-required _ _ third ts)
        ⨟ q)
