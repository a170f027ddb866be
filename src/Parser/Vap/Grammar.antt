-- ===== src/Parser/Vap/Grammar.antt =====
-- crates/cedro-protocol/src/parser/vap.rs: the grammar of the frames, and that they are parsed.
use market_data_v.Common.{
  ℕ, ◌+◌, ◌≡◌, ◌≢◌, refl, Option, none, some, List, [], ◌∷◌, Bytes, String, ok, codes, bytes_eq,
  bytes_eq_iff, false, Bool-cases, inl, inr,
}
use market_data_v.Memchr.{Memchr}
use market_data_v.Types.{FloatText, VapEntry, vap}
use market_data_v.Scanner.Tokens.{split}
use market_data_v.Scanner.Reads.{
  Leaves, Reads, step, ◌⨟◌, Reads-pure, Reads-required, Reads-next, Reads-next_end,
}
use market_data_v.Scanner.Wire.{IsU32, IsFloat, Reads-u32, Reads-f64, Reads-next_f64}
use market_data_v.Parser.Op.{is_text, run-Reads}
use market_data_v.Parser.Drain.{is_empty}
use market_data_v.Parser.Vap.{
  end_period, period_of, terminator, read_end, read_line, entry_of, body, parse,
}

-- The window of a data line: none for `0` and for an empty text.
pub data IsPeriod : Bytes → Option ℕ → Type 0 where
  zero_text : IsPeriod (codes "0") none
  no_text : IsPeriod [] none
  window : (p : Bytes) (n : ℕ) → p ≢ codes "0" → IsU32 p n → IsPeriod p (some n)

-- What stands behind the `E` of a terminator: nothing, an empty text, or a window.
pub data IsEnd : List Bytes → Option ℕ → Type 0 where
  bare : IsEnd [] none
  dangling : (ts : List Bytes) → IsEnd ([] ∷ ts) none
  window : (p : Bytes) (ts : List Bytes) (n : ℕ) → IsU32 p n → IsEnd (p ∷ ts) (some n)

-- The fields of a data line behind its price.
pub record IsLine ⦃f : FloatText⦄ (ts : List Bytes) (e : VapEntry) : Type 0 where
  pub buyer_t : Bytes
  pub buyer_v : Bytes
  pub seller_t : Bytes
  pub seller_v : Bytes
  pub direct_t : Bytes
  pub direct_v : Bytes
  pub undefined_t : Bytes
  pub undefined_v : Bytes
  pub rlp_t : Bytes
  pub rlp_v : Bytes
  pub auction_t : Bytes
  pub auction_v : Bytes
  pub period : Bytes
  pub more : List Bytes
  pub fields :
      ts
      ≡ buyer_t ∷ buyer_v ∷ seller_t ∷ seller_v ∷ direct_t ∷ direct_v ∷ undefined_t ∷ undefined_v
        ∷ period ∷ rlp_t ∷ rlp_v ∷ auction_t ∷ auction_v ∷ more
  pub buyer_t_text : IsFloat buyer_t e.buyer_trades
  pub buyer_v_text : IsFloat buyer_v e.buyer_volume
  pub seller_t_text : IsFloat seller_t e.seller_trades
  pub seller_v_text : IsFloat seller_v e.seller_volume
  pub direct_t_text : IsFloat direct_t e.direct_trades
  pub direct_v_text : IsFloat direct_v e.direct_volume
  pub undefined_t_text : IsFloat undefined_t e.undefined_trades
  pub undefined_v_text : IsFloat undefined_v e.undefined_volume
  pub rlp_t_text : IsFloat rlp_t e.rlp_trades
  pub rlp_v_text : IsFloat rlp_v e.rlp_volume
  pub auction_t_text : IsFloat auction_t e.auction_trades
  pub auction_v_text : IsFloat auction_v e.auction_volume
  pub period_text : IsPeriod period e.period_minutes

-- The texts behind the ticker and the entry that they stand for.
pub data IsVap ⦃f : FloatText⦄ : Bytes → Bytes → List Bytes → VapEntry → Type 0 where
  ended :
      (ticker : Bytes) (ts : List Bytes) (period : Option ℕ)
      → IsEnd ts period
      → IsVap ticker (codes "E") ts (terminator ticker period)
  line :
      (price : Bytes) (ts : List Bytes) (e : VapEntry)
      → price ≢ codes "E"
      → IsFloat price e.price
      → IsLine ts e
      → IsVap e.ticker price ts e

-- `b` is not the text `s`.
differs : (b : Bytes) (s : String) → b ≢ codes s → is_text b s ≡ false
differs b s ne = elim (Bool-cases (is_text b s)) [
  | inl e ↦ absurd (ne ((bytes_eq_iff b (codes s)).0 e))
  | inr e ↦ e
]

full : (b : Bytes) (n : ℕ) → IsU32 b n → is_empty b ≡ false
full [] n h = absurd (h.not_empty refl)
full (c ∷ cs) n h = refl

period-Reads :
    (p : Bytes) (o : Option ℕ) (k : ℕ) (ts : List Bytes)
    → IsPeriod p o
    → Reads (period_of p) k ts o k ts
unfolding period_of bytes_eq
period-Reads _ _ k ts IsPeriod.zero_text = Reads-pure none k ts
period-Reads _ _ k ts IsPeriod.no_text = Reads-pure none k ts
period-Reads p _ k ts (IsPeriod.window _ n ne h) =
    rw (differs p "0" ne, full p n h) (step _ _ (Reads-u32 p _ n k ts h) ⨟ Reads-pure (some n) k ts)

module _ ⦃m : Memchr⦄ where
  end_reads :
      (ticker : Bytes) (k : ℕ) (ts : List Bytes) (o : Option ℕ)
      → IsEnd ts o
      → Leaves (read_end ticker) k ts (terminator ticker o)
  unfolding read_end end_period
  end_reads ticker k _ _ IsEnd.bare =
      (k, [], step _ _ (Reads-next_end k) ⨟ step _ _ (Reads-pure none k []) ⨟ Reads-pure _ k [])
  end_reads ticker k _ _ (IsEnd.dangling ts) = (
    k + 1,
    ts,
    step _ _ (Reads-next k [] ts) ⨟ step _ _ (Reads-pure none (k + 1) ts) ⨟ Reads-pure _ _ ts,
  )
  end_reads ticker k _ _ (IsEnd.window p ts n h) = (
    k + 1,
    ts,
    step _ _ (Reads-next k p ts)
        ⨟ step _ _
            (rw (full p n h) (step _ _ (Reads-u32 p _ n _ ts h) ⨟ Reads-pure (some n) (k + 1) ts))
        ⨟ Reads-pure _ _ ts,
  )

module _ ⦃m : Memchr⦄ ⦃f : FloatText⦄ where
  line_reads :
      (price : Bytes) (k : ℕ) (ts : List Bytes) (e : VapEntry)
      → IsFloat price e.price
      → IsLine ts e
      → Leaves (read_line e.ticker price) k ts e
  unfolding read_line
  line_reads price k ts e x h = rw h.fields (
    k + 1 + 1 + 1 + 1 + 1 + 1 + 1 + 1 + 1 + 1 + 1 + 1 + 1,
    h.more,
    step _ _ (Reads-f64 price _ e.price k _ x)
        ⨟ step _ _ (Reads-next_f64 _ k h.buyer_t _ e.buyer_trades h.buyer_t_text)
        ⨟ step _ _ (Reads-next_f64 _ _ h.buyer_v _ e.buyer_volume h.buyer_v_text)
        ⨟ step _ _ (Reads-next_f64 _ _ h.seller_t _ e.seller_trades h.seller_t_text)
        ⨟ step _ _ (Reads-next_f64 _ _ h.seller_v _ e.seller_volume h.seller_v_text)
        ⨟ step _ _ (Reads-next_f64 _ _ h.direct_t _ e.direct_trades h.direct_t_text)
        ⨟ step _ _ (Reads-next_f64 _ _ h.direct_v _ e.direct_volume h.direct_v_text)
        ⨟ step _ _ (Reads-next_f64 _ _ h.undefined_t _ e.undefined_trades h.undefined_t_text)
        ⨟ step _ _ (Reads-next_f64 _ _ h.undefined_v _ e.undefined_volume h.undefined_v_text)
        ⨟ step _ _ (Reads-required _ _ h.period _)
        ⨟ step _ _ (period-Reads h.period e.period_minutes _ _ h.period_text)
        ⨟ step _ _ (Reads-next_f64 _ _ h.rlp_t _ e.rlp_trades h.rlp_t_text)
        ⨟ step _ _ (Reads-next_f64 _ _ h.rlp_v _ e.rlp_volume h.rlp_v_text)
        ⨟ step _ _ (Reads-next_f64 _ _ h.auction_t _ e.auction_trades h.auction_t_text)
        ⨟ step _ _ (Reads-next_f64 _ _ h.auction_v h.more e.auction_volume h.auction_v_text)
        ⨟ Reads-pure e _ _,
  )

  entry_reads :
      (ticker third : Bytes) (k : ℕ) (ts : List Bytes) (e : VapEntry)
      → IsVap ticker third ts e
      → Leaves (entry_of ticker third) k ts e
  unfolding entry_of bytes_eq
  entry_reads _ _ k _ _ (IsVap.ended ticker ts o h) = end_reads ticker k ts o h
  entry_reads _ price k _ _ (IsVap.line _ ts e ne x h) =
      rw (differs price "E" ne) (line_reads price k ts e x h)

  -- A frame whose tokens are a header, a ticker, and a terminator or the fields of a data line is
  -- parsed to that entry, a terminator to the entry of zeros.
  pub parse-IsVap :
      (frame h ticker third : Bytes) (ts : List Bytes) (e : VapEntry)
      → split frame ≡ h ∷ ticker ∷ third ∷ ts
      → IsVap ticker third ts e
      → parse frame ≡ ok (vap e)
  unfolding parse body
  parse-IsVap frame h ticker third ts e q r =
      let (n, us, x) = entry_reads ticker third (0 + 1 + 1 + 1) ts e r in
      run-Reads body frame q (
        step _ _ (Reads-required _ 0 h _)
        ⨟ step _ _ (Reads-required _ _ ticker _)
        ⨟ step _ _ (Reads-required _ _ third ts)
        ⨟ step _ _ x
        ⨟ Reads-pure _ n us)
