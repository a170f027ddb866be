-- ===== src/Parser/Gqt/Grammar.antt =====
-- crates/cedro-protocol/src/parser/gqt.rs: the grammar of the frames, and that they are parsed.
use market_data_v.Common.{
  ℕ, ◌+◌, ◌<◌, ◌≡◌, refl, sym, false, Option, none, some, List, [], ◌∷◌, ◌++◌, Bytes, ok, codes,
  bytes_eq, length, arith,
}
use market_data_v.Enums.{trade_condition_from_code, trade_aggressor_from_byte}
use market_data_v.Memchr.{Memchr}
use market_data_v.Types.{FloatText, Trade, TradeOperation, trade}
use market_data_v.Scanner.Tokens.{split}
use market_data_v.Scanner.Reads.{
  Leaves, Reads, step, ◌⨟◌, Reads-pure, Reads-lift, Reads-required, Reads-next, Reads-next_end,
}
use market_data_v.Scanner.Wire.{
  IsU16, IsU32, IsU64, IsFloat, Reads-u16, Reads-u32, Reads-u64, Reads-f64,
}
use market_data_v.Parser.Op.{run-Reads}
use market_data_v.Parser.Drain.{
  drain_fields_lem, kept, kept-append, is_empty, frame_fuel, fuel_enough,
}
use market_data_v.Parser.Gqt.{
  single_byte, TradeFields, layout, trade_of, end_of, parse_add, op_of, body, parse,
}

-- The texts of a trade.
pub record IsTrade ⦃f : FloatText⦄ (l : TradeFields) (t : Trade) : Type 0 where
  pub condition_code : ℕ
  pub aggressor_byte : ℕ
  pub operation : t.operation_code ≡ b'A'
  pub time : IsU32 l.time t.time_hhmmss
  pub price : IsFloat l.price t.price
  pub broker_buy : IsU32 l.broker_buy t.broker_buy_id
  pub broker_sell : IsU32 l.broker_sell t.broker_sell_id
  pub quantity : IsU64 l.quantity t.quantity
  pub id : l.id ≡ t.trade_id
  pub condition_text : IsU16 l.condition condition_code
  pub condition : trade_condition_from_code condition_code ≡ t.condition
  pub aggressor_text : l.aggressor ≡ aggressor_byte ∷ []
  pub aggressor : trade_aggressor_from_byte aggressor_byte ≡ t.aggressor
  pub original : l.original ≡ t.original_conditions

-- The nine tokens of a trade of the stream.
abbrev pub nine : TradeFields → List Bytes
nine l =
    l.time ∷ l.price ∷ l.broker_buy ∷ l.broker_sell ∷ l.quantity ∷ l.id ∷ l.condition ∷ l.aggressor
    ∷ l.original ∷ []

-- The first nine of the ten tokens.
abbrev pub first_nine : Bytes → TradeFields → List Bytes
first_nine r l =
    l.time ∷ l.price ∷ l.broker_buy ∷ l.broker_sell ∷ l.quantity ∷ l.id ∷ r ∷ l.condition
    ∷ l.aggressor ∷ []

-- The ten tokens of a trade of a snapshot with the request `r`.
abbrev pub ten : Bytes → TradeFields → List Bytes
ten r l = first_nine r l ++ (l.original ∷ [])

-- The fields of a trade, with or without an empty token at the end. The tenth field of a snapshot's
-- trade is not empty: an empty one is taken for the end of the fields.
pub data IsAdd : List Bytes → Option Bytes → TradeFields → Type 0 where
  stream : (l : TradeFields) → IsAdd (nine l) none l
  stream_dangling : (l : TradeFields) (ts : List Bytes) → IsAdd (nine l ++ ([] ∷ ts)) none l
  snapshot :
      (r : Bytes) (l : TradeFields) → is_empty l.original ≡ false → IsAdd (ten r l) (some r) l
  snapshot_dangling :
      (r : Bytes) (l : TradeFields) (ts : List Bytes)
      → is_empty l.original ≡ false
      → IsAdd (ten r l ++ ([] ∷ ts)) (some r) l

-- The code of an operation and its fields.
pub data IsOp ⦃f : FloatText⦄ : Bytes → List Bytes → TradeOperation → Type 0 where
  added :
      (ts : List Bytes) (l : TradeFields) (t : Trade)
      → IsAdd ts t.request_id l
      → IsTrade l t
      → IsOp (codes "A") ts (TradeOperation.add t)
  deleted : (id : Bytes) (ts : List Bytes) → IsOp (codes "D") (id ∷ ts) (TradeOperation.delete id)
  cleared : (ts : List Bytes) → IsOp (codes "R") ts TradeOperation.remove_all
  subscribed : IsOp (codes "E") [] TradeOperation.end_of_subscribe
  subscribed_dangling :
      (ts : List Bytes) → IsOp (codes "E") ([] ∷ ts) TradeOperation.end_of_subscribe
  snapshot :
      (r : Bytes) (ts : List Bytes)
      → is_empty r ≡ false
      → IsOp (codes "E") (r ∷ ts) (TradeOperation.end_of_snapshot r)

pub layout_lem :
    (ts : List Bytes) (r : Option Bytes) (l : TradeFields)
    → IsAdd ts r l
    → layout (kept 0 ts) ≡ ok (r, l)
unfolding layout
layout_lem _ _ _ (IsAdd.stream l) = rw (kept-append 0 (nine l) [] (omega arith)) refl
layout_lem _ _ _ (IsAdd.stream_dangling l ts) =
    rw (kept-append 0 (nine l) ([] ∷ ts) (omega arith)) refl
layout_lem _ _ _ (IsAdd.snapshot r l e) =
    rw (kept-append 0 (first_nine r l) (l.original ∷ []) (omega arith), e) refl
layout_lem _ _ _ (IsAdd.snapshot_dangling r l ts e) =
    rw (kept-append 0 (first_nine r l) (l.original ∷ [] ∷ ts) (omega arith), e) refl

module _ ⦃f : FloatText⦄ where
  trade-Reads :
      (l : TradeFields) (t : Trade) (k : ℕ) (ts : List Bytes)
      → IsTrade l t
      → Reads (trade_of b'A' (t.request_id, l)) k ts (TradeOperation.add t) k ts
  unfolding trade_of single_byte
  trade-Reads l t k ts h =
      step _ _ (Reads-u32 l.time _ t.time_hhmmss k ts h.time)
      ⨟ step _ _ (Reads-f64 l.price _ t.price k ts h.price)
      ⨟ step _ _ (Reads-u32 l.broker_buy _ t.broker_buy_id k ts h.broker_buy)
      ⨟ step _ _ (Reads-u32 l.broker_sell _ t.broker_sell_id k ts h.broker_sell)
      ⨟ step _ _ (Reads-u64 l.quantity _ t.quantity k ts h.quantity)
      ⨟ step _ _ (Reads-u16 l.condition _ h.condition_code k ts h.condition_text)
      ⨟ step _ _ (Reads-lift _ h.aggressor_byte k ts (rw h.aggressor_text refl))
      ⨟ rw (sym h.operation, h.id, h.condition, h.aggressor, h.original) (Reads-pure _ k ts)

module _ ⦃m : Memchr⦄ ⦃f : FloatText⦄ where
  op_reads :
      (fuel k : ℕ) (code : Bytes) (ts : List Bytes) (op : TradeOperation)
      → length ts < fuel
      → IsOp code ts op
      → Leaves (op_of fuel code) k ts op
  unfolding op_of parse_add end_of bytes_eq
  op_reads fuel k _ ts _ e (IsOp.added _ l t a h) =
      let (n, us, r) = drain_fields_lem fuel k 0 ts e in
      (
        n,
        us,
        step _ _ r
            ⨟ step _ _ (Reads-lift _ (t.request_id, l) n us (layout_lem ts t.request_id l a))
            ⨟ trade-Reads l t n us h,
      )
  op_reads fuel k _ _ _ e (IsOp.deleted id ts) =
      (k + 1, ts, step _ _ (Reads-required _ k id ts) ⨟ Reads-pure _ _ ts)
  op_reads fuel k _ ts _ e (IsOp.cleared _) = (k, ts, Reads-pure _ k ts)
  op_reads fuel k _ _ _ e IsOp.subscribed = (k, [], step _ _ (Reads-next_end k) ⨟ Reads-pure _ k [])
  op_reads fuel k _ _ _ e (IsOp.subscribed_dangling ts) =
      (k + 1, ts, step _ _ (Reads-next k [] ts) ⨟ Reads-pure _ _ ts)
  op_reads fuel k _ _ _ e (IsOp.snapshot r ts q) =
      (k + 1, ts, step _ _ (Reads-next k r ts) ⨟ rw q (Reads-pure _ _ ts))

  -- A frame whose tokens are a header, a ticker, an operation's code and the fields of that operation
  -- is parsed to that operation on that ticker, a trade of the stream with nine fields and one of a
  -- snapshot with ten, the last of them not empty.
  pub parse-IsOp_trade :
      (frame h ticker code : Bytes) (ts : List Bytes) (op : TradeOperation)
      → split frame ≡ h ∷ ticker ∷ code ∷ ts
      → IsOp code ts op
      → parse frame ≡ ok (trade ticker op)
  unfolding parse body
  parse-IsOp_trade frame h ticker code ts op e x =
      let fuel : length ts < frame_fuel frame = omega (arith, fuel_enough frame h _ e) in
      let (n, us, r) = op_reads (frame_fuel frame) (0 + 1 + 1 + 1) code ts op fuel x in
      run-Reads (body (frame_fuel frame)) frame e (
        step _ _ (Reads-required _ 0 h _)
        ⨟ step _ _ (Reads-required _ _ ticker _)
        ⨟ step _ _ (Reads-required _ _ code ts)
        ⨟ step _ _ r
        ⨟ Reads-pure _ n us)
