-- ===== src/Parser/Bqt/Grammar.antt =====
-- crates/cedro-protocol/src/parser/bqt.rs: the grammar of the frames, and that they are parsed.
use market_data_v.Common.{
  ℕ, ◌+◌, ◌≡◌, refl, Option, none, some, List, [], ◌∷◌, Bytes, ok, codes, bytes_eq,
}
use market_data_v.Enums.{Side}
use market_data_v.Memchr.{Memchr}
use market_data_v.Types.{
  FloatText, BookEntry, BookDelete, single, prefix_inclusive, clear_all, BookOp, book,
}
use market_data_v.Scanner.Tokens.{split}
use market_data_v.Scanner.Reads.{
  ◌⨟◌, Leaves, Reads-next, Reads-next_end, step, Reads-pure, Reads-lift, Reads-required,
}
use market_data_v.Scanner.Wire.{
  Reads-next_u32, Reads-next_u64, Reads-next_f64, Reads-u32, IsU32, IsU64, IsFloat,
}
use market_data_v.Parser.Op.{IsSide, Reads-side, run-Reads}
use market_data_v.Parser.Bqt.{
  offer_type_of, tail_of, read_tail, delete_at, delete_of, parse_delete, read_entry_tail, parse_add,
  parse_update, op_of, body, parse,
}

-- The optional tail of an entry: an order id and a type of one byte.
pub data IsTail : List Bytes → Option Bytes × Option ℕ → Type 0 where
  legacy : IsTail [] (none, none)
  full : (id : Bytes) (c : ℕ) (more : List Bytes) → IsTail (id ∷ (c ∷ []) ∷ more) (some id, some c)

-- The fields of an entry behind its position.
pub record IsEntry ⦃f : FloatText⦄ (ts : List Bytes) (e : BookEntry) : Type 0 where
  pub side : Bytes
  pub price : Bytes
  pub quantity : Bytes
  pub broker : Bytes
  pub stamp : Bytes
  pub tail : List Bytes
  pub fields : ts ≡ side ∷ price ∷ quantity ∷ broker ∷ stamp ∷ tail
  pub side_text : IsSide side e.side
  pub price_text : IsFloat price e.price
  pub quantity_text : IsU64 quantity e.quantity
  pub broker_text : IsU32 broker e.broker_id
  pub stamp_text : IsU32 stamp e.timestamp_ddmmhhmm
  pub tail_text : IsTail tail (e.order_id, e.offer_type)

pub data IsDelete : List Bytes → BookDelete → Type 0 where
  one :
      (b p : Bytes) (more : List Bytes) (side : Side) (n : ℕ)
      → IsSide b side
      → IsU32 p n
      → IsDelete (codes "1" ∷ b ∷ p ∷ more) (single side n)
  prefix :
      (b p : Bytes) (more : List Bytes) (side : Side) (n : ℕ)
      → IsSide b side
      → IsU32 p n
      → IsDelete (codes "2" ∷ b ∷ p ∷ more) (prefix_inclusive side n)
  all : (more : List Bytes) → IsDelete (codes "3" ∷ more) clear_all

-- The code of an operation and its fields.
pub data IsOp ⦃f : FloatText⦄ : Bytes → List Bytes → BookOp → Type 0 where
  added :
      (p : Bytes) (ts : List Bytes) (e : BookEntry)
      → IsU32 p e.position
      → IsEntry ts e
      → IsOp (codes "A") (p ∷ ts) (BookOp.add e)
  updated :
      (p o : Bytes) (ts : List Bytes) (old : ℕ) (e : BookEntry)
      → IsU32 p e.position
      → IsU32 o old
      → IsEntry ts e
      → IsOp (codes "U") (p ∷ o ∷ ts) (BookOp.update old e)
  deleted :
      (ts : List Bytes) (d : BookDelete) → IsDelete ts d → IsOp (codes "D") ts (BookOp.delete d)
  ended : (ts : List Bytes) → IsOp (codes "E") ts BookOp.end_of_initial

module _ ⦃m : Memchr⦄ where
  tail_reads :
      (k : ℕ) (ts : List Bytes) (t : Option Bytes × Option ℕ)
      → IsTail ts t
      → Leaves read_tail k ts t
  unfolding read_tail tail_of offer_type_of
  tail_reads k _ _ IsTail.legacy =
      (k, [], step _ _ (Reads-next_end k) ⨟ Reads-pure (none, none) k [])
  tail_reads k _ _ (IsTail.full id c more) = (
    k + 1 + 1,
    more,
    step _ _ (Reads-next k id _)
        ⨟ step _ _ (Reads-required _ _ _ more)
        ⨟ step _ _ (Reads-lift _ c _ _ refl)
        ⨟ Reads-pure _ _ _,
  )

  delete_reads :
      (k : ℕ) (ts : List Bytes) (d : BookDelete)
      → IsDelete ts d
      → Leaves parse_delete k ts (BookOp.delete d)
  unfolding parse_delete delete_of delete_at bytes_eq
  delete_reads k _ _ (IsDelete.all more) =
      (k + 1, more, step _ _ (Reads-required _ k _ more) ⨟ Reads-pure _ _ _)
  delete_reads k _ _ (IsDelete.one b p more side n x y) = (
    k + 1 + 1 + 1,
    more,
    step _ _ (Reads-required _ k _ _)
        ⨟ step _ _ (Reads-required _ _ b _)
        ⨟ step _ _ (Reads-side _ b side _ _ x)
        ⨟ step _ _ (Reads-next_u32 _ _ p more n y)
        ⨟ Reads-pure _ _ _,
  )
  delete_reads k _ _ (IsDelete.prefix b p more side n x y) = (
    k + 1 + 1 + 1,
    more,
    step _ _ (Reads-required _ k _ _)
        ⨟ step _ _ (Reads-required _ _ b _)
        ⨟ step _ _ (Reads-side _ b side _ _ x)
        ⨟ step _ _ (Reads-next_u32 _ _ p more n y)
        ⨟ Reads-pure _ _ _,
  )

module _ ⦃m : Memchr⦄ ⦃f : FloatText⦄ where
  entry_reads :
      (e : BookEntry) (k : ℕ) (ts : List Bytes)
      → IsEntry ts e
      → Leaves (read_entry_tail e.position) k ts e
  unfolding read_entry_tail
  entry_reads e k ts h =
      let (n, us, r) =
        tail_reads (k + 1 + 1 + 1 + 1 + 1) h.tail (e.order_id, e.offer_type) h.tail_text in
      rw h.fields (
        n,
        us,
        step _ _ (Reads-required _ k h.side _)
            ⨟ step _ _ (Reads-side _ h.side e.side _ _ h.side_text)
            ⨟ step _ _ (Reads-next_f64 _ _ h.price _ e.price h.price_text)
            ⨟ step _ _ (Reads-next_u64 _ _ h.quantity _ e.quantity h.quantity_text)
            ⨟ step _ _ (Reads-next_u32 _ _ h.broker _ e.broker_id h.broker_text)
            ⨟ step _ _ (Reads-required _ _ h.stamp h.tail)
            ⨟ step _ _ (Reads-u32 h.stamp _ e.timestamp_ddmmhhmm _ _ h.stamp_text)
            ⨟ step _ _ r
            ⨟ Reads-pure e _ _,
      )

  op_reads :
      (code : Bytes) (k : ℕ) (ts : List Bytes) (op : BookOp)
      → IsOp code ts op
      → Leaves (op_of code) k ts op
  unfolding op_of parse_add parse_update bytes_eq
  op_reads _ k ts _ (IsOp.ended _) = (k, ts, Reads-pure _ k ts)
  op_reads _ k ts _ (IsOp.deleted _ d h) = delete_reads k ts d h
  op_reads _ k _ _ (IsOp.added p ts e h r) =
      let (n, us, q) = entry_reads e (k + 1) ts r in
      (n, us, step _ _ (Reads-next_u32 _ k p ts e.position h) ⨟ step _ _ q ⨟ Reads-pure _ n us)
  op_reads _ k _ _ (IsOp.updated p o ts old e h g r) =
      let (n, us, q) = entry_reads e (k + 1 + 1) ts r in
      (
        n,
        us,
        step _ _ (Reads-next_u32 _ k p _ e.position h)
            ⨟ step _ _ (Reads-next_u32 _ _ o ts old g)
            ⨟ step _ _ q
            ⨟ Reads-pure _ n us,
      )

  -- A frame whose tokens are a header, a ticker, an operation's code and the fields of that operation
  -- is parsed to that operation on that ticker.
  pub parse-IsOp :
      (frame h ticker code : Bytes) (ts : List Bytes) (op : BookOp)
      → split frame ≡ h ∷ ticker ∷ code ∷ ts
      → IsOp code ts op
      → parse frame ≡ ok (book ticker op)
  unfolding parse body
  parse-IsOp frame h ticker code ts op e r =
      let (n, us, q) = op_reads code (0 + 1 + 1 + 1) ts op r in
      run-Reads body frame e (
        step _ _ (Reads-required _ 0 h _)
        ⨟ step _ _ (Reads-required _ _ ticker _)
        ⨟ step _ _ (Reads-required _ _ code ts)
        ⨟ step _ _ q
        ⨟ Reads-pure _ n us)
