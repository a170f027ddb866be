-- ===== src/Parser/Sab/Grammar.antt =====
-- crates/cedro-protocol/src/parser/sab.rs: the grammar of the frames, and that they are parsed.
use market_data_v.Common.{ℕ, ◌+◌, ◌≡◌, refl, List, ◌∷◌, Bytes, ok, err, codes, bytes_eq}
use market_data_v.Enums.{Side}
use market_data_v.Memchr.{Memchr}
use market_data_v.Types.{
  FloatText, AggBookLevel, BookDelete, single, clear_all, AggBookOp, agg_book,
}
use market_data_v.Scanner.{invalid_field}
use market_data_v.Scanner.Tokens.{split}
use market_data_v.Scanner.Reads.{
  Leaves, step, Fails-later, Fails-bind, Fails-lift, Reads-pure, Reads-required, ◌⨟◌,
}
use market_data_v.Scanner.Wire.{
  IsU32, IsU64, IsFloat, Reads-u32, Reads-next_u32, Reads-next_u64, Reads-next_f64,
}
use market_data_v.Parser.Op.{IsSide, Reads-side, run-Reads, run-Fails}
use market_data_v.Parser.Sab.{parse_delete, delete_of, read_level, op_of, body, parse}

-- The fields of a level.
pub record IsLevel ⦃f : FloatText⦄ (ts : List Bytes) (l : AggBookLevel) : Type 0 where
  pub position : Bytes
  pub side : Bytes
  pub price : Bytes
  pub quantity : Bytes
  pub count : Bytes
  pub stamp : Bytes
  pub more : List Bytes
  pub fields : ts ≡ position ∷ side ∷ price ∷ quantity ∷ count ∷ stamp ∷ more
  pub position_text : IsU32 position l.position
  pub side_text : IsSide side l.side
  pub price_text : IsFloat price l.price
  pub quantity_text : IsU64 quantity l.quantity
  pub count_text : IsU32 count l.offer_count
  pub stamp_text : IsU32 stamp l.timestamp_ddmmhhmm

pub data IsDelete : List Bytes → BookDelete → Type 0 where
  one :
      (b p : Bytes) (more : List Bytes) (side : Side) (n : ℕ)
      → IsSide b side
      → IsU32 p n
      → IsDelete (codes "1" ∷ b ∷ p ∷ more) (single side n)
  all : (more : List Bytes) → IsDelete (codes "3" ∷ more) clear_all

-- The code of an operation and its fields.
pub data IsOp ⦃f : FloatText⦄ : Bytes → List Bytes → AggBookOp → Type 0 where
  added :
      (ts : List Bytes) (l : AggBookLevel) → IsLevel ts l → IsOp (codes "A") ts (AggBookOp.add l)
  updated :
      (ts : List Bytes) (l : AggBookLevel) → IsLevel ts l → IsOp (codes "U") ts (AggBookOp.update l)
  deleted :
      (ts : List Bytes) (d : BookDelete) → IsDelete ts d → IsOp (codes "D") ts (AggBookOp.delete d)
  ended : (ts : List Bytes) → IsOp (codes "E") ts AggBookOp.end_of_initial

module _ ⦃m : Memchr⦄ where
  delete_reads :
      (k : ℕ) (ts : List Bytes) (d : BookDelete) → IsDelete ts d → Leaves parse_delete k ts d
  unfolding parse_delete delete_of bytes_eq
  delete_reads k _ _ (IsDelete.all more) =
      (k + 1, more, step _ _ (Reads-required _ k _ more) ⨟ Reads-pure _ _ _)
  delete_reads k _ _ (IsDelete.one b p more side n x y) = (
    k + 1 + 1 + 1,
    more,
    step _ _ (Reads-required _ k _ _)
        ⨟ step _ _ (Reads-required _ _ b _)
        ⨟ step _ _ (Reads-side _ b side _ _ x)
        ⨟ step _ _ (Reads-next_u32 _ _ p more n y)
        ⨟ Reads-pure _ _ _,
  )

module _ ⦃m : Memchr⦄ ⦃f : FloatText⦄ where
  level_reads :
      (k : ℕ) (ts : List Bytes) (l : AggBookLevel) → IsLevel ts l → Leaves read_level k ts l
  unfolding read_level
  level_reads k ts l h = rw h.fields (
    k + 1 + 1 + 1 + 1 + 1 + 1,
    h.more,
    step _ _ (Reads-next_u32 _ k h.position _ l.position h.position_text)
        ⨟ step _ _ (Reads-required _ _ h.side _)
        ⨟ step _ _ (Reads-side _ h.side l.side _ _ h.side_text)
        ⨟ step _ _ (Reads-next_f64 _ _ h.price _ l.price h.price_text)
        ⨟ step _ _ (Reads-next_u64 _ _ h.quantity _ l.quantity h.quantity_text)
        ⨟ step _ _ (Reads-next_u32 _ _ h.count _ l.offer_count h.count_text)
        ⨟ step _ _ (Reads-required _ _ h.stamp h.more)
        ⨟ step _ _ (Reads-u32 h.stamp _ l.timestamp_ddmmhhmm _ _ h.stamp_text)
        ⨟ Reads-pure l _ _,
  )

  op_reads :
      (code : Bytes) (k : ℕ) (ts : List Bytes) (op : AggBookOp)
      → IsOp code ts op
      → Leaves (op_of code) k ts op
  unfolding op_of bytes_eq
  op_reads _ k ts _ (IsOp.ended _) = (k, ts, Reads-pure _ k ts)
  op_reads _ k ts _ (IsOp.deleted _ d h) =
      let (n, us, q) = delete_reads k ts d h in (n, us, step _ _ q ⨟ Reads-pure _ n us)
  op_reads _ k ts _ (IsOp.added _ l h) =
      let (n, us, q) = level_reads k ts l h in (n, us, step _ _ q ⨟ Reads-pure _ n us)
  op_reads _ k ts _ (IsOp.updated _ l h) =
      let (n, us, q) = level_reads k ts l h in (n, us, step _ _ q ⨟ Reads-pure _ n us)

  -- A frame whose tokens are a header, a ticker, an operation's code and the fields of that operation
  -- is parsed to that operation on that ticker.
  pub parse-IsOp_agg :
      (frame h ticker code : Bytes) (ts : List Bytes) (op : AggBookOp)
      → split frame ≡ h ∷ ticker ∷ code ∷ ts
      → IsOp code ts op
      → parse frame ≡ ok (agg_book ticker op)
  unfolding parse body
  parse-IsOp_agg frame h ticker code ts op e r =
      let (n, us, q) = op_reads code (0 + 1 + 1 + 1) ts op r in
      run-Reads body frame e (
        step _ _ (Reads-required _ 0 h _)
        ⨟ step _ _ (Reads-required _ _ ticker _)
        ⨟ step _ _ (Reads-required _ _ code ts)
        ⨟ step _ _ q
        ⨟ Reads-pure _ n us)

  -- A deletion of kind 2, which the detailed book has, is refused here.
  pub parse-prefix :
      (frame h ticker : Bytes) (ts : List Bytes)
      → split frame ≡ h ∷ ticker ∷ codes "D" ∷ codes "2" ∷ ts
      → parse frame
        ≡ err (invalid_field "delete kind" "SAB does not accept delete kind 2 (BQT-only)")
  unfolding parse body op_of parse_delete delete_of bytes_eq
  parse-prefix frame h ticker ts e = run-Fails body frame e (
      Fails-later _ _ (Reads-required _ 0 h _)
      ⨟ Fails-later _ _ (Reads-required _ _ ticker _)
      ⨟ Fails-later _ _ (Reads-required _ _ (codes "D") _)
      ⨟ Fails-bind _ _
      ⨟ Fails-bind _ _
      ⨟ Fails-later _ _ (Reads-required _ _ (codes "2") ts)
      ⨟ Fails-lift _ _ _ _ refl)
