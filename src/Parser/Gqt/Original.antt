-- ===== src/Parser/Gqt/Original.antt =====
-- crates/cedro-protocol/src/parser/gqt.rs: a snapshot's trade without original conditions.
use market_data_v.Common.{
  ℕ, ◌+◌, ◌<◌, ◌≡◌, refl, sym, ◌∙◌, Result, err, Option, none, List, [], ◌∷◌, Bytes, ok, codes,
  bytes_eq, length, arith,
}
use market_data_v.Memchr.{Memchr}
use market_data_v.Types.{FloatText, ProtocolMessage, TradeOperation, trade}
use market_data_v.Scanner.Tokens.{split}
use market_data_v.Scanner.Reads.{
  Fails-bind, Fails-later, Reads, step, ◌⨟◌, Reads-pure, Reads-lift, Reads-required,
}
use market_data_v.Parser.Op.{run-Reads, run-Fails}
use market_data_v.Parser.Drain.{drain_fields, drain_fields_lem, kept, frame_fuel, fuel_enough}
use market_data_v.Parser.Gqt.{TradeFields, layout, trade_of, parse_add, op_of, body, parse}
use market_data_v.Scanner.{ParseError, Scanner, Parser, ◌>>=◌, pure, lift}
use market_data_v.Parser.Gqt.Grammar.{nine, ten, IsAdd, layout_lem}

-- The fields that are read where the tenth token is empty.
abbrev pub shifted : Bytes → TradeFields → TradeFields
shifted r l = record l { condition = r; aggressor = l.condition; original = l.aggressor }

-- A parser that reads no token: what it returns does not depend on the scanner.
abbrev IsLift : {A : Type 0} → Parser A → Type 0
IsLift {A} p = (r : Result ParseError A) × ((s : Scanner) → p s ≡ lift r s)

bind-IsLift :
    {A B : Type 0} (p : Parser A) (q : A → Parser B)
    → IsLift p
    → ((a : A) → IsLift (q a))
    → IsLift (p >>= q)
unfolding ◌>>=◌ lift
bind-IsLift p q (err e, h) g = (err e, λ s. rw (h s, ◌>>=◌) refl)
bind-IsLift p q (ok a, h) g = let (r, k) = g a in (r, λ s. rw (h s, ◌>>=◌) (k s))

lifted : {A : Type 0} (r : Result ParseError A) → IsLift (lift r)
lifted r = (r, λ s. refl)

module _ ⦃f : FloatText⦄ where
  trade_of-IsLift : (l : Option Bytes × TradeFields) → IsLift (trade_of b'A' l)
  unfolding trade_of pure lift
  trade_of-IsLift l = bind-IsLift _ _ (lifted _) λ time. bind-IsLift _ _ (lifted _) λ price.
      bind-IsLift _ _ (lifted _) λ buy. bind-IsLift _ _ (lifted _) λ sell.
        bind-IsLift _ _ (lifted _) λ quantity.
          bind-IsLift _ _ (lifted _)
            λ condition. bind-IsLift _ _ (lifted _) λ aggressor. (ok _, λ s. refl)

abbrev named : Bytes → Result ParseError TradeOperation → Result ParseError ProtocolMessage
named ticker (ok op) = ok (trade ticker op)
named ticker (err e) = err e

module _ ⦃m : Memchr⦄ ⦃f : FloatText⦄ where
  -- A frame whose fields have the layout `l` is what the conversion of `l` is.
  parse-layout :
      (frame h ticker : Bytes) (ts : List Bytes) (l : Option Bytes × TradeFields)
      → split frame ≡ h ∷ ticker ∷ codes "A" ∷ ts
      → layout (kept 0 ts) ≡ ok l
      → parse frame ≡ named ticker (trade_of-IsLift l).0
  unfolding parse body op_of parse_add bytes_eq lift
  parse-layout frame h ticker ts l e q =
      let fuel : length ts < frame_fuel frame = omega (arith, fuel_enough frame h _ e) in
      let (n, us, r) = drain_fields_lem (frame_fuel frame) (0 + 1 + 1 + 1) 0 ts fuel in
      at n us r (trade_of-IsLift l).0 (trade_of-IsLift l).1
    where
      at :
          (n : ℕ) (us : List Bytes)
          → Reads (drain_fields (frame_fuel frame) 0) (0 + 1 + 1 + 1) ts (kept 0 ts) n us
          → (x : Result ParseError TradeOperation) → ((s : Scanner) → trade_of b'A' l s ≡ lift x s)
          → parse frame ≡ named ticker x
      at n us r (ok op) g = run-Reads (body (frame_fuel frame)) frame e (
          step _ _ (Reads-required _ 0 h _)
          ⨟ step _ _ (Reads-required _ _ ticker _)
          ⨟ step _ _ (Reads-required _ _ (codes "A") ts)
          ⨟ step _ _
              (step _ _ r ⨟ step _ _ (Reads-lift _ l n us q) ⨟ record { run = λ s h. (s, g s, h) })
          ⨟ Reads-pure _ n us)
      at n us r (err x) g = run-Fails (body (frame_fuel frame)) frame e (
          Fails-later _ _ (Reads-required _ 0 h _)
          ⨟ Fails-later _ _ (Reads-required _ _ ticker _)
          ⨟ Fails-later _ _ (Reads-required _ _ (codes "A") ts)
          ⨟ Fails-bind _ _ (
              Fails-later _ _ r
              ⨟ Fails-later _ _ (Reads-lift _ l n us q)
              ⨟ record { run = λ s h. g s }))

  -- The frame of a snapshot's trade whose last field, the original conditions, is empty is parsed as the
  -- frame of a trade of the stream would be that has its request id for the condition, its condition for
  -- the aggressor and its aggressor for the original conditions: it gives the same trade, or is refused
  -- with the same error, whatever the texts of the fields are.
  pub parse-empty_original :
      (frame stream_frame h ticker r : Bytes) (l : TradeFields)
      → split frame ≡ h ∷ ticker ∷ codes "A" ∷ ten r l
      → l.original ≡ []
      → split stream_frame ≡ h ∷ ticker ∷ codes "A" ∷ nine (shifted r l)
      → parse frame ≡ parse stream_frame
  parse-empty_original frame stream_frame h ticker r l e o q =
      let cut : IsAdd (ten r l) none (shifted r l) =
        rw o (IsAdd.stream_dangling (shifted r l) []) in
      let whole = IsAdd.stream (shifted r l) in
      parse-layout frame h ticker (ten r l) (none, shifted r l) e (layout_lem _ none _ cut)
      ∙ sym (
          parse-layout stream_frame h ticker (nine (shifted r l)) (none, shifted r l) q
            (layout_lem _ none _ whole))
