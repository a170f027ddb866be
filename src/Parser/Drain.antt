-- ===== src/Parser/Drain.antt =====
-- crates/cedro-protocol/src/parser/error.rs and gqt.rs: `while let Some(token) = scanner.next()`.
-- The loop runs on fuel: a frame has at most one token more than it has bytes.
use market_data_v.Common.{
  ℕ, zero, suc, ◌+◌, ◌≤◌, ◌<◌, ◌≡◌, ap, Bool, true, false, ◌&&◌, none, some, List, [], ◌∷◌, ◌++◌,
  Bytes, if◌then◌else◌, length, arith, leb, Bool-cases, inl, inr,
}
use market_data_v.Memchr.{Memchr}
use market_data_v.Scanner.{Parser, ◌>>=◌, pure, next}
use market_data_v.Scanner.Tokens.{split, is_colon, cons_head}
use market_data_v.Scanner.Reads.{Leaves, Reads, step, Reads-pure, Reads-next, Reads-next_end, ◌⨟◌}

-- Fuel for every token of a frame and its end.
abbrev pub frame_fuel : Bytes → ℕ
frame_fuel frame = suc (suc (length frame))

-- `token.is_empty()`
abbrev pub is_empty : Bytes → Bool
is_empty [] = true
is_empty (c ∷ cs) = false

-- What the loop keeps of the tokens, `count` of them read before.
abbrev pub kept : ℕ → List Bytes → List Bytes
kept count [] = []
kept count (t ∷ ts) = if is_empty t && leb 9 count then [] else t ∷ kept (suc count) ts

length-cons_head : (c : ℕ) (ts : List Bytes) → length (cons_head c ts) ≤ suc (length ts)
length-cons_head c [] = omega arith
length-cons_head c (t ∷ ts) = omega arith

module _ ⦃m : Memchr⦄ where
  -- All the tokens that remain.
  unfoldable pub drain : ℕ → Parser (List Bytes)
  drain zero = pure []
  drain (suc n) =
      next >>= λ token. elim token [ none ↦ pure [] | some t ↦ drain n >>= λ ts. pure (t ∷ ts) ]

  -- As `drain`, but an empty token behind nine others ends the loop; `count` of them were read before.
  unfoldable pub drain_fields : ℕ → ℕ → Parser (List Bytes)
  drain_fields zero count = pure []
  drain_fields (suc n) count = next >>= λ token. elim token [
    | none ↦ pure []
    | some t ↦
        if is_empty t && leb 9 count
        then pure []
        else drain_fields n (suc count) >>= λ ts. pure (t ∷ ts)
  ]

  pub drain_lem :
      (n k : ℕ) (ts : List Bytes) → length ts < n → (o : ℕ) × Reads (drain n) k ts ts o []
  unfolding drain
  drain_lem zero k ts l = absurd (omega arith)
  drain_lem (suc n) k [] l = (k, step _ _ (Reads-next_end k) ⨟ Reads-pure [] k [])
  drain_lem (suc n) k (t ∷ ts) l =
      let (o, r) = drain_lem n (k + 1) ts (omega arith) in
      (o, step _ _ (Reads-next k t ts) ⨟ step _ _ r ⨟ Reads-pure _ o [])

  pub drain_fields_lem :
      (n k count : ℕ) (ts : List Bytes)
      → length ts < n
      → Leaves (drain_fields n count) k ts (kept count ts)
  unfolding drain_fields
  drain_fields_lem zero k count ts l = absurd (omega arith)
  drain_fields_lem (suc n) k count [] l = (k, [], step _ _ (Reads-next_end k) ⨟ Reads-pure [] k [])
  drain_fields_lem (suc n) k count (t ∷ ts) l =
      let (o, us, r) = drain_fields_lem n (k + 1) (suc count) ts (omega arith) in
      elim (Bool-cases (is_empty t && leb 9 count)) [
        | inl e ↦ (k + 1, ts, step _ _ (Reads-next k t ts) ⨟ rw e (Reads-pure [] (k + 1) ts))
        | inr e ↦ (o, us, step _ _ (Reads-next k t ts) ⨟ rw e (step _ _ r ⨟ Reads-pure _ o us))
      ]

-- A frame has at most one token more than it has bytes.
length-split : (b : Bytes) → length (split b) ≤ suc (length b)
unfolding split
length-split [] = omega arith
length-split (c ∷ cs) = elim (Bool-cases (is_colon c)) [
  | inl e ↦ rw e (omega (arith, length-split cs))
  | inr e ↦ rw e (omega (arith, length-cons_head c (split cs), length-split cs))
]

-- The fuel is enough for the tokens behind the first.
pub fuel_enough :
    (frame t : Bytes) (ts : List Bytes) → split frame ≡ t ∷ ts → length ts < frame_fuel frame
fuel_enough frame t ts e =
    let q : length (split frame) ≡ suc (length ts) = ap length e in
    omega (arith, length-split frame)

-- The first nine tokens are kept, empty or not.
pub kept-append :
    (count : ℕ) (ts rest : List Bytes)
    → count + length ts ≤ 9
    → kept count (ts ++ rest) ≡ ts ++ kept (count + length ts) rest
kept-append count [] rest l = ap (λ n. kept n rest) (omega arith)
kept-append count (t ∷ ts) rest l =
    let e : (is_empty t && leb 9 count) ≡ false = ground arith in
    let q : suc count + length ts ≡ count + suc (length ts) = omega arith in
    rw e (ap (λ us. t ∷ us) (rw q at (kept-append (suc count) ts rest (omega arith))))
