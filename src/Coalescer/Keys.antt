-- ===== src/Coalescer/Keys.antt =====
-- crates/fanout/src/types.rs: the texts of a key, the subject that it is published on and the key of its
-- snapshot. `String::from_utf8_lossy` is an argument.
use market_data_v.Common.{
  ℕ, ◌≡◌, ◌↔◌, refl, ap, sym, ◌∙◌, true, [], ◌∷◌, ◌++◌, Bytes, codes, drop, if◌then◌else◌, arith,
}
use market_data_v.Utf8.{is_utf8}
use market_data_v.Coalescer.{Kind, quote, book, trade, PublishKey}

pub record Lossy : Type 0 where
  pub from_utf8_lossy : Bytes → Bytes

unfoldable pub as_str : Kind → Bytes
as_str quote = codes "quote"
as_str book = codes "book"
as_str trade = codes "trade"

-- The texts with a separator in place of `.` and of `:`.
joined : ℕ → Kind → Bytes → Bytes
unfolding as_str
joined sep kind ticker = codes "market" ++ (sep ∷ (as_str kind ++ (sep ∷ ticker)))

module _ ⦃l : Lossy⦄ where
  unfoldable pub ticker_text : Bytes → Bytes
  ticker_text ticker = if is_utf8 ticker then ticker else l.from_utf8_lossy ticker

  unfoldable pub nats_subject : PublishKey → Bytes
  nats_subject key = codes "market." ++ (as_str key.kind ++ (b'.' ∷ ticker_text key.ticker))

  unfoldable pub redis_key : PublishKey → Bytes
  redis_key key = codes "market:" ++ (as_str key.kind ++ (b':' ∷ ticker_text key.ticker))

-- The letter behind the first separator.
abbrev letter : Bytes → ℕ
letter b = elim (drop 7 b) [ [] ↦ 0 | c ∷ cs ↦ c ]

joined-injective :
    (sep : ℕ) (k l : Kind) (t u : Bytes) → joined sep k t ≡ joined sep l u → (k ≡ l) × (t ≡ u)
unfolding joined as_str
joined-injective sep quote quote t u e = (refl, ap (drop 13) e)
joined-injective sep quote book t u e = absurd (let c : b'q' ≡ b'b' = ap letter e in omega arith)
joined-injective sep quote trade t u e = absurd (let c : b'q' ≡ b't' = ap letter e in omega arith)
joined-injective sep book quote t u e = absurd (let c : b'b' ≡ b'q' = ap letter e in omega arith)
joined-injective sep book book t u e = (refl, ap (drop 12) e)
joined-injective sep book trade t u e = absurd (let c : b'b' ≡ b't' = ap letter e in omega arith)
joined-injective sep trade quote t u e = absurd (let c : b't' ≡ b'q' = ap letter e in omega arith)
joined-injective sep trade book t u e = absurd (let c : b't' ≡ b'b' = ap letter e in omega arith)
joined-injective sep trade trade t u e = (refl, ap (drop 13) e)

module _ ⦃l : Lossy⦄ where
  utf8_text : (t : Bytes) → is_utf8 t ≡ true → ticker_text t ≡ t
  unfolding ticker_text
  utf8_text t h = rw h refl

  same_key : (a b : PublishKey) → (a.kind ≡ b.kind) × (a.ticker ≡ b.ticker) → a ≡ b
  same_key a b (k, t) = cc

  -- Two keys whose tickers are UTF-8 texts have the same subject only if they are the same, and the same key
  -- of the snapshot only if they are the same.
  pub nats_subject-injective :
      (a b : PublishKey)
      → is_utf8 a.ticker ≡ true
      → is_utf8 b.ticker ≡ true
      → ((nats_subject a ≡ nats_subject b) ↔ (a ≡ b)) × ((redis_key a ≡ redis_key b) ↔ (a ≡ b))
  unfolding nats_subject redis_key joined as_str
  nats_subject-injective a b ha hb =
      let x = utf8_text a.ticker ha in
      let y = utf8_text b.ticker hb in
      let same : (sep : ℕ)
          → joined sep a.kind (ticker_text a.ticker) ≡ joined sep b.kind (ticker_text b.ticker)
          → joined sep a.kind a.ticker ≡ joined sep b.kind b.ticker =
        λ sep e. ap (joined sep a.kind) (sym x) ∙ e ∙ ap (joined sep b.kind) y in
      (
        (
          λ e. same_key a b (joined-injective b'.' a.kind b.kind a.ticker b.ticker (same b'.' e)),
          λ e. ap nats_subject e,
        ),
        (
          λ e. same_key a b (joined-injective b':' a.kind b.kind a.ticker b.ticker (same b':' e)),
          λ e. ap redis_key e,
        ),
      )
