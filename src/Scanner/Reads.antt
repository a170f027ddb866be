-- ===== src/Scanner/Reads.antt =====
-- Rules for parsers over the remaining tokens: what a parser reads and returns, and how it fails.
use market_data_v.Common.{
  ℕ, ◌+◌, ◌≡◌, refl, sym, ap, ◌∙◌, Option, none, some, List, [], ◌∷◌, Bytes, String, length, Result,
  ok, err, ℤ,
}
use market_data_v.Memchr.{Memchr}
use market_data_v.Types.{F64, FloatText}
use market_data_v.Scanner.{
  ParseError, missing_field, Scanner, new, Parser, ◌>>=◌, pure, lift, next, token_or, required,
  take_rest, parse_u64, parse_u32, parse_f64, required_u64, required_u32, required_f64,
}
use market_data_v.Scanner.Tokens.{
  split, join, view, skip, view-new, view_done, next_token-cons, next_token-nil, rest-view,
}

-- The scanner has consumed `k` tokens and the tokens `ts` remain.
pub record At (s : Scanner) (k : ℕ) (ts : List Bytes) : Type 0 where
  pub remaining : view s ≡ ts
  pub consumed : s.field_index ≡ k

-- From the tokens `ts`, behind `k` others, `m` returns `a` and leaves the tokens `us`.
pub record Reads {A : Type 0} (m : Parser A) (k : ℕ) (ts : List Bytes) (a : A) (n : ℕ)
    (us : List Bytes) : Type 0 where
  pub run : (s : Scanner) → At s k ts → (t : Scanner) × (m s ≡ ok (a, t)) × At t n us

-- Somewhere behind the tokens, `m` returns `a`.
abbrev pub Leaves : {A : Type 0} → Parser A → ℕ → List Bytes → A → Type 0
Leaves m k ts a = (n : ℕ) × (us : List Bytes) × Reads m k ts a n us

-- From the tokens `ts`, behind `k` others, `m` fails with `e`.
pub record Fails {A : Type 0} (m : Parser A) (k : ℕ) (ts : List Bytes) (e : ParseError)
    : Type 0 where
  pub run : (s : Scanner) → At s k ts → m s ≡ err e

pub At-new : (b : Bytes) (ts : List Bytes) → split b ≡ ts → At (new b) 0 ts
unfolding new
At-new b ts e = record { remaining = view-new b ∙ e; consumed = refl }

module _ {A : Type 0} where
  pub Reads-pure : (a : A) (k : ℕ) (ts : List Bytes) → Reads (pure a) k ts a k ts
  unfolding pure
  Reads-pure a k ts = record { run = λ s h. (s, refl, h) }

  pub Reads-lift :
      (r : Result ParseError A) (a : A) (k : ℕ) (ts : List Bytes)
      → r ≡ ok a
      → Reads (lift r) k ts a k ts
  unfolding lift
  Reads-lift r a k ts e = record { run = λ s h. (s, rw (e, lift), h) }

  pub Fails-lift :
      (r : Result ParseError A) (e : ParseError) (k : ℕ) (ts : List Bytes)
      → r ≡ err e
      → Fails (lift r) k ts e
  unfolding lift
  Fails-lift r e k ts q = record { run = λ s h. rw (q, lift) }

-- A step of a chain of reads, whose rest follows without a bracket.
infixr 0 ◌⨟◌
abbrev pub ◌⨟◌ : {A B : Type 0} → (A → B) → A → B
◌⨟◌ f x = f x

module _ {A B : Type 0} where
  pub step :
      (m : Parser A) (f : A → Parser B) {k n o : ℕ} {ts us vs : List Bytes} {a : A} {b : B}
      → Reads m k ts a n us
      → Reads (f a) n us b o vs
      → Reads (m >>= f) k ts b o vs
  unfolding ◌>>=◌
  step m f x y = record {
    run = λ s h. let (t, p, g) = x.run s h in let (u, q, i) = y.run t g in (u, rw (p, ◌>>=◌) q, i);
  }

  pub Fails-bind :
      (m : Parser A) (f : A → Parser B) {k : ℕ} {ts : List Bytes} {e : ParseError}
      → Fails m k ts e
      → Fails (m >>= f) k ts e
  unfolding ◌>>=◌
  Fails-bind m f x = record { run = λ s h. rw (x.run s h, ◌>>=◌) }

  pub Fails-later :
      (m : Parser A) (f : A → Parser B) {k n : ℕ} {ts us : List Bytes} {a : A} {e : ParseError}
      → Reads m k ts a n us
      → Fails (f a) n us e
      → Fails (m >>= f) k ts e
  unfolding ◌>>=◌
  Fails-later m f x y = record {
    run = λ s h. let (t, p, g) = x.run s h in rw (p, ◌>>=◌) (y.run t g);
  }

module _ ⦃m : Memchr⦄ where
  pub Reads-next : (k : ℕ) (t : Bytes) (ts : List Bytes) → Reads next k (t ∷ ts) (some t) (k + 1) ts
  unfolding next
  Reads-next k t ts = record {
    run = λ s h.
        let (p, q) = next_token-cons s t ts h.remaining in
        (skip s t, ap ok p, record { remaining = q; consumed = ap (λ n. n + 1) h.consumed });
  }

  pub Reads-next_end : (k : ℕ) → Reads next k [] none k []
  unfolding next
  Reads-next_end k = record { run = λ s h. (s, ap ok (next_token-nil s h.remaining), h) }

  pub Reads-required :
      (field : String) (k : ℕ) (t : Bytes) (ts : List Bytes)
      → Reads (required field) k (t ∷ ts) t (k + 1) ts
  unfolding required
  Reads-required field k t ts = record {
    run = λ s h.
        let (p, q) = next_token-cons s t ts h.remaining in
        (
          skip s t,
          ap (token_or field) p,
          record { remaining = q; consumed = ap (λ n. n + 1) h.consumed },
        );
  }

  pub Fails-required :
      (field : String) (k : ℕ) → Fails (required field) k [] (missing_field (k + 1) field)
  unfolding required
  Fails-required field k = record {
    run = λ s h.
        ap (token_or field) (next_token-nil s h.remaining)
        ∙ ap (λ n. err (missing_field (n + 1) field)) h.consumed;
  }

  pub Reads-required_u64 :
      (field : String) (k : ℕ) (t : Bytes) (ts : List Bytes) (n : ℕ)
      → parse_u64 t field ≡ ok n
      → Reads (required_u64 field) k (t ∷ ts) n (k + 1) ts
  unfolding required_u64
  Reads-required_u64 field k t ts n e =
      step _ _ (Reads-required field k t ts) (Reads-lift (parse_u64 t field) n (k + 1) ts e)

  pub Reads-required_u32 :
      (field : String) (k : ℕ) (t : Bytes) (ts : List Bytes) (n : ℕ)
      → parse_u32 t field ≡ ok n
      → Reads (required_u32 field) k (t ∷ ts) n (k + 1) ts
  unfolding required_u32
  Reads-required_u32 field k t ts n e =
      step _ _ (Reads-required field k t ts) (Reads-lift (parse_u32 t field) n (k + 1) ts e)

  pub Reads-required_f64 :
      ⦃f : FloatText⦄ (field : String) (k : ℕ) (t : Bytes) (ts : List Bytes) (x : F64)
      → parse_f64 t field ≡ ok x
      → Reads (required_f64 field) k (t ∷ ts) x (k + 1) ts
  unfolding required_f64
  Reads-required_f64 field k t ts x e =
      step _ _ (Reads-required field k t ts) (Reads-lift (parse_f64 t field) x (k + 1) ts e)

pub Reads-take_rest : (k : ℕ) (ts : List Bytes) → Reads take_rest k ts (join ts) k []
unfolding take_rest
Reads-take_rest k ts = record {
  run = λ s h. (
    record s { pos = length s.buf + 1 },
    ap (λ b. ok (b, record s { pos = length s.buf + 1 })) (rest-view s ∙ ap join h.remaining),
    record { remaining = view_done s s.field_index; consumed = h.consumed },
  );
}

pub ruleset read_rules = (
  step, Reads-pure, Reads-lift, Reads-next, Reads-next_end, Reads-required, Reads-required_u64,
  Reads-required_u32, Reads-required_f64, Reads-take_rest, refl,
)
