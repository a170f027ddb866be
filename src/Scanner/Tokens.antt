-- ===== src/Scanner/Tokens.antt =====
-- The scanner walks through the tokens between the colons, the empty ones included.
use market_data_v.Common.{
  ℕ, zero, suc, ◌+◌, ◌<◌, ◌≡◌, refl, sym, ap, ◌∙◌, Bool, true, false, none, some, List, [], ◌∷◌,
  ◌++◌, Bytes, ltb, ◌==◌, if◌then◌else◌, length, take, drop, All, arith, Bool-cases, inl, inr,
  drop-drop, drop_all, length-drop, ge→ltb, lt→ltb, Option-cases,
}
use mathlib.Core.Path.{subst₂}
use market_data_v.Memchr.{Memchr, memchr_lem, first_index}
use market_data_v.Scanner.{Scanner, new, next_token, rest}

abbrev pub is_colon : ℕ → Bool
is_colon c = c == b':'

abbrev pub cons_head : ℕ → List Bytes → List Bytes
cons_head c [] = (c ∷ []) ∷ []
cons_head c (t ∷ ts) = (c ∷ t) ∷ ts

-- The tokens of a byte string: one more than it has colons.
unfoldable pub split : Bytes → List Bytes
split [] = [] ∷ []
split (c ∷ cs) = if is_colon c then [] ∷ split cs else cons_head c (split cs)

abbrev pub join : List Bytes → Bytes
join [] = []
join (t ∷ []) = t
join (t ∷ u ∷ ts) = t ++ (b':' ∷ join (u ∷ ts))

-- The tokens that the scanner has not yet returned.
abbrev pub view : Scanner → List Bytes
view s = if ltb (length s.buf) s.pos then [] else split (drop s.pos s.buf)

-- The scanner behind a token.
abbrev pub skip : Scanner → Bytes → Scanner
skip s t = record s { pos = s.pos + (length t + 1); field_index = s.field_index + 1 }

pub split_ne : (b : Bytes) → (t : Bytes) × (ts : List Bytes) × (split b ≡ t ∷ ts)
unfolding split
split_ne [] = ([], [], refl)
split_ne (c ∷ cs) = elim (Bool-cases (is_colon c)) [
  | inl e ↦ ([], split cs, rw e)
  | inr e ↦ let (t, ts, q) = split_ne cs in (c ∷ t, ts, rw (e, q))
]

-- The first token of `b` ends at its first colon, or `b` is a single token.
split_found :
    (b : Bytes) (i : ℕ)
    → first_index is_colon b ≡ some i
    → (split b ≡ take i b ∷ split (drop (suc i) b)) × (length (take i b) ≡ i) × (i < length b)
unfolding split first_index
split_found [] i e = absurd (cc)
split_found (c ∷ cs) zero e = ground (arith)
split_found (c ∷ cs) (suc i) e = elim (Bool-cases (is_colon c)) [
  | inl m ↦ ground arith
  | inr m ↦
      let q : first_index is_colon cs ≡ some i = ground arith in
      let (x, y, z) = split_found cs i q in (rw (m, x), omega arith, omega arith)
]

split_single : (b : Bytes) → first_index is_colon b ≡ none → split b ≡ b ∷ []
unfolding split first_index
split_single [] e = refl
split_single (c ∷ cs) e = elim (Bool-cases (is_colon c)) [
  | inl m ↦ ground arith
  | inr m ↦ let q : first_index is_colon cs ≡ none = ground arith in rw (m, split_single cs q)
]

join-cons_head : (c : ℕ) (t : Bytes) (ts : List Bytes) → join ((c ∷ t) ∷ ts) ≡ c ∷ join (t ∷ ts)
join-cons_head c t [] = refl
join-cons_head c t (u ∷ ts) = refl

-- Joining undoes splitting.
pub join-split : (b : Bytes) → join (split b) ≡ b
unfolding split
join-split [] = refl
join-split (c ∷ cs) =
    let (t, ts, q) = split_ne cs in
    let r : join (t ∷ ts) ≡ cs = rw q at (join-split cs) in
    elim (Bool-cases (is_colon c)) [
      | inl m ↦
          let k : b':' ≡ c = ground arith in rw (m, q) (ap (λ x. b':' ∷ x) r ∙ ap (λ x. x ∷ cs) k)
      | inr m ↦ rw (m, q) (join-cons_head c t ts ∙ ap (λ x. c ∷ x) r)
    ]

abbrev pub IsToken : Bytes → Type 0
IsToken = All (λ c. is_colon c ≡ false)

split_token : (t : Bytes) → IsToken t → split t ≡ t ∷ []
unfolding split
split_token [] h = refl
split_token (c ∷ cs) h = rw (h.0, split_token cs h.1)

pub view-new : (b : Bytes) → view (new b) ≡ split b
unfolding new
view-new b = rw (ge→ltb (length b) 0 (omega arith))

pub view_done :
    (s : Scanner) (n : ℕ) → view (record s { pos = length s.buf + 1; field_index = n }) ≡ []
view_done s n = rw (lt→ltb (length s.buf) (length s.buf + 1) (omega arith))

skip_to :
    (s : Scanner) (t : Bytes) (n : ℕ)
    → n ≡ s.pos + (length t + 1)
    → record s { pos = n; field_index = s.field_index + 1 } ≡ skip s t
skip_to s t n e = ap (λ p. record s { pos = p; field_index = s.field_index + 1 }) e

module _ ⦃m : Memchr⦄ where
  abbrev Next : Scanner → Bytes → List Bytes → Type 0
  Next s t ts = (next_token s ≡ (some t, skip s t)) × (view (skip s t) ≡ ts)

  Next-of :
      (s : Scanner) (t t' : Bytes) (ts ts' : List Bytes)
      → t' ∷ ts' ≡ t ∷ ts
      → Next s t' ts'
      → Next s t ts
  Next-of s t t' ts ts' e n =
      let p : t' ≡ t = cc in let q : ts' ≡ ts = cc in subst₂ (λ x y. Next s x y) p q n

  Next-at_end : (s : Scanner) → s.pos ≡ length s.buf → Next s [] []
  unfolding next_token
  Next-at_end s e =
      let a : ltb (length s.buf) s.pos ≡ false = ground arith in
      let b : (s.pos == length s.buf) ≡ true = ground arith in
      let d : ltb (length s.buf) (s.pos + (0 + 1)) ≡ true = ground arith in
      (rw (a, b) (ap (λ x. (some [], x)) (skip_to s [] (length s.buf + 1) (omega arith))), rw d)

  Next-colon :
      (s : Scanner) (i : ℕ)
      → s.pos < length s.buf
      → first_index is_colon (drop s.pos s.buf) ≡ some i
      → Next s (take i (drop s.pos s.buf)) (split (drop (suc i) (drop s.pos s.buf)))
  unfolding next_token
  Next-colon s i l e =
      let a : ltb (length s.buf) s.pos ≡ false = ground arith in
      let b : (s.pos == length s.buf) ≡ false = ground arith in
      let r = drop s.pos s.buf in
      let (x, y, z) = split_found r i e in
      let d : ltb (length s.buf) (s.pos + (length (take i r) + 1)) ≡ false =
        ge→ltb (length s.buf) (s.pos + (length (take i r) + 1))
          (omega (arith, y, z, length-drop s.pos s.buf)) in
      let k : s.pos + (length (take i r) + 1) ≡ s.pos + suc i = omega (arith, y) in
      (
        rw (a, b, memchr_lem b':' r, e, next_token)
            (ap (λ p. (some (take i r), p))
              (skip_to s (take i r) (s.pos + (i + 1)) (omega (arith, y)))),
        rw d (ap (λ n. split (drop n s.buf)) k ∙ ap split (sym (drop-drop (suc i) s.pos s.buf))),
      )

  Next-last :
      (s : Scanner)
      → s.pos < length s.buf
      → first_index is_colon (drop s.pos s.buf) ≡ none
      → Next s (drop s.pos s.buf) []
  unfolding next_token
  Next-last s l e =
      let a : ltb (length s.buf) s.pos ≡ false = ground arith in
      let b : (s.pos == length s.buf) ≡ false = ground arith in
      let r = drop s.pos s.buf in
      let k : length s.buf + 1 ≡ s.pos + (length r + 1) = omega (arith, length-drop s.pos s.buf) in
      let d : ltb (length s.buf) (s.pos + (length r + 1)) ≡ true = lt→ltb _ _ (omega (arith, k)) in
      (
        rw (a, b, memchr_lem b':' r, e, next_token)
            (ap (λ p. (some r, p)) (skip_to s r (length s.buf + 1) k)),
        rw d,
      )

  -- `next` returns the first of the remaining tokens, and leaves the others.
  pub next_token-cons :
      (s : Scanner) (t : Bytes) (ts : List Bytes)
      → view s ≡ t ∷ ts
      → (next_token s ≡ (some t, skip s t)) × (view (skip s t) ≡ ts)
  next_token-cons s t ts e = elim (Bool-cases (ltb (length s.buf) s.pos)) [
    | inl p ↦ absurd (let q : [] ≡ t ∷ ts = rw p at e in cc)
    | inr p ↦
        let q : split (drop s.pos s.buf) ≡ t ∷ ts = rw p at e in
        elim (Bool-cases (s.pos == length s.buf)) [
          | inl r ↦
              let d : drop s.pos s.buf ≡ [] = drop_all s.pos s.buf (ground arith) in
              Next-of s t [] ts [] (sym (split_token [] tt) ∙ ap split (sym d) ∙ q)
                (Next-at_end s (ground arith))
          | inr r ↦
              let l : s.pos < length s.buf = ground arith in
              let b = drop s.pos s.buf in
              elim (Option-cases (first_index is_colon b)) [
                | inl n ↦ Next-of s t b ts [] (sym (split_single b n) ∙ q) (Next-last s l n)
                | inr (i, n) ↦
                    Next-of s t (take i b) ts (split (drop (suc i) b))
                      (sym (split_found b i n).0 ∙ q) (Next-colon s i l n)
              ]
        ]
  ]

  -- With no token left `next` returns `None`, and the scanner is unchanged.
  pub next_token-nil : (s : Scanner) → view s ≡ [] → next_token s ≡ (none, s)
  unfolding next_token
  next_token-nil s e = elim (Bool-cases (ltb (length s.buf) s.pos)) [
    | inl p ↦ rw p
    | inr p ↦
        let q : split (drop s.pos s.buf) ≡ [] = rw p at e in
        let (t, ts, r) = split_ne (drop s.pos s.buf) in
        absurd (let w : t ∷ ts ≡ [] = sym r ∙ q in cc)
  ]

-- `take_rest` returns the remaining tokens with the colons between them.
pub rest-view : (s : Scanner) → rest s ≡ join (view s)
unfolding rest
rest-view s = elim (Bool-cases (ltb (length s.buf) s.pos)) [
  | inl p ↦ rw p
  | inr p ↦ rw p (sym (join-split (drop s.pos s.buf)))
]
