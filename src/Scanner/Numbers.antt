-- ===== src/Scanner/Numbers.antt =====
-- The conversions of a token to a number: exactly the decimal numerals that fit the width.
use market_data_v.Common.{
  ℕ, ◌+◌, ◌-◌, ◌*◌, ◌^◌, ◌≤◌, ◌<◌, ◌≡◌, ◌≢◌, ◌↔◌, refl, sym, ap, ◌∙◌, true, false, [], ◌∷◌, Bytes,
  String, ◌==◌, All, arith, Bool-cases, inl, inr, Result, ok, err, ℤ, pos, neg_of_nat,
}
use market_data_v.Scanner.{
  ParseError, bad_integer, is_ascii_digit, decimal_loop, narrow, parse_u64, parse_u32, parse_u16,
  parse_i64, signed, magnitude,
}

abbrev pub IsDigits : Bytes → Type 0
IsDigits = All (λ c. is_ascii_digit c ≡ true)

-- The value of the digits, read after a number `n`.
abbrev pub value_from : ℕ → Bytes → ℕ
value_from n [] = n
value_from n (c ∷ cs) = value_from (n * 10 + (c - b'0')) cs

-- A decimal numeral with a value below the limit.
pub record Denotes (limit : ℕ) (b : Bytes) (n : ℕ) : Type 0 where
  pub not_empty : b ≢ []
  pub digits : IsDigits b
  pub value : value_from 0 b ≡ n
  pub fits : n < limit

le-value_from : (n : ℕ) (cs : Bytes) → n ≤ value_from n cs
le-value_from n [] = omega arith
le-value_from n (c ∷ cs) = omega (arith, le-value_from (n * 10 + (c - b'0')) cs)

module _ (limit : ℕ) (field : String) where
  decimal_loop_sound :
      (n : ℕ) (cs : Bytes) (m : ℕ)
      → n < limit
      → decimal_loop limit field n cs ≡ ok m
      → IsDigits cs × (value_from n cs ≡ m) × (m < limit)
  unfolding decimal_loop
  decimal_loop_sound n [] m h e = ground arith
  decimal_loop_sound n (c ∷ cs) m h e =
      let r : (n * 10 + (c - b'0') < limit)
          × (is_ascii_digit c ≡ true)
          × (decimal_loop limit field (n * 10 + (c - b'0')) cs ≡ ok m) =
        ground arith in
      let (d, v, l) = decimal_loop_sound (n * 10 + (c - b'0')) cs m r.0 r.2 in ((r.1, d), v, l)

  decimal_loop_complete :
      (n : ℕ) (cs : Bytes)
      → IsDigits cs
      → value_from n cs < limit
      → decimal_loop limit field n cs ≡ ok (value_from n cs)
  unfolding decimal_loop
  decimal_loop_complete n [] d l = refl
  decimal_loop_complete n (c ∷ cs) d l = ground (
    arith,
    le-value_from (n * 10 + (c - b'0')) cs,
    decimal_loop_complete (n * 10 + (c - b'0')) cs d.1,
  )

  decimal_loop_error :
      (n : ℕ) (cs : Bytes) (e : ParseError)
      → decimal_loop limit field n cs ≡ err e
      → e ≡ bad_integer field
  unfolding decimal_loop
  decimal_loop_error n [] e q = absurd (cc)
  decimal_loop_error n (c ∷ cs) e q = ground (arith, decimal_loop_error (n * 10 + (c - b'0')) cs e)

  decimal_iff :
      (c : ℕ) (cs : Bytes) (n : ℕ)
      → 0 < limit
      → (decimal_loop limit field 0 (c ∷ cs) ≡ ok n) ↔ Denotes limit (c ∷ cs) n
  decimal_iff c cs n l = (
    λ e.
        let (d, v, f) = decimal_loop_sound 0 (c ∷ cs) n l e in
        record { not_empty = λ q. absurd (cc); digits = d; value = v; fits = f },
    λ d.
        let below : value_from 0 (c ∷ cs) < limit = rw d.value d.fits in
        decimal_loop_complete 0 (c ∷ cs) d.digits below ∙ ap ok d.value,
  )

not_Denotes : (limit n : ℕ) → Denotes limit [] n → ⊥
not_Denotes limit n d = d.not_empty refl

-- A token is read as a `u64` exactly if it is a decimal numeral below 2^64, and as its value.
pub parse_u64_iff :
    (b : Bytes) (field : String) (n : ℕ) → (parse_u64 b field ≡ ok n) ↔ Denotes (2 ^ 64) b n
unfolding parse_u64
parse_u64_iff [] field n = (λ e. absurd (cc), λ d. absurd (not_Denotes (2 ^ 64) n d))
parse_u64_iff (c ∷ cs) field n = decimal_iff (2 ^ 64) field c cs n (omega arith)

narrow_iff :
    (limit : ℕ) (field : String) (r : Result ParseError ℕ) (n : ℕ)
    → (narrow limit field r ≡ ok n) ↔ ((r ≡ ok n) × (n < limit))
unfolding narrow
narrow_iff limit field (ok m) n = (λ e. ground arith, λ h. ground arith)
narrow_iff limit field (err e) n = (λ e'. absurd (cc), λ h. absurd (cc))

Denotes-narrower :
    (limit : ℕ) (b : Bytes) (n : ℕ)
    → limit ≤ 2 ^ 64
    → (Denotes (2 ^ 64) b n × (n < limit)) ↔ Denotes limit b n
Denotes-narrower limit b n l = (
  λ h. record { not_empty = h.0.not_empty; digits = h.0.digits; value = h.0.value; fits = h.1 },
  λ d. (
    record {
      not_empty = d.not_empty;
      digits = d.digits;
      value = d.value;
      fits = omega (arith, d.fits);
    },
    d.fits,
  ),
)

pub narrow-Denotes :
    (limit : ℕ) (b : Bytes) (field : String) (n : ℕ)
    → limit ≤ 2 ^ 64
    → (narrow limit field (parse_u64 b field) ≡ ok n) ↔ Denotes limit b n
narrow-Denotes limit b field n l =
    let (a, a') = narrow_iff limit field (parse_u64 b field) n in
    let (p, p') = parse_u64_iff b field n in
    let (d, d') = Denotes-narrower limit b n l in
    (λ e. d (p (a e).0, (a e).1), λ h. a' (p' (d' h).0, (d' h).1))

pub parse_u32_iff :
    (b : Bytes) (field : String) (n : ℕ) → (parse_u32 b field ≡ ok n) ↔ Denotes (2 ^ 32) b n
unfolding parse_u32
parse_u32_iff b field n = narrow-Denotes (2 ^ 32) b field n (omega arith)

pub parse_u16_iff :
    (b : Bytes) (field : String) (n : ℕ) → (parse_u16 b field ≡ ok n) ↔ Denotes (2 ^ 16) b n
unfolding parse_u16
parse_u16_iff b field n = narrow-Denotes (2 ^ 16) b field n (omega arith)

-- An integer numeral: digits, with an optional minus sign, with a magnitude below 2^63.
pub data DenotesInt : Bytes → ℤ → Type 0 where
  plain : (b : Bytes) (n : ℕ) → Denotes (2 ^ 63) b n → DenotesInt b (pos n)
  minus : (b : Bytes) (n : ℕ) → Denotes (2 ^ 63) b n → DenotesInt (b'-' ∷ b) (neg_of_nat n)

magnitude_iff :
    (b : Bytes) (field : String) (n : ℕ) → (magnitude b field ≡ ok n) ↔ Denotes (2 ^ 63) b n
unfolding magnitude
magnitude_iff [] field n = (λ e. absurd (cc), λ d. absurd (not_Denotes (2 ^ 63) n d))
magnitude_iff (c ∷ cs) field n = decimal_iff (2 ^ 63) field c cs n (omega arith)

signed_ok :
    (sign : ℕ → ℤ) (r : Result ParseError ℕ) (z : ℤ)
    → signed sign r ≡ ok z
    → (n : ℕ) × (r ≡ ok n) × (sign n ≡ z)
unfolding signed
signed_ok sign (ok n) z e = (n, refl, cc)
signed_ok sign (err x) z e = absurd (cc)

parse_i64_sound : (b : Bytes) (field : String) (z : ℤ) → parse_i64 b field ≡ ok z → DenotesInt b z
unfolding parse_i64
parse_i64_sound [] field z e = absurd (cc)
parse_i64_sound (c ∷ cs) field z e = elim (Bool-cases (c == b'-')) [
  | inl m ↦
      let q : c ≡ b'-' = ground arith in
      let (n, p, r) = signed_ok neg_of_nat (magnitude cs field) z (rw m at e) in
      rw (q, sym r) (DenotesInt.minus cs n ((magnitude_iff cs field n).0 p))
  | inr m ↦
      let (n, p, r) = signed_ok pos (magnitude (c ∷ cs) field) z (rw m at e) in
      rw (sym r) (DenotesInt.plain (c ∷ cs) n ((magnitude_iff (c ∷ cs) field n).0 p))
]

parse_i64_complete :
    (b : Bytes) (field : String) (z : ℤ) → DenotesInt b z → parse_i64 b field ≡ ok z
unfolding parse_i64 signed magnitude
parse_i64_complete _ field _ (DenotesInt.minus b n d) =
    rw ((magnitude_iff b field n).1 d, signed) refl
parse_i64_complete _ field _ (DenotesInt.plain [] n d) = absurd (not_Denotes (2 ^ 63) n d)
parse_i64_complete _ field _ (DenotesInt.plain (c ∷ cs) n d) =
    let m : (c == b'-') ≡ false = ground (arith, d.digits) in
    rw (m, (magnitude_iff (c ∷ cs) field n).1 d) refl

-- A token is read as an `i64` exactly if it is an integer numeral, and as its value: digits with an
-- optional minus sign whose magnitude is below 2^63.
pub parse_i64_iff :
    (b : Bytes) (field : String) (z : ℤ) → (parse_i64 b field ≡ ok z) ↔ DenotesInt b z
parse_i64_iff b field z = (parse_i64_sound b field z, parse_i64_complete b field z)
