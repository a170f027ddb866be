-- ===== src/Client/Commands/Decimal.antt =====
-- The digits of a number denote it, and hold none of the separators of a line.
use market_data_v.Common.{
  ℕ, zero, suc, ◌+◌, ◌-◌, ◌*◌, ◌/◌, ◌%◌, ◌^◌, ◌≤◌, ◌<◌, ◌≡◌, ◌≢◌, ap, ◌∙◌, true, false, [], ◌∷◌,
  Bytes, ltb, Bool-cases, inl, inr, arith,
}
use market_data_v.Common.Text.{decimal, digits_before, IsFree}
use market_data_v.Scanner.{is_ascii_digit}
use market_data_v.Scanner.Numbers.{Denotes, IsDigits, value_from}

-- The numbers of at most as many digits.
abbrev limit : ℕ → ℕ
limit zero = 1
limit (suc n) = 10 * limit n

value_from-digits_before :
    (fuel n : ℕ) (digits : Bytes)
    → n < limit fuel
    → value_from 0 (digits_before fuel n digits) ≡ value_from n digits
unfolding digits_before
value_from-digits_before zero n digits h =
    let e : 0 ≡ n = omega arith in ap (λ x. value_from x digits) e
value_from-digits_before (suc fuel) n digits h = elim (Bool-cases (ltb n 10)) [
  | inl q ↦
      let e : 0 * 10 + (48 + n % 10 - b'0') ≡ n = ground arith in
      rw q (ap (λ x. value_from x digits) e)
  | inr q ↦
      let e : n / 10 * 10 + (48 + n % 10 - b'0') ≡ n = omega arith in
      rw q (
        value_from-digits_before fuel (n / 10) ((48 + n % 10) ∷ digits) (omega arith)
        ∙ ap (λ x. value_from x digits) e)
]

digits_before-IsDigits :
    (fuel n : ℕ) (digits : Bytes) → IsDigits digits → IsDigits (digits_before fuel n digits)
unfolding digits_before
digits_before-IsDigits zero n digits h = h
digits_before-IsDigits (suc fuel) n digits h =
    let d : is_ascii_digit (48 + n % 10) ≡ true = ground arith in
    elim (Bool-cases (ltb n 10)) [
      | inl q ↦ rw q (d, h)
      | inr q ↦ rw q (digits_before-IsDigits fuel (n / 10) ((48 + n % 10) ∷ digits) (d, h))
    ]

digits_before-not_empty : (fuel n c : ℕ) (cs : Bytes) → digits_before fuel n (c ∷ cs) ≢ []
unfolding digits_before
digits_before-not_empty zero n c cs = λ q. absurd (cc)
digits_before-not_empty (suc fuel) n c cs = elim (Bool-cases (ltb n 10)) [
  | inl q ↦ rw q (λ e. absurd (cc))
  | inr q ↦ rw q (digits_before-not_empty fuel (n / 10) (48 + n % 10) (c ∷ cs))
]

decimal-not_empty : (n : ℕ) → decimal n ≢ []
unfolding decimal digits_before
decimal-not_empty n = elim (Bool-cases (ltb n 10)) [
  | inl q ↦ rw q (λ e. absurd (cc))
  | inr q ↦ rw q (digits_before-not_empty 19 (n / 10) (48 + n % 10) [])
]

-- A number below the limit of its type is denoted by its digits.
pub decimal-Denotes : (n bound : ℕ) → n < bound → bound ≤ 2 ^ 64 → Denotes bound (decimal n) n
unfolding decimal
decimal-Denotes n bound h b = record {
  not_empty = decimal-not_empty n;
  digits = digits_before-IsDigits 20 n [] tt;
  value = value_from-digits_before 20 n [] (omega arith);
  fits = h;
}

pub digits-IsFree : (sep : ℕ) (b : Bytes) → is_ascii_digit sep ≡ false → IsDigits b → IsFree sep b
digits-IsFree sep [] h d = tt
digits-IsFree sep (c ∷ cs) h d = (ground arith, digits-IsFree sep cs h d.1)
