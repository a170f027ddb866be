-- ===== src/Common/Text.antt =====
-- Texts: the decimal digits of a number, and the pieces of a text between separators.
use Prim.Native.Nat.{ℕ, zero, suc, ◌+◌, ◌/◌, ◌%◌}
use mathlib.Core.Path.{◌≡◌, refl, ap}
use mathlib.Core.Bool.{true, false}
use mathlib.Core.List.{List, [], ◌∷◌, ◌++◌}
use native.Mathlib.Omega.{arith}
use market_data_v.Common.Tests.{◌==◌, ltb, if◌then◌else◌, Bytes}
use market_data_v.Common.Lists.{All}

-- The digits of `n`, put in front of `digits`; one unit of fuel for each digit.
unfoldable pub digits_before : ℕ → ℕ → Bytes → Bytes
digits_before zero n digits = digits
digits_before (suc fuel) n digits =
    let behind = (48 + n % 10) ∷ digits in
    let more = digits_before fuel (n / 10) behind in if ltb n 10 then behind else more

-- `{n}` in a format, for an integer of at most twenty digits.
unfoldable pub decimal : ℕ → Bytes
unfolding digits_before
decimal n = digits_before 20 n []

-- No byte of the text is the separator.
abbrev pub IsFree : ℕ → Bytes → Type 0
IsFree sep = All (λ c. (c == sep) ≡ false)

-- The first piece and the others.
unfoldable pub split_on : ℕ → Bytes → Bytes × List Bytes
split_on sep [] = ([], [])
split_on sep (c ∷ cs) =
    let (t, ts) = split_on sep cs in if c == sep then ([], t ∷ ts) else (c ∷ t, ts)

unfoldable pub pieces : ℕ → Bytes → List Bytes
pieces sep b = let (t, ts) = split_on sep b in t ∷ ts

split_on_free : (sep : ℕ) (t : Bytes) → IsFree sep t → split_on sep t ≡ (t, [])
unfolding split_on
split_on_free sep [] h = refl
split_on_free sep (c ∷ cs) h = rw (h.0, split_on_free sep cs h.1) refl

split_on-append :
    (sep : ℕ) (t rest : Bytes)
    → IsFree sep t
    → split_on sep (t ++ (sep ∷ rest)) ≡ (t, pieces sep rest)
unfolding split_on pieces
split_on-append sep [] rest h = let e : (sep == sep) ≡ true = ground arith in rw e refl
split_on-append sep (c ∷ cs) rest h = rw (h.0, split_on-append sep cs rest h.1) refl

pub pieces_free : (sep : ℕ) (t : Bytes) → IsFree sep t → pieces sep t ≡ t ∷ []
unfolding pieces
pieces_free sep t h = ap (λ (x : Bytes × List Bytes). x.0 ∷ x.1) (split_on_free sep t h)

pub pieces-append :
    (sep : ℕ) (t rest : Bytes) → IsFree sep t → pieces sep (t ++ (sep ∷ rest)) ≡ t ∷ pieces sep rest
unfolding pieces
pieces-append sep t rest h =
    ap (λ (x : Bytes × List Bytes). x.0 ∷ x.1) (split_on-append sep t rest h)
