-- ===== src/Client/Handshake/Search.antt =====
-- The first occurrence of a text in another, when more bytes follow.
use market_data_v.Common.{
  ℕ, zero, suc, ◌+◌, ◌≤◌, true, ◌&&◌, ◌==◌, Option, none, some, [], ◌∷◌, ◌++◌, Bytes, drop, length,
  ◌≡◌, refl, ap, ◌∙◌, inl, inr, Bool-cases, Option-cases, arith,
}
use market_data_v.Parser.{starts_with}
use market_data_v.Client.Handshake.{first_match}

starts_with-append :
    (n xs ys : Bytes) → length n ≤ length xs → starts_with n (xs ++ ys) ≡ starts_with n xs
unfolding starts_with
starts_with-append [] xs ys le = refl
starts_with-append (p ∷ n) [] ys le = absurd (omega arith)
starts_with-append (p ∷ n) (x ∷ xs) ys le =
    ap (λ b. x == p && b) (starts_with-append n xs ys (omega arith))

starts_with-length : (n xs : Bytes) → starts_with n xs ≡ true → length n ≤ length xs
unfolding starts_with
starts_with-length [] xs e = omega arith
starts_with-length (p ∷ n) [] e = ground arith
starts_with-length (p ∷ n) (x ∷ xs) e = elim (Bool-cases (x == p)) [
  | inl t ↦ let l = starts_with-length n xs (rw t at e) in omega arith
  | inr t ↦ ground arith
]

pub first_match-length :
    (n xs : Bytes) (i : ℕ) → first_match n xs ≡ some i → i + length n ≤ length xs
unfolding first_match
first_match-length n [] i e = elim (Bool-cases (starts_with n [])) [
  | inl t ↦ let l = starts_with-length n [] t in ground arith
  | inr t ↦ ground arith
]
first_match-length n (x ∷ xs) i e = elim (Bool-cases (starts_with n (x ∷ xs))) [
  | inl t ↦ let l = starts_with-length n (x ∷ xs) t in ground arith
  | inr t ↦ elim (Option-cases (first_match n xs)) [
    | inl m ↦ ground arith
    | inr (j, m) ↦ let l = first_match-length n xs j m in ground arith
  ]
]

-- What stands behind the needle's first occurrence.
abbrev pub after : Bytes → Bytes → Option Bytes
after needle text = elim (first_match needle text) [
  | none ↦ none
  | some i ↦ some (drop (i + length needle) text)
]

-- A needle that has been found is found at the same position when more bytes follow.
first_match-append :
    (n xs ys : Bytes) (i : ℕ) → first_match n xs ≡ some i → first_match n (xs ++ ys) ≡ some i
unfolding first_match starts_with
first_match-append [] [] [] i e = e
first_match-append [] [] (y ∷ ys) i e = e
first_match-append (p ∷ n) [] ys i e = ground arith
first_match-append n (x ∷ xs) ys i e =
    let l = first_match-length n (x ∷ xs) i e in
    let same = starts_with-append n (x ∷ xs) ys (omega arith) in
    elim (Bool-cases (starts_with n (x ∷ xs))) [
      | inl t ↦ rw (same ∙ t) (rw t at e)
      | inr t ↦ rw (same ∙ t) (elim (Option-cases (first_match n xs)) [
        | inl m ↦ ground arith
        | inr (j, m) ↦ rw (first_match-append n xs ys j m) (rw (t, m) at e)
      ])
    ]

drop-append : (k : ℕ) (xs ys : Bytes) → k ≤ length xs → drop k (xs ++ ys) ≡ drop k xs ++ ys
drop-append zero xs ys l = refl
drop-append (suc k) [] ys l = absurd (omega arith)
drop-append (suc k) (x ∷ xs) ys l = drop-append k xs ys (omega arith)

pub after-append :
    (n xs ys : Bytes) (i : ℕ)
    → first_match n xs ≡ some i
    → after n (xs ++ ys) ≡ some (drop (i + length n) xs ++ ys)
after-append n xs ys i e =
    rw (first_match-append n xs ys i e, after)
      (ap some (drop-append (i + length n) xs ys (first_match-length n xs i e)))
