-- ===== src/Memchr/Search.antt =====
-- The first position of a list at which a test holds: by its properties, and by a plain scan.
use mathlib.Core.Option
use market_data_v.Common.{
  ℕ, zero, suc, ◌<◌, ◌≡◌, refl, ap, Bool, true, false, Option, none, some, [], ◌∷◌, Bytes,
  Bool-cases, inl, inr, get_elem?, if◌then◌else◌, arith,
}

abbrev pub IsFirst : (ℕ → Bool) → Bytes → Option ℕ → Type 0
IsFirst p h none = (j x : ℕ) → get_elem? h j ≡ some x → p x ≡ false
IsFirst p h (some i) =
    ((x : ℕ) × (get_elem? h i ≡ some x) × (p x ≡ true))
    × ((j x : ℕ) → j < i → get_elem? h j ≡ some x → p x ≡ false)

unfoldable pub first_index : (ℕ → Bool) → Bytes → Option ℕ
first_index p [] = none
first_index p (x ∷ xs) = if p x then some 0 else Option.map suc (first_index p xs)

IsFirst-cons :
    (p : ℕ → Bool) (x : ℕ) (xs : Bytes) (o : Option ℕ)
    → p x ≡ false
    → IsFirst p xs o
    → IsFirst p (x ∷ xs) (Option.map suc o)
IsFirst-cons p x xs none e h = elim [ zero ↦ λ y q. ground arith | suc j ↦ λ y q. h j y q ]
IsFirst-cons p x xs (some i) e h =
    (h.0, elim [ zero ↦ λ y l q. ground arith | suc j ↦ λ y l q. h.1 j y (omega arith) q ])

pub first_index-IsFirst : (p : ℕ → Bool) (h : Bytes) → IsFirst p h (first_index p h)
unfolding first_index
first_index-IsFirst p [] = λ j x e. cc
first_index-IsFirst p (x ∷ xs) = elim (Bool-cases (p x)) [
  | inl e ↦ rw e ((x, refl, e), λ j y l q. absurd (omega arith))
  | inr e ↦ rw e (IsFirst-cons p x xs (first_index p xs) e (first_index-IsFirst p xs))
]

IsFirst-tail :
    (p : ℕ → Bool) (x : ℕ) (xs : Bytes) (o : Option ℕ)
    → p x ≡ false
    → IsFirst p (x ∷ xs) o
    → (o' : Option ℕ) × (o ≡ Option.map suc o') × IsFirst p xs o'
IsFirst-tail p x xs none e h = (none, refl, λ j y q. h (suc j) y q)
IsFirst-tail p x xs (some zero) e h = absurd (let (y, q, t) = h.0 in ground arith)
IsFirst-tail p x xs (some (suc i)) e h =
    (some i, refl, (h.0, λ j y l q. h.1 (suc j) y (omega arith) q))

IsFirst-head :
    (p : ℕ → Bool) (x : ℕ) (xs : Bytes) (o : Option ℕ)
    → p x ≡ true
    → IsFirst p (x ∷ xs) o
    → o ≡ some 0
IsFirst-head p x xs none e h = absurd (let q = h 0 x refl in ground arith)
IsFirst-head p x xs (some zero) e h = refl
IsFirst-head p x xs (some (suc i)) e h = absurd (let q = h.1 0 x (omega arith) refl in ground arith)

-- The properties determine the position.
pub IsFirst-unique : (p : ℕ → Bool) (h : Bytes) (o : Option ℕ) → IsFirst p h o → o ≡ first_index p h
unfolding first_index
IsFirst-unique p [] none f = refl
IsFirst-unique p [] (some i) f = absurd (let (y, q, t) = f.0 in cc)
IsFirst-unique p (x ∷ xs) o f = elim (Bool-cases (p x)) [
  | inl e ↦ rw e (IsFirst-head p x xs o e f)
  | inr e ↦
      let (o', q, g) = IsFirst-tail p x xs o e f in
      rw (e, q) (ap (λ t. Option.map suc t) (IsFirst-unique p xs o' g))
]
