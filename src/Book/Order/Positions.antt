-- ===== src/Book/Order/Positions.antt =====
-- Where the order ids stand in a side of the book after an insertion, a removal and a drain.
use native.Mathlib.Nat.{zero-add}
use market_data_v.Common.{
  ℕ, zero, suc, ◌+◌, ◌<◌, ◌≡◌, refl, Option, none, some, List, [], ◌∷◌, ◌++◌, Bytes, ltb, ◌==◌,
  if◌then◌else◌, length, take, drop, arith,
}
use market_data_v.Enums.{Side, buy, sell, side_eq}
use market_data_v.Types.{BookEntry}
use market_data_v.Book.Order.{OrderBook, vec, set_vec, insert_at, remove_at, id_at}

pub id_at_bound : (xs : List BookEntry) (i : ℕ) {id : Bytes} → id_at xs i ≡ some id → i < length xs
id_at_bound [] i e = cc
id_at_bound (x ∷ xs) zero e = omega arith
id_at_bound (x ∷ xs) (suc i) e = omega (arith, id_at_bound xs i e)

pub id_at-append :
    (xs : List BookEntry) (x : BookEntry) (j : ℕ)
    → id_at (xs ++ (x ∷ [])) j
      ≡ (if ltb j (length xs) then id_at xs j else if j == length xs then x.order_id else none)
id_at-append [] x zero = refl
id_at-append [] x (suc j) = ground arith
id_at-append (y ∷ xs) x zero = ground arith
id_at-append (y ∷ xs) x (suc j) = ground (arith, id_at-append xs x j)

abbrev pub inserted : Option Bytes → ℕ → ℕ → List BookEntry → Option Bytes
inserted o i zero xs = if i == 0 then o else id_at xs 0
inserted o i (suc j) xs =
    if ltb (suc j) i then id_at xs (suc j) else if suc j == i then o else id_at xs j

pub id_at-insert_at :
    (i : ℕ) (x : BookEntry) (xs : List BookEntry) (j : ℕ)
    → i < length xs
    → id_at (insert_at i x xs) j ≡ inserted x.order_id i j xs
id_at-insert_at i x [] j h = absurd (omega arith)
id_at-insert_at zero x (y ∷ xs) zero h = refl
id_at-insert_at zero x (y ∷ xs) (suc j) h = ground arith
id_at-insert_at (suc i) x (y ∷ xs) zero h = ground arith
id_at-insert_at (suc zero) x (y ∷ []) (suc j) h = absurd (omega arith)
id_at-insert_at (suc i) x (y ∷ xs) (suc zero) h =
    ground (arith, id_at-insert_at i x xs zero (omega arith))
id_at-insert_at (suc i) x (y ∷ xs) (suc (suc j)) h =
    ground (arith, id_at-insert_at i x xs (suc j) (omega arith))

pub id_at-remove_at :
    (i : ℕ) (xs : List BookEntry) (j : ℕ)
    → id_at (remove_at i xs) j ≡ (if ltb j i then id_at xs j else id_at xs (suc j))
id_at-remove_at zero [] j = ground arith
id_at-remove_at zero (x ∷ xs) j = ground arith
id_at-remove_at (suc i) [] j = ground arith
id_at-remove_at (suc i) (x ∷ xs) zero = ground arith
id_at-remove_at (suc i) (x ∷ xs) (suc j) = ground (arith, id_at-remove_at i xs j)

pub id_at-drop : (n : ℕ) (xs : List BookEntry) (j : ℕ) → id_at (drop n xs) j ≡ id_at xs (n + j)
id_at-drop zero xs j = rw zero-add
id_at-drop (suc n) [] j = refl
id_at-drop (suc n) (x ∷ xs) j =
    let e : suc n + j ≡ suc (n + j) = omega arith in rw e (id_at-drop n xs j)

pub id_at-take : (n : ℕ) (xs : List BookEntry) (j : ℕ) → j < n → id_at (take n xs) j ≡ id_at xs j
id_at-take zero xs j h = absurd (omega arith)
id_at-take (suc n) [] j h = refl
id_at-take (suc n) (x ∷ xs) zero h = refl
id_at-take (suc n) (x ∷ xs) (suc j) h = id_at-take n xs j (omega arith)

pub vec-set_vec :
    (b : OrderBook) (s t : Side) (v : List BookEntry)
    → vec (set_vec b s v) t ≡ (if side_eq s t then v else vec b t)
vec-set_vec b buy buy v = refl
vec-set_vec b buy sell v = refl
vec-set_vec b sell buy v = refl
vec-set_vec b sell sell v = refl
