-- ===== src/Book/Order/Index.antt =====
-- The index `by_order_id` against the two sides of the book: every entry of the index points at an
-- order that carries the id.
use mathlib.Core.Option
use market_data_v.Common.{
  ℕ, zero, suc, ◌-◌, ◌<◌, ◌≡◌, ◌≢◌, refl, sym, ap, ◌∙◌, true, false, ◌&&◌, Option, none, some, List,
  [], ◌∷◌, ◌++◌, Bytes, bytes_keys, inl, inr, ◌⊎◌, leb, if◌then◌else◌, length, arith,
}
use market_data_v.Common.HashMap
use market_data_v.Common.HashMap.{get-insert, get-remove, get-map_values, get-empty}
use market_data_v.Enums.{Side, buy, sell, side_eq}
use market_data_v.Types.{BookEntry}
use market_data_v.Book.Order.{
  OrderBook, vec, set_vec, insert_at, remove_at, id_at, reindex, shift_values, index_insert,
  index_remove,
}
use market_data_v.Book.Order.Positions.{id_at_bound, id_at-append, id_at-insert_at, id_at-remove_at}

abbrev pub index_get : OrderBook → Bytes → Option (Side × ℕ)
index_get b id = HashMap.get b.by_order_id id

-- The order at the position that the index gives for an id carries that id.
pub record IsSound (b : OrderBook) : Type 0 where
  pub at :
      (id : Bytes) (s : Side) (i : ℕ) → index_get b id ≡ some (s, i) → id_at (vec b s) i ≡ some id

pub mapped :
    (f : Side → ℕ → ℕ) (o : Option (Side × ℕ)) {s : Side} {i : ℕ}
    → Option.map (reindex f) o ≡ some (s, i)
    → (j : ℕ) × (o ≡ some (s, j)) × (f s j ≡ i)
mapped f none e = cc
mapped f (some (t, j)) {s} {i} e =
    let q : t ≡ s = cc in
    let r : f t j ≡ i = cc in (j, ap (λ u. some (u, j)) q, ap (λ u. f u j) (sym q) ∙ r)

pub index_get-shift_values :
    (f : Side → ℕ → ℕ) (b : OrderBook) (id : Bytes)
    → index_get (shift_values f b) id ≡ Option.map (reindex f) (index_get b id)
index_get-shift_values f b id = get-map_values (reindex f) id b.by_order_id

pub index_get-set_vec :
    (b : OrderBook) (s : Side) (v : List BookEntry) (id : Bytes)
    → index_get (set_vec b s v) id ≡ index_get b id
index_get-set_vec b buy v id = refl
index_get-set_vec b sell v id = refl

pub vec-shift_values :
    (f : Side → ℕ → ℕ) (b : OrderBook) (s : Side) → vec (shift_values f b) s ≡ vec b s
vec-shift_values f b buy = refl
vec-shift_values f b sell = refl

pub vec-index_insert :
    (o : Option Bytes) (p : Side × ℕ) (b : OrderBook) (s : Side)
    → vec (index_insert o p b) s ≡ vec b s
vec-index_insert none p b s = refl
vec-index_insert (some id) p b buy = refl
vec-index_insert (some id) p b sell = refl

pub vec-index_remove :
    (o : Option Bytes) (b : OrderBook) (s : Side) → vec (index_remove o b) s ≡ vec b s
vec-index_remove none b s = refl
vec-index_remove (some id) b buy = refl
vec-index_remove (some id) b sell = refl

pub insert_keeps :
    (p j : ℕ) (x : BookEntry) (xs : List BookEntry) (id : Bytes)
    → p < length xs
    → id_at xs j ≡ some id
    → id_at (insert_at p x xs) (if leb p j then suc j else j) ≡ some id
insert_keeps p zero x xs id h e =
    ground (arith, id_at-insert_at p x xs 0 h, id_at-insert_at p x xs 1 h)
insert_keeps p (suc j) x xs id h e =
    ground (arith, id_at-insert_at p x xs (suc j) h, id_at-insert_at p x xs (suc (suc j)) h)

pub insert_new :
    (p : ℕ) (x : BookEntry) (xs : List BookEntry)
    → p < length xs
    → id_at (insert_at p x xs) p ≡ x.order_id
insert_new zero x xs h = ground (arith, id_at-insert_at 0 x xs 0 h)
insert_new (suc p) x xs h = ground (arith, id_at-insert_at (suc p) x xs (suc p) h)

pub append_keeps :
    (j : ℕ) (x : BookEntry) (xs : List BookEntry) (id : Bytes)
    → id_at xs j ≡ some id
    → id_at (xs ++ (x ∷ [])) j ≡ some id
append_keeps j x xs id e = ground (arith, id_at-append xs x j, id_at_bound xs j e)

pub append_new :
    (x : BookEntry) (xs : List BookEntry) → id_at (xs ++ (x ∷ [])) (length xs) ≡ x.order_id
append_new x xs = ground (arith, id_at-append xs x (length xs))

pub remove_keeps :
    (p j : ℕ) (xs : List BookEntry) (id : Bytes)
    → j ≢ p
    → id_at xs j ≡ some id
    → id_at (remove_at p xs) (if leb p j && leb 1 j then j - 1 else j) ≡ some id
remove_keeps p zero xs id h e = ground (arith, id_at-remove_at p xs 0)
remove_keeps p (suc j) xs id h e =
    let q : suc j - 1 ≡ j = omega arith in
    rw q (ground (arith, id_at-remove_at p xs j, id_at-remove_at p xs (suc j)))

pub side_eq_refl : (a : Side) → side_eq a a ≡ true
side_eq_refl buy = refl
side_eq_refl sell = refl

pub side_cases : (a b : Side) → (a ≡ b) ⊎ (side_eq a b ≡ false)
side_cases buy buy = inl refl
side_cases buy sell = inr refl
side_cases sell buy = inr refl
side_cases sell sell = inl refl

-- What a change of one side, with a shift of the index, does to one id: `c` is the changed book
-- before the shift.
pub moved_at :
    (b c : OrderBook) (side : Side) (v : List BookEntry) (f : Side → ℕ → ℕ) (id : Bytes)
    → ((t : Side) → vec c t ≡ (if side_eq side t then v else vec b t))
    → ((p : Side × ℕ) → index_get c id ≡ some p → index_get b id ≡ some p)
    → ((t : Side) (j : ℕ) → side_eq side t ≡ false → f t j ≡ j)
    → ((j : ℕ) → id_at (vec b side) j ≡ some id → id_at v (f side j) ≡ some id)
    → IsSound b
    → (s : Side) (i : ℕ) → index_get (shift_values f c) id ≡ some (s, i)
    → id_at (vec (shift_values f c) s) i ≡ some id
moved_at b c side v f id vecs same other keep h s i e =
    let (j, q, r) = mapped f (index_get c id) (sym (index_get-shift_values f c id) ∙ e) in
    let p : id_at (vec b s) j ≡ some id = h.at id s j (same (s, j) q) in
    rw (vec-shift_values f c s, vecs s)
      (elim (side_cases side s) [
        | inl m ↦
            let k : id_at v (f side j) ≡ some id = keep j (ap (λ t. id_at (vec b t) j) m ∙ p) in
            let w : f side j ≡ i = ap (λ t. f t j) m ∙ r in rw (← m, side_eq_refl side, ← w) k
        | inr m ↦ rw (m, ← r, other s j m) p
      ])
