-- ===== src/Book/Order/Lookup.antt =====
-- What the index of the book finds after each change of it.

use market_data_v.Common.{
  ℕ, ◌≡◌, ◌≢◌, refl, Option, none, some, Bytes, bytes_eq_iff, bytes_keys, arith,
}
use market_data_v.Common.HashMap.{get-insert, get-remove}
use market_data_v.Enums.{Side}
use market_data_v.Book.Order.{OrderBook, vec, id_at, shift_values, index_insert, index_remove}
use market_data_v.Book.Order.Index.{index_get, index_get-shift_values}

-- The index gives the position of every order that carries an id (so that no two carry the same).
pub record IsComplete (b : OrderBook) : Type 0 where
  pub at :
      (s : Side) (i : ℕ) (id : Bytes) → id_at (vec b s) i ≡ some id → index_get b id ≡ some (s, i)

pub index_insert_self :
    (o : Option Bytes) (id : Bytes) (p : Side × ℕ) (b : OrderBook)
    → o ≡ some id
    → index_get (index_insert o p b) id ≡ some p
index_insert_self none id p b h = cc
index_insert_self (some j) id p b h =
    ground (arith, get-insert j id p b.by_order_id, bytes_eq_iff j id)

pub index_insert_other :
    (o : Option Bytes) (id : Bytes) (p : Side × ℕ) (b : OrderBook)
    → o ≢ some id
    → index_get (index_insert o p b) id ≡ index_get b id
index_insert_other none id p b h = refl
index_insert_other (some j) id p b h =
    ground (arith, get-insert j id p b.by_order_id, bytes_eq_iff j id)

pub index_remove_other :
    (o : Option Bytes) (id : Bytes) (b : OrderBook)
    → o ≢ some id
    → index_get (index_remove o b) id ≡ index_get b id
index_remove_other none id b h = refl
index_remove_other (some j) id b h =
    ground (arith, get-remove j id b.by_order_id, bytes_eq_iff j id)

pub index_remove_self :
    (o : Option Bytes) (id : Bytes) (b : OrderBook)
    → o ≡ some id
    → index_get (index_remove o b) id ≡ none
index_remove_self none id b h = cc
index_remove_self (some j) id b h = ground (arith, get-remove j id b.by_order_id, bytes_eq_iff j id)

pub index_remove-none :
    (o : Option Bytes) (id : Bytes) (b : OrderBook)
    → index_get b id ≡ none
    → index_get (index_remove o b) id ≡ none
index_remove-none none id b h = h
index_remove-none (some j) id b h = ground (arith, get-remove j id b.by_order_id)

pub index_get-shifted :
    (f : Side → ℕ → ℕ) (b : OrderBook) (id : Bytes) (s : Side) (j i : ℕ)
    → index_get b id ≡ some (s, j)
    → f s j ≡ i
    → index_get (shift_values f b) id ≡ some (s, i)
index_get-shifted f b id s j i e q = rw (index_get-shift_values f b id, e, q)
