-- ===== src/Book/Order/Complete.antt =====
-- With order ids that no other order in the book carries, the index is complete: it knows where
-- every order with an id stands.

use market_data_v.Common.{
  ℕ, ◌+◌, min, ◌≡◌, none, some, Bytes, bytes_keys, Bool-cases, inl, inr, ◌⊎◌, leb, leb→le, length,
  arith,
}
use market_data_v.Enums.{buy, sell}
use market_data_v.Types.{BookEntry, BookDelete, single, prefix_inclusive, clear_all, BookOp}
use market_data_v.Book.Order.{default, OrderBook, vec, id_at, take_out, update, delete, apply}
use market_data_v.Book.Order.Positions.{id_at_bound}
use market_data_v.Book.Order.Index.{index_get}
use market_data_v.Book.Order.Lookup.{IsComplete}
use market_data_v.Book.Order.Added.{IsFresh, add-IsComplete}
use market_data_v.Book.Order.Removed.{take_out-IsComplete, take_out-IsFresh, drained-IsComplete}

pub delete-IsComplete : (d : BookDelete) (b : OrderBook) → IsComplete b → IsComplete (delete d b)
unfolding delete
delete-IsComplete (single side pos) b h = elim (Bool-cases (leb (length (vec b side)) pos)) [
  | inl e ↦ rw e h
  | inr e ↦ rw e (take_out-IsComplete side pos b h)
]
delete-IsComplete (prefix_inclusive side pos) b h =
    drained-IsComplete (min (pos + 1) (length (vec b side))) b h side
delete-IsComplete clear_all b h = record { at = elim [ buy ↦ λ i id e. cc | sell ↦ λ i id e. cc ] }

-- The id of an added order is new to the book; an update may keep the id of the order it replaces.
abbrev pub HasFreshId : BookOp → OrderBook → Type 0
HasFreshId (BookOp.add x) b = IsFresh x.order_id b
HasFreshId (BookOp.update old_pos x) b =
    (id : Bytes)
    → x.order_id ≡ some id
    → (index_get b id ≡ none) ⊎ (id_at (vec b x.side) old_pos ≡ some id)
HasFreshId (BookOp.delete d) b = Unit
HasFreshId BookOp.end_of_initial b = Unit

pub update-IsComplete :
    (old_pos : ℕ) (x : BookEntry) (b : OrderBook)
    → HasFreshId (BookOp.update old_pos x) b
    → IsComplete b
    → IsComplete (update old_pos x b)
unfolding update
update-IsComplete old_pos x b fresh h = elim (Bool-cases (leb (length (vec b x.side)) old_pos)) [
  | inl e ↦ rw e (
      add-IsComplete x b
        (λ id q. elim (fresh id q) [
          | inl n ↦ n
          | inr n ↦ absurd (
              omega (
                arith,
                id_at_bound (vec b x.side) old_pos n,
                leb→le (length (vec b x.side)) old_pos e,
              ))
        ])
        h)
  | inr e ↦ rw e (
      add-IsComplete x (take_out x.side old_pos b)
        (λ id q. take_out-IsFresh x.side old_pos b id (fresh id q))
        (take_out-IsComplete x.side old_pos b h))
]

-- An operation whose order id is new to the book, or for an update that of the order it replaces, keeps
-- the index complete: every order with an id, on either side, is found by the index at exactly the
-- position where it stands.
pub apply-IsComplete :
    (op : BookOp) (b : OrderBook) → HasFreshId op b → IsComplete b → IsComplete (apply op b).0
unfolding apply
apply-IsComplete (BookOp.add x) b f h = add-IsComplete x b f h
apply-IsComplete (BookOp.update old_pos x) b f h = update-IsComplete old_pos x b f h
apply-IsComplete (BookOp.delete d) b f h = delete-IsComplete d b h
apply-IsComplete BookOp.end_of_initial b f h = record {
  at = elim [ buy ↦ λ i id e. h.at buy i id e | sell ↦ λ i id e. h.at sell i id e ];
}

pub default-IsComplete : IsComplete default
unfolding default
default-IsComplete = record { at = elim [ buy ↦ λ i id e. cc | sell ↦ λ i id e. cc ] }
