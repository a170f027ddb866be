-- ===== src/Tests/Books.antt =====
-- The book on concrete operations, and its theorems there.
use market_data_v.Common.{
  bytes_keys, bytes_eq, ◌≡◌, ◌&&◌, some, Bytes, codes, length, if◌then◌else◌,
}
use market_data_v.Common.HashMap
use market_data_v.Enums.{buy}
use market_data_v.Types.{BookOp}
use market_data_v.Book.Order
use market_data_v.Book.Order.{OrderBook, default, vec, id_at}
use market_data_v.Book.Order.Index.{IsSound}
use market_data_v.Book.Order.Sound.{default-IsSound, apply_op-IsSound}
use market_data_v.Book.Order.Lookup.{IsComplete}
use market_data_v.Book.Order.Complete.{default-IsComplete, apply-IsComplete}
use market_data_v.Book.Engine.{BookEngine, new, apply, is_allowed}
use market_data_v.Book.Engine.Refine.{book_of, stepped, apply-book_of, new-book_of}
use market_data_v.Tests.Data.{order, petr, sum_hasher}

apply_op-IsSound_example : IsSound (Order.apply (BookOp.add (order buy 0 (codes "X1"))) default).0
apply_op-IsSound_example =
    apply_op-IsSound (BookOp.add (order buy 0 (codes "X1"))) default default-IsSound

apply-IsComplete_example :
    IsComplete (Order.apply (BookOp.add (order buy 0 (codes "X1"))) default).0
unfolding default
apply-IsComplete_example =
    apply-IsComplete (BookOp.add (order buy 0 (codes "X1"))) default (λ id q. HashMap.get-empty id)
      default-IsComplete

apply-book_of_example :
    (e' : BookEngine) × (apply (new 4) petr BookOp.end_of_initial
      ≡ some (e', is_allowed (new 4) petr && (stepped (new 4) petr BookOp.end_of_initial).1))
    × ((u : Bytes)
        → book_of e' u ≡ (
            if is_allowed (new 4) petr && bytes_eq petr u
            then some (stepped (new 4) petr BookOp.end_of_initial).0
            else book_of (new 4) u))
    × (length e'.shards ≡ length (new 4).shards)
    × (e'.allowed ≡ (new 4).allowed)
    × (e' ≡ (if is_allowed (new 4) petr then e' else new 4))
apply-book_of_example = apply-book_of (new 4) petr BookOp.end_of_initial (new-book_of 4).0
