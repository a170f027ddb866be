-- ===== src/Book/Order.antt =====
-- crates/market-engine/src/book/order_book.rs: the book of one ticker.
-- Positions are `u32` values widened to `usize`, so `pos + 1` does not wrap. `isize` arithmetic on
-- an index is written out: `i + by` for a shift down the book, `i - by` with its test for a shift up.
pub mod Positions
pub mod Index
pub mod Placed
pub mod Sound
pub mod Lookup
pub mod Added
pub mod Removed
pub mod Complete
use market_data_v.Common.{
  bytes_keys, ℕ, zero, suc, ◌+◌, ◌-◌, min, Bool, true, false, Option, none, some, List, [], ◌∷◌,
  ◌++◌, Bytes, ◌&&◌, leb, if◌then◌else◌, length, get_elem?, take, drop,
}
use market_data_v.Common.HashMap
use market_data_v.Common.HashMap.{HashMap}
use market_data_v.Enums.{Side, buy, sell, side_eq}
use market_data_v.Types.{BookEntry, BookDelete, BookOp, single, prefix_inclusive, clear_all}

pub record OrderBookStats : Type 0 where
  pub bids : ℕ
  pub asks : ℕ

pub record OrderBook : Type 0 where
  pub bids : List BookEntry
  pub asks : List BookEntry
  pub by_order_id : HashMap Bytes (Side × ℕ)
  pub initialised : Bool

unfoldable pub default : OrderBook
default = record { bids = []; asks = []; by_order_id = HashMap.empty; initialised = false }

-- `vec_mut`, read
abbrev pub vec : OrderBook → Side → List BookEntry
vec b buy = b.bids
vec b sell = b.asks

-- `vec_mut`, written
abbrev pub set_vec : OrderBook → Side → List BookEntry → OrderBook
set_vec b buy v = record b { bids = v }
set_vec b sell v = record b { asks = v }

-- `Vec::insert` at a position that is at most the length, and `Vec::push`.
abbrev pub insert_at {ℓ} : {A : Type ℓ} → ℕ → A → List A → List A
insert_at i x xs = take i xs ++ (x ∷ drop i xs)

-- `Vec::remove` at a position below the length.
abbrev pub remove_at {ℓ} : {A : Type ℓ} → ℕ → List A → List A
remove_at zero [] = []
remove_at zero (x ∷ xs) = xs
remove_at (suc i) [] = []
remove_at (suc i) (x ∷ xs) = x ∷ remove_at i xs

-- The index of one value under `shift_indices_after(side, from, 1)`.
abbrev pub moved_down : Side → ℕ → Side → ℕ → ℕ
moved_down side from s i = if side_eq s side && leb from i then suc i else i

-- The same under `shift_indices_after(side, from, -by)`: a negative result is not stored.
abbrev pub moved_up : Side → ℕ → ℕ → Side → ℕ → ℕ
moved_up side from by s i = if side_eq s side && leb from i && leb by i then i - by else i

abbrev pub reindex : (Side → ℕ → ℕ) → Side × ℕ → Side × ℕ
reindex f p = (p.0, f p.0 p.1)

abbrev pub shift_values : (Side → ℕ → ℕ) → OrderBook → OrderBook
shift_values f b = record b { by_order_id = HashMap.map_values (reindex f) b.by_order_id }

abbrev pub shift_indices_down : Side → ℕ → OrderBook → OrderBook
shift_indices_down side from b = shift_values (moved_down side from) b

abbrev pub shift_indices_up : Side → ℕ → ℕ → OrderBook → OrderBook
shift_indices_up side from by b = shift_values (moved_up side from by) b

abbrev pub index_insert : Option Bytes → Side × ℕ → OrderBook → OrderBook
index_insert none p b = b
index_insert (some id) p b = record b { by_order_id = HashMap.insert id p b.by_order_id }

abbrev pub index_remove : Option Bytes → OrderBook → OrderBook
index_remove none b = b
index_remove (some id) b = record b { by_order_id = HashMap.remove id b.by_order_id }

-- `if pos >= vec.len() { push } else { insert; shift_indices_after(side, pos, 1) }`
abbrev pub place : Side → ℕ → BookEntry → OrderBook → OrderBook
place side pos entry b =
    if leb (length (vec b side)) pos
    then set_vec b side (vec b side ++ (entry ∷ []))
    else shift_indices_down side pos (set_vec b side (insert_at pos entry (vec b side)))

unfoldable pub add : BookEntry → OrderBook → OrderBook
add entry b =
    let b' = place entry.side entry.position entry b in
    index_insert entry.order_id (entry.side, min entry.position (length (vec b' entry.side) - 1)) b'

abbrev pub id_at : List BookEntry → ℕ → Option Bytes
id_at [] i = none
id_at (x ∷ xs) zero = x.order_id
id_at (x ∷ xs) (suc i) = id_at xs i

-- `vec.remove(pos)`, the shift by -1 and the removal of the entry's id.
abbrev pub take_out : Side → ℕ → OrderBook → OrderBook
take_out side pos b =
    index_remove (id_at (vec b side) pos)
      (shift_indices_up side pos 1 (set_vec b side (remove_at pos (vec b side))))

unfoldable pub update : ℕ → BookEntry → OrderBook → OrderBook
unfolding add
update old_pos entry b =
    if leb (length (vec b entry.side)) old_pos
    then add entry b
    else add entry (take_out entry.side old_pos b)

-- `for e in &drained { self.by_order_id.remove(id) }`
abbrev pub remove_ids : List BookEntry → OrderBook → OrderBook
remove_ids [] b = b
remove_ids (e ∷ es) b = remove_ids es (index_remove e.order_id b)

unfoldable pub delete : BookDelete → OrderBook → OrderBook
delete (single side pos) b = if leb (length (vec b side)) pos then b else take_out side pos b
delete (prefix_inclusive side pos) b =
    let end = min (pos + 1) (length (vec b side)) in
    shift_indices_up side 0 end
      (remove_ids (take end (vec b side)) (set_vec b side (drop end (vec b side))))
delete clear_all b = record b { bids = []; asks = []; by_order_id = HashMap.empty }

unfoldable pub apply_op : BookOp → OrderBook → OrderBook
unfolding add update delete
apply_op (BookOp.add entry) b = add entry b
apply_op (BookOp.update old_pos entry) b = update old_pos entry b
apply_op (BookOp.delete d) b = delete d b
apply_op BookOp.end_of_initial b = record b { initialised = true }

-- The book after the operation, and `self.initialised`.
unfoldable pub apply : BookOp → OrderBook → OrderBook × Bool
unfolding apply_op
apply op b = let b' = apply_op op b in (b', b'.initialised)

unfoldable pub stats : OrderBook → OrderBookStats
stats b = record { bids = length b.bids; asks = length b.asks }

unfoldable pub best_bid : OrderBook → Option BookEntry
best_bid b = get_elem? b.bids 0

unfoldable pub best_ask : OrderBook → Option BookEntry
best_ask b = get_elem? b.asks 0
