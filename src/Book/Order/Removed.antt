-- ===== src/Book/Order/Removed.antt =====
-- Removed orders and a complete index.
use mathlib.Core.Option
use market_data_v.Common.{
  ℕ, suc, ◌+◌, ◌-◌, ◌<◌, ◌≡◌, ◌≢◌, refl, sym, ap, ◌∙◌, ◌&&◌, none, some, List, [], ◌∷◌, Bytes,
  bytes_keys, Bool-cases, inl, inr, ◌⊎◌, ltb, leb, if◌then◌else◌, take, drop, arith, length-take,
}
use market_data_v.Enums.{Side, buy, sell}
use market_data_v.Types.{BookEntry}
use market_data_v.Book.Order.{
  OrderBook, vec, set_vec, remove_at, id_at, reindex, moved_up, shift_indices_up, index_remove,
  take_out, remove_ids,
}
use market_data_v.Book.Order.Positions.{id_at_bound, id_at-remove_at, id_at-drop, id_at-take}
use market_data_v.Book.Order.Index.{
  index_get, index_get-shift_values, index_get-set_vec, vec-shift_values, vec-index_remove,
}
use market_data_v.Book.Order.Sound.{vec-remove_ids}
use market_data_v.Book.Order.Lookup.{
  IsComplete, index_remove_other, index_remove_self, index_remove-none, index_get-shifted,
}

pub remove_from :
    (p i : ℕ) (xs : List BookEntry) (id : Bytes)
    → id_at (remove_at p xs) i ≡ some id
    → (j : ℕ) × (j ≢ p) × (id_at xs j ≡ some id) × ((if leb p j && leb 1 j then j - 1 else j) ≡ i)
remove_from p i xs id e = elim (Bool-cases (ltb i p)) [
  | inl m ↦ (i, (λ q. absurd (ground arith)), ground (arith, id_at-remove_at p xs i), ground arith)
  | inr m ↦ (
    suc i,
    (λ q. absurd (ground arith)),
    ground (arith, id_at-remove_at p xs i),
    let q : suc i - 1 ≡ i = omega arith in rw q (ground arith),
  )
]

pub take_out_found :
    (side s : Side) (pos j i : ℕ) (b : OrderBook) (id : Bytes)
    → (id_at (vec b side) pos ≢ some id)
    → index_get b id ≡ some (s, j)
    → moved_up side pos 1 s j ≡ i
    → index_get (take_out side pos b) id ≡ some (s, i)
take_out_found side s pos j i b id ne e q =
    let v = remove_at pos (vec b side) in
    index_remove_other (id_at (vec b side) pos) id (shift_indices_up side pos 1 (set_vec b side v))
      ne
    ∙ index_get-shifted (moved_up side pos 1) (set_vec b side v) id s j i
        (index_get-set_vec b side v id ∙ e) q

pub take_out_at :
    (side s : Side) (pos i : ℕ) (b : OrderBook) (id : Bytes)
    → IsComplete b
    → id_at (vec (set_vec b side (remove_at pos (vec b side))) s) i ≡ some id
    → index_get (take_out side pos b) id ≡ some (s, i)
take_out_at buy buy pos i b id h e =
    let (j, ne, q, r) = remove_from pos i b.bids id e in
    take_out_found buy buy pos j i b id
      (λ k. ne (ground (arith, h.at buy pos id k, h.at buy j id q))) (h.at buy j id q) r
take_out_at sell sell pos i b id h e =
    let (j, ne, q, r) = remove_from pos i b.asks id e in
    take_out_found sell sell pos j i b id
      (λ k. ne (ground (arith, h.at sell pos id k, h.at sell j id q))) (h.at sell j id q) r
take_out_at buy sell pos i b id h e =
    take_out_found buy sell pos i i b id (λ k. ground (arith, h.at buy pos id k, h.at sell i id e))
      (h.at sell i id e) refl
take_out_at sell buy pos i b id h e =
    take_out_found sell buy pos i i b id (λ k. ground (arith, h.at sell pos id k, h.at buy i id e))
      (h.at buy i id e) refl

pub take_out-IsComplete :
    (side : Side) (pos : ℕ) (b : OrderBook) → IsComplete b → IsComplete (take_out side pos b)
take_out-IsComplete side pos b h = record {
  at = λ s i id e.
      let v = remove_at pos (vec b side) in
      let o = id_at (vec b side) pos in
      let m =
        vec-index_remove o (shift_indices_up side pos 1 (set_vec b side v)) s
        ∙ vec-shift_values (moved_up side pos 1) (set_vec b side v) s in
      take_out_at side s pos i b id h (ap (λ t. id_at t i) (sym m) ∙ e);
}

-- An id that the index does not know, or that the removed order carries, is unknown afterwards.
pub take_out-IsFresh :
    (side : Side) (pos : ℕ) (b : OrderBook) (id : Bytes)
    → (index_get b id ≡ none) ⊎ (id_at (vec b side) pos ≡ some id)
    → index_get (take_out side pos b) id ≡ none
take_out-IsFresh side pos b id (inl e) =
    let v = remove_at pos (vec b side) in
    index_remove-none (id_at (vec b side) pos) id (shift_indices_up side pos 1 (set_vec b side v)) (
      index_get-shift_values (moved_up side pos 1) (set_vec b side v) id
      ∙ ap (Option.map (reindex (moved_up side pos 1))) (index_get-set_vec b side v id ∙ e))
take_out-IsFresh side pos b id (inr e) =
    let v = remove_at pos (vec b side) in
    index_remove_self (id_at (vec b side) pos) id (shift_indices_up side pos 1 (set_vec b side v)) e

pub remove_ids_other :
    (es : List BookEntry) (b : OrderBook) (id : Bytes)
    → ((k : ℕ) → id_at es k ≢ some id)
    → index_get (remove_ids es b) id ≡ index_get b id
remove_ids_other [] b id h = refl
remove_ids_other (x ∷ es) b id h =
    remove_ids_other es (index_remove x.order_id b) id (λ k. h (suc k))
    ∙ index_remove_other x.order_id id b (h 0)

pub not_taken :
    (n : ℕ) (xs : List BookEntry) (id : Bytes)
    → ((k : ℕ) → k < n → id_at xs k ≢ some id)
    → (k : ℕ) → id_at (take n xs) k ≢ some id
not_taken n xs id ne k e =
    let b : k < n = omega (arith, id_at_bound (take n xs) k e, length-take n xs) in
    ne k b (sym (id_at-take n xs k b) ∙ e)

abbrev pub drained : Side → ℕ → OrderBook → OrderBook
drained side end b =
    shift_indices_up side 0 end
      (remove_ids (take end (vec b side)) (set_vec b side (drop end (vec b side))))

pub drained_found :
    (side s : Side) (end j i : ℕ) (b : OrderBook) (id : Bytes)
    → ((k : ℕ) → k < end → id_at (vec b side) k ≢ some id)
    → index_get b id ≡ some (s, j)
    → moved_up side 0 end s j ≡ i
    → index_get (drained side end b) id ≡ some (s, i)
drained_found side s end j i b id ne e q =
    let v = drop end (vec b side) in
    let es = take end (vec b side) in
    index_get-shifted (moved_up side 0 end) (remove_ids es (set_vec b side v)) id s j i
      (remove_ids_other es (set_vec b side v) id (not_taken end (vec b side) id ne)
        ∙ index_get-set_vec b side v id
        ∙ e)
      q

pub drained_moves : (side : Side) (end i : ℕ) → moved_up side 0 end side (end + i) ≡ i
drained_moves buy end i = let q : end + i - end ≡ i = omega arith in rw q (ground arith)
drained_moves sell end i = let q : end + i - end ≡ i = omega arith in rw q (ground arith)

module _ (end : ℕ) (b : OrderBook) (h : IsComplete b) where
  pub drained_at :
      (side s : Side) (i : ℕ) (id : Bytes)
      → id_at (vec (set_vec b side (drop end (vec b side))) s) i ≡ some id
      → index_get (drained side end b) id ≡ some (s, i)
  drained_at buy buy i id e =
      let k : id_at b.bids (end + i) ≡ some id = sym (id_at-drop end b.bids i) ∙ e in
      drained_found buy buy end (end + i) i b id
        (λ j l q. ground (arith, h.at buy j id q, h.at buy (end + i) id k))
        (h.at buy (end + i) id k) (drained_moves buy end i)
  drained_at sell sell i id e =
      let k : id_at b.asks (end + i) ≡ some id = sym (id_at-drop end b.asks i) ∙ e in
      drained_found sell sell end (end + i) i b id
        (λ j l q. ground (arith, h.at sell j id q, h.at sell (end + i) id k))
        (h.at sell (end + i) id k) (drained_moves sell end i)
  drained_at buy sell i id e =
      drained_found buy sell end i i b id
        (λ j l q. ground (arith, h.at buy j id q, h.at sell i id e)) (h.at sell i id e) refl
  drained_at sell buy i id e =
      drained_found sell buy end i i b id
        (λ j l q. ground (arith, h.at sell j id q, h.at buy i id e)) (h.at buy i id e) refl

  pub drained-IsComplete : (side : Side) → IsComplete (drained side end b)
  drained-IsComplete side = record {
    at = λ s i id e.
        let v = drop end (vec b side) in
        let es = take end (vec b side) in
        let m =
          vec-shift_values (moved_up side 0 end) (remove_ids es (set_vec b side v)) s
          ∙ vec-remove_ids es (set_vec b side v) s in
        drained_at side s i id (ap (λ t. id_at t i) (sym m) ∙ e);
  }
