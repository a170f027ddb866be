-- ===== src/Book/Order/Added.antt =====
-- An added order and a complete index.
use mathlib.Core.Path.{ap₂}
use market_data_v.Common.{
  ℕ, zero, suc, ◌-◌, min, ◌≤◌, ◌<◌, ◌≡◌, refl, sym, ap, ◌∙◌, Option, none, some, List, [], ◌∷◌,
  ◌++◌, Bytes, bytes_keys, Bool-cases, inl, inr, ◌⊎◌, ltb, leb, ◌==◌, if◌then◌else◌, length, take,
  drop, arith, length-append, length-take, length-drop,
}
use market_data_v.Enums.{Side, buy, sell}
use market_data_v.Types.{BookEntry}
use market_data_v.Book.Order.{
  OrderBook, vec, set_vec, insert_at, id_at, moved_down, shift_indices_down, place, add,
}
use market_data_v.Book.Order.Positions.{id_at-append, id_at-insert_at}
use market_data_v.Book.Order.Index.{index_get, vec-index_insert}
use market_data_v.Book.Order.Lookup.{
  IsComplete, index_insert_self, index_insert_other, index_get-shifted,
}

-- Where an order of the changed side comes from.
pub insert_from :
    (p i : ℕ) (x : BookEntry) (xs : List BookEntry) (id : Bytes)
    → p < length xs
    → id_at (insert_at p x xs) i ≡ some id
    → ((i ≡ p) × (x.order_id ≡ some id))
      ⊎ ((j : ℕ) × (id_at xs j ≡ some id) × ((if leb p j then suc j else j) ≡ i))
insert_from p zero x xs id h e = elim (Bool-cases (0 == p)) [
  | inl m ↦ inl (ground arith, ground (arith, id_at-insert_at p x xs 0 h))
  | inr m ↦ inr (0, ground (arith, id_at-insert_at p x xs 0 h), ground arith)
]
insert_from p (suc i) x xs id h e = elim (Bool-cases (ltb (suc i) p)) [
  | inl m ↦ inr (suc i, ground (arith, id_at-insert_at p x xs (suc i) h), ground arith)
  | inr m ↦ elim (Bool-cases (suc i == p)) [
    | inl n ↦ inl (ground arith, ground (arith, id_at-insert_at p x xs (suc i) h))
    | inr n ↦ inr (i, ground (arith, id_at-insert_at p x xs (suc i) h), ground arith)
  ]
]

pub append_from :
    (i : ℕ) (x : BookEntry) (xs : List BookEntry) (id : Bytes)
    → id_at (xs ++ (x ∷ [])) i ≡ some id
    → ((i ≡ length xs) × (x.order_id ≡ some id)) ⊎ (id_at xs i ≡ some id)
append_from i x xs id e = elim (Bool-cases (ltb i (length xs))) [
  | inl m ↦ inr (ground (arith, id_at-append xs x i))
  | inr m ↦ inl (ground (arith, id_at-append xs x i), ground (arith, id_at-append xs x i))
]

-- Where an order of the book `c` comes from, after `x` was placed in `b`: it is `x`, or an order that
-- the index of `b` knew and the index of `c` finds.
abbrev pub Origin : OrderBook → OrderBook → Side → ℕ → BookEntry → Side → ℕ → Bytes → Type 0
Origin b c side pos x s i id =
    ((s ≡ side) × (i ≡ min pos (length (vec c side) - 1)) × (x.order_id ≡ some id))
    ⊎ ((p : Side × ℕ) × (index_get b id ≡ some p) × (index_get c id ≡ some (s, i)))

pub append_last :
    (pos : ℕ) (x : BookEntry) (xs : List BookEntry)
    → length xs ≤ pos
    → length xs ≡ min pos (length (xs ++ (x ∷ [])) - 1)
append_last pos x xs h = omega (arith, length-append xs (x ∷ []))

pub insert_last :
    (pos : ℕ) (x : BookEntry) (xs : List BookEntry)
    → pos < length xs
    → pos ≡ min pos (length (insert_at pos x xs) - 1)
insert_last pos x xs h =
    omega
      (arith, length-append (take pos xs) (x ∷ drop pos xs), length-take pos xs, length-drop pos xs)

module _ (pos : ℕ) (x : BookEntry) (b : OrderBook) (h : IsComplete b) where
  pub push-Origin :
      (side s : Side) (i : ℕ) (id : Bytes)
      → length (vec b side) ≤ pos
      → id_at (vec (set_vec b side (vec b side ++ (x ∷ []))) s) i ≡ some id
      → Origin b (set_vec b side (vec b side ++ (x ∷ []))) side pos x s i id
  push-Origin buy buy i id l e = elim (append_from i x b.bids id e) [
    | inl n ↦ inl (refl, n.0 ∙ append_last pos x b.bids l, n.1)
    | inr n ↦ inr ((buy, i), h.at buy i id n, h.at buy i id n)
  ]
  push-Origin sell sell i id l e = elim (append_from i x b.asks id e) [
    | inl n ↦ inl (refl, n.0 ∙ append_last pos x b.asks l, n.1)
    | inr n ↦ inr ((sell, i), h.at sell i id n, h.at sell i id n)
  ]
  push-Origin buy sell i id l e = inr ((sell, i), h.at sell i id e, h.at sell i id e)
  push-Origin sell buy i id l e = inr ((buy, i), h.at buy i id e, h.at buy i id e)

  pub insert-Origin :
      (side s : Side) (i : ℕ) (id : Bytes)
      → pos < length (vec b side)
      → id_at
          (vec (shift_indices_down side pos (set_vec b side (insert_at pos x (vec b side)))) s)
          i
        ≡ some id
      → Origin b
          (shift_indices_down side pos (set_vec b side (insert_at pos x (vec b side))))
          side
          pos
          x
          s
          i
          id
  insert-Origin buy buy i id l e = elim (insert_from pos i x b.bids id l e) [
    | inl n ↦ inl (refl, n.0 ∙ insert_last pos x b.bids l, n.1)
    | inr (j, q, r) ↦ inr (
      (buy, j),
      h.at buy j id q,
      index_get-shifted (moved_down buy pos) (set_vec b buy (insert_at pos x b.bids)) id buy j i
          (h.at buy j id q) r,
    )
  ]
  insert-Origin sell sell i id l e = elim (insert_from pos i x b.asks id l e) [
    | inl n ↦ inl (refl, n.0 ∙ insert_last pos x b.asks l, n.1)
    | inr (j, q, r) ↦ inr (
      (sell, j),
      h.at sell j id q,
      index_get-shifted (moved_down sell pos) (set_vec b sell (insert_at pos x b.asks)) id sell j i
          (h.at sell j id q) r,
    )
  ]
  insert-Origin buy sell i id l e = inr (
    (sell, i),
    h.at sell i id e,
    index_get-shifted (moved_down buy pos) (set_vec b buy (insert_at pos x b.bids)) id sell i i
        (h.at sell i id e) refl,
  )
  insert-Origin sell buy i id l e = inr (
    (buy, i),
    h.at buy i id e,
    index_get-shifted (moved_down sell pos) (set_vec b sell (insert_at pos x b.asks)) id buy i i
        (h.at buy i id e) refl,
  )

  pub place-Origin :
      (side s : Side) (i : ℕ) (id : Bytes)
      → id_at (vec (place side pos x b) s) i ≡ some id
      → Origin b (place side pos x b) side pos x s i id
  place-Origin side s i id e = elim (Bool-cases (leb (length (vec b side)) pos)) [
    | inl m ↦ rw m (push-Origin side s i id (ground arith) (rw m at e))
    | inr m ↦ rw m (insert-Origin side s i id (ground arith) (rw m at e))
  ]

-- No order of the book carries the id of `x`.
abbrev pub IsFresh : Option Bytes → OrderBook → Type 0
IsFresh o b = (id : Bytes) → o ≡ some id → index_get b id ≡ none

pub add-IsComplete :
    (x : BookEntry) (b : OrderBook) → IsFresh x.order_id b → IsComplete b → IsComplete (add x b)
unfolding add
add-IsComplete x b fresh h = record {
  at = λ s i id e.
      let c = place x.side x.position x b in
      let p : Side × ℕ = (x.side, min x.position (length (vec c x.side) - 1)) in
      let e' : id_at (vec c s) i ≡ some id =
        ap (λ t. id_at t i) (sym (vec-index_insert x.order_id p c s)) ∙ e in
      elim (place-Origin x.position x b h x.side s i id e') [
        | inl (m, n, k) ↦
            index_insert_self x.order_id id p c k
            ∙ ap₂ (λ (t : Side) (j : ℕ). let r : Option (Side × ℕ) = some (t, j) in r) (sym m)
                (sym n)
        | inr (q, m, n) ↦
            index_insert_other x.order_id id p c (λ k. absurd (ground (arith, fresh id k))) ∙ n
      ];
}
