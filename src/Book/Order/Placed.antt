-- ===== src/Book/Order/Placed.antt =====
-- An order that is placed in a side of the book, and the index.

use market_data_v.Common.{
  ℕ, ◌-◌, min, ◌≤◌, ◌<◌, ◌≡◌, sym, ◌∙◌, false, Option, none, some, List, [], ◌∷◌, ◌++◌, Bytes,
  bytes_eq, bytes_eq_iff, bytes_keys, Bool-cases, inl, inr, leb, if◌then◌else◌, length, take, drop,
  arith, length-append, length-take, length-drop,
}
use market_data_v.Common.HashMap.{get-insert}
use market_data_v.Enums.{Side, side_eq}
use market_data_v.Types.{BookEntry}
use market_data_v.Book.Order.{
  OrderBook, vec, set_vec, insert_at, id_at, moved_down, moved_up, index_insert, place, add,
}
use market_data_v.Book.Order.Positions.{vec-set_vec}
use market_data_v.Book.Order.Index.{
  index_get, IsSound, index_get-set_vec, vec-shift_values, vec-index_insert, insert_keeps,
  insert_new, append_keeps, append_new, side_eq_refl, side_cases, moved_at,
}

pub moved_down-other :
    (side : Side) (from : ℕ) (t : Side) (j : ℕ)
    → side_eq side t ≡ false
    → moved_down side from t j ≡ j
moved_down-other side from t j h = ground arith

pub moved_up-other :
    (side : Side) (from by : ℕ) (t : Side) (j : ℕ)
    → side_eq side t ≡ false
    → moved_up side from by t j ≡ j
moved_up-other side from by t j h = ground arith

pub append_at :
    (side : Side) (x : BookEntry) (b : OrderBook) (s : Side) (i : ℕ) (id : Bytes)
    → id_at (vec b s) i ≡ some id
    → id_at (vec (set_vec b side (vec b side ++ (x ∷ []))) s) i ≡ some id
append_at side x b s i id k =
    rw (vec-set_vec b side s (vec b side ++ (x ∷ []))) (elim (side_cases side s) [
      | inl m ↦ rw (m, side_eq_refl s) (append_keeps i x (vec b s) id k)
      | inr m ↦ rw m k
    ])

pub place-IsSound :
    (side : Side) (pos : ℕ) (x : BookEntry) (b : OrderBook)
    → IsSound b
    → IsSound (place side pos x b)
place-IsSound side pos x b h = elim (Bool-cases (leb (length (vec b side)) pos)) [
  | inl e ↦ rw e (record {
    at = λ id s i q.
        append_at side x b s i id
          (h.at id s i (sym (index_get-set_vec b side (vec b side ++ (x ∷ [])) id) ∙ q));
  })
  | inr e ↦
      let v = insert_at pos x (vec b side) in
      rw e (record {
        at = λ id s i q.
            moved_at b (set_vec b side v) side v (moved_down side pos) id
              (λ t. vec-set_vec b side t v) (λ p g. sym (index_get-set_vec b side v id) ∙ g)
              (moved_down-other side pos)
              (λ j k.
                rw (side_eq_refl side) (insert_keeps pos j x (vec b side) id (ground arith) k))
              h s i q;
      })
]

pub index_insert-IsSound :
    (o : Option Bytes) (s : Side) (p : ℕ) (b : OrderBook)
    → IsSound b
    → id_at (vec b s) p ≡ o
    → IsSound (index_insert o (s, p) b)
index_insert-IsSound none s p b h e = h
index_insert-IsSound (some id) s p b h e = record {
  at = λ j t i q.
      rw (vec-index_insert (some id) (s, p) b t)
        (at j t i (sym (get-insert id j (s, p) b.by_order_id) ∙ q));
}
  where
    at :
        (j : Bytes) (t : Side) (i : ℕ)
        → (if bytes_eq id j then some (s, p) else index_get b j) ≡ some (t, i)
        → id_at (vec b t) i ≡ some j
    at j t i q = elim (Bool-cases (bytes_eq id j)) [
      | inl m ↦
          let w : some (s, p) ≡ some (t, i) = rw m at q in
          let v : s ≡ t = cc in let u : p ≡ i = cc in rw (← v, ← u, ← (bytes_eq_iff id j).0 m) e
      | inr m ↦ h.at j t i (rw m at q)
    ]

pub append_min :
    (pos : ℕ) (x : BookEntry) (xs : List BookEntry)
    → length xs ≤ pos
    → id_at (xs ++ (x ∷ [])) (min pos (length (xs ++ (x ∷ [])) - 1)) ≡ x.order_id
append_min pos x xs h =
    let e : min pos (length (xs ++ (x ∷ [])) - 1) ≡ length xs =
      omega (arith, length-append xs (x ∷ [])) in
    rw e (append_new x xs)

pub insert_min :
    (pos : ℕ) (x : BookEntry) (xs : List BookEntry)
    → pos < length xs
    → id_at (insert_at pos x xs) (min pos (length (insert_at pos x xs) - 1)) ≡ x.order_id
insert_min pos x xs h =
    let e : min pos (length (insert_at pos x xs) - 1) ≡ pos = omega (
      arith,
      length-append (take pos xs) (x ∷ drop pos xs),
      length-take pos xs,
      length-drop pos xs,
    ) in
    rw e (insert_new pos x xs h)

pub place_new :
    (side : Side) (pos : ℕ) (x : BookEntry) (b : OrderBook)
    → id_at (vec (place side pos x b) side) (min pos (length (vec (place side pos x b) side) - 1))
      ≡ x.order_id
place_new side pos x b = elim (Bool-cases (leb (length (vec b side)) pos)) [
  | inl e ↦
      rw (e, vec-set_vec b side side (vec b side ++ (x ∷ [])), side_eq_refl side)
        (append_min pos x (vec b side) (ground arith))
  | inr e ↦
      rw
        (
          e,
          vec-shift_values (moved_down side pos) (set_vec b side (insert_at pos x (vec b side)))
              side,
          vec-set_vec b side side (insert_at pos x (vec b side)),
          side_eq_refl side,
        )
        (insert_min pos x (vec b side) (ground arith))
]

pub add-IsSound : (x : BookEntry) (b : OrderBook) → IsSound b → IsSound (add x b)
unfolding add
add-IsSound x b h =
    index_insert-IsSound x.order_id x.side _ (place x.side x.position x b)
      (place-IsSound x.side x.position x b h) (place_new x.side x.position x b)
