-- ===== src/Book/Order/Sound.antt =====
-- Every operation keeps the index pointing at the orders that carry the ids.

use market_data_v.Common.{
  ℕ, zero, suc, ◌+◌, ◌-◌, min, ◌≡◌, ◌≢◌, refl, sym, ap, ◌∙◌, true, ◌&&◌, Option, none, some, List,
  [], ◌∷◌, Bytes, bytes_eq_iff, bytes_keys, Bool-cases, inl, inr, leb, leb→le, if◌then◌else◌,
  length, take, drop, arith,
}
use market_data_v.Common.HashMap.{get-remove, get-empty}
use market_data_v.Enums.{Side, buy, sell}
use market_data_v.Types.{BookEntry, BookDelete, single, prefix_inclusive, clear_all, BookOp}
use market_data_v.Book.Order.{
  OrderBook, vec, set_vec, remove_at, id_at, moved_up, shift_indices_up, index_remove, default,
  take_out, remove_ids, update, delete, apply,
}
use market_data_v.Book.Order.Positions.{id_at-drop, id_at-take, vec-set_vec}
use market_data_v.Book.Order.Index.{
  index_get, IsSound, mapped, index_get-shift_values, index_get-set_vec, vec-index_remove,
  remove_keeps, side_eq_refl, moved_at,
}
use market_data_v.Book.Order.Placed.{moved_up-other, add-IsSound}

pub index_remove_get :
    (o : Option Bytes) (b : OrderBook) (id : Bytes) (p : Side × ℕ)
    → index_get (index_remove o b) id ≡ some p
    → (o ≢ some id) × (index_get b id ≡ some p)
index_remove_get none b id p e = ((λ q. cc), e)
index_remove_get (some j) b id p e =
    ground (arith, get-remove j id b.by_order_id, bytes_eq_iff j id)

pub take_out-IsSound :
    (side : Side) (pos : ℕ) (b : OrderBook) → IsSound b → IsSound (take_out side pos b)
take_out-IsSound side pos b h = record {
  at = λ id s i q.
      let v = remove_at pos (vec b side) in
      let o = id_at (vec b side) pos in
      let (ne, g) =
        index_remove_get o (shift_indices_up side pos 1 (set_vec b side v)) id (s, i) q in
      rw (vec-index_remove o (shift_indices_up side pos 1 (set_vec b side v)) s) (
        moved_at b (set_vec b side v) side v (moved_up side pos 1) id (λ t. vec-set_vec b side t v)
          (λ p k. sym (index_get-set_vec b side v id) ∙ k) (moved_up-other side pos 1)
          (λ j k.
            rw (side_eq_refl side) (
              remove_keeps pos j (vec b side) id (λ w. ne (ap (id_at (vec b side)) (sym w) ∙ k)) k))
          h s i g);
}

pub remove_ids_get :
    (es : List BookEntry) (b : OrderBook) (id : Bytes) (p : Side × ℕ)
    → index_get (remove_ids es b) id ≡ some p
    → ((k : ℕ) → id_at es k ≢ some id) × (index_get b id ≡ some p)
remove_ids_get [] b id p e = ((λ k q. cc), e)
remove_ids_get (x ∷ es) b id p e =
    let (ne, g) = remove_ids_get es (index_remove x.order_id b) id p e in
    let (nx, g') = index_remove_get x.order_id b id p g in (elim [ zero ↦ nx | suc k ↦ ne k ], g')

pub vec-remove_ids :
    (es : List BookEntry) (b : OrderBook) (s : Side) → vec (remove_ids es b) s ≡ vec b s
vec-remove_ids [] b s = refl
vec-remove_ids (x ∷ es) b s =
    vec-remove_ids es (index_remove x.order_id b) s ∙ vec-index_remove x.order_id b s

pub drop_keeps :
    (n j : ℕ) (xs : List BookEntry) (id : Bytes)
    → ((k : ℕ) → id_at (take n xs) k ≢ some id)
    → id_at xs j ≡ some id
    → id_at (drop n xs) (if leb 0 j && leb n j then j - n else j) ≡ some id
drop_keeps n j xs id none_taken k = elim (Bool-cases (leb n j)) [
  | inl e ↦
      let z : leb 0 j ≡ true = ground arith in
      let m : n + (j - n) ≡ j = omega (arith, leb→le n j e) in
      rw (z, e, id_at-drop n xs (j - n), m) k
  | inr e ↦ absurd (none_taken j (id_at-take n xs j (ground arith) ∙ k))
]

pub drain-IsSound :
    (side : Side) (end : ℕ) (b : OrderBook)
    → IsSound b
    → IsSound (
        shift_indices_up side 0 end
          (remove_ids (take end (vec b side)) (set_vec b side (drop end (vec b side)))))
drain-IsSound side end b h = record {
  at = λ id s i q.
      let v = drop end (vec b side) in
      let es = take end (vec b side) in
      let (j, w, r) =
        mapped (moved_up side 0 end) (index_get (remove_ids es (set_vec b side v)) id) (
          sym (index_get-shift_values (moved_up side 0 end) (remove_ids es (set_vec b side v)) id)
          ∙ q) in
      let (ne, g) = remove_ids_get es (set_vec b side v) id (s, j) w in
      moved_at b (remove_ids es (set_vec b side v)) side v (moved_up side 0 end) id
        (λ t. vec-remove_ids es (set_vec b side v) t ∙ vec-set_vec b side t v)
        (λ p k.
          sym (index_get-set_vec b side v id) ∙ (remove_ids_get es (set_vec b side v) id p k).1)
        (moved_up-other side 0 end)
        (λ j k. rw (side_eq_refl side) (drop_keeps end j (vec b side) id ne k)) h s i q;
}

pub vec-initialised :
    (b : OrderBook) (s : Side) (i : ℕ) {o : Option Bytes}
    → id_at (vec b s) i ≡ o
    → id_at (vec (record b { initialised = true }) s) i ≡ o
vec-initialised b buy i e = e
vec-initialised b sell i e = e

pub default-IsSound : IsSound default
unfolding default
default-IsSound = record { at = λ id s i e. absurd (ground (arith, get-empty {V = Side × ℕ} id)) }

pub update-IsSound :
    (old_pos : ℕ) (x : BookEntry) (b : OrderBook) → IsSound b → IsSound (update old_pos x b)
unfolding update
update-IsSound old_pos x b h = elim (Bool-cases (leb (length (vec b x.side)) old_pos)) [
  | inl e ↦ rw e (add-IsSound x b h)
  | inr e ↦ rw e (add-IsSound x (take_out x.side old_pos b) (take_out-IsSound x.side old_pos b h))
]

pub delete-IsSound : (d : BookDelete) (b : OrderBook) → IsSound b → IsSound (delete d b)
unfolding delete
delete-IsSound (single side pos) b h = elim (Bool-cases (leb (length (vec b side)) pos)) [
  | inl e ↦ rw e h
  | inr e ↦ rw e (take_out-IsSound side pos b h)
]
delete-IsSound (prefix_inclusive side pos) b h =
    drain-IsSound side (min (pos + 1) (length (vec b side))) b h
delete-IsSound clear_all b h = record {
  at = λ id s i e. absurd (ground (arith, get-empty {V = Side × ℕ} id));
}

-- Every operation, whatever its positions and ids, keeps the index sound: what the index gives for
-- an id is a side and a position at which an order with that id stands.
pub apply_op-IsSound : (op : BookOp) (b : OrderBook) → IsSound b → IsSound (apply op b).0
unfolding apply
apply_op-IsSound (BookOp.add x) b h = add-IsSound x b h
apply_op-IsSound (BookOp.update old_pos x) b h = update-IsSound old_pos x b h
apply_op-IsSound (BookOp.delete d) b h = delete-IsSound d b h
apply_op-IsSound BookOp.end_of_initial b h = record {
  at = λ id s i e. vec-initialised b s i (h.at id s i e);
}
