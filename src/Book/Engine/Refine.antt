-- ===== src/Book/Engine/Refine.antt =====
-- The engine is a map from tickers to books: sharding, and the tickers that share a shard, do not
-- show.
use market_data_v.Common.{
  bytes_keys, bytes_eq, bytes_eq_iff, ℕ, zero, suc, ◌<◌, ◌≡◌, refl, sym, ap, ◌∙◌, Bool, true, false,
  ◌&&◌, Option, none, some, List, [], ◌∷◌, Bytes, ◌==◌, ==_iff, if◌then◌else◌, length, get_elem?,
  set, replicate, arith, Bool-cases, inl, inr,
}
use market_data_v.Common.HashMap
use market_data_v.Common.HashMap.{HashMap, get-insert, get-empty}
use market_data_v.Shard.{Hasher, shard_for, shard_for-lt}
use market_data_v.Types.{BookOp}
use market_data_v.Book.Order
use market_data_v.Book.Order.{OrderBook}
use market_data_v.Book.Engine.{Shard, BookEngine, new, is_allowed, or_default, apply, with_book}

get_elem?_lt : (xs : List Shard) (i : ℕ) → i < length xs → (x : Shard) × (get_elem? xs i ≡ some x)
get_elem?_lt [] i h = absurd (omega arith)
get_elem?_lt (x ∷ xs) zero h = (x, refl)
get_elem?_lt (x ∷ xs) (suc i) h = get_elem?_lt xs i (omega arith)

get_elem?-set :
    (xs : List Shard) (i j : ℕ) (x : Shard)
    → i < length xs
    → get_elem? (set xs i x) j ≡ (if i == j then some x else get_elem? xs j)
get_elem?-set [] i j x h = absurd (omega arith)
get_elem?-set (y ∷ xs) zero zero x h = refl
get_elem?-set (y ∷ xs) zero (suc j) x h = ground arith
get_elem?-set (y ∷ xs) (suc i) zero x h = ground arith
get_elem?-set (y ∷ xs) (suc i) (suc j) x h = ground (arith, get_elem?-set xs i j x)

length-set : (xs : List Shard) (i : ℕ) (x : Shard) → length (set xs i x) ≡ length xs
length-set [] i x = refl
length-set (y ∷ xs) zero x = refl
length-set (y ∷ xs) (suc i) x = ap suc (length-set xs i x)

get_elem?-replicate : (n i : ℕ) (x : Shard) → i < n → get_elem? (replicate n x) i ≡ some x
get_elem?-replicate zero i x h = absurd (omega arith)
get_elem?-replicate (suc n) zero x h = refl
get_elem?-replicate (suc n) (suc i) x h = get_elem?-replicate n i x (omega arith)

length-replicate : (n : ℕ) (x : Shard) → length (replicate n x) ≡ n
length-replicate zero x = refl
length-replicate (suc n) x = ap suc (length-replicate n x)

abbrev pub known : Option (Option OrderBook) → Option OrderBook
known none = none
known (some b) = b

shards_pos : (n : ℕ) → 0 < (if n == 0 then 8 else n)
shards_pos n = ground arith

module _ ⦃h : Hasher⦄ where
  -- The abstract view: the book of each ticker.
  abbrev pub book_of : BookEngine → Bytes → Option OrderBook
  book_of e u = known (with_book e u)

  -- The book of the ticker after the operation, and whether it is observable.
  abbrev pub stepped : BookEngine → Bytes → BookOp → OrderBook × Bool
  stepped e t op = Order.apply op (or_default (book_of e t))

  with_book_at :
      (e : BookEngine) (t : Bytes) (m : Shard)
      → get_elem? e.shards (shard_for t (length e.shards)) ≡ some m
      → with_book e t ≡ some (HashMap.get m t)
  unfolding with_book
  with_book_at e t m q = rw (q, with_book)

  apply_allowed :
      (e : BookEngine) (t : Bytes) (op : BookOp) (m : Shard)
      → is_allowed e t ≡ true
      → get_elem? e.shards (shard_for t (length e.shards)) ≡ some m
      → apply e t op ≡ (
          let r = Order.apply op (or_default (HashMap.get m t)) in
          some (
            record e {
              shards = set e.shards (shard_for t (length e.shards)) (HashMap.insert t r.0 m);
            },
            r.1,
          ))
  unfolding apply
  apply_allowed e t op m a q = rw (a, q, apply)

  book_of_at :
      (e : BookEngine) (u : Bytes) (m : Shard)
      → get_elem? e.shards (shard_for u (length e.shards)) ≡ some m
      → book_of e u ≡ HashMap.get m u
  book_of_at e u m q = ap known (with_book_at e u m q)

  abbrev replaced : BookEngine → Bytes → Shard → BookEngine
  replaced e t m = record e { shards = set e.shards (shard_for t (length e.shards)) m }

  get_replaced :
      (e : BookEngine) (t u : Bytes) (m : Shard)
      → 0 < length e.shards
      → get_elem? (replaced e t m).shards (shard_for u (length (replaced e t m).shards)) ≡ (
          if shard_for t (length e.shards) == shard_for u (length e.shards)
          then some m
          else get_elem? e.shards (shard_for u (length e.shards)))
  get_replaced e t u m pos =
      let n = length e.shards in
      rw (length-set e.shards (shard_for t n) m)
        (get_elem?-set e.shards (shard_for t n) (shard_for u n) m (shard_for-lt t n pos))

  after_insert :
      (e : BookEngine) (t : Bytes) (b : OrderBook) (m : Shard) (u : Bytes)
      → 0 < length e.shards
      → get_elem? e.shards (shard_for t (length e.shards)) ≡ some m
      → book_of (replaced e t (HashMap.insert t b m)) u
        ≡ (if bytes_eq t u then some b else book_of e u)
  after_insert e t b m u pos q =
      let n = length e.shards in
      let m' = HashMap.insert t b m in
      let g = get_replaced e t u m' pos in
      let (k, r) = get_elem?_lt e.shards (shard_for u n) (shard_for-lt u n pos) in
      elim (Bool-cases (shard_for t n == shard_for u n)) [
        | inl c ↦
            let same : get_elem? e.shards (shard_for u n) ≡ some m =
              ap (get_elem? e.shards) (sym ((==_iff (shard_for t n) (shard_for u n)).0 c)) ∙ q in
            book_of_at (replaced e t m') u m'
              (g ∙ ap (λ x. if x then some m' else get_elem? e.shards (shard_for u n)) c)
            ∙ get-insert t u b m
            ∙ ap (λ x. if bytes_eq t u then some b else x) (sym (book_of_at e u m same))
        | inr c ↦
            book_of_at (replaced e t m') u k
              (g ∙ ap (λ x. if x then some m' else get_elem? e.shards (shard_for u n)) c ∙ r)
            ∙ sym (book_of_at e u k r)
            ∙ other (bytes_eq t u)
                (λ d. absurd (ground (arith, ap (λ x. shard_for x n) ((bytes_eq_iff t u).0 d))))
      ]
    where
      other : (d : Bool) → (d ≡ true → ⊥) → book_of e u ≡ (if d then some b else book_of e u)
      other true w = absurd (w refl)
      other false w = refl

  -- With at least one shard, a call does not fail; it replaces the book of an allowed ticker by the
  -- book after the operation (a new book, if the ticker is new) and leaves the book of every other
  -- ticker as it was, and for a ticker that is not allowed the engine is what it was, and the answer
  -- `false`. No call changes the filter or the number of the shards.
  pub apply-book_of :
      (e : BookEngine) (t : Bytes) (op : BookOp)
      → 0 < length e.shards
      → (e' : BookEngine) × (apply e t op ≡ some (e', is_allowed e t && (stepped e t op).1))
        × ((u : Bytes)
            → book_of e' u
              ≡ (if is_allowed e t && bytes_eq t u then some (stepped e t op).0 else book_of e u))
        × (length e'.shards ≡ length e.shards)
        × (e'.allowed ≡ e.allowed)
        × (e' ≡ (if is_allowed e t then e' else e))
  apply-book_of e t op pos = elim (Bool-cases (is_allowed e t)) [
    | inl a ↦
        let n = length e.shards in
        let (m, q) = get_elem?_lt e.shards (shard_for t n) (shard_for-lt t n pos) in
        let r = Order.apply op (or_default (HashMap.get m t)) in
        (
          replaced e t (HashMap.insert t r.0 m),
          apply_allowed e t op m a q ∙ rw (a, book_of_at e t m q),
          λ u. rw (a, book_of_at e t m q) (after_insert e t r.0 m u pos q),
          length-set e.shards (shard_for t n) (HashMap.insert t r.0 m),
          refl,
          rw a refl,
        )
    | inr a ↦ (e, unfold apply in rw (a), λ u. rw a, refl, refl, rw a refl)
  ]

  -- A fresh engine has a shard, whatever the requested number, and no book.
  pub new-book_of : (n : ℕ) → (0 < length (new n).shards) × ((u : Bytes) → book_of (new n) u ≡ none)
  unfolding new
  new-book_of n =
      let k : ℕ = if n == 0 then 8 else n in
      let empty : Shard = HashMap.empty in
      let pos : 0 < length (replicate k empty) =
        omega (arith, length-replicate k empty, shards_pos n) in
      (
        pos,
        λ u.
            book_of_at (new n) u empty (
              get_elem?-replicate k (shard_for u (length (replicate k empty))) empty (
                omega (
                  arith,
                  shard_for-lt u (length (replicate k empty)) pos,
                  length-replicate k empty,
                )))
            ∙ get-empty u,
      )
