-- ===== src/Trades/Queues.antt =====
-- What each operation does to the queue of every ticker.
use market_data_v.Common.{
  bytes_keys, ℕ, zero, suc, ◌+◌, ◌-◌, ◌≤◌, ◌<◌, ◌≡◌, refl, sym, ap, ◌∙◌, min, Option, none, some,
  List, [], ◌∷◌, ◌++◌, Bytes, ◌==◌, length, take, drop, arith, Bool-cases, inl, inr, length-append,
  length-drop, drop-drop, drop_all, take-append-drop, take-append_length,
}
use market_data_v.Common.HashMap
use market_data_v.Common.HashMap.{HashMap, get-insert}
use market_data_v.Trades.{TradeRecord, TradeBuffer, or_empty, pop_front, pushed, snapshot}
use mathlib.Core.List.{reverse, reverse-append, reverse-reverse, reverse-cons}

-- The queue of a ticker, empty for an unknown one.
unfoldable pub queue_of : TradeBuffer → Bytes → List TradeRecord
queue_of b t = or_empty (HashMap.get b.inner t)

-- The last `n` elements.
abbrev pub last_n : ℕ → List TradeRecord → List TradeRecord
last_n n xs = drop (length xs - n) xs

drop-pop_front :
    (r : TradeRecord) (q : List TradeRecord)
    → 0 < length q
    → drop 1 (q ++ (r ∷ [])) ≡ pop_front q ++ (r ∷ [])
drop-pop_front r [] p = absurd (omega arith)
drop-pop_front r (x ∷ xs) p = refl

-- A push keeps the last trades, as many as fit.
pub pushed_lem :
    (cap : ℕ) (r : TradeRecord) (q : List TradeRecord)
    → 0 < cap
    → length q ≤ cap
    → pushed cap r q ≡ last_n cap (q ++ (r ∷ []))
unfolding pushed
pushed_lem cap r q p h = elim (Bool-cases (length q == cap)) [
  | inl e ↦
      let n : length q ≡ cap = ground arith in
      let k : length (q ++ (r ∷ [])) - cap ≡ 1 = omega (arith, length-append q (r ∷ []), n) in
      rw (e, k) (sym (drop-pop_front r q (omega (arith, n))))
  | inr e ↦
      let n : length q < cap = ground arith in
      let k : length (q ++ (r ∷ [])) - cap ≡ 0 = omega (arith, length-append q (r ∷ []), n) in
      rw (e, k) refl
]

pub length-last_n : (n : ℕ) (xs : List TradeRecord) → length (last_n n xs) ≡ min n (length xs)
length-last_n n xs = omega (arith, length-drop (length xs - n) xs)

drop-append :
    (k : ℕ) (xs ys : List TradeRecord) → k ≤ length xs → drop k (xs ++ ys) ≡ drop k xs ++ ys
drop-append zero xs ys h = refl
drop-append (suc k) [] ys h = absurd (omega arith)
drop-append (suc k) (x ∷ xs) ys h = drop-append k xs ys (omega arith)

-- Of the last elements and more, the last are those of the whole.
pub last_n-append :
    (n : ℕ) (xs ys : List TradeRecord) → last_n n (last_n n xs ++ ys) ≡ last_n n (xs ++ ys)
last_n-append n xs ys =
    let k = length xs - n in
    let d = drop-append k xs ys (omega arith) in
    let l : length (drop k xs ++ ys) ≡ length xs - k + length ys =
      omega (arith, length-append (drop k xs) ys, length-drop k xs) in
    let w : length (xs ++ ys) ≡ length xs + length ys = length-append xs ys in
    rw (← d) (
      drop-drop (length (drop k (xs ++ ys)) - n) k (xs ++ ys)
      ∙ ap (λ j. drop j (xs ++ ys)) (omega (arith, length-drop k (xs ++ ys), w)))

length-reverse : (xs : List TradeRecord) → length (reverse xs) ≡ length xs
length-reverse [] = refl
length-reverse (x ∷ xs) =
    ap length (reverse-cons x xs)
    ∙ omega (arith, length-append (reverse xs) (x ∷ []), length-reverse xs)

-- Reading backwards, taking and reading backwards again gives the last elements in their order.
reverse-take-reverse :
    (n : ℕ) (xs : List TradeRecord) → reverse (take (min n (length xs)) (reverse xs)) ≡ last_n n xs
reverse-take-reverse n xs =
    let k = length xs - n in
    let ys = take k xs in
    let zs = drop k xs in
    let whole : ys ++ zs ≡ xs = take-append-drop k xs in
    let l : length (reverse zs) ≡ min n (length xs) =
      omega (arith, length-reverse zs, length-drop k xs) in
    let r : reverse xs ≡ reverse zs ++ reverse ys = ap reverse (sym whole) ∙ reverse-append ys zs in
    let t : take (min n (length xs)) (reverse xs) ≡ reverse zs =
      ap (take (min n (length xs))) r
      ∙ ap (λ j. take j (reverse zs ++ reverse ys)) (sym l)
      ∙ take-append_length (reverse zs) (reverse ys) in
    ap reverse t ∙ reverse-reverse zs

-- A snapshot is the last trades of the ticker, oldest first.
pub snapshot_lem :
    (b : TradeBuffer) (t : Bytes) (limit : ℕ) → snapshot t limit b ≡ last_n limit (queue_of b t)
unfolding snapshot queue_of
snapshot_lem b t limit = at (HashMap.get b.inner t)
  where
    at :
        (o : Option (List TradeRecord))
        → elim o [
          | none ↦ []
          | some entry ↦ reverse (take (min limit (length entry)) (reverse entry))
        ]
          ≡ last_n limit (or_empty o)
    at none = sym (drop_all (0 - limit) [] (omega arith))
    at (some q) = reverse-take-reverse limit q
