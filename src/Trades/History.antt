-- ===== src/Trades/History.antt =====
-- A buffer holds the last trades of the stream.
use market_data_v.Common.{
  bytes_keys, bytes_eq, bytes_eq_iff, ℕ, ◌-◌, ◌≡◌, refl, ap, ◌∙◌, max, true, List, [], ◌∷◌, ◌++◌,
  Bytes, length, arith,
}
use mathlib.Core.List.{append_assoc, append-nil}
use market_data_v.Common.HashMap.{get-empty}
use market_data_v.Trades.{TradeRecord, TradeBuffer, or_empty, new, snapshot}
use market_data_v.Trades.Queues.{queue_of, last_n, last_n-append, snapshot_lem}
use market_data_v.Trades.Bounds.{
  BufferOp, push_op, perform, perform_all, IsBounded, perform-IsBounded, new-IsBounded,
  perform-queue_of, capacity-perform,
}

-- The pushes of the trades, in order.
abbrev pub pushes : Bytes → List TradeRecord → List BufferOp
pushes t [] = []
pushes t (r ∷ rs) = push_op t r ∷ pushes t rs

queue_of-pushes :
    (rs : List TradeRecord) (t : Bytes) (b : TradeBuffer)
    → IsBounded b
    → queue_of (perform_all (pushes t rs) b) t ≡ last_n b.per_ticker_capacity (queue_of b t ++ rs)
queue_of-pushes [] t b h =
    let k : length (queue_of b t) - b.per_ticker_capacity ≡ 0 = omega (arith, h.at t) in
    rw (append-nil (queue_of b t), k) refl
queue_of-pushes (r ∷ rs) t b h =
    let b' = perform (push_op t r) b in
    let cap = b.per_ticker_capacity in
    let i = queue_of-pushes rs t b' (perform-IsBounded (push_op t r) b h) in
    let same : bytes_eq t t ≡ true = (bytes_eq_iff t t).1 refl in
    let q : queue_of b' t ≡ last_n cap (queue_of b t ++ (r ∷ [])) =
      rw same at (perform-queue_of (push_op t r) b t h) in
    i
    ∙ ap (λ n. last_n n (queue_of b' t ++ rs)) (capacity-perform (push_op t r) b)
    ∙ ap (λ xs. last_n cap (xs ++ rs)) q
    ∙ last_n-append cap (queue_of b t ++ (r ∷ [])) rs
    ∙ ap (last_n cap) (append_assoc (queue_of b t) (r ∷ []) rs)

-- After the trades of a ticker are pushed into a fresh buffer, a snapshot with a limit is the last of
-- those trades in their order, as many as the limit and the capacity of at least one allow.
pub snapshot-pushes :
    (n limit : ℕ) (t : Bytes) (rs : List TradeRecord)
    → snapshot t limit (perform_all (pushes t rs) (new n)) ≡ last_n limit (last_n (max n 1) rs)
unfolding new
snapshot-pushes n limit t rs =
    let b = new n in
    let e : queue_of b t ≡ [] =
      unfold queue_of in ap or_empty (get-empty {V = List TradeRecord} t) in
    snapshot_lem (perform_all (pushes t rs) b) t limit
    ∙ ap (last_n limit)
        (queue_of-pushes rs t b (new-IsBounded n) ∙ ap (λ xs. last_n (max n 1) (xs ++ rs)) e)
