-- ===== src/Trades/Bounds.antt =====
-- The buffer under any sequence of operations: its bound, and what the queues hold.
use market_data_v.Common.{
  bytes_keys, bytes_eq, bytes_eq_iff, ℕ, ◌≤◌, ◌<◌, ◌≡◌, refl, sym, ap, ◌∙◌, Bool, true, false,
  Option, none, some, List, [], ◌∷◌, ◌++◌, Bytes, if◌then◌else◌, length, arith, Bool-cases, inl,
  inr, Option-cases,
}
use market_data_v.Common.HashMap
use market_data_v.Common.HashMap.{HashMap, get-insert, get-empty}
use market_data_v.Trades.{
  TradeRecord, TradeBuffer, new, or_empty, pushed, push, without_first, removed, remove, clear,
}
use market_data_v.Trades.Queues.{queue_of, last_n, pushed_lem, length-last_n}

pub data BufferOp : Type 0 where
  push_op : Bytes → TradeRecord → BufferOp
  remove_op : Bytes → Bytes → BufferOp
  clear_op : Bytes → BufferOp

abbrev pub perform : BufferOp → TradeBuffer → TradeBuffer
perform (push_op t r) b = push t r b
perform (remove_op t id) b = (remove t id b).0
perform (clear_op t) b = clear t b

abbrev pub ticker_of : BufferOp → Bytes
ticker_of (push_op t r) = t
ticker_of (remove_op t id) = t
ticker_of (clear_op t) = t

-- The queue without the first trade of the id.
abbrev pub drop_first : Bytes → List TradeRecord → List TradeRecord
drop_first id [] = []
drop_first id (r ∷ rs) = if bytes_eq r.trade_id id then rs else r ∷ drop_first id rs

-- Whether a trade of the queue has the id.
abbrev pub has_id : Bytes → List TradeRecord → Bool
has_id id [] = false
has_id id (r ∷ rs) = if bytes_eq r.trade_id id then true else has_id id rs

-- The queue of the operation's ticker after it, for a capacity.
abbrev pub after : ℕ → BufferOp → List TradeRecord → List TradeRecord
after cap (push_op t r) q = last_n cap (q ++ (r ∷ []))
after cap (remove_op t id) q = drop_first id q
after cap (clear_op t) q = []

-- No queue is longer than the capacity, which is not 0.
pub record IsBounded (b : TradeBuffer) : Type 0 where
  pub positive : 0 < b.per_ticker_capacity
  pub at : (t : Bytes) → length (queue_of b t) ≤ b.per_ticker_capacity

pub new-IsBounded : (n : ℕ) → IsBounded (new n)
unfolding new queue_of
new-IsBounded n = record {
  positive = omega arith;
  at = λ t. rw (get-empty {V = List TradeRecord} t) (omega arith);
}

without_first_lem :
    (id : Bytes) (q : List TradeRecord)
    → without_first id q ≡ (if has_id id q then some (drop_first id q) else none)
unfolding without_first
without_first_lem id [] = refl
without_first_lem id (r ∷ rs) = elim (Bool-cases (bytes_eq r.trade_id id)) [
  | inl e ↦ rw e refl
  | inr e ↦
      rw (e, without_first_lem id rs)
        (elim (Bool-cases (has_id id rs)) [ inl h ↦ rw h refl | inr h ↦ rw h refl ])
]

drop_first-absent : (id : Bytes) (q : List TradeRecord) → has_id id q ≡ false → drop_first id q ≡ q
drop_first-absent id [] h = refl
drop_first-absent id (r ∷ rs) h = elim (Bool-cases (bytes_eq r.trade_id id)) [
  | inl e ↦ absurd (let x : true ≡ false = rw e at h in cc)
  | inr e ↦ rw e (ap (λ us. r ∷ us) (drop_first-absent id rs (rw e at h)))
]

length-drop_first : (id : Bytes) (q : List TradeRecord) → length (drop_first id q) ≤ length q
length-drop_first id [] = omega arith
length-drop_first id (r ∷ rs) = elim (Bool-cases (bytes_eq r.trade_id id)) [
  | inl e ↦ rw e (omega arith)
  | inr e ↦ rw e (omega (arith, length-drop_first id rs))
]

stored :
    (b : TradeBuffer) (t u : Bytes) (q : List TradeRecord)
    → queue_of (record b { inner = HashMap.insert t q b.inner }) u
      ≡ (if bytes_eq t u then q else queue_of b u)
unfolding queue_of
stored b t u q =
    ap or_empty (get-insert t u q b.inner)
    ∙ elim (Bool-cases (bytes_eq t u)) [ inl e ↦ rw e refl | inr e ↦ rw e refl ]

-- Storing what is there already changes no queue.
kept :
    (b : TradeBuffer) (t u : Bytes) (q : List TradeRecord)
    → queue_of b t ≡ q
    → queue_of b u ≡ (if bytes_eq t u then q else queue_of b u)
kept b t u q e = elim (Bool-cases (bytes_eq t u)) [
  | inl m ↦ rw m (ap (queue_of b) (sym ((bytes_eq_iff t u).0 m)) ∙ e)
  | inr m ↦ rw m refl
]

removed_lem :
    (b : TradeBuffer) (t id : Bytes) (o : Option (List TradeRecord))
    → HashMap.get b.inner t ≡ o
    → ((u : Bytes)
        → queue_of (removed t id o b).0 u
          ≡ (if bytes_eq t u then drop_first id (or_empty o) else queue_of b u))
      × ((removed t id o b).1 ≡ has_id id (or_empty o))
unfolding removed
removed_lem b t id none e = (λ u. kept b t u [] (unfold queue_of in ap or_empty e), refl)
removed_lem b t id (some q) e = elim (Bool-cases (has_id id q)) [
  | inl h ↦ rw (without_first_lem id q, h, removed) (λ u. stored b t u (drop_first id q), refl)
  | inr h ↦
      rw (without_first_lem id q, h, removed)
        (
          λ u.
              kept b t u (drop_first id q)
                (unfold queue_of in ap or_empty e ∙ sym (drop_first-absent id q h)),
          refl,
        )
]

cleared_lem :
    (b : TradeBuffer) (t u : Bytes)
    → queue_of (clear t b) u ≡ (if bytes_eq t u then [] else queue_of b u)
unfolding clear
cleared_lem b t u = elim (Option-cases (HashMap.get b.inner t)) [
  | inl e ↦ rw (e, clear) (kept b t u [] (unfold queue_of in ap or_empty e))
  | inr (q, e) ↦ rw (e, clear) (stored b t u [])
]

pushed_queue :
    (b : TradeBuffer) (t u : Bytes) (r : TradeRecord)
    → IsBounded b
    → queue_of (push t r b) u ≡ (
        if bytes_eq t u
        then last_n b.per_ticker_capacity (queue_of b t ++ (r ∷ []))
        else queue_of b u)
unfolding push
pushed_queue b t u r h =
    let q : pushed b.per_ticker_capacity r (or_empty (HashMap.get b.inner t))
        ≡ last_n b.per_ticker_capacity (queue_of b t ++ (r ∷ [])) =
      unfold queue_of in pushed_lem b.per_ticker_capacity r (queue_of b t) h.positive (h.at t) in
    rw q (stored b t u (last_n b.per_ticker_capacity (queue_of b t ++ (r ∷ []))))

-- In a bounded buffer, an operation changes the queue of its own ticker only: a push appends and keeps
-- the last trades up to the capacity, a removal takes out the first trade of the id, a clear empties.
pub perform-queue_of :
    (op : BufferOp) (b : TradeBuffer) (u : Bytes)
    → IsBounded b
    → queue_of (perform op b) u ≡ (
        if bytes_eq (ticker_of op) u
        then after b.per_ticker_capacity op (queue_of b (ticker_of op))
        else queue_of b u)
perform-queue_of (push_op t r) b u h = pushed_queue b t u r h
perform-queue_of (remove_op t id) b u h =
    unfold remove queue_of in (removed_lem b t id (HashMap.get b.inner t) refl).0 u
perform-queue_of (clear_op t) b u h = cleared_lem b t u

-- A removal answers whether a trade with the id was in the ticker's queue.
pub remove-has_id : (b : TradeBuffer) (t id : Bytes) → (remove t id b).1 ≡ has_id id (queue_of b t)
unfolding remove queue_of
remove-has_id b t id = (removed_lem b t id (HashMap.get b.inner t) refl).1

capacity-removed :
    (b : TradeBuffer) (t id : Bytes) (o : Option (List TradeRecord))
    → (removed t id o b).0.per_ticker_capacity ≡ b.per_ticker_capacity
unfolding removed
capacity-removed b t id none = refl
capacity-removed b t id (some q) = elim (Option-cases (without_first id q)) [
  | inl e ↦ rw (e, removed) refl
  | inr (us, e) ↦ rw (e, removed) refl
]

pub capacity-perform :
    (op : BufferOp) (b : TradeBuffer) → (perform op b).per_ticker_capacity ≡ b.per_ticker_capacity
unfolding push remove clear
capacity-perform (push_op t r) b = refl
capacity-perform (remove_op t id) b = capacity-removed b t id (HashMap.get b.inner t)
capacity-perform (clear_op t) b = elim (Option-cases (HashMap.get b.inner t)) [
  | inl e ↦ rw (e, clear) refl
  | inr (q, e) ↦ rw (e, clear) refl
]

after_bound :
    (cap : ℕ) (op : BufferOp) (q : List TradeRecord)
    → length q ≤ cap
    → length (after cap op q) ≤ cap
after_bound cap (push_op t r) q h = omega (arith, length-last_n cap (q ++ (r ∷ [])))
after_bound cap (remove_op t id) q h = omega (arith, length-drop_first id q)
after_bound cap (clear_op t) q h = omega arith

-- Every operation keeps the bound.
pub perform-IsBounded : (op : BufferOp) (b : TradeBuffer) → IsBounded b → IsBounded (perform op b)
perform-IsBounded op b h = record {
  positive = rw (capacity-perform op b) h.positive;
  at = λ u.
      rw (capacity-perform op b, perform-queue_of op b u h)
        (elim (Bool-cases (bytes_eq (ticker_of op) u)) [
          | inl e ↦ rw e (after_bound b.per_ticker_capacity op _ (h.at (ticker_of op)))
          | inr e ↦ rw e (h.at u)
        ]);
}

abbrev pub perform_all : List BufferOp → TradeBuffer → TradeBuffer
perform_all [] b = b
perform_all (op ∷ ops) b = perform_all ops (perform op b)

perform_all-IsBounded :
    (ops : List BufferOp) (b : TradeBuffer) → IsBounded b → IsBounded (perform_all ops b)
perform_all-IsBounded [] b h = h
perform_all-IsBounded (op ∷ ops) b h =
    perform_all-IsBounded ops (perform op b) (perform-IsBounded op b h)

-- After any operations on a fresh buffer, no ticker has more trades than the capacity, at least one.
pub new-perform_all : (n : ℕ) (ops : List BufferOp) → IsBounded (perform_all ops (new n))
new-perform_all n ops = perform_all-IsBounded ops (new n) (new-IsBounded n)
