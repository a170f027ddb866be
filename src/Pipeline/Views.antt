-- ===== src/Pipeline/Views.antt =====
-- What a message does to the views of the three engines: the book of a ticker, a field of its quote,
-- and its last trades.
use market_data_v.Common.{
  bytes_eq, bytes_eq_iff, ℕ, ◌<◌, ◌≡◌, refl, sym, ap, ◌∙◌, Bool, true, ◌&&◌, Option, some, List, [],
  ◌∷◌, Bytes, length, if◌then◌else◌, Bool-cases, inl, inr, arith,
}
use market_data_v.Shard.{Hasher}
use market_data_v.Types.{ProtocolMessage, TradeOperation, QuoteFieldValue, BookOp}
use market_data_v.Quote
use market_data_v.Quote.Diffs.{field_of, latest, apply-field_of}
use market_data_v.Book.Order
use market_data_v.Book.Order.{OrderBook}
use market_data_v.Book.Engine as BookEngines
use market_data_v.Book.Engine.{BookEngine, is_allowed, or_default}
use market_data_v.Book.Engine.Refine.{book_of, apply-book_of}
use market_data_v.Trades.{TradeRecord, record_of}
use market_data_v.Trades.Bounds.{
  BufferOp, push_op, remove_op, ticker_of, after, perform, IsBounded, perform-queue_of,
  perform-IsBounded, capacity-perform,
}
use market_data_v.Trades.Queues.{queue_of}
use market_data_v.Pipeline.{Engine}

-- What a message does to the book of a ticker, if the ticker is allowed.
unfoldable pub book_step :
    (Bytes → Bool) → ProtocolMessage → Bytes → Option OrderBook → Option OrderBook
book_step allowed (ProtocolMessage.book t op) u old =
    if allowed t && bytes_eq t u then some (Order.apply op (or_default old)).0 else old
book_step allowed _ u old = old

-- What it does to a field of a quote.
unfoldable pub field_step :
    ProtocolMessage → Bytes → ℕ → Option QuoteFieldValue → Option QuoteFieldValue
field_step (ProtocolMessage.quote t time diff) u idx old =
    if bytes_eq t u then latest idx diff old else old
field_step _ u idx old = old

-- What it does to the last trades of a ticker, of which there are at most `capacity`.
unfoldable pub queue_step : ℕ → ProtocolMessage → Bytes → List TradeRecord → List TradeRecord
queue_step capacity (ProtocolMessage.trade t (TradeOperation.add x)) u old =
    if bytes_eq t u then after capacity (push_op t (record_of x)) old else old
queue_step capacity (ProtocolMessage.trade t (TradeOperation.delete id)) u old =
    if bytes_eq t u then after capacity (remove_op t id) old else old
queue_step capacity (ProtocolMessage.trade t TradeOperation.remove_all) u old =
    if bytes_eq t u then [] else old
queue_step capacity _ u old = old

abbrev pub fold : {A : Type 0} → (ProtocolMessage → A → A) → List ProtocolMessage → A → A
fold step [] a = a
fold step (m ∷ ms) a = fold step ms (step m a)

-- The book engine has a shard, and the trade buffer is within its bounds.
pub record IsReady (e : Engine) : Type 0 where
  pub shards : 0 < length e.book.shards
  pub bounded : IsBounded e.trades

if_same :
    {A : Type 0} (a : Bool) (t u : Bytes) (view : Bytes → A) (other : A)
    → (if a && bytes_eq t u then view t else other) ≡ (if a && bytes_eq t u then view u else other)
if_same a t u view other = elim (Bool-cases (bytes_eq t u)) [
  | inl e ↦ ap (λ x. if a && bytes_eq t u then x else other) (ap view ((bytes_eq_iff t u).0 e))
  | inr e ↦ elim (Bool-cases a) [ inl q ↦ rw (q, e) refl | inr q ↦ rw q refl ]
]

module _ ⦃h : Hasher⦄ where
  -- The views after a message.
  pub record Stepped (msg : ProtocolMessage) (e e' : Engine) : Type 0 where
    pub ready : IsReady e'
    pub allowed : e'.book.allowed ≡ e.book.allowed
    pub capacity : e'.trades.per_ticker_capacity ≡ e.trades.per_ticker_capacity
    pub book_stepped :
        (u : Bytes) → book_of e'.book u ≡ book_step (is_allowed e.book) msg u (book_of e.book u)
    pub field_stepped :
        (u : Bytes) (idx : ℕ)
        → field_of e'.quote u idx ≡ field_step msg u idx (field_of e.quote u idx)
    pub queue_stepped :
        (u : Bytes)
        → queue_of e'.trades u ≡ queue_step e.trades.per_ticker_capacity msg u (queue_of e.trades u)

  pub Stepped-quote :
      (t : Bytes) (time : ℕ) (diff : _) (e : Engine)
      → IsReady e
      → Stepped
          (ProtocolMessage.quote t time diff)
          e
          (record e { quote = (Quote.apply t time diff e.quote).0 })
  unfolding book_step field_step queue_step
  Stepped-quote t time diff e r = record {
    ready = record { shards = r.shards; bounded = r.bounded };
    allowed = refl;
    capacity = refl;
    book_stepped = λ u. refl;
    field_stepped = (apply-field_of e.quote t time diff).0;
    queue_stepped = λ u. refl;
  }

  pub Stepped-book :
      (t : Bytes) (op : BookOp) (e : Engine)
      → IsReady e
      → (book : BookEngine) × (b : Bool) × (BookEngines.apply e.book t op ≡ some (book, b))
        × Stepped (ProtocolMessage.book t op) e (record e { book = book })
  unfolding book_step field_step queue_step
  Stepped-book t op e r =
      let (book, q, views, shards, filter, _) = apply-book_of e.book t op r.shards in
      (
        book,
        _,
        q,
        record {
          ready = record { shards = omega (arith, shards, r.shards); bounded = r.bounded };
          allowed = filter;
          capacity = refl;
          book_stepped = λ u.
              views u
              ∙ if_same (is_allowed e.book t) t u
                  (λ x. some (Order.apply op (or_default (book_of e.book x))).0) (book_of e.book u);
          field_stepped = λ u idx. refl;
          queue_stepped = λ u. refl;
        },
      )

  pub Stepped-perform :
      (msg : ProtocolMessage) (op : BufferOp) (e : Engine)
      → IsReady e
      → ((u : Bytes) (o : Option OrderBook) → book_step (is_allowed e.book) msg u o ≡ o)
      → ((u : Bytes) (idx : ℕ) (o : Option QuoteFieldValue) → field_step msg u idx o ≡ o)
      → ((u : Bytes) (q : List TradeRecord)
          → queue_step e.trades.per_ticker_capacity msg u q
            ≡ (if bytes_eq (ticker_of op) u then after e.trades.per_ticker_capacity op q else q))
      → Stepped msg e (record e { trades = perform op e.trades })
  Stepped-perform msg op e r b f q = record {
    ready = record { shards = r.shards; bounded = perform-IsBounded op e.trades r.bounded };
    allowed = refl;
    capacity = capacity-perform op e.trades;
    book_stepped = λ u. sym (b u (book_of e.book u));
    field_stepped = λ u idx. sym (f u idx (field_of e.quote u idx));
    queue_stepped = λ u.
        perform-queue_of op e.trades u r.bounded
        ∙ if_same true (ticker_of op) u
            (λ x. after e.trades.per_ticker_capacity op (queue_of e.trades x)) (queue_of e.trades u)
        ∙ sym (q u (queue_of e.trades u));
  }

  pub Stepped-none :
      (msg : ProtocolMessage) (e : Engine)
      → IsReady e
      → ((u : Bytes) (o : Option OrderBook) → book_step (is_allowed e.book) msg u o ≡ o)
      → ((u : Bytes) (idx : ℕ) (o : Option QuoteFieldValue) → field_step msg u idx o ≡ o)
      → ((u : Bytes) (q : List TradeRecord) → queue_step e.trades.per_ticker_capacity msg u q ≡ q)
      → Stepped msg e e
  Stepped-none msg e r b f q = record {
    ready = r;
    allowed = refl;
    capacity = refl;
    book_stepped = λ u. sym (b u (book_of e.book u));
    field_stepped = λ u idx. sym (f u idx (field_of e.quote u idx));
    queue_stepped = λ u. sym (q u (queue_of e.trades u));
  }
