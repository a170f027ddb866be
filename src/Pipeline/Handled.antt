-- ===== src/Pipeline/Handled.antt =====
-- What the engines hold after a worker has handled frames: the composition of the parsers, the dispatch
-- and the three engines.
use market_data_v.Common.{
  ℕ, ◌≡◌, refl, ap, ◌∙◌, some, List, [], ◌∷◌, Bytes, inl, inr, ok, err, Result-cases,
}
use market_data_v.Frame.{Frame, FrameKind}
use market_data_v.Scanner.{ParseError}
use market_data_v.Memchr.{Memchr}
use market_data_v.Shard.{Hasher}
use market_data_v.Types.{FloatText, ProtocolMessage}
use market_data_v.Parser.{parse_frame}
use market_data_v.Quote.Diffs.{field_of}
use market_data_v.Book.Engine.{BookEngine, is_allowed}
use market_data_v.Book.Engine.Refine.{book_of}
use market_data_v.Trades.Queues.{queue_of}
use market_data_v.Archive.{try_push}
use market_data_v.Pipeline.{Json, Pipeline, Engine, dispatch, handle, worker_loop}
use market_data_v.Pipeline.Views.{book_step, field_step, queue_step, fold, IsReady, Stepped}
use market_data_v.Pipeline.Dispatch.{dispatch-Dispatched}

module _ ⦃m : Memchr⦄ ⦃f : FloatText⦄ where
  -- The messages of the frames that parse.
  unfoldable pub messages : List (ℕ × Frame) → List ProtocolMessage
  messages [] = []
  messages ((now, (kind, frame)) ∷ frames) =
      let rest = messages frames in
      elim (parse_frame kind frame) [ err e ↦ rest | ok msg ↦ msg ∷ rest ]

module _ ⦃m : Memchr⦄ ⦃f : FloatText⦄ ⦃h : Hasher⦄ ⦃j : Json⦄ where
  -- The views after all frames.
  pub record Handled (ms : List ProtocolMessage) (e e' : Engine) : Type 0 where
    pub books :
        (u : Bytes)
        → book_of e'.book u
          ≡ fold (λ msg. book_step (is_allowed e.book) msg u) ms (book_of e.book u)
    pub fields :
        (u : Bytes) (idx : ℕ)
        → field_of e'.quote u idx ≡ fold (λ msg. field_step msg u idx) ms (field_of e.quote u idx)
    pub queues :
        (u : Bytes)
        → queue_of e'.trades u
          ≡ fold (λ msg. queue_step e.trades.per_ticker_capacity msg u) ms (queue_of e.trades u)

  is_allowed_same : (b c : BookEngine) → c.allowed ≡ b.allowed → is_allowed c ≡ is_allowed b
  unfolding is_allowed
  is_allowed_same b c e = ap (λ a. is_allowed (record b { allowed = a })) e

  Handled-cons :
      (msg : ProtocolMessage) (ms : List ProtocolMessage) (e e' e'' : Engine)
      → Stepped msg e e'
      → Handled ms e' e''
      → Handled (msg ∷ ms) e e''
  Handled-cons msg ms e e' e'' s r =
      let filter : is_allowed e'.book ≡ is_allowed e.book =
        is_allowed_same e.book e'.book s.allowed in
      record {
        books = λ u.
            r.books u
            ∙ ap (λ a. fold (λ x. book_step a x u) ms (book_of e'.book u)) filter
            ∙ ap (fold (λ x. book_step (is_allowed e.book) x u) ms) (s.book_stepped u);
        fields = λ u idx.
            r.fields u idx ∙ ap (fold (λ x. field_step x u idx) ms) (s.field_stepped u idx);
        queues = λ u.
            r.queues u
            ∙ ap (λ c. fold (λ x. queue_step c x u) ms (queue_of e'.trades u)) s.capacity
            ∙ ap (fold (λ x. queue_step e.trades.per_ticker_capacity x u) ms) (s.queue_stepped u);
      }

  archived : Bytes → Pipeline → Pipeline
  archived frame p = record p { archive = (try_push frame p.archive).0 }

  handle_parsed :
      (now : ℕ) (kind : FrameKind) (frame : Bytes) (p p' : Pipeline) (msg : ProtocolMessage)
      → parse_frame kind frame ≡ ok msg
      → dispatch now msg (archived frame p) ≡ some p'
      → handle now (kind, frame) p ≡ some p'
  unfolding handle archived
  handle_parsed now kind frame p p' msg e d = rw (e, handle) d

  handle_refused :
      (now : ℕ) (kind : FrameKind) (frame : Bytes) (p : Pipeline) (x : ParseError)
      → parse_frame kind frame ≡ err x
      → handle now (kind, frame) p ≡ some (archived frame p)
  unfolding handle archived
  handle_refused now kind frame p x e = rw (e, handle) refl

  -- A worker that handles frames one after the other, on engines with a shard and a bounded trade buffer,
  -- never panics; and after them the book of every ticker, the value of every field of every quote, and
  -- the last trades of every ticker are those that the messages of the frames that parse make of them,
  -- one after the other in the order of the frames: a frame that does not parse, and a message of
  -- another kind or ticker, changes none of them.
  pub worker_loop-Handled :
      (frames : List (ℕ × Frame)) (p : Pipeline)
      → IsReady p.engine
      → (p' : Pipeline) × (worker_loop frames p ≡ some p')
        × Handled (messages frames) p.engine p'.engine
  unfolding worker_loop messages archived
  worker_loop-Handled [] p r =
      (p, refl, record { books = λ u. refl; fields = λ u idx. refl; queues = λ u. refl })
  worker_loop-Handled ((now, (kind, frame)) ∷ frames) p r =
      elim (Result-cases (parse_frame kind frame)) [
        | inl (msg, e) ↦
            let d = dispatch-Dispatched now msg (archived frame p) r in
            let s = d.stepped_engine in
            let (p', q, v) = worker_loop-Handled frames d.after_it s.ready in
            rw (handle_parsed now kind frame p d.after_it msg e d.done, worker_loop, e, messages)
              (p', q, Handled-cons msg (messages frames) p.engine d.after_it.engine p'.engine s v)
        | inr (x, e) ↦
            let (p', q, v) = worker_loop-Handled frames (archived frame p) r in
            rw (handle_refused now kind frame p x e, worker_loop, e, messages) (p', q, v)
      ]

  -- No frame makes the handler panic, and the engines stay ready.
  pub handle-IsReady :
      (now : ℕ) (frame : Frame) (p : Pipeline)
      → IsReady p.engine
      → (p' : Pipeline) × (handle now frame p ≡ some p') × IsReady p'.engine
  unfolding archived
  handle-IsReady now (kind, frame) p r = elim (Result-cases (parse_frame kind frame)) [
    | inl (msg, e) ↦
        let d = dispatch-Dispatched now msg (archived frame p) r in
        (d.after_it, handle_parsed now kind frame p d.after_it msg e d.done, d.stepped_engine.ready)
    | inr (x, e) ↦ (archived frame p, handle_refused now kind frame p x e, r)
  ]
