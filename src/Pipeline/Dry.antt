-- ===== src/Pipeline/Dry.antt =====
-- bin/ingest-daemon/src/pipeline.rs: the steps of a pipeline that knows no asset.
use market_data_v.Common.{
  bytes_keys, codes, ap, ◌∙◌, ℕ, ◌≡◌, refl, ◌&&◌, Option, none, some, List, [], ◌∷◌, Bytes, All,
  All-append, Bool-cases, Option-cases, Result-cases, inl, inr,
}
use market_data_v.Common.HashMap.{get-empty}
use market_data_v.Coalescer.{Kind, PublishKey}
use market_data_v.Pipeline.Symbols.{Catalog}
use market_data_v.Frame.{Frame}
use market_data_v.Memchr.{Memchr}
use market_data_v.Shard.{Hasher}
use market_data_v.Types.{FloatText, ProtocolMessage, TradeOperation, MqcItem, GpnItem, Trade}
use market_data_v.Utf8.{is_utf8}
use market_data_v.Parser.{parse_frame}
use market_data_v.Book.Engine as BookEngines
use market_data_v.Trades
use market_data_v.Archive.{try_push}
use market_data_v.Assets
use market_data_v.Writer.{TradeWriter}
use market_data_v.Pipeline.{
  Json, Pipeline, Engine, Task, submits, appends, handle, worker_loop, dispatch, dispatch_book,
  dispatch_trade, dispatch_symbol, dispatch_broker, spawn_fanout, build_staged_trade, persist,
}
use market_data_v.Pipeline.Views.{IsReady}
use market_data_v.Pipeline.Handled.{handle-IsReady}

abbrev pub IsSubmit : Task → Type 0
IsSubmit (submits key payload) = Unit
IsSubmit (appends payload) = ⊥

-- No asset is known, and no task writes to the log.
pub record IsDry (w : Option TradeWriter) (p : Pipeline) : Type 0 where
  pub no_assets : p.asset_cache ≡ Assets.new
  pub same_writer : p.trade_writer ≡ w
  pub only_submits : All IsSubmit p.tasks

module _ ⦃m : Memchr⦄ ⦃f : FloatText⦄ ⦃h : Hasher⦄ ⦃j : Json⦄ where
  not_staged :
      (now : ℕ) (ticker : Bytes) (t : Trade) → build_staged_trade now Assets.new ticker t ≡ none
  unfolding build_staged_trade Assets.new Assets.get
  not_staged now ticker t =
      rw (get-empty {V = ℕ} ticker)
        (elim (Bool-cases (is_utf8 ticker)) [ inl e ↦ rw e refl | inr e ↦ rw e refl ])

  persist-none : (w : Option TradeWriter) (p : Pipeline) → persist none w p ≡ p
  unfolding persist
  persist-none none p = refl
  persist-none (some w) p = refl

  IsDry-engine :
      (w : Option TradeWriter) (p : Pipeline) (e : Engine)
      → IsDry w p
      → IsDry w (record p { engine = e })
  IsDry-engine w p e d = record {
    no_assets = d.no_assets;
    same_writer = d.same_writer;
    only_submits = d.only_submits;
  }

  spawn_fanout-IsDry :
      (w : Option TradeWriter) (key : PublishKey) (payload : Bytes) (p : Pipeline)
      → IsDry w p
      → IsDry w (spawn_fanout key payload p)
  unfolding spawn_fanout
  spawn_fanout-IsDry w key payload p d = record {
    no_assets = d.no_assets;
    same_writer = d.same_writer;
    only_submits = All-append IsSubmit p.tasks (submits key payload ∷ []) d.only_submits (tt, tt);
  }

  dispatch_trade-IsDry :
      (w : Option TradeWriter) (now : ℕ) (t : Bytes) (op : TradeOperation) (p : Pipeline)
      → IsDry w p
      → IsDry w (dispatch_trade now t op p)
  unfolding dispatch_trade
  dispatch_trade-IsDry w now t (TradeOperation.add x) p d =
      let pushed = record p {
        engine = record p.engine { trades = Trades.push t (Trades.record_of x) p.engine.trades };
      } in
      let nothing : build_staged_trade now p.asset_cache t x ≡ none =
        ap (λ c. build_staged_trade now c t x) d.no_assets ∙ not_staged now t x in
      let same =
        ap (λ o. persist o p.trade_writer pushed) nothing ∙ persist-none p.trade_writer pushed in
      rw (same) (
        spawn_fanout-IsDry w (record { kind = Kind.trade; ticker = t }) (codes "t") pushed
          (IsDry-engine w p pushed.engine d))
  dispatch_trade-IsDry w now t (TradeOperation.delete id) p d = IsDry-engine w p _ d
  dispatch_trade-IsDry w now t TradeOperation.remove_all p d = IsDry-engine w p _ d
  dispatch_trade-IsDry w now t TradeOperation.end_of_subscribe p d = d
  dispatch_trade-IsDry w now t (TradeOperation.end_of_snapshot id) p d = d

  IsDry-catalog :
      (w : Option TradeWriter) (p : Pipeline) (c : Catalog)
      → IsDry w p
      → IsDry w (record p { catalog = c })
  IsDry-catalog w p c d = record {
    no_assets = d.no_assets;
    same_writer = d.same_writer;
    only_submits = d.only_submits;
  }

  -- The same of a step that may panic.
  abbrev StaysDry : Option TradeWriter → Option Pipeline → Type 0
  StaysDry w none = Unit
  StaysDry w (some p) = IsDry w p

  dispatch_symbol-IsDry :
      (w : Option TradeWriter) (item : MqcItem) (p : Pipeline)
      → IsDry w p
      → IsDry w (dispatch_symbol item p)
  unfolding dispatch_symbol
  dispatch_symbol-IsDry w (MqcItem.symbol market ticker) p d =
      elim (Bool-cases (is_utf8 market && is_utf8 ticker)) [
        | inl e ↦ rw e (IsDry-catalog w p _ d)
        | inr e ↦ rw e d
      ]
  dispatch_symbol-IsDry w (MqcItem.list_end market) p d = d

  dispatch_broker-IsDry :
      (w : Option TradeWriter) (item : GpnItem) (p : Pipeline)
      → IsDry w p
      → IsDry w (dispatch_broker item p)
  unfolding dispatch_broker
  dispatch_broker-IsDry w item p d =
      elim (Bool-cases (is_utf8 item.cedro_id && is_utf8 item.code && is_utf8 item.name)) [
        | inl e ↦ rw e (IsDry-catalog w p _ d)
        | inr e ↦ rw e d
      ]

  dispatch-StaysDry :
      (w : Option TradeWriter) (now : ℕ) (msg : ProtocolMessage) (p : Pipeline)
      → IsDry w p
      → StaysDry w (dispatch now msg p)
  unfolding dispatch dispatch_book
  dispatch-StaysDry w now (ProtocolMessage.quote t time diff) p d =
      spawn_fanout-IsDry w _ _ _ (IsDry-engine w p _ d)
  dispatch-StaysDry w now (ProtocolMessage.book t op) p d =
      elim (Option-cases (BookEngines.apply p.engine.book t op)) [
        | inl e ↦ rw (e, dispatch_book) tt
        | inr ((book, b), e) ↦
            rw (e, dispatch_book) (spawn_fanout-IsDry w _ _ _ (IsDry-engine w p _ d))
      ]
  dispatch-StaysDry w now (ProtocolMessage.trade t op) p d = dispatch_trade-IsDry w now t op p d
  dispatch-StaysDry w now (ProtocolMessage.mqc_item item) p d = dispatch_symbol-IsDry w item p d
  dispatch-StaysDry w now (ProtocolMessage.gpn_item item) p d = dispatch_broker-IsDry w item p d
  dispatch-StaysDry w now (ProtocolMessage.agg_book t op) p d = d
  dispatch-StaysDry w now (ProtocolMessage.news n) p d = d
  dispatch-StaysDry w now (ProtocolMessage.vap v) p d = d
  dispatch-StaysDry w now (ProtocolMessage.server_time t) p d = d
  dispatch-StaysDry w now (ProtocolMessage.error e) p d = d

  handle-StaysDry :
      (w : Option TradeWriter) (now : ℕ) (frame : Frame) (p : Pipeline)
      → IsDry w p
      → StaysDry w (handle now frame p)
  unfolding handle
  handle-StaysDry w now (kind, frame) p d =
      let archived = record p { archive = (try_push frame p.archive).0 } in
      let kept : IsDry w archived = record {
        no_assets = d.no_assets;
        same_writer = d.same_writer;
        only_submits = d.only_submits;
      } in
      elim (Result-cases (parse_frame kind frame)) [
        | inl (msg, e) ↦ rw (e, handle) (dispatch-StaysDry w now msg archived kept)
        | inr (x, e) ↦ rw (e, handle) kept
      ]

  pub worker_loop-IsDry :
      (w : Option TradeWriter) (frames : List (ℕ × Frame)) (p : Pipeline)
      → IsReady p.engine
      → IsDry w p
      → (p' : Pipeline) × (worker_loop frames p ≡ some p') × IsDry w p'
  unfolding worker_loop
  worker_loop-IsDry w [] p r d = (p, refl, d)
  worker_loop-IsDry w ((now, frame) ∷ frames) p r d =
      let (q, e, ready) = handle-IsReady now frame p r in
      let dry : IsDry w q = rw e at (handle-StaysDry w now frame p d) in
      let (p', e', d') = worker_loop-IsDry w frames q ready dry in (p', rw (e, worker_loop) e', d')
