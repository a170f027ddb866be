-- ===== src/Pipeline/Rows.antt =====
-- The buffer and the committed rows of the trade writer over the steps of the pipeline.
use market_data_v.Common.{
  ℕ, ◌≡◌, refl, ap, Bool, Option, none, some, List, [], ok, Bytes, Result-cases, Bool-cases,
  Option-cases, ◌&&◌, inl, inr,
}
use market_data_v.Frame.{Frame}
use market_data_v.Memchr.{Memchr}
use market_data_v.Shard.{Hasher}
use market_data_v.Types.{FloatText, ProtocolMessage, TradeOperation, MqcItem, GpnItem}
use market_data_v.Utf8.{is_utf8}
use market_data_v.Parser.{parse_frame}
use market_data_v.Book.Engine.{apply}
use market_data_v.Trades
use market_data_v.Archive.{try_push}
use market_data_v.Staged.{StagedTrade}
use market_data_v.Wal.{append}
use market_data_v.Writer
use market_data_v.Writer.{TradeWriter}
use market_data_v.Pipeline.{
  Json, Pipeline, build_staged_trade, dispatch_trade, dispatch_symbol, dispatch_broker,
  dispatch_book, dispatch, spawn_fanout, flush_fanout, persist, spawn_persist, Task, submits,
  appends, append_ignored, handle, run_task, flush_writer, flush_all,
}

abbrev pub buffer_of : Option TradeWriter → List StagedTrade
buffer_of none = []
buffer_of (some w) = w.buffer

abbrev pub committed_of : Option TradeWriter → List StagedTrade
committed_of none = []
committed_of (some w) = w.committed

module _ ⦃m : Memchr⦄ ⦃f : FloatText⦄ ⦃h : Hasher⦄ ⦃j : Json⦄ where
  append_ignored-rows :
      (payload : Bytes) (w : TradeWriter)
      → ((append_ignored payload w).buffer ≡ w.buffer)
        × ((append_ignored payload w).committed ≡ w.committed)
  unfolding append_ignored
  append_ignored-rows payload w = elim (Result-cases (append payload w.wal)) [
    | inl (x, e) ↦ rw (e, append_ignored) (refl, refl)
    | inr (x, e) ↦ rw (e, append_ignored) (refl, refl)
  ]

  -- The writer is the same but for its log.
  unfoldable pub SameRows : Option TradeWriter → Option TradeWriter → Type 0
  SameRows a b = (buffer_of a ≡ buffer_of b) × (committed_of a ≡ committed_of b)

  persist-rows :
      (staged : Option StagedTrade) (w : Option TradeWriter) (p : Pipeline)
      → p.trade_writer ≡ w
      → SameRows (persist staged w p).trade_writer w
  unfolding persist spawn_persist SameRows
  persist-rows staged none p e = rw e (refl, refl)
  persist-rows none (some w) p e = rw e (refl, refl)
  persist-rows (some staged) (some w) p e = append_ignored-rows [] w

  dispatch_trade-rows :
      (now : ℕ) (ticker : Bytes) (op : TradeOperation) (p : Pipeline)
      → SameRows (dispatch_trade now ticker op p).trade_writer p.trade_writer
  unfolding dispatch_trade spawn_fanout SameRows
  dispatch_trade-rows now ticker (TradeOperation.add t) p =
      persist-rows (build_staged_trade now p.asset_cache ticker t) p.trade_writer
        (record p {
          engine = record p.engine {
            trades = Trades.push ticker (Trades.record_of t) p.engine.trades;
          };
        })
        refl
  dispatch_trade-rows now ticker (TradeOperation.delete id) p = (refl, refl)
  dispatch_trade-rows now ticker TradeOperation.remove_all p = (refl, refl)
  dispatch_trade-rows now ticker TradeOperation.end_of_subscribe p = (refl, refl)
  dispatch_trade-rows now ticker (TradeOperation.end_of_snapshot id) p = (refl, refl)

  writer-dispatch_symbol :
      (item : MqcItem) (p : Pipeline) → (dispatch_symbol item p).trade_writer ≡ p.trade_writer
  unfolding dispatch_symbol
  writer-dispatch_symbol (MqcItem.symbol market ticker) p =
      elim (Bool-cases (is_utf8 market && is_utf8 ticker)) [ inl e ↦ rw e refl | inr e ↦ rw e refl ]
  writer-dispatch_symbol (MqcItem.list_end market) p = refl

  writer-dispatch_broker :
      (item : GpnItem) (p : Pipeline) → (dispatch_broker item p).trade_writer ≡ p.trade_writer
  unfolding dispatch_broker
  writer-dispatch_broker item p =
      elim (Bool-cases (is_utf8 item.cedro_id && is_utf8 item.code && is_utf8 item.name)) [
        | inl e ↦ rw e refl
        | inr e ↦ rw e refl
      ]

  -- The result of a step, where there is one.
  unfoldable pub Kept : Option Pipeline → Option TradeWriter → Type 0
  Kept none w = Unit
  Kept (some p') w = SameRows p'.trade_writer w

  SameRows-refl :
      (p p' : Pipeline) → p'.trade_writer ≡ p.trade_writer → SameRows p'.trade_writer p.trade_writer
  unfolding SameRows
  SameRows-refl p p' e = (ap buffer_of e, ap committed_of e)

  dispatch-Kept :
      (now : ℕ) (msg : ProtocolMessage) (p : Pipeline) → Kept (dispatch now msg p) p.trade_writer
  unfolding dispatch dispatch_book spawn_fanout Kept SameRows
  dispatch-Kept now (ProtocolMessage.quote t time diff) p = (refl, refl)
  dispatch-Kept now (ProtocolMessage.book t op) p = elim (Option-cases (apply p.engine.book t op)) [
    | inl e ↦ rw (e, dispatch_book) tt
    | inr (x, e) ↦ rw (e, dispatch_book) (refl, refl)
  ]
  dispatch-Kept now (ProtocolMessage.trade t op) p = dispatch_trade-rows now t op p
  dispatch-Kept now (ProtocolMessage.mqc_item item) p =
      SameRows-refl p (dispatch_symbol item p) (writer-dispatch_symbol item p)
  dispatch-Kept now (ProtocolMessage.gpn_item item) p =
      SameRows-refl p (dispatch_broker item p) (writer-dispatch_broker item p)
  dispatch-Kept now (ProtocolMessage.agg_book t op) p = (refl, refl)
  dispatch-Kept now (ProtocolMessage.news n) p = (refl, refl)
  dispatch-Kept now (ProtocolMessage.vap v) p = (refl, refl)
  dispatch-Kept now (ProtocolMessage.server_time t) p = (refl, refl)
  dispatch-Kept now (ProtocolMessage.error e) p = (refl, refl)

  pub handle-Kept :
      (now : ℕ) (frame : Frame) (p : Pipeline) → Kept (handle now frame p) p.trade_writer
  unfolding handle Kept SameRows
  handle-Kept now (kind, frame) p = elim (Result-cases (parse_frame kind frame)) [
    | inl (msg, e) ↦
        rw (e, handle) (dispatch-Kept now msg (record p { archive = (try_push frame p.archive).0 }))
    | inr (x, e) ↦ rw (e, handle) (refl, refl)
  ]

  pub run_task-rows :
      (task : Task) (p : Pipeline) → SameRows (run_task task p).trade_writer p.trade_writer
  unfolding run_task SameRows
  run_task-rows (submits key payload) p = (refl, refl)
  run_task-rows (appends payload) p = elim (Option-cases p.trade_writer) [
    | inl e ↦ rw (e, run_task) (rw e (refl, refl))
    | inr (w, e) ↦ rw (e, run_task) (append_ignored-rows payload w)
  ]

  pub flush_empty :
      (inserts : Bool) (w : TradeWriter) → w.buffer ≡ [] → Writer.flush inserts w ≡ (w, ok 0)
  unfolding Writer.flush
  flush_empty inserts w e = rw e refl

  pub flush_writer-rows :
      (inserts : Bool) (p : Pipeline)
      → buffer_of p.trade_writer ≡ []
      → SameRows (flush_writer inserts p).0.trade_writer p.trade_writer
        × ((flush_writer inserts p).1 ≡ ok 0)
  unfolding flush_writer SameRows
  flush_writer-rows inserts p b = elim (Option-cases p.trade_writer) [
    | inl e ↦ rw (e, flush_writer) (rw e ((refl, refl), refl))
    | inr (w, e) ↦
        rw (e, flush_writer) (rw (flush_empty inserts w (rw e at b)) ((refl, refl), refl))
  ]

  pub flush_all-rows :
      (inserts : Bool) (p : Pipeline)
      → buffer_of p.trade_writer ≡ []
      → SameRows (flush_all inserts p).0.trade_writer p.trade_writer
        × ((flush_all inserts p).1 ≡ ok tt)
  unfolding flush_all flush_fanout SameRows
  flush_all-rows inserts p b =
      let ((rows, same), answer) = flush_writer-rows inserts p b in
      let whole : flush_writer inserts p ≡ ((flush_writer inserts p).0, ok 0) =
        ap (λ r. ((flush_writer inserts p).0, r)) answer in
      rw (whole, flush_all) ((rows, same), refl)

  pub engine-run_task : (task : Task) (p : Pipeline) → (run_task task p).engine ≡ p.engine
  unfolding run_task
  engine-run_task (submits key payload) p = refl
  engine-run_task (appends payload) p = elim (Option-cases p.trade_writer) [
    | inl e ↦ rw (e, run_task) refl
    | inr (w, e) ↦ rw (e, run_task) refl
  ]

  pub engine-flush_all :
      (inserts : Bool) (p : Pipeline)
      → buffer_of p.trade_writer ≡ []
      → (flush_all inserts p).0.engine ≡ p.engine
  unfolding flush_all flush_fanout flush_writer
  engine-flush_all inserts p b = elim (Option-cases p.trade_writer) [
    | inl e ↦ rw (e, flush_all, flush_writer) refl
    | inr (w, e) ↦ rw (e, flush_all, flush_writer) (rw (flush_empty inserts w (rw e at b)) refl)
  ]
