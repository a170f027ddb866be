-- ===== src/Pipeline/Dispatch.antt =====
-- Every message goes to the engine that it is for, and to no other, and no dispatch panics.
use mathlib.Core.Path.{subst}
use market_data_v.Common.{
  ℕ, ◌≡◌, refl, sym, ◌&&◌, Option, none, some, Bytes, codes, Bool-cases, inl, inr,
}
use market_data_v.Shard.{Hasher}
use market_data_v.Types.{ProtocolMessage, TradeOperation, MqcItem, GpnItem}
use market_data_v.Utf8.{is_utf8}
use market_data_v.Staged.{StagedTrade}
use market_data_v.Writer.{TradeWriter}
use market_data_v.Trades.{record_of}
use market_data_v.Trades.Bounds.{push_op, remove_op, clear_op, perform}
use market_data_v.Coalescer.{Kind}
use market_data_v.Pipeline.{
  Json, Pipeline, build_staged_trade, spawn_fanout, spawn_persist, persist, dispatch_trade,
  dispatch_symbol, dispatch_broker, dispatch_book, dispatch,
}
use market_data_v.Pipeline.Views.{
  book_step, field_step, queue_step, IsReady, Stepped, Stepped-quote, Stepped-book, Stepped-perform,
  Stepped-none,
}

module _ ⦃h : Hasher⦄ ⦃j : Json⦄ where
  -- A dispatch does not panic, and what it does to the engines is the step of the message.
  pub record Dispatched (now : ℕ) (msg : ProtocolMessage) (p : Pipeline) : Type 0 where
    pub after_it : Pipeline
    pub done : dispatch now msg p ≡ some after_it
    pub stepped_engine : Stepped msg p.engine after_it.engine

  engine-persist :
      (staged : Option StagedTrade) (w : Option TradeWriter) (p : Pipeline)
      → (persist staged w p).engine ≡ p.engine
  unfolding persist spawn_persist
  engine-persist staged none p = refl
  engine-persist none (some w) p = refl
  engine-persist (some staged) (some w) p = refl

  dispatch_trade-Stepped :
      (now : ℕ) (t : Bytes) (op : TradeOperation) (p : Pipeline)
      → IsReady p.engine
      → Stepped (ProtocolMessage.trade t op) p.engine (dispatch_trade now t op p).engine
  unfolding dispatch_trade spawn_fanout book_step field_step queue_step
  dispatch_trade-Stepped now t (TradeOperation.add x) p r =
      let op = push_op t (record_of x) in
      let pushed = record p { engine = record p.engine { trades = perform op p.engine.trades } } in
      rw (engine-persist (build_staged_trade now p.asset_cache t x) p.trade_writer pushed) (
        Stepped-perform (ProtocolMessage.trade t (TradeOperation.add x)) op p.engine r (λ u o. refl)
          (λ u idx o. refl) (λ u q. refl))
  dispatch_trade-Stepped now t (TradeOperation.delete id) p r =
      Stepped-perform (ProtocolMessage.trade t (TradeOperation.delete id)) (remove_op t id) p.engine
        r (λ u o. refl) (λ u idx o. refl) (λ u q. refl)
  dispatch_trade-Stepped now t TradeOperation.remove_all p r =
      Stepped-perform (ProtocolMessage.trade t TradeOperation.remove_all) (clear_op t) p.engine r
        (λ u o. refl) (λ u idx o. refl) (λ u q. refl)
  dispatch_trade-Stepped now t TradeOperation.end_of_subscribe p r =
      Stepped-none (ProtocolMessage.trade t TradeOperation.end_of_subscribe) p.engine r
        (λ u o. refl) (λ u idx o. refl) (λ u q. refl)
  dispatch_trade-Stepped now t (TradeOperation.end_of_snapshot id) p r =
      Stepped-none (ProtocolMessage.trade t (TradeOperation.end_of_snapshot id)) p.engine r
        (λ u o. refl) (λ u idx o. refl) (λ u q. refl)

  engine-dispatch_symbol :
      (item : MqcItem) (p : Pipeline) → (dispatch_symbol item p).engine ≡ p.engine
  unfolding dispatch_symbol
  engine-dispatch_symbol (MqcItem.symbol market ticker) p =
      elim (Bool-cases (is_utf8 market && is_utf8 ticker)) [ inl e ↦ rw e refl | inr e ↦ rw e refl ]
  engine-dispatch_symbol (MqcItem.list_end market) p = refl

  engine-dispatch_broker :
      (item : GpnItem) (p : Pipeline) → (dispatch_broker item p).engine ≡ p.engine
  unfolding dispatch_broker
  engine-dispatch_broker item p =
      elim (Bool-cases (is_utf8 item.cedro_id && is_utf8 item.code && is_utf8 item.name)) [
        | inl e ↦ rw e refl
        | inr e ↦ rw e refl
      ]

  kept :
      (now : ℕ) (msg : ProtocolMessage) (p p' : Pipeline)
      → dispatch now msg p ≡ some p'
      → p'.engine ≡ p.engine
      → Stepped msg p.engine p.engine
      → Dispatched now msg p
  kept now msg p p' d e s = record {
    after_it = p';
    done = d;
    stepped_engine = subst (Stepped msg p.engine) (sym e) s;
  }

  pub dispatch-Dispatched :
      (now : ℕ) (msg : ProtocolMessage) (p : Pipeline) → IsReady p.engine → Dispatched now msg p
  unfolding dispatch dispatch_book spawn_fanout book_step field_step queue_step
  dispatch-Dispatched now (ProtocolMessage.quote t time diff) p r = record {
    after_it = _;
    done = refl;
    stepped_engine = Stepped-quote t time diff p.engine r;
  }
  dispatch-Dispatched now (ProtocolMessage.book t op) p r =
      let (book, b, q, s) = Stepped-book t op p.engine r in
      let p' =
        spawn_fanout (record { kind = Kind.book; ticker = t }) (codes "b")
          (record p { engine = record p.engine { book = book } }) in
      record { after_it = p'; done = rw (q, dispatch_book) refl; stepped_engine = s }
  dispatch-Dispatched now (ProtocolMessage.trade t op) p r = record {
    after_it = _;
    done = refl;
    stepped_engine = dispatch_trade-Stepped now t op p r;
  }
  dispatch-Dispatched now (ProtocolMessage.mqc_item item) p r =
      kept now _ p _ refl (engine-dispatch_symbol item p) (
        Stepped-none (ProtocolMessage.mqc_item item) p.engine r (λ u o. refl) (λ u idx o. refl)
          (λ u q. refl))
  dispatch-Dispatched now (ProtocolMessage.gpn_item item) p r =
      kept now _ p _ refl (engine-dispatch_broker item p) (
        Stepped-none (ProtocolMessage.gpn_item item) p.engine r (λ u o. refl) (λ u idx o. refl)
          (λ u q. refl))
  dispatch-Dispatched now (ProtocolMessage.agg_book t op) p r = kept now _ p _ refl refl (
      Stepped-none (ProtocolMessage.agg_book t op) p.engine r (λ u o. refl) (λ u idx o. refl)
        (λ u q. refl))
  dispatch-Dispatched now (ProtocolMessage.news n) p r = kept now _ p _ refl refl (
      Stepped-none (ProtocolMessage.news n) p.engine r (λ u o. refl) (λ u idx o. refl)
        (λ u q. refl))
  dispatch-Dispatched now (ProtocolMessage.vap v) p r = kept now _ p _ refl refl (
      Stepped-none (ProtocolMessage.vap v) p.engine r (λ u o. refl) (λ u idx o. refl) (λ u q. refl))
  dispatch-Dispatched now (ProtocolMessage.server_time t) p r = kept now _ p _ refl refl (
      Stepped-none (ProtocolMessage.server_time t) p.engine r (λ u o. refl) (λ u idx o. refl)
        (λ u q. refl))
  dispatch-Dispatched now (ProtocolMessage.error e) p r = kept now _ p _ refl refl (
      Stepped-none (ProtocolMessage.error e) p.engine r (λ u o. refl) (λ u idx o. refl)
        (λ u q. refl))
