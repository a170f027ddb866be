-- ===== src/Pipeline/Unstaged.antt =====
-- bin/ingest-daemon/src/pipeline.rs: the daemon's path of a trade to the database.
use market_data_v.Common.{ℕ, ◌≡◌, refl, sym, ◌∙◌, Bool, Option, none, some, List, [], ◌∷◌, ok}
use mathlib.Core.Path.{subst}
use market_data_v.Frame.{Frame}
use market_data_v.Memchr.{Memchr}
use market_data_v.Shard.{Hasher}
use market_data_v.Types.{FloatText}
use market_data_v.Pipeline.Views.{IsReady}
use market_data_v.Pipeline.Handled.{handle-IsReady}
use market_data_v.Pipeline.{Json, Pipeline, Task, handle, run_task, flush_writer, flush_all}
use market_data_v.Pipeline.Rows.{
  buffer_of, committed_of, SameRows, Kept, handle-Kept, run_task-rows, flush_writer-rows,
  flush_all-rows, engine-run_task, engine-flush_all,
}

-- A worker handles a frame, the runtime runs a task, or the timer flushes.
pub data Action : Type 0 where
  handles : ℕ → Frame → Action
  runs : Task → Action
  flushes : Bool → Action

module _ ⦃m : Memchr⦄ ⦃f : FloatText⦄ ⦃h : Hasher⦄ ⦃j : Json⦄ where
  unfoldable pub act : Action → Pipeline → Option Pipeline
  act (handles now frame) p = handle now frame p
  act (runs task) p = some (run_task task p)
  act (flushes inserts) p = some (flush_all inserts p).0

  unfoldable pub act_all : List Action → Pipeline → Option Pipeline
  act_all [] p = some p
  act_all (a ∷ actions) p = elim (act a p) [ none ↦ none | some p' ↦ act_all actions p' ]

  act-Kept :
      (a : Action) (p : Pipeline) → buffer_of p.trade_writer ≡ [] → Kept (act a p) p.trade_writer
  unfolding act Kept
  act-Kept (handles now frame) p b = handle-Kept now frame p
  act-Kept (runs task) p b = run_task-rows task p
  act-Kept (flushes inserts) p b = (flush_all-rows inserts p b).0

  act-IsReady :
      (a : Action) (p : Pipeline)
      → IsReady p.engine
      → buffer_of p.trade_writer ≡ []
      → (q : Pipeline) × (act a p ≡ some q) × IsReady q.engine
  unfolding act
  act-IsReady (handles now frame) p r b = handle-IsReady now frame p r
  act-IsReady (runs task) p r b =
      (run_task task p, refl, subst IsReady (sym (engine-run_task task p)) r)
  act-IsReady (flushes inserts) p r b =
      ((flush_all inserts p).0, refl, subst IsReady (sym (engine-flush_all inserts p b)) r)

  -- From a writer with an empty buffer, and engines with a shard and a bounded trade buffer: whatever frames
  -- the workers handle, whatever tasks the runtime runs, and however often the timer and the shutdown
  -- flush, with a database that accepts everything or not, nothing panics, the buffer is still empty
  -- afterwards, the trades that were committed are those of before, and a flush answers that it has written
  -- none.
  pub act_all-uncommitted :
      (actions : List Action) (p : Pipeline) (inserts : Bool)
      → IsReady p.engine
      → buffer_of p.trade_writer ≡ []
      → (p' : Pipeline) × (act_all actions p ≡ some p')
        × (buffer_of p'.trade_writer ≡ [])
        × (committed_of p'.trade_writer ≡ committed_of p.trade_writer)
        × ((flush_writer inserts p').1 ≡ ok 0)
  unfolding act_all Kept SameRows
  act_all-uncommitted [] p inserts r b = (p, refl, b, refl, (flush_writer-rows inserts p b).1)
  act_all-uncommitted (a ∷ actions) p inserts r b =
      let (q, n, ready) = act-IsReady a p r b in
      let rows : SameRows q.trade_writer p.trade_writer = rw (n, Kept) at (act-Kept a p b) in
      let (p', e, x, y, z) = act_all-uncommitted actions q inserts ready (rows.0 ∙ b) in
      (p', rw (n, act_all) e, x, y ∙ rows.1, z)
