-- ===== src/Pipeline/Timer.antt =====
-- bin/ingest-daemon/src/pipeline.rs: `spawn_flush_timer`, and its shutdown in bin/ingest-daemon/src/main.rs.
-- tokio's `Notify` is its documentation: `notify_waiters` wakes the futures of `notified` that there are,
-- and keeps nothing for later ones. Each round of the loop makes a new one, and drops it when `select!`
-- takes the tick, which it may do also when both are ready.
use market_data_v.Common.{◌≡◌, ◌≢◌, refl, Bool, true, false}
use market_data_v.Pipeline.{Pipeline, flush_writer, flush_all}

-- In `select!`, with whether its future has been woken; in the arm of the tick; or behind the return.
pub data Phase : Type 0 where
  selecting : Bool → Phase
  flushing returned : Phase

-- `signalled` tells that `main` is behind `notify_waiters` and awaits the timer, `stopped` that it is
-- behind the last flush.
pub record Shutdown : Type 0 where
  pub phase : Phase
  pub signalled : Bool
  pub stopped : Bool
  pub pipeline : Pipeline

unfoldable pub spawn_flush_timer : Pipeline → Shutdown
spawn_flush_timer p = record {
  phase = selecting false;
  signalled = false;
  stopped = false;
  pipeline = p;
}

unfoldable pub notify_waiters : Phase → Phase
notify_waiters (selecting woken) = selecting true
notify_waiters flushing = flushing
notify_waiters returned = returned

-- Whether an insertion succeeds comes with the flush, whose error the timer ignores and `main` logs.
pub data Step (s : Shutdown) : Shutdown → Type 0 where
  signal :
      s.signalled ≡ false → Step s (record s { phase = notify_waiters s.phase; signalled = true })
  notified : s.phase ≡ selecting true → Step s (record s { phase = returned })
  tick : (woken : Bool) → s.phase ≡ selecting woken → Step s (record s { phase = flushing })
  flush :
      (inserts : Bool)
      → s.phase ≡ flushing
      → Step s
          (record s { phase = selecting false; pipeline = (flush_writer inserts s.pipeline).0 })
  stop :
      (inserts : Bool)
      → s.phase ≡ returned
      → s.signalled ≡ true
      → Step s (record s { stopped = true; pipeline = (flush_all inserts s.pipeline).0 })

pub data Reach (first : Shutdown) : Shutdown → Type 0 where
  start : Reach first first
  next : {s t : Shutdown} → Reach first s → Step s t → Reach first t

-- The timer is in its loop, and nothing will wake it.
data IsLost (s : Shutdown) : Type 0 where
  in_flush : s.phase ≡ flushing → s.signalled ≡ true → s.stopped ≡ false → IsLost s
  in_select : s.phase ≡ selecting false → s.signalled ≡ true → s.stopped ≡ false → IsLost s

Step-IsLost : (s t : Shutdown) → IsLost s → Step s t → IsLost t
unfolding notify_waiters
Step-IsLost s t (in_flush p g e) (signal n) = absurd (cc)
Step-IsLost s t (in_flush p g e) (notified n) = absurd (cc)
Step-IsLost s t (in_flush p g e) (tick woken n) = absurd (cc)
Step-IsLost s t (in_flush p g e) (flush inserts n) = in_select refl g e
Step-IsLost s t (in_flush p g e) (stop inserts n k) = absurd (cc)
Step-IsLost s t (in_select p g e) (signal n) = absurd (cc)
Step-IsLost s t (in_select p g e) (notified n) = absurd (cc)
Step-IsLost s t (in_select p g e) (tick woken n) = in_flush refl g e
Step-IsLost s t (in_select p g e) (flush inserts n) = absurd (cc)
Step-IsLost s t (in_select p g e) (stop inserts n k) = absurd (cc)

Reach-IsLost : (s : Shutdown) {t : Shutdown} → IsLost s → Reach s t → IsLost t
Reach-IsLost s l start = l
Reach-IsLost s l (next {s = r} {t = t} q step) = Step-IsLost r t (Reach-IsLost s l q) step

IsLost-stopped : (s : Shutdown) → IsLost s → (s.phase ≢ returned) × (s.stopped ≡ false)
IsLost-stopped s (in_flush p g e) = (λ r. cc, e)
IsLost-stopped s (in_select p g e) = (λ r. cc, e)

-- The shutdown can come to its end; but from any pipeline it can also come to a state, where the signal
-- arrived during a flush of the timer, from which the timer never returns and `main` is never behind its
-- wait for it, whatever happens: the last flush and the end of the reader are not reached.
pub spawn_flush_timer-lost :
    (p : Pipeline)
    → ((s : Shutdown) × Reach (spawn_flush_timer p) s × (s.stopped ≡ true))
      × ((s : Shutdown) × Reach (spawn_flush_timer p) s
          × (s.signalled ≡ true)
          × ((t : Shutdown) → Reach s t → (t.phase ≢ returned) × (t.stopped ≡ false)))
unfolding spawn_flush_timer notify_waiters
spawn_flush_timer-lost p =
    let lost : Shutdown = record {
      phase = flushing;
      signalled = true;
      stopped = false;
      pipeline = p;
    } in
    (
      (_, next (next (next start (signal refl)) (notified refl)) (stop true refl refl), refl),
      (
        lost,
        next (next start (tick false refl)) (signal refl),
        refl,
        λ t q. IsLost-stopped t (Reach-IsLost lost (in_flush refl refl refl) q),
      ),
    )
