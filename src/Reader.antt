-- ===== src/Reader.antt =====
-- crates/cedro-client/src/reader.rs: the reader thread, its channel to the parser pool, and the watchdog.
-- `advance` is one atomic action of the reader thread; the workers, the orchestrator and the socket act
-- between any two of them. The channel is crossbeam's bounded one: a queue in order, a `try_send` that
-- fails on a full queue, a `send` that waits for room, both an error once every receiver is gone.
-- `read` and `received` record what the socket gave and what the workers took. Metrics and the pinning
-- to a core are left out.
pub mod Delivered
pub mod Settled
pub mod Watchdog
use market_data_v.Common.{
  ℕ, zero, suc, ◌+◌, ◌*◌, Bool, true, false, Option, none, some, List, [], ◌∷◌, ◌++◌, Bytes, ltb,
  if◌then◌else◌, length,
}
use market_data_v.Memchr.{Memchr}
use market_data_v.Frame
use market_data_v.Frame.{Frame, FrameSplitter, extend_from_slice, next_frame}

-- What `stream.read` gives: `Ok(n)` with the bytes, or an error of one of two kinds.
pub data ReadResult : Type 0 where
  got : Bytes → ReadResult
  interrupted failed : ReadResult

-- Where the thread stands: before the load of the flag, in `read`, at the head of the inner loop, in
-- `send`, and behind a return, with the frame that an error of the channel has dropped.
pub data Phase : Type 0 where
  at_top reading draining : Phase
  sending : Frame → Phase
  returned : List Frame → Phase

pub record Reader : Type 0 where
  pub splitter : FrameSplitter
  pub phase : Phase
  pub queue : List Frame
  pub capacity : ℕ
  pub stop_flag : Bool
  pub receivers : Bool
  pub read : Bytes
  pub received : List Frame

-- `spawn`, with `frame_channel_capacity`
unfoldable pub spawn : ℕ → Reader
spawn capacity = record {
  splitter = Frame.new;
  phase = at_top;
  queue = [];
  capacity = capacity;
  stop_flag = false;
  receivers = true;
  read = [];
  received = [];
}

unfoldable pub on_read : ReadResult → Reader → Reader
on_read (got []) s = record s { phase = returned [] }
on_read (got (b ∷ bs)) s = record s {
  phase = draining;
  splitter = extend_from_slice s.splitter (b ∷ bs);
  read = s.read ++ (b ∷ bs);
}
on_read interrupted s = record s { phase = at_top }
on_read failed s = record s { phase = returned [] }

-- `tx.try_send`, and `tx.send` where it finds the queue full.
unfoldable pub try_send : Frame → Reader → Reader
try_send frame s =
    if s.receivers
    then (if ltb (length s.queue) s.capacity
        then record s { phase = draining; queue = s.queue ++ (frame ∷ []) }
        else record s { phase = sending frame })
    else record s { phase = returned (frame ∷ []) }

-- One round of the inner loop.
module _ ⦃m : Memchr⦄ where
  unfoldable pub send_next : Reader → Reader
  send_next s = elim (next_frame s.splitter) [
    | none ↦ record s { phase = at_top }
    | some (frame, splitter) ↦ try_send frame (record s { splitter = splitter })
  ]

  -- The action of the phase, given what the socket would answer.
  unfoldable pub step_at : Phase → ReadResult → Reader → Reader
  step_at at_top r s =
      if s.stop_flag then record s { phase = returned [] } else record s { phase = reading }
  step_at reading r s = on_read r s
  step_at draining r s = send_next s
  step_at (sending frame) r s = try_send frame s
  step_at (returned fs) r s = s

  unfoldable pub advance : ReadResult → Reader → Reader
  advance r s = step_at s.phase r s

-- `frames.recv()` of a worker
unfoldable pub receive : Reader → Reader
receive s = elim s.queue [
  | [] ↦ s
  | frame ∷ queue ↦ record s { queue = queue; received = s.received ++ (frame ∷ []) }
]

-- The store to the flag, the first action of `shutdown`.
unfoldable pub raise_stop : Reader → Reader
raise_stop s = record s { stop_flag = true }

-- The last receiver is dropped.
unfoldable pub disconnect : Reader → Reader
disconnect s = record s { receivers = false }

module _ ⦃m : Memchr⦄ where
  -- One action of one of the threads.
  pub data Step (s : Reader) : Reader → Type 0 where
    reader : (r : ReadResult) → Step s (advance r s)
    worker : Step s (receive s)
    stop : Step s (raise_stop s)
    drop : Step s (disconnect s)

  pub data Reach (capacity : ℕ) : Reader → Type 0 where
    start : Reach capacity (spawn capacity)
    next : {s t : Reader} → Reach capacity s → Step s t → Reach capacity t
