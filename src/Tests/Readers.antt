-- ===== src/Tests/Readers.antt =====
-- The reader thread on a short stream, and its theorems there.
use market_data_v.Common.{
  ◌≤◌, ◌≡◌, ◌↔◌, refl, true, false, none, some, List, [], ◌∷◌, ◌++◌, codes, length, arith,
}
use market_data_v.Memchr.{plain_scan, first_index}
use market_data_v.Frame.{bang, extend_from_slice, next_frame, drain}
use market_data_v.Reader.{
  got, interrupted, Reader, spawn, on_read, try_send, send_next, step_at, advance, Reach, start,
  next, reader,
}
use market_data_v.Reader.Delivered.{held, is_outer, Reach-drain}
use market_data_v.Reader.Settled.{settle, work_left, settle-received}
use market_data_v.Reader.Watchdog.{
  WatchdogCfg, Scale, Round, panicked, sample_panics, panic_bytes, watchdog_loop, Alarm,
  watchdog_loop-Alarm,
}

-- Two frames and a half in one read, with room for one frame in the channel.
abbrev read_once : Reader
read_once = advance (got (codes "T:PETR4!T:VALE3!B")) (advance interrupted (spawn 1))

read_once-Reach : Reach 1 read_once
read_once-Reach = next (next start (reader interrupted)) (reader (got (codes "T:PETR4!T:VALE3!B")))

-- The second frame waits for the workers.
abbrev blocked : Reader
blocked = advance interrupted (advance interrupted read_once)

blocked-Reach : Reach 1 blocked
blocked-Reach = next (next read_once-Reach (reader interrupted)) (reader interrupted)

blocked_holds : held blocked.phase ≡ (bang, codes "T:VALE3") ∷ []
unfolding advance step_at on_read send_next try_send next_frame extend_from_slice first_index spawn
blocked_holds = refl

Reach-drain_example :
    ((drain (record { buf = blocked.read })).0
      ≡ blocked.received ++ (blocked.queue ++ held blocked.phase) ++ (drain blocked.splitter).0)
    × (length blocked.queue ≤ 1)
Reach-drain_example = Reach-drain blocked-Reach

settle-received_example :
    ((settle (work_left blocked) blocked).received ≡ (drain (record { buf = blocked.read })).0)
    × (is_outer (settle (work_left blocked) blocked).phase ≡ true)
unfolding advance step_at on_read send_next try_send next_frame extend_from_slice first_index spawn
settle-received_example = settle-received blocked blocked-Reach (omega arith) refl refl

instance abbrev whole_size : Scale
whole_size = record { scaled = λ size ratio. size }

abbrev cfg : WatchdogCfg
cfg = record { warn_ratio = 0; panic_ratio = 0; buffer_size = 4096 }

abbrev filling : List Round
filling =
    record { stopped = false; pending = some 100 }
    ∷ record { stopped = false; pending = some 5000 }
    ∷ record { stopped = true; pending = none }
    ∷ []

filling_panics : watchdog_loop cfg filling ≡ panicked
unfolding watchdog_loop sample_panics panic_bytes
filling_panics = refl

watchdog_loop-Alarm_example : (watchdog_loop cfg filling ≡ panicked) ↔ Alarm cfg filling
watchdog_loop-Alarm_example = watchdog_loop-Alarm cfg filling
