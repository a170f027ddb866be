-- ===== src/Reader/Settled.antt =====
-- The reader and a worker by turns, until nothing is left to send or to receive.
use mathlib.Core.List.{append-nil}
use mathlib.Core.Path.{subst}
use market_data_v.Common.{
  ℕ, zero, suc, ◌+◌, ◌-◌, ◌*◌, ◌≤◌, ◌<◌, ◌≡◌, refl, sym, ap, ◌∙◌, Bool, true, false, List, [], ◌∷◌,
  ◌++◌, if◌then◌else◌, length, length-append, inl, inr, arith,
}
use market_data_v.Memchr.{Memchr}
use market_data_v.Frame.{Frame, FrameSplitter, drain}
use market_data_v.Frame.Rounds.{next_frame-cases}
use market_data_v.Reader.{
  interrupted, Phase, at_top, reading, draining, sending, returned, Reader, try_send, send_next,
  step_at, advance, receive, Reach,
}
use market_data_v.Reader.Delivered.{
  held, is_outer, IsDelivered, advance-IsDelivered, receive-IsDelivered, Reach-IsDelivered,
  Reach-within,
}

-- What is left to do with `n` bytes in the splitter.
abbrev left : Phase → ℕ → ℕ
left at_top n = 0
left reading n = 0
left draining n = 4 * n + 1
left (sending frame) n = 4 * n + 3
left (returned fs) n = 0

abbrev pub is_returned : Phase → Bool
is_returned at_top = false
is_returned reading = false
is_returned draining = false
is_returned (sending frame) = false
is_returned (returned fs) = true

abbrev pub work_left : Reader → ℕ
work_left s = left s.phase (length s.splitter.buf) + length s.queue

module _ ⦃m : Memchr⦄ where
  -- The thread acts in its inner loop, and waits in the outer one.
  pub turn : Reader → Reader
  turn s = if is_outer s.phase then s else advance interrupted s

  pub settle : ℕ → Reader → Reader
  settle zero s = s
  settle (suc n) s = settle n (receive (turn s))

  -- The thread runs, and there is somebody to receive.
  pub record IsLive (s : Reader) : Type 0 where
    pub room : 0 < s.capacity
    pub heard : s.receivers ≡ true
    pub running : is_returned s.phase ≡ false

  try_send-left :
      (frame : Frame) (s : Reader)
      → 0 < s.capacity
      → s.receivers ≡ true
      → IsLive (try_send frame s)
        × ((try_send frame s).read ≡ s.read)
        × (work_left (receive (try_send frame s)) < 4 * length s.splitter.buf + 3 + length s.queue)
  unfolding try_send receive
  try_send-left frame s c h = ground (arith, length-append s.queue (frame ∷ []))

  receive_lem :
      (s : Reader)
      → IsLive s
      → IsLive (receive s) × ((receive s).read ≡ s.read) × (work_left (receive s) ≤ work_left s)
  unfolding receive
  receive_lem s h = ground arith

  -- A turn of each: they are as live as before, nothing is read, and less is left to do.
  record Round (s t : Reader) : Type 0 where
    live : IsLive t
    same_read : t.read ≡ s.read
    delivered : IsDelivered t
    less : work_left t ≤ work_left s - 1

  received_round :
      (s t : Reader)
      → IsDelivered t
      → IsLive t
      → t.read ≡ s.read
      → work_left (receive t) ≤ work_left s - 1
      → Round s (receive t)
  received_round s t d h e w =
      let (live, same_read, _) = receive_lem t h in
      record {
        live = live;
        same_read = same_read ∙ e;
        delivered = receive-IsDelivered t d;
        less = w;
      }

  idle-less : (s : Reader) → is_outer s.phase ≡ true → work_left (receive s) ≤ work_left s - 1
  unfolding receive
  idle-less s e = ground arith

  send_next-Round :
      (s : Reader)
      → s.phase ≡ draining
      → IsLive s
      → IsDelivered (send_next s)
      → Round s (receive (send_next s))
  unfolding send_next
  send_next-Round s e h d = elim (next_frame-cases s.splitter) [
    | inl (none_left, empty) ↦
        let t = record s { phase = at_top } in
        let (live, same_read, less) =
          receive_lem t (record { room = h.room; heard = h.heard; running = refl }) in
        rw (none_left, send_next)
          (received_round s t (rw (none_left, send_next) at d)
            (record { room = h.room; heard = h.heard; running = refl }) refl
            (omega (arith, ap (λ p. left p (length s.splitter.buf)) e, less)))
    | inr f ↦
        let t = record s { splitter = f.rest } in
        let (live, same_read, less) = try_send-left f.frame t h.room h.heard in
        rw (f.found, send_next)
          (received_round s (try_send f.frame t) (rw (f.found, send_next) at d) live same_read
            (omega (arith, ap (λ p. left p (length s.splitter.buf)) e, less, f.shorter)))
  ]

  sending-Round :
      (frame : Frame) (s : Reader)
      → s.phase ≡ sending frame
      → IsLive s
      → IsDelivered (try_send frame s)
      → Round s (receive (try_send frame s))
  sending-Round frame s e h d =
      let (live, same_read, less) = try_send-left frame s h.room h.heard in
      received_round s (try_send frame s) d live same_read
        (omega (arith, ap (λ p. left p (length s.splitter.buf)) e, less))

  turn_outer : (s : Reader) → is_outer s.phase ≡ true → turn s ≡ s
  unfolding turn
  turn_outer s e = rw e refl

  turn_inner : (s : Reader) → is_outer s.phase ≡ false → turn s ≡ advance interrupted s
  unfolding turn
  turn_inner s e = rw e refl

  advance_at :
      (s : Reader) (p : Phase) → s.phase ≡ p → advance interrupted s ≡ step_at p interrupted s
  unfolding advance
  advance_at s p e = ap (λ x. step_at x interrupted s) e

  turn-Round : (s : Reader) → IsLive s → IsDelivered s → Round s (receive (turn s))
  unfolding step_at
  turn-Round s h d = at s.phase refl
    where
      outer : is_outer s.phase ≡ true → Round s (receive (turn s))
      outer o = rw (turn_outer s o) (received_round s s d h refl (idle-less s o))

      inner :
          (p : Phase)
          → s.phase ≡ p
          → is_outer p ≡ false
          → (IsDelivered (step_at p interrupted s) → Round s (receive (step_at p interrupted s)))
          → Round s (receive (turn s))
      inner p e o k =
          let e' = turn_inner s (ap is_outer e ∙ o) ∙ advance_at s p e in
          rw e' (k (subst IsDelivered (advance_at s p e) (advance-IsDelivered interrupted s d)))

      at : (p : Phase) → s.phase ≡ p → Round s (receive (turn s))
      at at_top e = outer (ap is_outer e)
      at reading e = outer (ap is_outer e)
      at draining e = inner draining e refl (λ d'. send_next-Round s e h d')
      at (sending frame) e = inner (sending frame) e refl (λ d'. sending-Round frame s e h d')
      at (returned fs) e = absurd (cc (e, h.running))

  nothing_left :
      (p : Phase) (n q : ℕ)
      → left p n + q ≤ 0
      → is_returned p ≡ false
      → (is_outer p ≡ true) × (held p ≡ []) × (q ≡ 0)
  nothing_left at_top n q h r = (refl, refl, omega arith)
  nothing_left reading n q h r = (refl, refl, omega arith)
  nothing_left draining n q h r = absurd (omega arith)
  nothing_left (sending frame) n q h r = absurd (omega arith)
  nothing_left (returned fs) n q h r = absurd (cc)

  empty_of_length : (q : List Frame) → length q ≡ 0 → q ≡ []
  empty_of_length [] e = refl
  empty_of_length (f ∷ fs) e = absurd (omega arith)

  all_received :
      (s : Reader)
      → IsLive s
      → IsDelivered s
      → work_left s ≤ 0
      → (s.received ≡ (drain (record { buf = s.read })).0) × (is_outer s.phase ≡ true)
  all_received s h d w =
      let (outer, none_held, none_queued) =
        nothing_left s.phase (length s.splitter.buf) (length s.queue) w h.running in
      (
        sym (
            ap (λ (x : List Frame × FrameSplitter). x.0) d.whole
            ∙ rw (none_held, empty_of_length s.queue none_queued, d.drained outer)
                (append-nil (s.received ++ []) ∙ append-nil s.received)),
        outer,
      )

  settle_from :
      (n : ℕ) (s : Reader)
      → IsLive s
      → IsDelivered s
      → work_left s ≤ n
      → ((settle n s).received ≡ (drain (record { buf = s.read })).0)
        × (is_outer (settle n s).phase ≡ true)
  unfolding settle
  settle_from zero s h d w = all_received s h d w
  settle_from (suc n) s h d w =
      let r = turn-Round s h d in
      let (all, outer) =
        settle_from n (receive (turn s)) r.live r.delivered (omega (arith, r.less)) in
      (all ∙ ap (λ x. (drain (record { buf = x })).0) r.same_read, outer)

  -- In any reachable state of a thread that has not returned, with a channel that has room for a frame
  -- and is not closed, the reader and a worker that take turns finish: after as many turns as there is
  -- work left, counted from the bytes in the splitter and the frames in the channel, the workers have
  -- received every frame of the bytes that were read, and the reader is back at its outer loop. No
  -- full channel stops them for good.
  pub settle-received :
      {capacity : ℕ} (s : Reader)
      → Reach capacity s
      → 0 < capacity
      → s.receivers ≡ true
      → is_returned s.phase ≡ false
      → ((settle (work_left s) s).received ≡ (drain (record { buf = s.read })).0)
        × (is_outer (settle (work_left s) s).phase ≡ true)
  settle-received s r c heard running =
      let room : 0 < s.capacity = omega (arith, Reach-within r) in
      settle_from (work_left s) s (record { room = room; heard = heard; running = running })
        (Reach-IsDelivered r) (omega arith)
