-- ===== src/Reader/Delivered.antt =====
-- What the workers receive, in every interleaving of the threads.
use mathlib.Core.List.{append_assoc, append-nil}
use market_data_v.Common.{
  ℕ, ◌≤◌, ◌≡◌, refl, ap, ◌∙◌, Bool, true, false, List, [], ◌∷◌, ◌++◌, ltb, length, length-append,
  Bool-cases, inl, inr, arith,
}
use market_data_v.Memchr.{Memchr}
use market_data_v.Frame.{Frame, FrameSplitter, drain, extend_from_slice}
use market_data_v.Frame.Stream.{drain-extend, drain-encode}
use market_data_v.Frame.Rounds.{next_frame-cases}
use market_data_v.Reader.{
  ReadResult, got, interrupted, failed, Phase, at_top, reading, draining, sending, returned, Reader,
  spawn, on_read, try_send, send_next, step_at, advance, receive, raise_stop, disconnect, Step,
  reader, worker, stop, drop, Reach, start, next,
}

-- The frame that the thread holds, on its way into the channel or dropped by it.
abbrev pub held : Phase → List Frame
held at_top = []
held reading = []
held draining = []
held (sending frame) = frame ∷ []
held (returned fs) = fs

-- Everything that has left the splitter, in order.
abbrev pub sent : Reader → List Frame
sent s = s.received ++ (s.queue ++ held s.phase)

-- Whether the inner loop is over.
abbrev pub is_outer : Phase → Bool
is_outer at_top = true
is_outer reading = true
is_outer draining = false
is_outer (sending frame) = false
is_outer (returned fs) = false

module _ ⦃m : Memchr⦄ where
  -- What has left the splitter and what draining it would give is what the bytes hold; before a read
  -- the splitter holds no frame.
  pub record IsDelivered (s : Reader) : Type 0 where
    pub whole :
        drain (record { buf = s.read }) ≡ (sent s ++ (drain s.splitter).0, (drain s.splitter).1)
    pub drained : is_outer s.phase ≡ true → drain s.splitter ≡ ([], s.splitter)

  drain_nothing : drain (record { buf = [] }) ≡ ([], record { buf = [] })
  drain_nothing = drain-encode [] [] tt tt

  spawn-IsDelivered : (capacity : ℕ) → IsDelivered (spawn capacity)
  unfolding spawn
  spawn-IsDelivered capacity = record {
    whole = rw drain_nothing refl;
    drained = λ h. drain_nothing;
  }

  -- The state, but for its phase and its queue, is kept, and with it the frames that were sent.
  moved :
      (s t : Reader)
      → t.read ≡ s.read
      → t.splitter ≡ s.splitter
      → sent t ≡ sent s
      → (is_outer t.phase ≡ true → drain s.splitter ≡ ([], s.splitter))
      → IsDelivered s
      → IsDelivered t
  moved s t r p q o h = record { whole = rw (r, p, q) h.whole; drained = λ e. rw p (o e) }

  on_read-IsDelivered :
      (r : ReadResult) (s : Reader) → s.phase ≡ reading → IsDelivered s → IsDelivered (on_read r s)
  unfolding on_read extend_from_slice
  on_read-IsDelivered (got []) s e h =
      moved s _ refl refl (rw e refl) (λ x. h.drained (rw e refl)) h
  on_read-IsDelivered interrupted s e h =
      moved s _ refl refl (rw e refl) (λ x. h.drained (rw e refl)) h
  on_read-IsDelivered failed s e h = moved s _ refl refl (rw e refl) (λ x. h.drained (rw e refl)) h
  on_read-IsDelivered (got (b ∷ bs)) s e h = record {
    whole =
        drain_read
        ∙ ap (λ x. (x ++ gs, (drain (extend_from_slice s.splitter (b ∷ bs))).1)) (rw e refl);
    drained = λ x. absurd (cc);
  }
    where
      gs : List Frame
      gs = (drain (extend_from_slice s.splitter (b ∷ bs))).0

      drain_read :
          drain (record { buf = s.read ++ (b ∷ bs) })
          ≡ (sent s ++ gs, (drain (extend_from_slice s.splitter (b ∷ bs))).1)
      drain_read =
          drain-extend (record { buf = [] }) s.read (b ∷ bs)
          ∙ ap
              (λ (x : List Frame × FrameSplitter). (
                x.0 ++ (drain (extend_from_slice x.1 (b ∷ bs))).0,
                (drain (extend_from_slice x.1 (b ∷ bs))).1,
              ))
              (h.whole
                ∙ rw (h.drained (rw e refl)) (ap (λ x. (x, s.splitter)) (append-nil (sent s))))

  sent_frame :
      (frame : Frame) (received queue rest : List Frame)
      → (received ++ (queue ++ (frame ∷ []))) ++ rest ≡ received ++ (queue ++ (frame ∷ rest))
  sent_frame frame received queue rest =
      append_assoc received (queue ++ (frame ∷ [])) rest
      ∙ ap (λ x. received ++ x) (append_assoc queue (frame ∷ []) rest)

  try_send-IsDelivered :
      (frame : Frame) (s : Reader)
      → drain (record { buf = s.read })
        ≡ (s.received ++ (s.queue ++ (frame ∷ (drain s.splitter).0)), (drain s.splitter).1)
      → IsDelivered (try_send frame s)
  unfolding try_send
  try_send-IsDelivered frame s h = elim (Bool-cases s.receivers) [
    | inr e ↦ rw e (record { whole = rw sent_frame h; drained = λ x. absurd (cc) })
    | inl e ↦ rw e (elim (Bool-cases (ltb (length s.queue) s.capacity)) [
      | inl q ↦ rw q (record { whole = rw (append-nil, sent_frame) h; drained = λ x. absurd (cc) })
      | inr q ↦ rw q (record { whole = rw sent_frame h; drained = λ x. absurd (cc) })
    ])
  ]

  send_next-IsDelivered :
      (s : Reader) → s.phase ≡ draining → IsDelivered s → IsDelivered (send_next s)
  unfolding send_next
  send_next-IsDelivered s e h = elim (next_frame-cases s.splitter) [
    | inl (none_left, empty) ↦
        rw (none_left, send_next) (moved s _ refl refl (rw e refl) (λ x. empty) h)
    | inr f ↦
        rw (f.found, send_next)
          (try_send-IsDelivered f.frame (record s { splitter = f.rest })
            (h.whole
              ∙ ap (λ x. (sent s ++ x.0, x.1)) f.drained
              ∙ ap (λ x. (x, (drain f.rest).1))
                  (rw (e, append-nil)
                    (append_assoc s.received s.queue (f.frame ∷ (drain f.rest).0)))))
  ]

  pub advance-IsDelivered :
      (r : ReadResult) (s : Reader) → IsDelivered s → IsDelivered (advance r s)
  unfolding advance step_at
  advance-IsDelivered r s h = at s.phase refl
    where
      at : (p : Phase) → s.phase ≡ p → IsDelivered (step_at p r s)
      at at_top e = elim (Bool-cases s.stop_flag) [
        | inl q ↦ rw q (moved s _ refl refl (rw e refl) (λ x. h.drained (rw e refl)) h)
        | inr q ↦ rw q (moved s _ refl refl (rw e refl) (λ x. h.drained (rw e refl)) h)
      ]
      at reading e = on_read-IsDelivered r s e h
      at draining e = send_next-IsDelivered s e h
      at (sending frame) e = try_send-IsDelivered frame s (
          h.whole
          ∙ ap (λ x. (x, (drain s.splitter).1))
              (rw e (sent_frame frame s.received s.queue (drain s.splitter).0)))
      at (returned fs) e = h

  pub receive-IsDelivered : (s : Reader) → IsDelivered s → IsDelivered (receive s)
  unfolding receive
  receive-IsDelivered s h = at s.queue refl
    where
      at : (q : List Frame) → s.queue ≡ q → IsDelivered (receive s)
      at [] e = rw (e, receive) h
      at (frame ∷ queue) e =
          rw (e, receive)
            (moved s _ refl refl
              (rw e (append_assoc s.received (frame ∷ []) (queue ++ held s.phase))) h.drained h)

  Step-IsDelivered : {s t : Reader} → Step s t → IsDelivered s → IsDelivered t
  unfolding raise_stop disconnect
  Step-IsDelivered {s} (reader r) h = advance-IsDelivered r s h
  Step-IsDelivered {s} worker h = receive-IsDelivered s h
  Step-IsDelivered {s} stop h = moved s _ refl refl refl h.drained h
  Step-IsDelivered {s} drop h = moved s _ refl refl refl h.drained h

  pub Reach-IsDelivered : {capacity : ℕ} {s : Reader} → Reach capacity s → IsDelivered s
  Reach-IsDelivered {capacity} start = spawn-IsDelivered capacity
  Reach-IsDelivered (next r st) = Step-IsDelivered st (Reach-IsDelivered r)

  -- The channel is within its capacity.
  pub record IsWithin (s t : Reader) : Type 0 where
    pub within : length t.queue ≤ t.capacity
    pub capacity_kept : t.capacity ≡ s.capacity

  try_send-IsWithin :
      (frame : Frame) (s : Reader) → length s.queue ≤ s.capacity → IsWithin s (try_send frame s)
  unfolding try_send
  try_send-IsWithin frame s h = ground (arith, length-append s.queue (frame ∷ []))

  send_next-IsWithin : (s : Reader) → length s.queue ≤ s.capacity → IsWithin s (send_next s)
  unfolding send_next
  send_next-IsWithin s h = elim (next_frame-cases s.splitter) [
    | inl (none_left, empty) ↦ rw (none_left, send_next) (ground arith)
    | inr f ↦
        let w = try_send-IsWithin f.frame (record s { splitter = f.rest }) h in
        rw (f.found, send_next) (record { within = w.within; capacity_kept = w.capacity_kept })
  ]

  on_read-IsWithin :
      (r : ReadResult) (s : Reader) → length s.queue ≤ s.capacity → IsWithin s (on_read r s)
  unfolding on_read
  on_read-IsWithin r s h = ground arith

  advance-IsWithin :
      (r : ReadResult) (s : Reader) → length s.queue ≤ s.capacity → IsWithin s (advance r s)
  unfolding advance step_at
  advance-IsWithin r s h = at s.phase
    where
      at : (p : Phase) → IsWithin s (step_at p r s)
      at at_top = ground arith
      at reading = on_read-IsWithin r s h
      at draining = send_next-IsWithin s h
      at (sending frame) = try_send-IsWithin frame s h
      at (returned fs) = ground arith

  receive-IsWithin : (s : Reader) → length s.queue ≤ s.capacity → IsWithin s (receive s)
  unfolding receive
  receive-IsWithin s h = ground arith

  Step-IsWithin : {s t : Reader} → Step s t → length s.queue ≤ s.capacity → IsWithin s t
  unfolding raise_stop disconnect
  Step-IsWithin {s} (reader r) h = advance-IsWithin r s h
  Step-IsWithin {s} worker h = receive-IsWithin s h
  Step-IsWithin {s} stop h = record { within = h; capacity_kept = refl }
  Step-IsWithin {s} drop h = record { within = h; capacity_kept = refl }

  pub Reach-within :
      {capacity : ℕ} {s : Reader}
      → Reach capacity s
      → (length s.queue ≤ capacity) × (s.capacity ≡ capacity)
  unfolding spawn
  Reach-within start = ground arith
  Reach-within (next r st) =
      let h = Reach-within r in
      let w = Step-IsWithin st (omega (arith, h)) in omega (arith, h, w.within, w.capacity_kept)

  -- However the reader, the workers and the socket take turns, and whether or not a stop is asked for
  -- or the workers go away: what the workers received, what waits in the channel, what the reader
  -- holds or has dropped, and what is still in the splitter are, in this order, exactly the frames of
  -- all the bytes that were read; and the channel holds no more frames than its capacity.
  pub Reach-drain :
      {capacity : ℕ} {s : Reader}
      → Reach capacity s
      → ((drain (record { buf = s.read })).0
          ≡ s.received ++ (s.queue ++ held s.phase) ++ (drain s.splitter).0)
        × (length s.queue ≤ capacity)
  Reach-drain {s} r =
      (ap (λ (x : List Frame × FrameSplitter). x.0) (Reach-IsDelivered r).whole, (Reach-within r).0)
