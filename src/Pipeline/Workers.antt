-- ===== src/Pipeline/Workers.antt =====
-- bin/ingest-daemon/src/pipeline.rs: the workers of `spawn_workers`, each of them a `worker_loop` on the
-- one channel of frames.
-- A worker receives a frame in one step and handles it in a later one; between the two the others go on.
use market_data_v.Common.{
  ℕ, ◌≤◌, ◌<◌, ◌≡◌, refl, sym, ap, ◌∙◌, none, some, List, [], ◌∷◌, ◌++◌, length, length-append, map,
  arith, Option, Option-cases, inl, inr,
}
use mathlib.Core.List.{append_assoc}
use market_data_v.Frame.{Frame}
use market_data_v.Memchr.{Memchr}
use market_data_v.Shard.{Hasher}
use market_data_v.Types.{FloatText}
use market_data_v.Pipeline.{Json, Pipeline, handle, worker_loop}
use market_data_v.Pipeline.Views.{IsReady}
use market_data_v.Pipeline.Handled.{worker_loop-Handled}

-- `busy` are the frames that a worker has received and not yet handled.
pub record Workers : Type 0 where
  pub queue : List Frame
  pub busy : List Frame
  pub pipeline : Pipeline

unfoldable pub spawn_workers : List Frame → Pipeline → Workers
spawn_workers queue p = record { queue = queue; busy = []; pipeline = p }

module _ ⦃m : Memchr⦄ ⦃f : FloatText⦄ ⦃h : Hasher⦄ ⦃j : Json⦄ where
  -- With `n` workers.
  pub data Step (n : ℕ) (s : Workers) : Workers → Type 0 where
    receives :
        (frame : Frame) (queue : List Frame)
        → s.queue ≡ frame ∷ queue
        → length s.busy < n
        → Step n s (record s { queue = queue; busy = s.busy ++ (frame ∷ []) })
    handles :
        (before : List Frame) (frame : Frame) (later : List Frame) (now : ℕ) (p : Pipeline)
        → s.busy ≡ before ++ (frame ∷ later)
        → handle now frame s.pipeline ≡ some p
        → Step n s (record s { busy = before ++ later; pipeline = p })

  pub data Reach (n : ℕ) (first : Workers) : Workers → Type 0 where
    start : Reach n first first
    next : {s t : Workers} → Reach n first s → Step n s t → Reach n first t

  -- The frames that were handled, with their times, as a single loop would have handled them.
  record Ordered (frames : List Frame) (p : Pipeline) (s : Workers) : Type 0 where
    handled : List (ℕ × Frame)
    looped : worker_loop handled p ≡ some s.pipeline
    whole : map (λ x. x.1) handled ++ (s.busy ++ s.queue) ≡ frames
    few : length s.busy ≤ 1

  worker_loop-append :
      (xs : List (ℕ × Frame)) (now : ℕ) (frame : Frame) (p q : Pipeline)
      → worker_loop xs p ≡ some q
      → worker_loop (xs ++ ((now, frame) ∷ [])) p ≡ handle now frame q
  unfolding worker_loop
  worker_loop-append [] now frame p q e =
      let same : p ≡ q = ap (λ o. elim o [ none ↦ p | some x ↦ x ]) e in
      single (handle now frame p) ∙ ap (handle now frame) same
    where
      single : (o : Option Pipeline) → elim o [ none ↦ none | some p' ↦ some p' ] ≡ o
      single none = refl
      single (some x) = refl
  worker_loop-append ((t, x) ∷ xs) now frame p q e = elim (Option-cases (handle t x p)) [
    | inl n ↦ absurd (let c : none ≡ some q = rw (n, worker_loop) at e in cc)
    | inr (p', n) ↦
        rw (n, worker_loop) (worker_loop-append xs now frame p' q (rw (n, worker_loop) at e))
  ]

  map_snoc :
      (xs : List (ℕ × Frame)) (now : ℕ) (frame : Frame)
      → map (λ (x : ℕ × Frame). x.1) (xs ++ ((now, frame) ∷ []))
        ≡ map (λ (x : ℕ × Frame). x.1) xs ++ (frame ∷ [])
  map_snoc [] now frame = refl
  map_snoc (x ∷ xs) now frame = ap (λ t. x.1 ∷ t) (map_snoc xs now frame)

  no_busy : (xs : List Frame) → length xs < 1 → xs ≡ []
  no_busy [] l = refl
  no_busy (x ∷ xs) l = absurd (omega arith)

  only_one :
      (before later busy : List Frame) (frame : Frame)
      → busy ≡ before ++ (frame ∷ later)
      → length busy ≤ 1
      → (before ≡ []) × (later ≡ [])
  only_one before later busy frame e l =
      let n : length (before ++ (frame ∷ later)) ≤ 1 = rw e at l in
      (
        no_busy before (omega (arith, length-append before (frame ∷ later))),
        no_busy later (omega (arith, length-append before (frame ∷ later))),
      )

  Ordered-receives :
      (frames : List Frame) (p : Pipeline) (s : Workers) (frame : Frame) (queue : List Frame)
      → s.queue ≡ frame ∷ queue
      → length s.busy < 1
      → Ordered frames p s
      → Ordered frames p (record s { queue = queue; busy = s.busy ++ (frame ∷ []) })
  Ordered-receives frames p s frame queue e l o =
      let b = no_busy s.busy l in
      record {
        handled = o.handled;
        looped = o.looped;
        whole = rw b (rw (b, e) at o.whole);
        few = rw b (omega arith);
      }

  Ordered-handles :
      (frames : List Frame) (p p' : Pipeline) (s : Workers) (before later : List Frame)
      (frame : Frame) (now : ℕ)
      → s.busy ≡ before ++ (frame ∷ later)
      → handle now frame s.pipeline ≡ some p'
      → Ordered frames p s
      → Ordered frames p (record s { busy = before ++ later; pipeline = p' })
  Ordered-handles frames p p' s before later frame now e g o =
      let (b, l) = only_one before later s.busy frame e o.few in
      record {
        handled = o.handled ++ ((now, frame) ∷ []);
        looped = worker_loop-append o.handled now frame p s.pipeline o.looped ∙ g;
        whole =
            rw (b, l)
              (ap (λ x. x ++ s.queue) (map_snoc o.handled now frame)
                ∙ append_assoc (map (λ (x : ℕ × Frame). x.1) o.handled) (frame ∷ []) s.queue
                ∙ (rw (e, b, l) at o.whole));
        few = rw (b, l) (omega arith);
      }

  Reach-Ordered :
      (frames : List Frame) (p : Pipeline) {s : Workers}
      → Reach 1 (spawn_workers frames p) s
      → Ordered frames p s
  unfolding spawn_workers worker_loop
  Reach-Ordered frames p start = record {
    handled = [];
    looped = refl;
    whole = refl;
    few = omega arith;
  }
  Reach-Ordered frames p {s} (next {s = r} q (receives frame queue e l)) =
      Ordered-receives frames p r frame queue e l (Reach-Ordered frames p q)
  Reach-Ordered frames p {s} (next {s = r} q (handles before frame later now p' e g)) =
      Ordered-handles frames p p' r before later frame now e g (Reach-Ordered frames p q)

  -- With one worker, whatever the interleaving: the frames that were handled, the one in hand and those
  -- in the channel are, in this order, the frames that were in the channel, and the pipeline is the one
  -- that the loop over the handled frames makes, in the order of the channel.
  pub Reach-worker_loop :
      (frames : List Frame) (p : Pipeline) {s : Workers}
      → Reach 1 (spawn_workers frames p) s
      → (handled : List (ℕ × Frame)) × (worker_loop handled p ≡ some s.pipeline)
        × (map (λ x. x.1) handled ++ (s.busy ++ s.queue) ≡ frames)
  Reach-worker_loop frames p r = let o = Reach-Ordered frames p r in (o.handled, o.looped, o.whole)

  record Both (x y : ℕ × Frame) (p : Pipeline) : Type 0 where
    first : Pipeline
    second : Pipeline
    first_handled : handle x.0 x.1 p ≡ some first
    second_handled : handle y.0 y.1 first ≡ some second
    looped : worker_loop (x ∷ y ∷ []) p ≡ some second

  handle-Both : (x y : ℕ × Frame) (p : Pipeline) → IsReady p.engine → Both x y p
  unfolding worker_loop
  handle-Both x y p r =
      let (p₁, e, _) = worker_loop-Handled (x ∷ []) p r in
      let (p₂, g, _) = worker_loop-Handled (x ∷ y ∷ []) p r in
      record {
        first = p₁;
        second = p₂;
        first_handled = sym (worker_loop-append [] x.0 x.1 p p refl) ∙ e;
        second_handled = sym (worker_loop-append (x ∷ []) y.0 y.1 p p₁ e) ∙ g;
        looped = g;
      }

  both_received :
      (n : ℕ) (a b : Frame) (queue : List Frame) (p : Pipeline)
      → 2 ≤ n
      → Reach n
          (spawn_workers (a ∷ b ∷ queue) p)
          (record { queue = queue; busy = a ∷ b ∷ []; pipeline = p })
  unfolding spawn_workers
  both_received n a b queue p two =
      next (next start (receives a (b ∷ queue) refl (omega arith)))
        (receives b queue refl (omega arith))

  -- With two workers or more, the default being eight, and engines with a shard and a bounded trade
  -- buffer: two frames that follow each other in the channel can be handled in either order, whatever
  -- they are; the pipeline that handles the second one first is as reachable as the other.
  pub Reach-either_order :
      (n : ℕ) (a b : Frame) (queue : List Frame) (now later : ℕ) (p : Pipeline)
      → 2 ≤ n
      → IsReady p.engine
      → (s t : Workers) × Reach n (spawn_workers (a ∷ b ∷ queue) p) s
        × (worker_loop ((now, a) ∷ (later, b) ∷ []) p ≡ some s.pipeline)
        × Reach n (spawn_workers (a ∷ b ∷ queue) p) t
        × (worker_loop ((now, b) ∷ (later, a) ∷ []) p ≡ some t.pipeline)
  unfolding spawn_workers
  Reach-either_order n a b queue now later p two r =
      let x = handle-Both (now, a) (later, b) p r in
      let y = handle-Both (now, b) (later, a) p r in
      let received = both_received n a b queue p two in
      (
        record { queue = queue; busy = []; pipeline = x.second },
        record { queue = queue; busy = []; pipeline = y.second },
        next (next received (handles [] a (b ∷ []) now x.first refl x.first_handled))
            (handles [] b [] later x.second refl x.second_handled),
        x.looped,
        next (next received (handles (a ∷ []) b [] now y.first refl y.first_handled))
            (handles [] a [] later y.second refl y.second_handled),
        y.looped,
      )
