-- ===== src/Reader/Watchdog.antt =====
-- crates/cedro-client/src/reader.rs: the watchdog thread and its thresholds.
-- A round is what the load of the stop flag gives and what FIONREAD gives, `none` for an error; the sleep
-- between two rounds is left out. The product of a size and a ratio, a float cut to an integer, is an
-- argument.
use market_data_v.Common.{
  ℕ, ◌+◌, ◌≤◌, ◌↔◌, ap, ◌∙◌, ◌<◌, ◌≡◌, refl, Bool, false, Option, none, some, List, [], ◌∷◌, ◌++◌,
  leb, if◌then◌else◌, All, Bool-cases, inl, inr, arith,
}
use market_data_v.Types.{F64}

pub record WatchdogCfg : Type 0 where
  pub warn_ratio : F64
  pub panic_ratio : F64
  pub buffer_size : ℕ

-- `((size as f64) * ratio) as usize`
pub record Scale : Type 0 where
  pub scaled : ℕ → F64 → ℕ

pub record Round : Type 0 where
  pub stopped : Bool
  pub pending : Option ℕ

-- How the thread stands after some rounds: in its loop, or behind a return; and whether the flag is set.
pub data Outcome : Type 0 where
  watching ended : Outcome
  panicked : Outcome

module _ ⦃c : Scale⦄ where
  unfoldable pub panic_bytes : WatchdogCfg → ℕ
  panic_bytes cfg = c.scaled cfg.buffer_size cfg.panic_ratio

  unfoldable pub warn_bytes : WatchdogCfg → ℕ
  warn_bytes cfg = c.scaled cfg.buffer_size cfg.warn_ratio

  -- One sample: whether it panics, or whether it counts a warning.
  unfoldable pub sample_panics : WatchdogCfg → ℕ → Bool
  unfolding panic_bytes
  sample_panics cfg pending = leb (panic_bytes cfg) pending

  unfoldable pub watchdog_loop : WatchdogCfg → List Round → Outcome
  watchdog_loop cfg [] = watching
  watchdog_loop cfg (r ∷ rs) =
      let rest = watchdog_loop cfg rs in
      if r.stopped then ended else elim r.pending [
        | none ↦ ended
        | some pending ↦ if sample_panics cfg pending then panicked else rest
      ]

  -- The warnings that the rounds count.
  unfoldable pub warnings : WatchdogCfg → List Round → ℕ
  unfolding warn_bytes
  warnings cfg [] = 0
  warnings cfg (r ∷ rs) =
      let rest = warnings cfg rs in
      if r.stopped then 0 else elim r.pending [
        | none ↦ 0
        | some pending ↦
            if sample_panics cfg pending
            then 0
            else if leb (warn_bytes cfg) pending
            then rest + 1
            else rest
      ]

  -- A round without a stop in which the socket answers below the limit.
  abbrev pub IsCalm : WatchdogCfg → Round → Type 0
  IsCalm cfg r = (r.stopped ≡ false) × (n : ℕ) × (r.pending ≡ some n) × (n < panic_bytes cfg)

  -- A round in which the socket is asked and answers at or above the limit.
  abbrev pub IsOverfull : WatchdogCfg → Round → Type 0
  IsOverfull cfg r = (r.stopped ≡ false) × (n : ℕ) × (r.pending ≡ some n) × (panic_bytes cfg ≤ n)

  -- Calm rounds and then an overfull one.
  pub record Alarm (cfg : WatchdogCfg) (rounds : List Round) : Type 0 where
    pub calm : List Round
    pub overfull : Round
    pub later : List Round
    pub split : rounds ≡ calm ++ (overfull ∷ later)
    pub calm_lem : All (IsCalm cfg) calm
    pub overfull_lem : IsOverfull cfg overfull

  Alarm-now :
      (cfg : WatchdogCfg) (r : Round) (rs : List Round) (n : ℕ)
      → r.stopped ≡ false
      → r.pending ≡ some n
      → panic_bytes cfg ≤ n
      → Alarm cfg (r ∷ rs)
  Alarm-now cfg r rs n s p h = record {
    calm = [];
    overfull = r;
    later = rs;
    split = refl;
    calm_lem = tt;
    overfull_lem = (s, n, p, h);
  }

  Alarm-later :
      (cfg : WatchdogCfg) (r : Round) (rs : List Round)
      → IsCalm cfg r
      → Alarm cfg rs
      → Alarm cfg (r ∷ rs)
  Alarm-later cfg r rs c a = record {
    calm = r ∷ a.calm;
    overfull = a.overfull;
    later = a.later;
    split = ap (λ x. r ∷ x) a.split;
    calm_lem = (c, a.calm_lem);
    overfull_lem = a.overfull_lem;
  }

  Alarm-of_loop :
      (cfg : WatchdogCfg) (rs : List Round) → watchdog_loop cfg rs ≡ panicked → Alarm cfg rs
  unfolding watchdog_loop sample_panics
  Alarm-of_loop cfg [] h = absurd (cc)
  Alarm-of_loop cfg (r ∷ rs) h = elim (Bool-cases r.stopped) [
    | inl s ↦ absurd (ground arith)
    | inr s ↦ at r.pending refl s (Alarm-of_loop cfg rs)
  ]
    where
      at :
          (p : Option ℕ)
          → r.pending ≡ p
          → r.stopped ≡ false
          → (watchdog_loop cfg rs ≡ panicked → Alarm cfg rs)
          → Alarm cfg (r ∷ rs)
      at none p s later = absurd (ground arith)
      at (some n) p s later = elim (Bool-cases (leb (panic_bytes cfg) n)) [
        | inl q ↦ Alarm-now cfg r rs n s p (ground arith)
        | inr q ↦ Alarm-later cfg r rs (s, n, p, ground arith) (later (ground arith))
      ]

  loop_of_alarm :
      (cfg : WatchdogCfg) (calm : List Round) (o : Round) (later : List Round)
      → All (IsCalm cfg) calm
      → IsOverfull cfg o
      → watchdog_loop cfg (calm ++ (o ∷ later)) ≡ panicked
  unfolding watchdog_loop sample_panics
  loop_of_alarm cfg [] o later c (s, n, p, h) = ground arith
  loop_of_alarm cfg (r ∷ calm) o later ((s, n, p, q), c) h =
      ground (arith, loop_of_alarm cfg calm o later c h)

  -- The watchdog raises the panic flag exactly if some sample, taken before any stop and before any
  -- failed sample, is at or above the panic limit, all samples before it being below.
  pub watchdog_loop-Alarm :
      (cfg : WatchdogCfg) (rounds : List Round)
      → (watchdog_loop cfg rounds ≡ panicked) ↔ Alarm cfg rounds
  watchdog_loop-Alarm cfg rounds = (
    Alarm-of_loop cfg rounds,
    λ a.
        ap (watchdog_loop cfg) a.split
        ∙ loop_of_alarm cfg a.calm a.overfull a.later a.calm_lem a.overfull_lem,
  )
