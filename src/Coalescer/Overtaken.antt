-- ===== src/Coalescer/Overtaken.antt =====
-- crates/fanout/src/coalescer.rs: two flushes at the same time, the one of the background task and the one
-- of `flush_all`.
use mathlib.Core.Path.{subst}
use market_data_v.Common.{
  ℕ, ◌≤◌, ◌<◌, ◌≡◌, refl, sym, ap, true, false, none, some, List, [], ◌∷◌, ◌++◌, Bytes, ◌==◌,
  length, arith,
}
use market_data_v.Common.HashMap
use market_data_v.Common.HashMap.{HashMap, last_value, to_list-insert-empty}
use market_data_v.Coalescer.{
  PublishKey, publish_keys, key_eq, key_eq_iff, Coalescer, window_for, Published, take_pending,
}
use market_data_v.Coalescer.Steps.{
  System, idle, submitted_with, submits, takes, publishes, finishes, Reach, start, next,
  window_kept, submit_later,
}

module _ (n : ℕ) (c : Coalescer) (k : PublishKey) where
  abbrev cleared : Coalescer
  cleared = record c { pending = HashMap.empty }

  -- A state with nothing pending.
  abbrev cleared_with : List Published → Published → Published → System
  cleared_with sending published submitted = record {
    coalescer = cleared;
    sending = sending;
    direct = [];
    published = published;
    submitted = submitted;
  }

  -- A payload is submitted and taken by a flush.
  Reach-taken :
      (payload : Bytes) (sending : List Published) (published submitted : Published)
      → (window_for c k.kind == 0) ≡ false
      → length sending < n
      → Reach n (idle cleared) (cleared_with sending published submitted)
      → Reach n (idle cleared) (
          cleared_with
            (sending ++ (((k, payload) ∷ []) ∷ []))
            published
            (submitted ++ ((k, payload) ∷ [])))
  unfolding take_pending
  Reach-taken payload sending published submitted w l h =
      let s = cleared_with sending published submitted in
      let z : (window_for cleared k.kind == 0) ≡ false =
        rw (window_kept c HashMap.empty k.kind) w in
      let a : Reach n (idle cleared) (
          submitted_with k payload s
            (record cleared { pending = HashMap.insert k payload HashMap.empty }, [])) =
        subst (λ r. Reach n (idle cleared) (submitted_with k payload s r))
          (submit_later k payload cleared z) (next h (submits k payload)) in
      subst
        (λ b.
          Reach n (idle cleared)
            (cleared_with (sending ++ (b ∷ [])) published (submitted ++ ((k, payload) ∷ []))))
        (to_list-insert-empty k payload) (next a (takes l))

  Reach-cleared :
      (p q : Bytes)
      → 2 ≤ n
      → (window_for c k.kind == 0) ≡ false
      → Reach n (idle cleared) (cleared_with [] ((k, q) ∷ (k, p) ∷ []) ((k, p) ∷ (k, q) ∷ []))
  Reach-cleared p q l w =
      let a = Reach-taken p [] [] [] w (omega arith) start in
      let b = Reach-taken q (((k, p) ∷ []) ∷ []) [] ((k, p) ∷ []) w (omega arith) a in
      next
        (next
          (next (next b (publishes (((k, p) ∷ []) ∷ []) (k, q) [] [] refl))
            (publishes [] (k, p) [] ([] ∷ []) refl))
          (finishes [] ([] ∷ []) refl))
        (finishes [] [] refl)

-- With two flushes at the same time, from a coalescer with nothing pending, two payloads for a key whose
-- updates are delayed can reach the sink in the wrong order: a state is reachable in which nothing is
-- pending or under way, and the sink has received the later payload first and the earlier one last.
pub Reach-overtaken :
    (n : ℕ) (c : Coalescer) (k : PublishKey) (p q : Bytes)
    → 2 ≤ n
    → c.pending ≡ HashMap.empty
    → (window_for c k.kind == 0) ≡ false
    → (s : System) × Reach n (idle c) s
      × (s.coalescer ≡ c)
      × (s.sending ≡ [])
      × (s.direct ≡ [])
      × (s.submitted ≡ (k, p) ∷ (k, q) ∷ [])
      × (s.published ≡ (k, q) ∷ (k, p) ∷ [])
      × (last_value k none s.published ≡ some p)
Reach-overtaken n c k p q l e w =
    let d : Coalescer = record c { pending = HashMap.empty } in
    let same : c ≡ d = ap (λ (m : HashMap PublishKey Bytes). record c { pending = m }) e in
    let own : key_eq k k ≡ true = (key_eq_iff k k).1 refl in
    (
      cleared_with n c k [] ((k, q) ∷ (k, p) ∷ []) ((k, p) ∷ (k, q) ∷ []),
      subst
          (λ x.
            Reach n (idle x) (cleared_with n c k [] ((k, q) ∷ (k, p) ∷ []) ((k, p) ∷ (k, q) ∷ [])))
          (sym same) (Reach-cleared n c k p q l w),
      sym same,
      refl,
      refl,
      refl,
      refl,
      rw own refl,
    )
