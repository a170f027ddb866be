-- ===== src/Coalescer/Delivery.antt =====
-- crates/fanout/src/coalescer.rs: what the sink has received in the end, with one flush at a time.
use market_data_v.Common.{
  ◌≤◌, ◌<◌, ◌≡◌, refl, sym, ap, ◌∙◌, false, none, List, [], ◌∷◌, ◌++◌, Bytes, ◌==◌, length, arith,
}
use market_data_v.Common.HashMap
use market_data_v.Common.HashMap.{HashMap, last_value, last_value-to_list, or_value, get-empty}
use market_data_v.Coalescer.{
  PublishKey, publish_keys, Coalescer, window_for, Published, take_pending,
}
use market_data_v.Coalescer.Steps.{
  System, idle, taken, takes, publishes, finishes, Reach, start, next, Reach-trans, concat,
  last_value-append,
}
use market_data_v.Coalescer.Kept.{latest, IsKept, Reach-IsKept, idle-IsKept}

-- A run that ends with no flush under way.
record Ended (s t : System) : Type 0 where
  reached : Reach 1 s t
  ended : t.sending ≡ []
  same : t.coalescer ≡ s.coalescer
  no_more : t.submitted ≡ s.submitted

publish_batch : (batch : Published) (s : System) → s.sending ≡ batch ∷ [] → (t : System) × Ended s t
publish_batch [] s e = (
  record s { sending = [] },
  record { reached = next start (finishes [] [] e); ended = refl; same = refl; no_more = refl },
)
publish_batch (x ∷ batch) s e =
    let s' : System = record s { sending = batch ∷ []; published = s.published ++ (x ∷ []) } in
    let (t, r) = publish_batch batch s' refl in
    (
      t,
      record {
        reached = Reach-trans 1 s s' t (next start (publishes [] x batch [] e)) r.reached;
        ended = r.ended;
        same = r.same;
        no_more = r.no_more;
      },
    )

end_flush :
    (sending : List Published) (s : System)
    → s.sending ≡ sending
    → length sending ≤ 1
    → (t : System) × Ended s t
end_flush [] s e l = (s, record { reached = start; ended = e; same = refl; no_more = refl })
end_flush (b ∷ []) s e l = publish_batch b s e
end_flush (b ∷ c ∷ bs) s e l = absurd (omega arith)

-- One more flush, behind the one that is under way.
flush_again :
    (s : System)
    → length s.sending ≤ 1
    → (t : System) × Reach 1 s t
      × (t.sending ≡ [])
      × (t.coalescer.pending ≡ HashMap.empty)
      × (t.submitted ≡ s.submitted)
unfolding take_pending
flush_again s l =
    let (a, r) = end_flush s.sending s refl l in
    let batch = HashMap.to_list (take_pending a.coalescer).1 in
    let less : length a.sending < 1 = omega (arith, ap length r.ended) in
    let one : (taken a).sending ≡ batch ∷ [] = ap (λ bs. bs ++ (batch ∷ [])) r.ended in
    let (t, q) = publish_batch batch (taken a) one in
    (
      t,
      Reach-trans 1 s a t r.reached
          (Reach-trans 1 a (taken a) t (next start (takes less)) q.reached),
      q.ended,
      ap (λ (c : Coalescer). c.pending) q.same,
      q.no_more ∙ r.no_more,
    )

latest-on_the_way :
    (k : PublishKey) (s : System)
    → IsKept k s
    → last_value k none (s.published ++ (concat s.sending ++ HashMap.to_list s.coalescer.pending))
      ≡ latest k s
latest-on_the_way k s h =
    let m = s.coalescer.pending in
    let old = last_value k none s.published in
    last_value-append k none s.published (concat s.sending ++ HashMap.to_list m)
    ∙ last_value-append k old (concat s.sending) (HashMap.to_list m)
    ∙ last_value-to_list k (last_value k old (concat s.sending)) m h.unique

latest-published :
    (k : PublishKey) (s : System)
    → s.sending ≡ []
    → s.coalescer.pending ≡ HashMap.empty
    → latest k s ≡ last_value k none s.published
latest-published k s e m =
    let old = last_value k none s.published in
    ap (λ bs. or_value (HashMap.get s.coalescer.pending k) (last_value k old (concat bs))) e
    ∙ ap (λ p. or_value (HashMap.get p k) old) m
    ∙ ap (λ o. or_value o old) (get-empty {V = Bytes} k)

-- With one flush at a time, from a coalescer with nothing pending, and for a key whose updates are
-- delayed: however the submissions, the flush and what they publish follow on one another, the last
-- payload of the key among what the sink has received, what the flush under way has still to publish and
-- what is pending, in this order, is the last one that was submitted for the key, none if none was. And
-- a state can be reached without a further submission where no flush is under way, nothing is pending
-- and the last payload of the key that the sink has received is the last one that was submitted for it.
pub Reach-delivered :
    (c : Coalescer) (k : PublishKey) (s : System)
    → c.pending ≡ HashMap.empty
    → (window_for c k.kind == 0) ≡ false
    → Reach 1 (idle c) s
    → (last_value k none (s.published ++ (concat s.sending ++ HashMap.to_list s.coalescer.pending))
        ≡ last_value k none s.submitted)
      × ((t : System) × Reach 1 s t
          × (t.sending ≡ [])
          × (t.coalescer.pending ≡ HashMap.empty)
          × (t.submitted ≡ s.submitted)
          × (last_value k none t.published ≡ last_value k none s.submitted))
Reach-delivered c k s e w r =
    let h : IsKept k s = Reach-IsKept k (idle c) s r (idle-IsKept k c e w) in
    let (t, q, ended, empty, no_more) = flush_again s h.single in
    let g : IsKept k t = Reach-IsKept k s t q h in
    (
      latest-on_the_way k s h ∙ h.last,
      (
        t,
        q,
        ended,
        empty,
        no_more,
        sym (latest-published k t ended empty) ∙ g.last ∙ ap (last_value k none) no_more,
      ),
    )
