-- ===== src/Coalescer/Kept.antt =====
-- crates/fanout/src/coalescer.rs: what is on its way to the sink, with one flush at a time.
use mathlib.Core.Path.{subst}
use market_data_v.Common.{
  ◌≤◌, ◌<◌, ◌≡◌, refl, sym, ap, ◌∙◌, true, false, Option, none, some, List, [], ◌∷◌, ◌++◌, Bytes,
  ◌==◌, if◌then◌else◌, Bool-cases, inl, inr, length, length-append, All, All-append, arith,
}
use market_data_v.Common.HashMap
use market_data_v.Common.HashMap.{
  HashMap, IsUnique, empty-IsUnique, insert-IsUnique, last_value, last_value-to_list, or_value,
  get-insert, get-empty,
}
use market_data_v.Coalescer.{
  PublishKey, publish_keys, key_eq, key_eq_iff, Coalescer, window_for, Published, submit,
  take_pending,
}
use market_data_v.Coalescer.Batches.{last_value-snoc_other, concat-snoc, only_one, All-without}
use market_data_v.Coalescer.Steps.{
  System, idle, submitted_with, taken, Step, submits, takes, publishes, finishes, sends, Reach,
  start, next, concat, last_value-append, window_kept, submit_later,
}

submit_now :
    (key : PublishKey) (payload : Bytes) (c : Coalescer)
    → (window_for c key.kind == 0) ≡ true
    → submit key payload c ≡ (c, (key, payload) ∷ [])
unfolding submit
submit_now key payload c z = rw z refl

later_lem :
    (key : PublishKey) (payload : Bytes) (c : Coalescer) (k : PublishKey) (old : Option Bytes)
    → or_value (HashMap.get (HashMap.insert key payload c.pending) k) old
      ≡ (if key_eq key k then some payload else or_value (HashMap.get c.pending k) old)
later_lem key payload c k old =
    ap (λ o. or_value o old) (get-insert key k payload c.pending)
    ∙ elim (Bool-cases (key_eq key k)) [ inl q ↦ rw q refl | inr q ↦ rw q refl ]

-- The last payload of a key when everything pending is published.
abbrev pub latest : PublishKey → System → Option Bytes
latest k s =
    or_value (HashMap.get s.coalescer.pending k)
      (last_value k (last_value k none s.published) (concat s.sending))

-- A key whose updates are delayed.
pub record IsKept (k : PublishKey) (s : System) : Type 0 where
  pub unique : IsUnique s.coalescer.pending
  pub delayed : (window_for s.coalescer k.kind == 0) ≡ false
  pub single : length s.sending ≤ 1
  pub others : All (λ (x : PublishKey × Bytes). key_eq x.0 k ≡ false) s.direct
  pub last : latest k s ≡ last_value k none s.submitted

-- A submission of another key is the last one of that key only.
other_key :
    (key k : PublishKey) (c : Coalescer)
    → (window_for c key.kind == 0) ≡ true
    → (window_for c k.kind == 0) ≡ false
    → key_eq key k ≡ false
other_key key k c z n = elim (Bool-cases (key_eq key k)) [
  | inl q ↦
      let same : key ≡ k = (key_eq_iff key k).0 q in
      let z' : (window_for c k.kind == 0) ≡ true = rw same at z in absurd (cc)
  | inr q ↦ q
]

submitted_now-IsKept :
    (key : PublishKey) (payload : Bytes) (k : PublishKey) (s : System)
    → (window_for s.coalescer key.kind == 0) ≡ true
    → IsKept k s
    → IsKept k (submitted_with key payload s (s.coalescer, (key, payload) ∷ []))
submitted_now-IsKept key payload k s z h =
    let other = other_key key k s.coalescer z h.delayed in
    record {
      unique = h.unique;
      delayed = h.delayed;
      single = h.single;
      others =
          All-append (λ (x : PublishKey × Bytes). key_eq x.0 k ≡ false) s.direct
            ((key, payload) ∷ []) h.others (other, tt);
      last = h.last ∙ sym (last_value-snoc_other k s.submitted (key, payload) other);
    }

submitted_later-IsKept :
    (key : PublishKey) (payload : Bytes) (k : PublishKey) (s : System)
    → IsKept k s
    → IsKept k (
        submitted_with key payload s
          (record s.coalescer { pending = HashMap.insert key payload s.coalescer.pending }, []))
submitted_later-IsKept key payload k s h =
    let c = s.coalescer in
    let old = last_value k (last_value k none s.published) (concat s.sending) in
    record {
      unique = insert-IsUnique key payload c.pending h.unique;
      delayed = rw (window_kept c (HashMap.insert key payload c.pending) k.kind) h.delayed;
      single = h.single;
      others =
          All-append (λ (x : PublishKey × Bytes). key_eq x.0 k ≡ false) s.direct [] h.others tt;
      last =
          later_lem key payload c k old
          ∙ ap (λ o. if key_eq key k then some payload else o) h.last
          ∙ sym (last_value-append k none s.submitted ((key, payload) ∷ []));
    }

submits-IsKept :
    (key : PublishKey) (payload : Bytes) (k : PublishKey) (s : System)
    → IsKept k s
    → IsKept k (submitted_with key payload s (submit key payload s.coalescer))
submits-IsKept key payload k s h = elim (Bool-cases (window_for s.coalescer key.kind == 0)) [
  | inl z ↦
      subst (λ r. IsKept k (submitted_with key payload s r))
        (sym (submit_now key payload s.coalescer z)) (submitted_now-IsKept key payload k s z h)
  | inr n ↦
      subst (λ r. IsKept k (submitted_with key payload s r))
        (sym (submit_later key payload s.coalescer n)) (submitted_later-IsKept key payload k s h)
]

takes-IsKept :
    (k : PublishKey) (s : System) → length s.sending < 1 → IsKept k s → IsKept k (taken s)
unfolding take_pending
takes-IsKept k s l h =
    let m = s.coalescer.pending in
    let old = last_value k none s.published in
    record {
      unique = empty-IsUnique;
      delayed = rw (window_kept s.coalescer HashMap.empty k.kind) h.delayed;
      single = omega (arith, length-append s.sending (HashMap.to_list m ∷ []));
      others = h.others;
      last =
          ap (λ o. or_value o (last_value k old (concat (s.sending ++ (HashMap.to_list m ∷ [])))))
            (get-empty {V = Bytes} k)
          ∙ ap (last_value k old) (concat-snoc s.sending (HashMap.to_list m))
          ∙ last_value-append k old (concat s.sending) (HashMap.to_list m)
          ∙ last_value-to_list k (last_value k old (concat s.sending)) m h.unique
          ∙ h.last;
    }

publishes-IsKept :
    (k : PublishKey) (s : System) (before after : List Published) (x : PublishKey × Bytes)
    (batch : Published)
    → s.sending ≡ before ++ ((x ∷ batch) ∷ after)
    → IsKept k s
    → IsKept k
        (record s { sending = before ++ (batch ∷ after); published = s.published ++ (x ∷ []) })
publishes-IsKept k s before after x batch e h =
    let (p, q, f) = only_one s.sending before after (x ∷ batch) e h.single in
    let old = last_value k none s.published in
    let rest : before ++ (batch ∷ after) ≡ batch ∷ [] =
      ap (λ b. b ++ (batch ∷ after)) p ∙ ap (λ b. batch ∷ b) q in
    let step : last_value k (last_value k none (s.published ++ (x ∷ []))) (batch ++ [])
        ≡ last_value k old ((x ∷ batch) ++ []) =
      ap (λ o. last_value k o (batch ++ [])) (last_value-append k none s.published (x ∷ [])) in
    record {
      unique = h.unique;
      delayed = h.delayed;
      single = omega (arith, ap length rest);
      others = h.others;
      last =
          ap (λ o. or_value (HashMap.get s.coalescer.pending k) o)
            (ap (λ bs. last_value k (last_value k none (s.published ++ (x ∷ []))) (concat bs)) rest
              ∙ step
              ∙ ap (λ bs. last_value k old (concat bs)) (sym f))
          ∙ h.last;
    }

finishes-IsKept :
    (k : PublishKey) (s : System) (before after : List Published)
    → s.sending ≡ before ++ ([] ∷ after)
    → IsKept k s
    → IsKept k (record s { sending = before ++ after })
finishes-IsKept k s before after e h =
    let (p, q, f) = only_one s.sending before after [] e h.single in
    let old = last_value k none s.published in
    let rest : before ++ after ≡ [] = ap (λ b. b ++ after) p ∙ q in
    record {
      unique = h.unique;
      delayed = h.delayed;
      single = omega (arith, ap length rest);
      others = h.others;
      last =
          ap (λ o. or_value (HashMap.get s.coalescer.pending k) o)
            (ap (λ bs. last_value k old (concat bs)) rest
              ∙ ap (λ bs. last_value k old (concat bs)) (sym f))
          ∙ h.last;
    }

sends-IsKept :
    (k : PublishKey) (s : System) (before : Published) (x : PublishKey × Bytes) (after : Published)
    → s.direct ≡ before ++ (x ∷ after)
    → IsKept k s
    → IsKept k (record s { direct = before ++ after; published = s.published ++ (x ∷ []) })
sends-IsKept k s before x after e h =
    let P : PublishKey × Bytes → Type 0 = λ y. key_eq y.0 k ≡ false in
    let (other, others) = All-without P before x after (subst (All P) e h.others) in
    record {
      unique = h.unique;
      delayed = h.delayed;
      single = h.single;
      others = others;
      last =
          ap (λ o. or_value (HashMap.get s.coalescer.pending k) (last_value k o (concat s.sending)))
            (last_value-snoc_other k s.published x other)
          ∙ h.last;
    }

Step-IsKept : (k : PublishKey) (s t : System) → Step 1 s t → IsKept k s → IsKept k t
Step-IsKept k s t (submits key payload) h = submits-IsKept key payload k s h
Step-IsKept k s t (takes l) h = takes-IsKept k s l h
Step-IsKept k s t (publishes before x batch after e) h =
    publishes-IsKept k s before after x batch e h
Step-IsKept k s t (finishes before after e) h = finishes-IsKept k s before after e h
Step-IsKept k s t (sends before x after e) h = sends-IsKept k s before x after e h

pub Reach-IsKept : (k : PublishKey) (s t : System) → Reach 1 s t → IsKept k s → IsKept k t
Reach-IsKept k s t start h = h
Reach-IsKept k s t (next r x) h = Step-IsKept k _ t x (Reach-IsKept k s _ r h)

pub idle-IsKept :
    (k : PublishKey) (c : Coalescer)
    → c.pending ≡ HashMap.empty
    → (window_for c k.kind == 0) ≡ false
    → IsKept k (idle c)
idle-IsKept k c e w = record {
  unique = subst (λ m. IsUnique m) (sym e) empty-IsUnique;
  delayed = w;
  single = omega arith;
  others = tt;
  last =
      ap (λ m. or_value (HashMap.get m k) none) e
      ∙ ap (λ o. or_value o none) (get-empty {V = Bytes} k);
}
