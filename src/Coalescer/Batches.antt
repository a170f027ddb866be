-- ===== src/Coalescer/Batches.antt =====
-- crates/fanout/src/coalescer.rs: the lists of what is published.
use mathlib.Core.List.{append_assoc}
use market_data_v.Common.{
  ◌≤◌, ◌<◌, ◌≡◌, refl, sym, ap, ◌∙◌, false, none, List, [], ◌∷◌, ◌++◌, Bytes, length, length-append,
  All, arith,
}
use market_data_v.Common.HashMap.{last_value}
use market_data_v.Coalescer.{PublishKey, publish_keys, key_eq, Published}
use market_data_v.Coalescer.Steps.{concat, last_value-append}

pub last_value-snoc_other :
    (k : PublishKey) (xs : Published) (x : PublishKey × Bytes)
    → key_eq x.0 k ≡ false
    → last_value k none (xs ++ (x ∷ [])) ≡ last_value k none xs
last_value-snoc_other k xs x h = last_value-append k none xs (x ∷ []) ∙ rw h refl

pub concat-snoc : (bs : List Published) (b : Published) → concat (bs ++ (b ∷ [])) ≡ concat bs ++ b
concat-snoc [] [] = refl
concat-snoc [] (x ∷ b) = ap (λ t. x ∷ t) (concat-snoc [] b)
concat-snoc (a ∷ bs) b = ap (λ t. a ++ t) (concat-snoc bs b) ∙ sym (append_assoc a (concat bs) b)

no_batch : (bs : List Published) → length bs < 1 → bs ≡ []
no_batch [] l = refl
no_batch (b ∷ bs) l = absurd (omega arith)

-- With one flush at a time, its batch is the only one.
pub only_one :
    (sending before after : List Published) (b : Published)
    → sending ≡ before ++ (b ∷ after)
    → length sending ≤ 1
    → (before ≡ []) × (after ≡ []) × (sending ≡ b ∷ [])
only_one sending before after b e l =
    let n : length (before ++ (b ∷ after)) ≤ 1 = rw e at l in
    let p : before ≡ [] = no_batch before (omega (arith, length-append before (b ∷ after))) in
    let q : after ≡ [] = no_batch after (omega (arith, length-append before (b ∷ after))) in
    (p, q, e ∙ ap (λ x. x ++ (b ∷ after)) p ∙ ap (λ x. b ∷ x) q)

pub All-without :
    (P : PublishKey × Bytes → Type 0) (before : Published) (x : PublishKey × Bytes)
    (after : Published)
    → All P (before ++ (x ∷ after))
    → P x × All P (before ++ after)
All-without P [] x after h = (h.0, h.1)
All-without P (y ∷ before) x after h =
    let (p, r) = All-without P before x after h.1 in (p, (h.0, r))
