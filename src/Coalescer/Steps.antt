-- ===== src/Coalescer/Steps.antt =====
-- crates/fanout/src/coalescer.rs: the calls of `submit` and `flush_once` that run at the same time.
-- A flush takes the pending map in one step and publishes each of its entries in a later one. A submission
-- is one step; what it publishes at once is published in a later one.
use market_data_v.Common.{
  ℕ, ◌<◌, ◌≡◌, Option, some, List, [], ◌∷◌, ◌++◌, Bytes, length, refl, false, ◌==◌, if◌then◌else◌,
}
use market_data_v.Common.HashMap
use market_data_v.Common.HashMap.{HashMap, last_value}
use market_data_v.Coalescer.{
  PublishKey, publish_keys, key_eq, Coalescer, Published, submit, take_pending, window_for, Kind,
}

-- `sending` has, for each flush under way, what it has still to publish, and `direct` what the
-- submissions under way have. `published` has all that was handed to the sink, and `submitted` all that
-- was submitted.
pub record System : Type 0 where
  pub coalescer : Coalescer
  pub sending : List Published
  pub direct : Published
  pub published : Published
  pub submitted : Published

abbrev pub idle : Coalescer → System
idle c = record { coalescer = c; sending = []; direct = []; published = []; submitted = [] }

abbrev pub submitted_with : PublishKey → Bytes → System → Coalescer × Published → System
submitted_with key payload s r = record s {
  coalescer = r.0;
  direct = s.direct ++ r.1;
  submitted = s.submitted ++ ((key, payload) ∷ []);
}

abbrev pub taken : System → System
taken s = record s {
  coalescer = (take_pending s.coalescer).0;
  sending = s.sending ++ (HashMap.to_list (take_pending s.coalescer).1 ∷ []);
}

-- With at most `n` flushes at the same time.
pub data Step (n : ℕ) (s : System) : System → Type 0 where
  submits :
      (key : PublishKey) (payload : Bytes)
      → Step n s (submitted_with key payload s (submit key payload s.coalescer))
  takes : length s.sending < n → Step n s (taken s)
  publishes :
      (before : List Published) (x : PublishKey × Bytes) (batch : Published)
      (after : List Published)
      → s.sending ≡ before ++ ((x ∷ batch) ∷ after)
      → Step n s
          (record s { sending = before ++ (batch ∷ after); published = s.published ++ (x ∷ []) })
  finishes :
      (before after : List Published)
      → s.sending ≡ before ++ ([] ∷ after)
      → Step n s (record s { sending = before ++ after })
  sends :
      (before : Published) (x : PublishKey × Bytes) (after : Published)
      → s.direct ≡ before ++ (x ∷ after)
      → Step n s (record s { direct = before ++ after; published = s.published ++ (x ∷ []) })

pub data Reach (n : ℕ) (first : System) : System → Type 0 where
  start : Reach n first first
  next : {s t : System} → Reach n first s → Step n s t → Reach n first t

pub Reach-trans : (n : ℕ) (r s t : System) → Reach n r s → Reach n s t → Reach n r t
Reach-trans n r s t a start = a
Reach-trans n r s t a (next b x) = next (Reach-trans n r s _ a b) x

abbrev pub concat : List Published → Published
concat [] = []
concat (b ∷ bs) = b ++ concat bs

pub last_value-append :
    (k : PublishKey) (old : Option Bytes) (xs ys : Published)
    → last_value k old (xs ++ ys) ≡ last_value k (last_value k old xs) ys
last_value-append k old [] ys = refl
last_value-append k old ((j, v) ∷ xs) ys =
    last_value-append k (if key_eq j k then some v else old) xs ys

pub window_kept :
    (c : Coalescer) (m : HashMap PublishKey Bytes) (k : Kind)
    → window_for (record c { pending = m }) k ≡ window_for c k
unfolding window_for
window_kept c m Kind.quote = refl
window_kept c m Kind.book = refl
window_kept c m Kind.trade = refl

pub submit_later :
    (key : PublishKey) (payload : Bytes) (c : Coalescer)
    → (window_for c key.kind == 0) ≡ false
    → submit key payload c ≡ (record c { pending = HashMap.insert key payload c.pending }, [])
unfolding submit
submit_later key payload c z = rw z refl
