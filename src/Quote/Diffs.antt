-- ===== src/Quote/Diffs.antt =====
-- Each field of a quote holds the last value that was sent for it.
use market_data_v.Common.{
  bytes_keys, bytes_eq, bytes_eq_iff, nat_eq, ℕ, ◌+◌, ◌%◌, ◌^◌, ◌≡◌, refl, ap, ◌∙◌, true, Option,
  some, [], ◌∷◌, Bytes, ◌==◌, if◌then◌else◌, length, Bool-cases, inl, inr,
}
use market_data_v.Common.HashMap
use market_data_v.Common.HashMap.{HashMap, get-insert}
use market_data_v.Types.{QuoteDiff, QuoteFieldValue}
use market_data_v.Quote.{insert_all, apply_diff, get, QuoteEngine, or_default, apply, with_state}

-- The last value of the index in the diff, or else the old one.
unfoldable pub latest : ℕ → QuoteDiff → Option QuoteFieldValue → Option QuoteFieldValue
latest idx [] old = old
latest idx ((i, v) ∷ diff) old = latest idx diff (if i == idx then some v else old)

get-insert_all :
    (diff : QuoteDiff) (m : HashMap ℕ QuoteFieldValue) (idx : ℕ)
    → HashMap.get (insert_all diff m) idx ≡ latest idx diff (HashMap.get m idx)
unfolding insert_all latest
get-insert_all [] m idx = refl
get-insert_all ((i, v) ∷ diff) m idx =
    get-insert_all diff (HashMap.insert i v m) idx ∙ ap (latest idx diff) (get-insert i idx v m)

-- The value of a field for a ticker: none for an unknown ticker.
abbrev pub field_of : QuoteEngine → Bytes → ℕ → Option QuoteFieldValue
field_of e t idx = get (or_default (with_state e t)) idx

state_of-apply :
    (e : QuoteEngine) (t : Bytes) (time : ℕ) (diff : QuoteDiff) (u : Bytes)
    → with_state (apply t time diff e).0 u ≡ (
        if bytes_eq t u
        then some (apply_diff time diff (or_default (with_state e t))).0
        else with_state e u)
unfolding apply with_state
state_of-apply e t time diff u =
    get-insert t u (apply_diff time diff (or_default (HashMap.get e.states t))).0 e.states

state_of-same :
    (e : QuoteEngine) (t : Bytes) (time : ℕ) (diff : QuoteDiff)
    → with_state (apply t time diff e).0 t
      ≡ some (apply_diff time diff (or_default (with_state e t))).0
state_of-same e t time diff =
    let q : bytes_eq t t ≡ true = (bytes_eq_iff t t).1 refl in
    rw q at (state_of-apply e t time diff t)

field_of-apply :
    (e : QuoteEngine) (t : Bytes) (time : ℕ) (diff : QuoteDiff) (u : Bytes) (idx : ℕ)
    → field_of (apply t time diff e).0 u idx
      ≡ (if bytes_eq t u then latest idx diff (field_of e u idx) else field_of e u idx)
unfolding apply_diff get
field_of-apply e t time diff u idx = elim (Bool-cases (bytes_eq t u)) [
  | inl q ↦
      let same : t ≡ u = (bytes_eq_iff t u).0 q in
      let s : with_state (apply t time diff e).0 u
          ≡ some (apply_diff time diff (or_default (with_state e u))).0 =
        (rw q at (state_of-apply e t time diff u))
        ∙ ap (λ w. some (apply_diff time diff (or_default (with_state e w))).0) same in
      rw (q, s) (get-insert_all diff (or_default (with_state e u)).fields idx)
  | inr q ↦
      let s : with_state (apply t time diff e).0 u ≡ with_state e u =
        rw q at (state_of-apply e t time diff u) in
      rw (q, s) refl
]

pub apply-field_of :
    (e : QuoteEngine) (t : Bytes) (time : ℕ) (diff : QuoteDiff)
    → ((u : Bytes) (idx : ℕ)
        → field_of (apply t time diff e).0 u idx
          ≡ (if bytes_eq t u then latest idx diff (field_of e u idx) else field_of e u idx))
      × ((or_default (with_state (apply t time diff e).0 t)).time_hhmmss ≡ time)
      × ((or_default (with_state (apply t time diff e).0 t)).version
          ≡ ((or_default (with_state e t)).version + 1) % 2 ^ 64)
      × ((apply t time diff e).1 ≡ length diff)
unfolding apply_diff apply
apply-field_of e t time diff = (
  field_of-apply e t time diff,
  ap (λ s. (or_default s).time_hhmmss) (state_of-same e t time diff),
  ap (λ s. (or_default s).version) (state_of-same e t time diff),
  refl,
)
