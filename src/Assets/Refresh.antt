-- ===== src/Assets/Refresh.antt =====
-- What a refresh leaves in the cache, and what a reader finds while it runs.
use market_data_v.Common.{
  bytes_keys, bytes_eq, ℕ, ◌≡◌, refl, ap, ◌∙◌, Option, none, some, List, [], ◌∷◌, Bytes, length, ok,
  if◌then◌else◌,
}
use market_data_v.Common.HashMap
use market_data_v.Common.HashMap.{
  HashMap, IsUnique, empty-IsUnique, insert-IsUnique, last_value, last_value-to_list, or_value,
  get-insert, get-empty,
}
use market_data_v.Assets.{
  AssetCache, get, Rows, collect, insert_entries, last_of, refresh_states, refresh,
}

-- The id of the last row with the ticker.
unfoldable pub last_id : Bytes → Option ℕ → Rows → Option ℕ
last_id ticker old [] = old
last_id ticker old ((id, t) ∷ rows) =
    last_id ticker (if bytes_eq t ticker then some id else old) rows

collect_lem :
    (rows : Rows) (m : HashMap Bytes ℕ) (ticker : Bytes)
    → IsUnique m
    → (HashMap.get (collect rows m) ticker ≡ last_id ticker (HashMap.get m ticker) rows)
      × IsUnique (collect rows m)
unfolding collect last_id
collect_lem [] m ticker h = (refl, h)
collect_lem ((id, t) ∷ rows) m ticker h =
    let (g, u) = collect_lem rows (HashMap.insert t id m) ticker (insert-IsUnique t id m h) in
    (g ∙ ap (λ x. last_id ticker x rows) (get-insert t ticker id m), u)

insert_entries_lem :
    (entries : List (Bytes × ℕ)) (m : HashMap Bytes ℕ) (ticker : Bytes)
    → HashMap.get (last_of m (insert_entries entries m)) ticker
      ≡ last_value ticker (HashMap.get m ticker) entries
unfolding insert_entries
insert_entries_lem [] m ticker = refl
insert_entries_lem ((t, id) ∷ entries) m ticker =
    insert_entries_lem entries (HashMap.insert t id m) ticker
    ∙ ap (λ x. last_value ticker x entries) (get-insert t ticker id m)

or_none : (o : Option ℕ) → or_value o none ≡ o
or_none none = refl
or_none (some v) = refl

-- A refresh whose query succeeds leaves for each ticker the id of the last row with it, and nothing for
-- a ticker without a row; one whose query fails changes nothing. While it runs there is a state of the
-- map, right behind the `clear`, in which no ticker has an id, whatever it had and will have.
pub refresh-get :
    (rows : Rows) (c : AssetCache)
    → ((ticker : Bytes) → get (refresh (some rows) c).0 ticker ≡ last_id ticker none rows)
      × ((refresh (some rows) c).1 ≡ ok (length rows))
      × ((refresh none c).0 ≡ c)
      × ((cleared : HashMap Bytes ℕ) × (later : List (HashMap Bytes ℕ)) × (refresh_states rows
            ≡ cleared ∷ later)
          × ((ticker : Bytes) → HashMap.get cleared ticker ≡ none))
unfolding refresh refresh_states get
refresh-get rows c = (
  λ ticker.
      let m = collect rows HashMap.empty in
      let (g, u) = collect_lem rows HashMap.empty ticker empty-IsUnique in
      insert_entries_lem (HashMap.to_list m) HashMap.empty ticker
      ∙ ap (λ x. last_value ticker x (HashMap.to_list m)) (get-empty {V = ℕ} ticker)
      ∙ last_value-to_list ticker none m u
      ∙ or_none (HashMap.get m ticker)
      ∙ g
      ∙ ap (λ x. last_id ticker x rows) (get-empty {V = ℕ} ticker),
  refl,
  refl,
  (HashMap.empty, _, refl, λ ticker. get-empty {V = ℕ} ticker),
)
