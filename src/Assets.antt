-- ===== src/Assets.antt =====
-- crates/persistence/src/asset_cache.rs: the ids of the assets by ticker.
-- What the query gives is an argument: its rows, or `none` where it fails. An `i32` is its pattern. The
-- map is shared: `refresh_states` lists what a reader on another thread can find in it. Metrics are left
-- out.
pub mod Refresh
use market_data_v.Common.{
  bytes_keys, ℕ, Bool, Option, none, some, List, [], ◌∷◌, ◌++◌, Bytes, codes, ◌==◌, length, Result,
  ok, err, String,
}
use market_data_v.Common.HashMap
use market_data_v.Common.HashMap.{HashMap}

abbrev pub default_assets_query : Bytes
default_assets_query = codes "SELECT id, ticker FROM public.assets"

pub record AssetCache : Type 0 where
  pub map : HashMap Bytes ℕ
  pub query : Bytes

unfoldable pub new : AssetCache
new = record { map = HashMap.empty; query = default_assets_query }

unfoldable pub with_query : Bytes → AssetCache → AssetCache
with_query query c = record c { query = query }

unfoldable pub get : AssetCache → Bytes → Option ℕ
get c ticker = HashMap.get c.map ticker

unfoldable pub insert : Bytes → ℕ → AssetCache → AssetCache
insert ticker id c = record c { map = HashMap.insert ticker id c.map }

unfoldable pub len : AssetCache → ℕ
len c = HashMap.len c.map

unfoldable pub is_empty : AssetCache → Bool
unfolding len
is_empty c = len c == 0

abbrev pub Rows : Type 0
Rows = List (ℕ × Bytes)

-- The loop over the rows.
unfoldable pub collect : Rows → HashMap Bytes ℕ → HashMap Bytes ℕ
collect [] m = m
collect ((id, ticker) ∷ rows) m = collect rows (HashMap.insert ticker id m)

-- The insertions into the shared map, with the state after each of them.
unfoldable pub insert_entries : List (Bytes × ℕ) → HashMap Bytes ℕ → List (HashMap Bytes ℕ)
insert_entries [] m = []
insert_entries ((ticker, id) ∷ entries) m =
    let m' = HashMap.insert ticker id m in m' ∷ insert_entries entries m'

abbrev pub last_of : {A : Type 0} → A → List A → A
last_of a [] = a
last_of a (b ∷ bs) = last_of b bs

-- The states of the shared map from the `clear` on.
unfoldable pub refresh_states : Rows → List (HashMap Bytes ℕ)
refresh_states rows =
    HashMap.empty ∷ insert_entries (HashMap.to_list (collect rows HashMap.empty)) HashMap.empty

unfoldable pub refresh : Option Rows → AssetCache → AssetCache × Result String ℕ
refresh none c = (c, err "database")
refresh (some rows) c = (record c { map = last_of c.map (refresh_states rows) }, ok (length rows))
