-- ===== src/Common/HashMap.antt =====
-- The hash maps of the program (`AHashMap`, `DashMap`, `HashSet`) as lists of entries.
-- The program does not depend on the order of a map's entries.
use Prim.Native.Nat.{ℕ, suc}
use mathlib.Core.Path.{◌≡◌, refl, ap}
use mathlib.Core.Bool.{Bool, true, false}
use mathlib.Core.Option
use mathlib.Core.Option.{Option, none, some}
use mathlib.Core.List.{List, [], ◌∷◌, map}
use native.Mathlib.Omega.{arith}
use mathlib.Core.Logic.{inl, inr}
use market_data_v.Common.Tests.{Eq, Bool-cases, if◌then◌else◌}
use market_data_v.Common.Lists.{length}

pub record HashMap (K V : Type 0) : Type 0 where
  entries : List (K × V)

pub empty : {K V : Type 0} → HashMap K V
empty = record { entries = [] }

pub len : {K V : Type 0} → HashMap K V → ℕ
len m = length m.entries

module _ {K V : Type 0} where
  pub keys : HashMap K V → List K
  keys m = map (λ e. e.0) m.entries

  -- The entries in the order in which an iteration meets them.
  pub to_list : HashMap K V → List (K × V)
  to_list m = m.entries

module _ {K V W : Type 0} where
  map_entries : (V → W) → List (K × V) → List (K × W)
  map_entries f [] = []
  map_entries f ((k, v) ∷ m) = (k, f v) ∷ map_entries f m

  -- `for v in m.values_mut() { *v = f(*v) }`
  pub map_values : (V → W) → HashMap K V → HashMap K W
  unfolding map_entries
  map_values f m = record { entries = map_entries f m.entries }

module _ {K V : Type 0} ⦃e : Eq K⦄ where
  get_entry : K → List (K × V) → Option V
  get_entry k [] = none
  get_entry k ((j, v) ∷ m) = if e.beq j k then some v else get_entry k m

  insert_entry : K → V → List (K × V) → List (K × V)
  insert_entry k v [] = (k, v) ∷ []
  insert_entry k v ((j, w) ∷ m) = if e.beq j k then (k, v) ∷ m else (j, w) ∷ insert_entry k v m

  remove_entry : K → List (K × V) → List (K × V)
  remove_entry k [] = []
  remove_entry k ((j, w) ∷ m) =
      let rest = remove_entry k m in if e.beq j k then rest else (j, w) ∷ rest

  get_entry-insert_entry :
      (k j : K) (v : V) (m : List (K × V))
      → get_entry j (insert_entry k v m) ≡ (if e.beq k j then some v else get_entry j m)
  unfolding get_entry insert_entry
  get_entry-insert_entry k j v [] = refl
  get_entry-insert_entry k j v ((i, w) ∷ m) =
      ground (arith, e.beq_iff k j, e.beq_iff i k, e.beq_iff i j, get_entry-insert_entry k j v m)

  get_entry-remove_entry :
      (k j : K) (m : List (K × V))
      → get_entry j (remove_entry k m) ≡ (if e.beq k j then none else get_entry j m)
  unfolding get_entry remove_entry
  get_entry-remove_entry k j [] = ground arith
  get_entry-remove_entry k j ((i, w) ∷ m) =
      ground (arith, e.beq_iff k j, e.beq_iff i k, e.beq_iff i j, get_entry-remove_entry k j m)

  pub get : HashMap K V → K → Option V
  unfolding get_entry
  get m k = get_entry k m.entries

  pub insert : K → V → HashMap K V → HashMap K V
  unfolding insert_entry
  insert k v m = record { entries = insert_entry k v m.entries }

  pub remove : K → HashMap K V → HashMap K V
  unfolding remove_entry
  remove k m = record { entries = remove_entry k m.entries }

  pub get-insert :
      (k j : K) (v : V) (m : HashMap K V)
      → get (insert k v m) j ≡ (if e.beq k j then some v else get m j)
  unfolding get insert
  get-insert k j v m = get_entry-insert_entry k j v m.entries

  pub to_list-insert-empty : (k : K) (v : V) → to_list (insert k v empty) ≡ (k, v) ∷ []
  unfolding to_list insert insert_entry empty
  to_list-insert-empty k v = refl

  pub get-remove :
      (k j : K) (m : HashMap K V) → get (remove k m) j ≡ (if e.beq k j then none else get m j)
  unfolding get remove
  get-remove k j m = get_entry-remove_entry k j m.entries

  pub get-empty : (k : K) → get (empty {V = V}) k ≡ none
  unfolding get empty
  get-empty k = refl

pub keys-empty : (K V : Type 0) → keys (empty {K = K} {V = V}) ≡ []
unfolding keys empty
keys-empty K V = refl

-- The first of two optional values.
abbrev pub or_value : {V : Type 0} → Option V → Option V → Option V
or_value none old = old
or_value (some v) old = some v

module _ {K V : Type 0} ⦃e : Eq K⦄ where
  -- Whether no entry has the key.
  absent : K → List (K × V) → Bool
  absent k [] = true
  absent k ((j, v) ∷ m) = if e.beq j k then false else absent k m

  distinct : List (K × V) → Bool
  unfolding absent
  distinct [] = true
  distinct ((k, v) ∷ m) = if absent k m then distinct m else false

  -- No key has two entries.
  pub record IsUnique (m : HashMap K V) : Type 0 where
    unique : distinct m.entries ≡ true

  -- The last value of the key in a list of entries, or else the given one.
  abbrev pub last_value : K → Option V → List (K × V) → Option V
  last_value k old [] = old
  last_value k old ((j, v) ∷ m) = last_value k (if e.beq j k then some v else old) m

  absent-insert_entry :
      (k j : K) (v : V) (m : List (K × V))
      → absent j (insert_entry k v m) ≡ (if e.beq k j then false else absent j m)
  unfolding absent insert_entry
  absent-insert_entry k j v [] = ground arith
  absent-insert_entry k j v ((i, w) ∷ m) =
      ground (arith, e.beq_iff k j, e.beq_iff i k, e.beq_iff i j, absent-insert_entry k j v m)

  distinct-insert_entry :
      (k : K) (v : V) (m : List (K × V)) → distinct m ≡ true → distinct (insert_entry k v m) ≡ true
  unfolding distinct absent insert_entry
  distinct-insert_entry k v [] h = refl
  distinct-insert_entry k v ((i, w) ∷ m) h = ground (
    arith,
    e.beq_iff i k,
    e.beq_iff k i,
    absent-insert_entry k i v m,
    distinct-insert_entry k v m,
  )

  pub empty-IsUnique : IsUnique (empty {K = K} {V = V})
  unfolding empty distinct
  empty-IsUnique = record { unique = refl }

  pub insert-IsUnique : (k : K) (v : V) (m : HashMap K V) → IsUnique m → IsUnique (insert k v m)
  unfolding insert
  insert-IsUnique k v m h = record { unique = distinct-insert_entry k v m.entries h.unique }

  last_value-absent :
      (k : K) (old : Option V) (m : List (K × V)) → absent k m ≡ true → last_value k old m ≡ old
  unfolding absent
  last_value-absent k old [] h = refl
  last_value-absent k old ((j, v) ∷ m) h = ground (arith, last_value-absent k old m)

  last_value-get_entry :
      (k : K) (old : Option V) (m : List (K × V))
      → distinct m ≡ true
      → last_value k old m ≡ or_value (get_entry k m) old
  unfolding distinct get_entry
  last_value-get_entry k old [] h = refl
  last_value-get_entry k old ((j, v) ∷ m) h = elim (Bool-cases (e.beq j k)) [
    | inl q ↦
        let same : j ≡ k = (e.beq_iff j k).0 q in
        let a : absent j m ≡ true = ground arith in
        rw q (last_value-absent k (some v) m (rw same at a))
    | inr q ↦ rw q (last_value-get_entry k old m (ground arith))
  ]

  -- In the entries of a map, in any order, the last value of a key is the one that a lookup finds.
  pub last_value-to_list :
      (k : K) (old : Option V) (m : HashMap K V)
      → IsUnique m
      → last_value k old (to_list m) ≡ or_value (get m k) old
  unfolding to_list get
  last_value-to_list k old m h = last_value-get_entry k old m.entries h.unique

module _ {K : Type 0} ⦃e : Eq K⦄ where
  -- How often a key stands in a list.
  abbrev pub occurrences : K → List K → ℕ
  occurrences k [] = 0
  occurrences k (j ∷ js) = if e.beq j k then suc (occurrences k js) else occurrences k js

-- 1 where there is a value.
abbrev pub one_if_some : {V : Type 0} → Option V → ℕ
one_if_some none = 0
one_if_some (some v) = 1

module _ {K V : Type 0} ⦃e : Eq K⦄ where
  absent-remove_entry :
      (k j : K) (m : List (K × V)) → absent j m ≡ true → absent j (remove_entry k m) ≡ true
  unfolding absent remove_entry
  absent-remove_entry k j [] h = refl
  absent-remove_entry k j ((i, w) ∷ m) h = ground (arith, absent-remove_entry k j m)

  distinct-remove_entry :
      (k : K) (m : List (K × V)) → distinct m ≡ true → distinct (remove_entry k m) ≡ true
  unfolding distinct remove_entry
  distinct-remove_entry k [] h = refl
  distinct-remove_entry k ((i, w) ∷ m) h =
      ground (arith, absent-remove_entry k i m, distinct-remove_entry k m)

  pub remove-IsUnique : (k : K) (m : HashMap K V) → IsUnique m → IsUnique (remove k m)
  unfolding remove
  remove-IsUnique k m h = record { unique = distinct-remove_entry k m.entries h.unique }

  occurrences-absent :
      (k : K) (m : List (K × V))
      → absent k m ≡ true
      → (occurrences k (map (λ x. x.0) m) ≡ 0) × (get_entry k m ≡ none)
  unfolding absent get_entry
  occurrences-absent k [] h = (refl, refl)
  occurrences-absent k ((j, v) ∷ m) h = ground (arith, occurrences-absent k m)

  occurrences-entries :
      (k : K) (m : List (K × V))
      → distinct m ≡ true
      → occurrences k (map (λ x. x.0) m) ≡ one_if_some (get_entry k m)
  unfolding distinct get_entry
  occurrences-entries k [] h = refl
  occurrences-entries k ((j, v) ∷ m) h = elim (Bool-cases (e.beq j k)) [
    | inl q ↦
        let same : j ≡ k = (e.beq_iff j k).0 q in
        let a : absent j m ≡ true = ground arith in
        rw q (ap suc (occurrences-absent k m (rw same at a)).0)
    | inr q ↦ rw q (occurrences-entries k m (ground arith))
  ]

  -- Each key of a map stands among its keys once.
  pub occurrences-keys :
      (k : K) (m : HashMap K V) → IsUnique m → occurrences k (keys m) ≡ one_if_some (get m k)
  unfolding keys get
  occurrences-keys k m h = occurrences-entries k m.entries h.unique

module _ {K V W : Type 0} ⦃e : Eq K⦄ where
  get_entry-map_entries :
      (f : V → W) (k : K) (m : List (K × V))
      → get_entry k (map_entries f m) ≡ Option.map f (get_entry k m)
  unfolding get_entry map_entries
  get_entry-map_entries f k [] = refl
  get_entry-map_entries f k ((j, v) ∷ m) = ground (arith, get_entry-map_entries f k m)

  pub get-map_values :
      (f : V → W) (k : K) (m : HashMap K V) → get (map_values f m) k ≡ Option.map f (get m k)
  unfolding get map_values
  get-map_values f k m = get_entry-map_entries f k m.entries

pub ruleset map_laws = (get-insert, get-remove, get-empty, get-map_values)
