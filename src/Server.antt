-- ===== src/Server.antt =====
-- rust/crates/mcfreeze-server/src/: the lookups of a connection, over a catalog of datasets that
-- is swapped while connections are served. A snapshot is what its `get` answers; a task that
-- panics answers nothing. Counters and times are left out.
pub mod Current
pub mod Protocol
pub mod Examples
use mcfreeze.Base.{ℕ, zero, suc, ◌+◌, List, [], ◌∷◌, Bool, true, false, not, Option, none, some}
use mcfreeze.Base.{ltb}
use mcfreeze.Base.{◌==◌, if◌then◌else◌, Bytes, ◌⊎◌, inl, inr, ◌&&◌, String}
use mcfreeze.Error.{Error, IoError}
use mcfreeze.Base.{String}
use mcfreeze.V5.Reader.{GetOutcome}

-- The text of a panic is left out.
pub data ServeError : Type 0 where
  format_error : Error → ServeError
  missing_dataset_prefix : ServeError
  invalid_dataset_name : ServeError
  blocking_task_panicked : ServeError
  io_error : IoError → ServeError
  catalog_parse : String → ServeError

pub data LookupOutcome : Type 0 where
  lookup_hit : Bytes → LookupOutcome
  lookup_miss : Bool → LookupOutcome

-- `LookupOutcome::from`
unfoldable pub outcome_from : GetOutcome → LookupOutcome
outcome_from (GetOutcome.hit v) = lookup_hit v
outcome_from (GetOutcome.miss paid) = lookup_miss paid

pub record DatasetHandle : Type 0 where
  pub name : Bytes
  pub version : Bytes
  pub reader : Bytes → Option (Error ⊎ GetOutcome)

-- `DatasetHandle::get`
unfoldable pub handle_get : DatasetHandle → Bytes → ServeError ⊎ LookupOutcome
unfolding outcome_from
handle_get h key = elim (h.reader key) [
  | none ↦ inl blocking_task_panicked
  | some (inl e) ↦ inl (format_error e)
  | some (inr o) ↦ inr (outcome_from o)
]

pub record ActiveCatalog : Type 0 where
  pub datasets : List (Bytes × DatasetHandle)
  pub generation : ℕ

unfoldable pub bytes_eq : Bytes → Bytes → Bool
bytes_eq [] [] = true
bytes_eq (a ∷ as') (b ∷ bs) = (a == b) && bytes_eq as' bs
bytes_eq _ _ = false

-- `HashMap::get`
unfoldable pub find_dataset : List (Bytes × DatasetHandle) → Bytes → Option DatasetHandle
unfolding bytes_eq
find_dataset [] dataset = none
find_dataset ((prefix, h) ∷ rest) dataset =
    if bytes_eq prefix dataset then some h else find_dataset rest dataset

-- `ActiveCatalog::get`
unfoldable pub catalog_get : ActiveCatalog → Bytes → Bytes → ServeError ⊎ LookupOutcome
unfolding find_dataset handle_get
catalog_get catalog dataset key = elim (find_dataset catalog.datasets dataset) [
  | none ↦ inr (lookup_miss false)
  | some h ↦ handle_get h key
]

-- The byte `:`.
abbrev pub colon : ℕ
colon = 58

-- The bytes before the first colon and those behind it.
unfoldable pub split_at_colon : Bytes → Option (Bytes × Bytes)
split_at_colon [] = none
split_at_colon (b ∷ bs) =
    let rest = split_at_colon bs in
    if b == colon
    then some ([], bs)
    else elim rest [ none ↦ none | some (before, behind) ↦ some (b ∷ before, behind) ]

unfoldable pub split_prefix : Bytes → ServeError ⊎ (Bytes × Bytes)
unfolding split_at_colon
split_prefix key = elim (split_at_colon key) [
  | none ↦ inl missing_dataset_prefix
  | some parts ↦ inr parts
]

-- A continuation byte in the range the lead byte allows, then plain ones; or a lead byte.
unfoldable pub utf8_from : ℕ → ℕ → ℕ → Bytes → Bool
utf8_from need lo hi [] = need == 0
utf8_from (suc need) lo hi (b ∷ bs) =
    not (ltb b lo) && (not (ltb hi b) && utf8_from need 128 191 bs)
utf8_from zero lo hi (b ∷ bs) =
    let ascii = utf8_from 0 128 191 bs in
    let two = utf8_from 1 128 191 bs in
    let three = utf8_from 2 (if b == 224 then 160 else 128) (if b == 237 then 159 else 191) bs in
    let four = utf8_from 3 (if b == 240 then 144 else 128) (if b == 244 then 143 else 191) bs in
    if ltb b 128
    then ascii
    else if ltb b 194
    then false
    else if ltb b 224
    then two
    else if ltb b 240
    then three
    else if ltb b 245
    then four
    else false

-- Whether `std::str::from_utf8` accepts the bytes.
unfoldable pub is_utf8 : Bytes → Bool
unfolding utf8_from
is_utf8 bs = utf8_from 0 128 191 bs

-- `Registry`: the cell that holds the current catalog.
pub record Registry : Type 0 where
  pub inner : ActiveCatalog

unfoldable pub registry_load : Registry → ActiveCatalog
registry_load r = r.inner

-- The new registry, and the catalog that it held.
unfoldable pub registry_swap : Registry → ActiveCatalog → Registry × ActiveCatalog
registry_swap r next = (record { inner = next }, r.inner)

-- `PerConnectionCatalogLookup`, whose registry all connections share.
pub record ConnectionLookup : Type 0 where
  pub catalog : ActiveCatalog

-- `CatalogLookup::for_connection`
unfoldable pub for_connection : Registry → ConnectionLookup
unfolding registry_load
for_connection r = record { catalog = registry_load r }

unfoldable pub refresh : Registry → ConnectionLookup → ConnectionLookup
unfolding registry_load
refresh r c =
    if (registry_load r).generation == c.catalog.generation
    then c
    else record { catalog = registry_load r }

-- What a catalog answers for a key with a dataset prefix.
unfoldable pub answer : ActiveCatalog → Bytes → ServeError ⊎ LookupOutcome
unfolding split_prefix catalog_get is_utf8
answer catalog key = elim (split_prefix key) [
  | inl e ↦ inl e
  | inr (dataset, actual_key) ↦
      if is_utf8 dataset then catalog_get catalog dataset actual_key else inl invalid_dataset_name
]

-- `PerConnectionCatalogLookup::get`
unfoldable pub connection_get :
    Registry → ConnectionLookup → Bytes → (ServeError ⊎ LookupOutcome) × ConnectionLookup
unfolding refresh
connection_get r c key = let c' = refresh r c in (answer c'.catalog key, c')
