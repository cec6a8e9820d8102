-- ===== src/Triggers/Variables.antt =====
-- `VariableStore`: variables with their counters and the times at which they expire.
pub mod Expiry
use stonemite.Triggers.{MatchMap}
use stonemite.Base.Text.{Text, eq_ignore_ascii_case, lowercase}
use stonemite.Base.TextMap.{find, erase, put}
use stonemite.Base.{ℕ, Bool, true, false, Option, none, some, List, [], ◌∷◌, leb, if◌then◌else◌}

pub record VariableStore (F : Type 0) : Type 0 where
  pub values : List (Text × Text)
  pub counters : List (Text × F)
  pub expiry : List (Text × ℕ)

-- The keys of the entries whose value passes the test.
unfoldable pub keys_where : {V : Type 0} → (V → Bool) → List (Text × V) → List Text
keys_where p [] = []
keys_where p ((key, value) ∷ rest) = if p value then key ∷ keys_where p rest else keys_where p rest

-- `MatchMap.get`.
unfoldable pub get_match : MatchMap → Text → Option Text
unfolding eq_ignore_ascii_case
get_match [] name = none
get_match ((key, value) ∷ rest) name =
    if eq_ignore_ascii_case key name then some value else get_match rest name

module _ {F : Type 0} where
  unfoldable pub empty_store : VariableStore F
  empty_store = record { values = []; counters = []; expiry = [] }

  unfoldable pub get : VariableStore F → Text → Option Text
  unfolding lowercase find
  get store name = find (lowercase name) store.values

  unfoldable pub set : VariableStore F → Text → Text → Option ℕ → VariableStore F
  unfolding lowercase put erase
  set store name value none = record store {
    values = put (lowercase name) value store.values;
    expiry = erase (lowercase name) store.expiry;
  }
  set store name value (some at) = record store {
    values = put (lowercase name) value store.values;
    expiry = put (lowercase name) at store.expiry;
  }

  unfoldable pub clear_key : VariableStore F → Text → VariableStore F
  unfolding erase
  clear_key store key = record {
    values = erase key store.values;
    counters = erase key store.counters;
    expiry = erase key store.expiry;
  }

  unfoldable pub clear : VariableStore F → Text → VariableStore F
  unfolding clear_key lowercase
  clear store name = clear_key store (lowercase name)

  unfoldable pub clear_keys : VariableStore F → List Text → VariableStore F
  unfolding clear_key
  clear_keys store [] = store
  clear_keys store (key ∷ keys) = clear_keys (clear_key store key) keys

  unfoldable pub expire : VariableStore F → ℕ → VariableStore F
  unfolding clear_keys keys_where
  expire store now = clear_keys store (keys_where (λ at. leb at now) store.expiry)

  -- `as_match_map` copies the values. Their keys are in lower case, so no two of them collide.
  abbrev pub as_match_map : VariableStore F → MatchMap
  as_match_map store = store.values
