-- ===== src/Triggers/Variables/Expiry.antt =====
-- What a variable reads once time has passed.
use stonemite.Triggers.Variables.{
  VariableStore, keys_where, get, set, clear_key, clear_keys, expire,
}
use stonemite.Base.Text.{
  Text, same_text, same_text→≡, same_text_join, same_text_agree, same_text_refl, lowercase,
  eq_ignore_ascii_case, eq_ignore_ascii_case-lowercase,
}
use stonemite.Base.TextMap.{find, put, find-put, find-erase}
use stonemite.Base.{
  ℕ, ◌≡◌, refl, ap, ◌∙◌, Bool, true, false, not, is_some, ◌&&◌, ◌||◌, Option, none, some, List, [],
  ◌∷◌, leb, arith, if◌then◌else◌,
}

-- No key of a map stands again behind its entry.
unfoldable pub has_distinct_keys {ℓ} : {V : Type ℓ} → List (Text × V) → Bool
unfolding find
has_distinct_keys [] = true
has_distinct_keys ((key, value) ∷ rest) = not (is_some (find key rest)) && has_distinct_keys rest

abbrev has_key : Text → List Text → Bool
has_key key [] = false
has_key key (k ∷ ks) = same_text k key || has_key key ks

abbrev passes_at : {V : Type 0} → (V → Bool) → Option V → Bool
passes_at p none = false
passes_at p (some value) = p value

same_text→find :
    {V : Type 0} (a b : Text) (m : List (Text × V)) → same_text a b ≡ true → find a m ≡ find b m
same_text→find a b m h = ap (λ k. find k m) (same_text→≡ a b h)

same_text_sym : (a b : Text) → same_text b a ≡ true → same_text a b ≡ true
same_text_sym a b h = same_text_join a b a (same_text_refl a) h

has_key-keys_where :
    {V : Type 0} (p : V → Bool) (m : List (Text × V)) (key : Text)
    → has_distinct_keys m ≡ true
    → has_key key (keys_where p m) ≡ passes_at p (find key m)
unfolding keys_where find has_distinct_keys
has_key-keys_where p [] key h = refl
has_key-keys_where p ((at, value) ∷ rest) key h =
    ground
      (arith, same_text_agree at key, same_text→find at key rest, has_key-keys_where p rest key)

put-has_distinct_keys :
    {V : Type 0} (key : Text) (value : V) (m : List (Text × V))
    → has_distinct_keys m ≡ true
    → has_distinct_keys (put key value m) ≡ true
unfolding has_distinct_keys put find
put-has_distinct_keys key value [] h = refl
put-has_distinct_keys key value ((at, old) ∷ rest) h = ground (
  arith,
  put-has_distinct_keys key value rest,
  same_text→find at key rest,
  find-put key at value rest,
  same_text_sym at key,
)

module _ {F : Type 0} where
  get-clear_keys :
      (store : VariableStore F) (keys : List Text) (name : Text)
      → get (clear_keys store keys) name
        ≡ (if has_key (lowercase name) keys then none else get store name)
  unfolding clear_keys get clear_key
  get-clear_keys store [] name = refl
  get-clear_keys store (key ∷ keys) name =
      get-clear_keys (clear_key store key) keys name
      ∙ ground (arith, find-erase key (lowercase name) store.values)

  -- Variables whose time has come are gone, and the others read as before.
  get-expire :
      (store : VariableStore F) (now : ℕ) (name : Text)
      → has_distinct_keys store.expiry ≡ true
      → get (expire store now) name ≡ (
          if passes_at (λ at. leb at now) (find (lowercase name) store.expiry)
          then none
          else get store name)
  unfolding expire
  get-expire store now name h =
      get-clear_keys store (keys_where (λ at. leb at now) store.expiry) name
      ∙ rw (has_key-keys_where (λ at. leb at now) store.expiry (lowercase name) h) refl

  get-set :
      (store : VariableStore F) (name other value : Text) (at : ℕ)
      → get (set store name value (some at)) other
        ≡ (if eq_ignore_ascii_case name other then some value else get store other)
  unfolding set get
  get-set store name other value at =
      find-put (lowercase name) (lowercase other) value store.values
      ∙ rw (eq_ignore_ascii_case-lowercase name other) refl

  -- A variable that is set with an expiry at `at` reads its value until the next pass of `expire`, also
  -- when `at` has passed by then, whatever the case of the letters in its name. A pass before `at`
  -- leaves it, and a pass at `at` or later takes it away. Another variable reads after the pass as
  -- though this one had not been set. The map of the expiries holds no key twice.
  pub expire-set :
      (store : VariableStore F) (name value : Text) (at now : ℕ)
      → has_distinct_keys store.expiry ≡ true
      → (other : Text)
      → (get (set store name value (some at)) other
          ≡ (if eq_ignore_ascii_case name other then some value else get store other))
        × (get (expire (set store name value (some at)) now) other ≡ (
            if eq_ignore_ascii_case name other
            then (if leb at now then none else some value)
            else get (expire store now) other))
  unfolding set
  expire-set store name value at now h other = (
    get-set store name other value at,
    get-expire (set store name value (some at)) now other
          (put-has_distinct_keys (lowercase name) at store.expiry h)
        ∙ ground (
          arith,
          find-put (lowercase name) (lowercase other) at store.expiry,
          get-set store name other value at,
          eq_ignore_ascii_case-lowercase name other,
          get-expire store now other h,
        ),
  )
