-- ===== src/Clients.antt =====
-- crates/stonemite/src/overlay/clients.rs: which client is active, which are PiPs, and the cycles.
-- Process ids are numbers, names are texts; handles of windows are left out.
pub mod Partition
pub mod Identity
pub mod Numbers
mod Tests
use stonemite.Base.Text.{Text, eq_ignore_ascii_case}
use stonemite.Base.Dict
use stonemite.Base.{
  ℕ, zero, suc, ◌+◌, ◌-◌, ◌%◌, Bool, true, false, not, ◌&&◌, ◌||◌, Option, none, some, List, [],
  ◌∷◌, ◌++◌, length, get_elem?, take, keep, any, contains, is_some, is_value, leb, ltb, ◌==◌,
  if◌then◌else◌,
}

pub record EqWindow : Type 0 where
  pub pid : ℕ
  pub number : ℕ
  pub server : Option Text
  pub character : Option Text
  pub class : Option Text

-- `config::BoxIdentity`.
pub record BoxIdentity : Type 0 where
  pub box_server : Text
  pub box_character : Text

unfoldable pub matches : BoxIdentity → Text → Text → Bool
matches b server character =
    eq_ignore_ascii_case b.box_server server && eq_ignore_ascii_case b.box_character character

-- `config::BoxCycle`, without its name and hotkeys.
pub record BoxCycle : Type 0 where
  pub members : List BoxIdentity

pub record ClientRegistry : Type 0 where
  pub windows : List EqWindow
  pub pip_order : List ℕ
  pub preferred_order : List BoxIdentity
  pub box_cycles : List BoxCycle
  pub active_pid : Option ℕ
  pub observed_identities : List (ℕ × (Text × Text))

unfoldable pub new : List BoxIdentity → List BoxCycle → ClientRegistry
new preferred_order box_cycles = record {
  windows = [];
  pip_order = [];
  preferred_order = preferred_order;
  box_cycles = box_cycles;
  active_pid = none;
  observed_identities = [];
}

abbrev pub head? {ℓ} : {A : Type ℓ} → List A → Option A
head? [] = none
head? (x ∷ xs) = some x

abbrev pub without : ℕ → List ℕ → List ℕ
without pid = keep (λ pip. not (pip == pid))

-- `self.pip_order.retain(|pip| *pip != promoted)` if there is one.
abbrev pub without_head : Option ℕ → List ℕ → List ℕ
without_head none pips = pips
without_head (some promoted) pips = without promoted pips

unfoldable pub remove : ClientRegistry → ℕ → ClientRegistry
unfolding Dict.remove
remove r pid =
    let pips = without pid r.pip_order in
    let lost = is_value r.active_pid pid in
    record r {
      windows = keep (λ w. not (w.pid == pid)) r.windows;
      observed_identities = Dict.remove pid r.observed_identities;
      active_pid = if lost then head? pips else r.active_pid;
      pip_order = if lost then without_head (head? pips) pips else pips;
    }

unfoldable pub add : ClientRegistry → EqWindow → Bool → ClientRegistry
add r window prefer_active =
    let seen : ClientRegistry = record r { windows = r.windows ++ window ∷ [] } in
    if not (is_some r.active_pid) && prefer_active
    then record seen { active_pid = some window.pid }
    else record seen { pip_order = r.pip_order ++ window.pid ∷ [] }

unfoldable pub ensure_active : ClientRegistry → ClientRegistry
ensure_active r = if is_some r.active_pid then r else record r {
  active_pid = head? r.pip_order;
  pip_order = without_head (head? r.pip_order) r.pip_order;
}

unfoldable pub truncate_pips : ClientRegistry → ℕ → ClientRegistry
truncate_pips r maximum = record r { pip_order = take maximum r.pip_order }

-- `pip_order[position] = old`, at the first position that holds `target`.
unfoldable pub replace_first : ℕ → ℕ → List ℕ → List ℕ
replace_first target old [] = []
replace_first target old (x ∷ xs) =
    if x == target then old ∷ xs else x ∷ replace_first target old xs

unfoldable pub remove_first : ℕ → List ℕ → List ℕ
remove_first target [] = []
remove_first target (x ∷ xs) = if x == target then xs else x ∷ remove_first target xs

abbrev pub give_place : Option ℕ → ℕ → List ℕ → List ℕ
give_place none target pips = remove_first target pips
give_place (some old) target pips = replace_first target old pips

-- The active client and the PiPs, and whether they changed.
unfoldable pub exchange_active_with_pip : ClientRegistry → ℕ → ClientRegistry × Bool
exchange_active_with_pip r target_pid =
    if is_value r.active_pid target_pid || not (contains target_pid r.pip_order)
    then (r, false)
    else (
      record r {
        active_pid = some target_pid;
        pip_order = give_place r.active_pid target_pid r.pip_order;
      },
      true,
    )

-- `self.pip_order[max_pips - 1] = previous`, and `truncate(max_pips)`.
unfoldable pub replace_last : ℕ → ℕ → List ℕ → List ℕ
replace_last zero old pips = pips
replace_last (suc n) old pips = take n pips ++ old ∷ []

abbrev pub demote : Option ℕ → ℕ → List ℕ → List ℕ
demote none max_pips pips = pips
demote (some old) max_pips pips =
    if ltb (length pips) max_pips
    then pips ++ old ∷ []
    else if ltb 0 max_pips
    then replace_last max_pips old pips
    else pips

unfoldable pub promote : ClientRegistry → ℕ → ℕ → ClientRegistry × Bool
promote r target_pid max_pips =
    if (exchange_active_with_pip r target_pid).1
    then exchange_active_with_pip r target_pid
    else if is_value r.active_pid target_pid || not (any (λ w. w.pid == target_pid) r.windows)
    then (r, false)
    else (
      record r {
        active_pid = some target_pid;
        pip_order = demote r.active_pid max_pips r.pip_order;
      },
      true,
    )

unfoldable pub set_at : List ℕ → ℕ → ℕ → List ℕ
set_at [] i v = []
set_at (x ∷ xs) zero v = v ∷ xs
set_at (x ∷ xs) (suc i) v = x ∷ set_at xs i v

abbrev pub swapped : List ℕ → ℕ → ℕ → Option ℕ → Option ℕ → List ℕ
swapped pips first second (some a) (some b) = set_at (set_at pips first b) second a
swapped pips first second a b = pips

unfoldable pub swap_pips : ClientRegistry → ℕ → ℕ → ClientRegistry × Bool
unfolding set_at
swap_pips r first second =
    if leb (length r.pip_order) first || leb (length r.pip_order) second then (r, false) else (
      record r {
        pip_order =
            swapped r.pip_order first second (get_elem? r.pip_order first)
              (get_elem? r.pip_order second);
      },
      true,
    )
