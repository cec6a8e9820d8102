-- ===== src/Clients/Tests.antt =====
-- The theorems of the registry at concrete clients.
use stonemite.Clients.{EqWindow, ClientRegistry, new, add, promote}
use stonemite.Clients.Partition.{knows, is_partition}
use stonemite.Clients.Partition.Kept.{Reachable, started, added, promoted, Reachable-is_partition}
use stonemite.Clients.Numbers.{number_of, exchange_window_numbers, exchange_window_numbers_lem}
use stonemite.Base.{◌∷◌, List, ◌==◌, some, if◌then◌else◌, [], ℕ, ◌≡◌, refl, true, false, none}

abbrev window : ℕ → EqWindow
window pid = record { pid = pid; number = pid; server = none; character = none; class = none }

-- Two clients are found, and the second is promoted.
abbrev two : ClientRegistry
two = add (add (new [] []) (window 1) true) (window 2) true

none_known : knows (new [] []).windows 1 ≡ false
unfolding new
none_known = refl

second_is_unknown : knows (add (new [] []) (window 1) true).windows 2 ≡ false
unfolding new add
second_is_unknown = refl

two-Reachable : Reachable two
two-Reachable =
    added (add (new [] []) (window 1) true) (window 2) true
      (added (new [] []) (window 1) true (started [] []) none_known) second_is_unknown

Reachable-is_partition_example : is_partition (promote two 2 5).0 ≡ true
Reachable-is_partition_example =
    Reachable-is_partition (promote two 2 5).0 (promoted two 2 5 two-Reachable)

abbrev three_windows : List EqWindow
three_windows = window 1 ∷ window 2 ∷ window 3 ∷ []

exchange_window_numbers_lem_example :
    (t : List EqWindow) × (exchange_window_numbers three_windows 1 3 ≡ some (t, (1, 3)))
    × (number_of 3 t
        ≡ (if 3 == 3 then some 1 else if 1 == 3 then some 3 else number_of 3 three_windows))
unfolding number_of
exchange_window_numbers_lem_example = exchange_window_numbers_lem three_windows 1 3 1 3 3 refl refl
