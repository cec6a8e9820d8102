-- ===== src/Clients/Partition.antt =====
-- `debug_assert_partition`: the active client and the PiPs are distinct known clients.
pub mod Kept
use stonemite.Clients.{
  EqWindow, ClientRegistry, new, head?, without, without_head, remove, add, ensure_active,
  truncate_pips, replace_first, remove_first, give_place, exchange_active_with_pip, replace_last,
  demote, promote,
}
use stonemite.Base.{
  distinct, contains-append, distinct-append, ℕ, zero, suc, ◌+◌, ◌≤◌, ◌≡◌, ◌≢◌, refl, ◌⊎◌, inl, inr,
  Bool, true, false, not, ◌&&◌, ◌||◌, Option, none, some, List, [], ◌∷◌, ◌++◌, length, take, keep,
  any, contains, is_some, is_value, arith, leb, ltb, ◌==◌, if◌then◌else◌,
}

abbrev pub knows : List EqWindow → ℕ → Bool
knows windows pid = any (λ w. w.pid == pid) windows

abbrev pub all_known : List EqWindow → List ℕ → Bool
all_known windows [] = true
all_known windows (x ∷ xs) = knows windows x && all_known windows xs

abbrev pub active_known : List EqWindow → Option ℕ → Bool
active_known windows none = true
active_known windows (some pid) = knows windows pid

abbrev pub is_apart : Option ℕ → List ℕ → Bool
is_apart none pips = true
is_apart (some pid) pips = not (contains pid pips)

abbrev pub separates : List EqWindow → Option ℕ → List ℕ → Bool
separates windows active pips =
    distinct pips && all_known windows pips && active_known windows active && is_apart active pips

abbrev pub is_partition : ClientRegistry → Bool
is_partition r = separates r.windows r.active_pid r.pip_order

pub contains-without :
    (x y : ℕ) (xs : List ℕ) → contains x (without y xs) ≡ (contains x xs && not (x == y))
contains-without x y [] = refl
contains-without x y (z ∷ xs) = ground (arith, contains-without x y xs)

pub contains-take : (n x : ℕ) (xs : List ℕ) → contains x xs ≡ false → contains x (take n xs) ≡ false
contains-take zero x xs h = refl
contains-take (suc n) x [] h = refl
contains-take (suc n) x (y ∷ xs) h = ground (arith, contains-take n x xs)

pub distinct-without : (y : ℕ) (xs : List ℕ) → distinct xs ≡ true → distinct (without y xs) ≡ true
distinct-without y [] h = refl
distinct-without y (x ∷ xs) h = ground (arith, distinct-without y xs, contains-without x y xs)

pub distinct-take : (n : ℕ) (xs : List ℕ) → distinct xs ≡ true → distinct (take n xs) ≡ true
distinct-take zero xs h = refl
distinct-take (suc n) [] h = refl
distinct-take (suc n) (x ∷ xs) h = ground (arith, distinct-take n xs, contains-take n x xs)

-- The clients that a list names are among those that the other knows.
pub known-append :
    (ws : List EqWindow) (w : EqWindow) (x : ℕ)
    → knows (ws ++ w ∷ []) x ≡ (knows ws x || w.pid == x)
known-append [] w x = ground arith
known-append (v ∷ ws) w x = ground (arith, known-append ws w x)

pub known-keep :
    (pid x : ℕ) (ws : List EqWindow)
    → knows (keep (λ w. not (w.pid == pid)) ws) x ≡ (knows ws x && not (x == pid))
known-keep pid x [] = refl
known-keep pid x (w ∷ ws) = ground (arith, known-keep pid x ws)

pub all_known-append :
    (ws : List EqWindow) (y : ℕ) (xs : List ℕ)
    → all_known ws (xs ++ y ∷ []) ≡ (all_known ws xs && knows ws y)
all_known-append ws y [] = ground arith
all_known-append ws y (x ∷ xs) = ground (arith, all_known-append ws y xs)

pub all_known-grow :
    (ws : List EqWindow) (w : EqWindow) (xs : List ℕ)
    → all_known ws xs ≡ true
    → all_known (ws ++ w ∷ []) xs ≡ true
all_known-grow ws w [] h = refl
all_known-grow ws w (x ∷ xs) h = ground (arith, all_known-grow ws w xs, known-append ws w x)

pub all_known-without :
    (ws : List EqWindow) (y : ℕ) (xs : List ℕ)
    → all_known ws xs ≡ true
    → all_known ws (without y xs) ≡ true
all_known-without ws y [] h = refl
all_known-without ws y (x ∷ xs) h = ground (arith, all_known-without ws y xs)

pub all_known-keep :
    (pid : ℕ) (ws : List EqWindow) (xs : List ℕ)
    → all_known ws xs ≡ true
    → all_known (keep (λ w. not (w.pid == pid)) ws) (without pid xs) ≡ true
all_known-keep pid ws [] h = refl
all_known-keep pid ws (x ∷ xs) h = ground (arith, all_known-keep pid ws xs, known-keep pid x ws)

pub all_known-take :
    (n : ℕ) (ws : List EqWindow) (xs : List ℕ)
    → all_known ws xs ≡ true
    → all_known ws (take n xs) ≡ true
all_known-take zero ws xs h = refl
all_known-take (suc n) ws [] h = refl
all_known-take (suc n) ws (x ∷ xs) h = ground (arith, all_known-take n ws xs)

pub all_known-contains :
    (ws : List EqWindow) (x : ℕ) (xs : List ℕ)
    → all_known ws xs ≡ true
    → contains x xs ≡ true
    → knows ws x ≡ true
all_known-contains ws x [] h c = cc
all_known-contains ws x (y ∷ xs) h c = ground (arith, all_known-contains ws x xs)

pub contains-remove_first :
    (x t : ℕ) (xs : List ℕ)
    → distinct xs ≡ true
    → contains x (remove_first t xs) ≡ (contains x xs && not (x == t))
unfolding remove_first
contains-remove_first x t [] h = refl
contains-remove_first x t (y ∷ xs) h = ground (arith, contains-remove_first x t xs)

pub distinct-remove_first :
    (t : ℕ) (xs : List ℕ) → distinct xs ≡ true → distinct (remove_first t xs) ≡ true
unfolding remove_first
distinct-remove_first t [] h = refl
distinct-remove_first t (x ∷ xs) h =
    ground (arith, distinct-remove_first t xs, contains-remove_first x t xs)

pub contains-replace_first :
    (x t old : ℕ) (xs : List ℕ)
    → distinct xs ≡ true
    → contains t xs ≡ true
    → contains x (replace_first t old xs) ≡ (contains x xs && not (x == t) || old == x)
unfolding replace_first
contains-replace_first x t old [] h c = cc
contains-replace_first x t old (y ∷ xs) h c = ground (arith, contains-replace_first x t old xs)

absent-replace_first :
    (x t old : ℕ) (xs : List ℕ)
    → contains x xs ≡ false
    → (old == x) ≡ false
    → contains x (replace_first t old xs) ≡ false
unfolding replace_first
absent-replace_first x t old [] h c = refl
absent-replace_first x t old (y ∷ xs) h c = ground (arith, absent-replace_first x t old xs)

pub distinct-replace_first :
    (t old : ℕ) (xs : List ℕ)
    → distinct xs ≡ true
    → contains old xs ≡ false
    → distinct (replace_first t old xs) ≡ true
unfolding replace_first
distinct-replace_first t old [] h c = refl
distinct-replace_first t old (x ∷ xs) h c =
    ground (arith, distinct-replace_first t old xs, absent-replace_first x t old xs)

pub all_known-remove_first :
    (ws : List EqWindow) (t : ℕ) (xs : List ℕ)
    → all_known ws xs ≡ true
    → all_known ws (remove_first t xs) ≡ true
unfolding remove_first
all_known-remove_first ws t [] h = refl
all_known-remove_first ws t (x ∷ xs) h = ground (arith, all_known-remove_first ws t xs)

pub all_known-replace_first :
    (ws : List EqWindow) (t old : ℕ) (xs : List ℕ)
    → all_known ws xs ≡ true
    → knows ws old ≡ true
    → all_known ws (replace_first t old xs) ≡ true
unfolding replace_first
all_known-replace_first ws t old [] h k = refl
all_known-replace_first ws t old (x ∷ xs) h k = ground (arith, all_known-replace_first ws t old xs)
