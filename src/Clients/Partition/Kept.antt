-- ===== src/Clients/Partition/Kept.antt =====
-- The operations of the registry, and the partition.
use stonemite.Clients.{
  EqWindow, BoxIdentity, BoxCycle, ClientRegistry, new, head?, without, without_head, remove, add,
  ensure_active, truncate_pips, give_place, exchange_active_with_pip, replace_last, demote, promote,
}
use stonemite.Clients.Partition.{
  knows, all_known, separates, is_partition, contains-without, contains-take, distinct-without,
  distinct-take, known-append, known-keep, all_known-append, all_known-grow, all_known-without,
  all_known-keep, all_known-take, all_known-contains, contains-remove_first, distinct-remove_first,
  contains-replace_first, distinct-replace_first, all_known-remove_first, all_known-replace_first,
}
use stonemite.Base.{
  distinct, contains-append, distinct-append, ℕ, zero, suc, ◌≡◌, refl, Bool, true, false, not, ◌&&◌,
  Option, none, some, List, [], ◌∷◌, ◌++◌, take, keep, contains, is_value, arith, ◌==◌,
  if◌then◌else◌,
}

head-separates :
    (ws : List EqWindow) (pips : List ℕ)
    → distinct pips ≡ true
    → all_known ws pips ≡ true
    → separates ws (head? pips) (without_head (head? pips) pips) ≡ true
head-separates ws [] d k = refl
head-separates ws (x ∷ xs) d k =
    ground (arith, distinct-without x xs, contains-without x x xs, all_known-without ws x xs)

remove-separates :
    (ws : List EqWindow) (active : Option ℕ) (pips : List ℕ) (pid : ℕ)
    → separates ws active pips ≡ true
    → separates
        (keep (λ w. not (w.pid == pid)) ws)
        (if is_value active pid then head? (without pid pips) else active)
        (if is_value active pid
          then without_head (head? (without pid pips)) (without pid pips)
          else without pid pips)
      ≡ true
remove-separates ws none pips pid h =
    ground (arith, distinct-without pid pips, all_known-keep pid ws pips)
remove-separates ws (some a) pips pid h = ground (
  arith,
  distinct-without pid pips,
  all_known-keep pid ws pips,
  head-separates (keep (λ w. not (w.pid == pid)) ws) (without pid pips),
  contains-without a pid pips,
  known-keep pid a ws,
)

remove-is_partition :
    (r : ClientRegistry) (pid : ℕ) → is_partition r ≡ true → is_partition (remove r pid) ≡ true
unfolding remove
remove-is_partition r pid h = remove-separates r.windows r.active_pid r.pip_order pid h

add-separates :
    (ws : List EqWindow) (w : EqWindow) (active : Option ℕ) (pips : List ℕ)
    → separates ws active pips ≡ true
    → knows ws w.pid ≡ false
    → separates (ws ++ w ∷ []) active (pips ++ w.pid ∷ []) ≡ true
add-separates ws w none pips h fresh = ground (
  arith,
  distinct-append w.pid pips,
  all_known-append (ws ++ w ∷ []) w.pid pips,
  all_known-grow ws w pips,
  known-append ws w w.pid,
  all_known-contains ws w.pid pips,
)
add-separates ws w (some a) pips h fresh = ground (
  arith,
  distinct-append w.pid pips,
  all_known-append (ws ++ w ∷ []) w.pid pips,
  all_known-grow ws w pips,
  known-append ws w w.pid,
  all_known-contains ws w.pid pips,
  known-append ws w a,
  contains-append a w.pid pips,
)

prefer-separates :
    (ws : List EqWindow) (w : EqWindow) (active : Option ℕ) (pips : List ℕ)
    → separates ws active pips ≡ true
    → knows ws w.pid ≡ false
    → separates (ws ++ w ∷ []) (some w.pid) pips ≡ true
prefer-separates ws w active pips h fresh =
    ground
      (arith, all_known-grow ws w pips, known-append ws w w.pid, all_known-contains ws w.pid pips)

add-is_partition :
    (r : ClientRegistry) (w : EqWindow) (prefer : Bool)
    → is_partition r ≡ true
    → knows r.windows w.pid ≡ false
    → is_partition (add r w prefer) ≡ true
unfolding add
add-is_partition r w prefer h fresh = ground (
  arith,
  add-separates r.windows w r.active_pid r.pip_order,
  prefer-separates r.windows w r.active_pid r.pip_order,
)

ensure_active-is_partition :
    (r : ClientRegistry) → is_partition r ≡ true → is_partition (ensure_active r) ≡ true
unfolding ensure_active
ensure_active-is_partition r h = ground (arith, head-separates r.windows r.pip_order)

truncate-separates :
    (ws : List EqWindow) (active : Option ℕ) (pips : List ℕ) (n : ℕ)
    → separates ws active pips ≡ true
    → separates ws active (take n pips) ≡ true
truncate-separates ws none pips n h = ground (arith, distinct-take n pips, all_known-take n ws pips)
truncate-separates ws (some a) pips n h =
    ground (arith, distinct-take n pips, all_known-take n ws pips, contains-take n a pips)

truncate_pips-is_partition :
    (r : ClientRegistry) (n : ℕ) → is_partition r ≡ true → is_partition (truncate_pips r n) ≡ true
unfolding truncate_pips
truncate_pips-is_partition r n h = truncate-separates r.windows r.active_pid r.pip_order n h

exchange-separates :
    (ws : List EqWindow) (active : Option ℕ) (pips : List ℕ) (pid : ℕ)
    → separates ws active pips ≡ true
    → contains pid pips ≡ true
    → is_value active pid ≡ false
    → separates ws (some pid) (give_place active pid pips) ≡ true
exchange-separates ws none pips pid h c other = ground (
  arith,
  distinct-remove_first pid pips,
  all_known-remove_first ws pid pips,
  contains-remove_first pid pid pips,
  all_known-contains ws pid pips,
)
exchange-separates ws (some a) pips pid h c other = ground (
  arith,
  distinct-replace_first pid a pips,
  all_known-replace_first ws pid a pips,
  contains-replace_first pid pid a pips,
  all_known-contains ws pid pips,
)

exchange-is_partition :
    (r : ClientRegistry) (pid : ℕ)
    → is_partition r ≡ true
    → is_partition (exchange_active_with_pip r pid).0 ≡ true
unfolding exchange_active_with_pip
exchange-is_partition r pid h =
    ground (arith, exchange-separates r.windows r.active_pid r.pip_order pid)

append-separates :
    (ws : List EqWindow) (a : ℕ) (pips : List ℕ) (pid : ℕ)
    → separates ws (some a) pips ≡ true
    → contains pid pips ≡ false
    → (a == pid) ≡ false
    → knows ws pid ≡ true
    → separates ws (some pid) (pips ++ a ∷ []) ≡ true
append-separates ws a pips pid h c other k =
    ground (arith, distinct-append a pips, all_known-append ws a pips, contains-append pid a pips)

last-separates :
    (ws : List EqWindow) (a : ℕ) (pips : List ℕ) (pid n : ℕ)
    → separates ws (some a) pips ≡ true
    → contains pid pips ≡ false
    → (a == pid) ≡ false
    → knows ws pid ≡ true
    → separates ws (some pid) (replace_last n a pips) ≡ true
unfolding replace_last
last-separates ws a pips pid zero h c other k = ground arith
last-separates ws a pips pid (suc n) h c other k = ground (
  arith,
  append-separates ws a (take n pips) pid,
  truncate-separates ws (some a) pips n,
  contains-take n pid pips,
)

demote-separates :
    (ws : List EqWindow) (active : Option ℕ) (pips : List ℕ) (pid n : ℕ)
    → separates ws active pips ≡ true
    → contains pid pips ≡ false
    → is_value active pid ≡ false
    → knows ws pid ≡ true
    → separates ws (some pid) (demote active n pips) ≡ true
demote-separates ws none pips pid n h c other k = ground arith
demote-separates ws (some a) pips pid n h c other k =
    ground (arith, append-separates ws a pips pid, last-separates ws a pips pid n)

exchange-moved :
    (r : ClientRegistry) (pid : ℕ)
    → (exchange_active_with_pip r pid).1
      ≡ (not (is_value r.active_pid pid) && contains pid r.pip_order)
unfolding exchange_active_with_pip
exchange-moved r pid = ground arith

promote-is_partition :
    (r : ClientRegistry) (pid n : ℕ)
    → is_partition r ≡ true
    → is_partition (promote r pid n).0 ≡ true
unfolding promote
promote-is_partition r pid n h = ground (
  arith,
  exchange-is_partition r pid,
  exchange-moved r pid,
  demote-separates r.windows r.active_pid r.pip_order pid n,
)

-- What the registry becomes, starting empty, by its operations.
pub data Reachable : ClientRegistry → Type 0 where
  started :
      (preferred_order : List BoxIdentity) (box_cycles : List BoxCycle)
      → Reachable (new preferred_order box_cycles)
  added :
      (r : ClientRegistry) (w : EqWindow) (prefer : Bool)
      → Reachable r
      → knows r.windows w.pid ≡ false
      → Reachable (add r w prefer)
  removed : (r : ClientRegistry) (pid : ℕ) → Reachable r → Reachable (remove r pid)
  ensured : (r : ClientRegistry) → Reachable r → Reachable (ensure_active r)
  truncated : (r : ClientRegistry) (n : ℕ) → Reachable r → Reachable (truncate_pips r n)
  exchanged :
      (r : ClientRegistry) (pid : ℕ) → Reachable r → Reachable (exchange_active_with_pip r pid).0
  promoted : (r : ClientRegistry) (pid n : ℕ) → Reachable r → Reachable (promote r pid n).0

-- A registry that starts empty and has only ever added a client of a process id it did not know,
-- removed one, ensured an active one, truncated its PiPs, exchanged the active client with a PiP
-- and promoted a client has distinct PiPs, the active client is not one of them, and it knows all of them.
pub Reachable-is_partition : (r : ClientRegistry) → Reachable r → is_partition r ≡ true
unfolding new
Reachable-is_partition _ (started preferred_order box_cycles) = refl
Reachable-is_partition _ (added r w p h fresh) =
    add-is_partition r w p (Reachable-is_partition r h) fresh
Reachable-is_partition _ (removed r pid h) = remove-is_partition r pid (Reachable-is_partition r h)
Reachable-is_partition _ (ensured r h) = ensure_active-is_partition r (Reachable-is_partition r h)
Reachable-is_partition _ (truncated r n h) =
    truncate_pips-is_partition r n (Reachable-is_partition r h)
Reachable-is_partition _ (exchanged r pid h) =
    exchange-is_partition r pid (Reachable-is_partition r h)
Reachable-is_partition _ (promoted r pid n h) =
    promote-is_partition r pid n (Reachable-is_partition r h)
