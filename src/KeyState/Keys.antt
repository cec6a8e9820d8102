-- ===== src/KeyState/Keys.antt =====
-- The key levels of the two owners: the controller's writes, the seqlock, and the reads of both.
pub mod Edges
pub mod Effective
use stonemite.KeyState.State.{
  SharedKeyState, key_count, u32_mod, wrapping_add, is_high, controller_keyboard_is_active,
  heartbeat_is_fresh, mouse_is_active,
}
use stonemite.KeyState.Ring.{Transition, publish_controller_event}
use stonemite.KeyState.Lease.{
  lease_generation, lease_heartbeat, auto_key_is_pressed, auto_type_is_fresh,
}
use stonemite.Base.Arrays.{Array, store}
use stonemite.Base.{
  ℕ, zero, suc, ◌+◌, ◌%◌, Bool, true, false, not, ◌&&◌, ◌||◌, Option, none, some, List, [], ◌∷◌,
  leb, ltb, ◌==◌, if◌then◌else◌,
}

-- `none` means that the loop spins: the sequence is odd, and only another owner could change that.
unfoldable pub lock_sequence : ℕ → Option ℕ
lock_sequence sequence = if sequence % 2 == 0 then some (wrapping_add sequence 1) else none

unfoldable pub unlock_sequence : SharedKeyState → SharedKeyState
unlock_sequence s = record s { controller_sequence = wrapping_add s.controller_sequence 1 }

-- The body of `write_controller_key` between the lock and the unlock.
unfoldable pub write_level : SharedKeyState → ℕ → Bool → SharedKeyState
write_level s scan pressed =
    if is_high (s.controller_keys scan) && pressed
      || not (is_high (s.controller_keys scan)) && not pressed
    then s
    else publish_controller_event
        (record s { controller_keys = store s.controller_keys scan (if pressed then 128 else 0) })
        (record { scan = scan; pressed = pressed })

abbrev pub locked : SharedKeyState → (SharedKeyState → SharedKeyState) → Option SharedKeyState
locked s body = elim (lock_sequence s.controller_sequence) [
  | none ↦ none
  | some sequence ↦ some (unlock_sequence (body (record s { controller_sequence = sequence })))
]

-- `write_controller_key`; `none` as for the lock.
unfoldable pub set_controller_key : SharedKeyState → ℕ → ℕ → Option SharedKeyState
unfolding lock_sequence
set_controller_key s scan value =
    if leb key_count scan then some s else locked s (λ t. write_level t scan (is_high value))

-- `for (scan, key) in keys.iter().enumerate()`, with `n` keys to go.
unfoldable pub clear_loop : ℕ → ℕ → SharedKeyState → SharedKeyState
clear_loop zero scan s = s
clear_loop (suc n) scan s = clear_loop n (suc scan) (
    if is_high (s.controller_keys scan)
    then publish_controller_event (record s { controller_keys = store s.controller_keys scan 0 })
        (record { scan = scan; pressed = false })
    else s)

unfoldable pub clear_controller_keys : SharedKeyState → Option SharedKeyState
unfolding lock_sequence
clear_controller_keys s = locked s (clear_loop key_count 0)

-- `reset_keys`, in which nothing waits for the lock.
unfoldable pub reset_keys : SharedKeyState → SharedKeyState
reset_keys s = record s {
  controller_sequence = 2;
  controller_keys = λ scan. if ltb scan key_count then 0 else s.controller_keys scan;
}

unfoldable pub retire_controller : SharedKeyState → SharedKeyState
unfolding reset_keys
retire_controller s = reset_keys (record s {
  controller_keyboard_active = 0;
  controller_mouse_active = 0;
  suppress = 0;
  controller_heartbeat_ms = 0;
})

unfoldable pub auto_key_counts : SharedKeyState → ℕ → ℕ → Bool
auto_key_counts s scan now_ms =
    not (lease_generation s.auto_type_lease == 0)
    && heartbeat_is_fresh (lease_heartbeat s.auto_type_lease) now_ms
    && auto_key_is_pressed (s.auto_type_keys scan) (lease_generation s.auto_type_lease)

unfoldable pub key_is_pressed : SharedKeyState → ℕ → ℕ → Bool
unfolding auto_key_counts
key_is_pressed s scan now_ms =
    controller_keyboard_is_active s now_ms && is_high (s.controller_keys scan)
    || auto_key_counts s scan now_ms

-- What one try of `read_consistent` sees: the sequence before, the bytes, the sequence after.
pub record Look : Type 0 where
  pub before : ℕ
  pub bytes : Array
  pub after : ℕ

-- A try for each look, and the copy behind the loop if none of them is consistent.
unfoldable pub read_consistent : List Look → Array → Array
read_consistent [] fallback = fallback
read_consistent (l ∷ ls) fallback =
    let again = read_consistent ls fallback in
    if l.before % 2 == 1
    then again
    else if l.before == l.after && l.after % 2 == 0
    then l.bytes
    else again

-- `*output |= *key & 0x80`, for bytes.
unfoldable pub merge_keys : Array → Array → Array
merge_keys output keys scan =
    if is_high (keys scan) && not (is_high (output scan)) then output scan + 128 else output scan

-- `*output |= 0x80` for each key that the auto-type owner holds.
unfoldable pub merge_auto_keys : Array → Array → ℕ → Array
merge_auto_keys output keys generation scan =
    if auto_key_is_pressed (keys scan) generation && not (is_high (output scan))
    then output scan + 128
    else output scan

-- What a reader sees while it runs: the state at its first loads, what the controller's buffer
-- shows to each of the two snapshots, and the lease that is read again at the end.
pub record View : Type 0 where
  pub state : SharedKeyState
  pub looks : List Look
  pub fallback : Array
  pub lease_after : ℕ
  pub looks_after : List Look
  pub fallback_after : Array

-- `controller_active` decides, and the snapshot is merged into zeros.
unfoldable pub controller_part : Bool → List Look → Array → Array
unfolding read_consistent merge_keys
controller_part controller_active looks fallback =
    if controller_active then merge_keys (λ _. 0) (read_consistent looks fallback) else (λ _. 0)

unfoldable pub auto_lease_is_active : ℕ → ℕ → Bool
auto_lease_is_active lease now_ms =
    not (lease_generation lease == 0) && heartbeat_is_fresh (lease_heartbeat lease) now_ms

-- The buffer that is materialised, and the result.
unfoldable pub read_effective_keys : View → ℕ → Array × Bool
unfolding controller_part merge_auto_keys auto_lease_is_active
read_effective_keys v now_ms =
    let s = v.state in
    let controller_active = controller_keyboard_is_active s now_ms in
    let generation = lease_generation s.auto_type_lease in
    let auto_type_active = auto_lease_is_active s.auto_type_lease now_ms in
    let first = controller_part controller_active v.looks v.fallback in
    let output : Array =
      if auto_type_active
      then if lease_generation v.lease_after == generation
        then merge_auto_keys first s.auto_type_keys generation
        else controller_part controller_active v.looks_after v.fallback_after
      else first in
    (output, controller_active || auto_type_active)

-- `read_auto_type_keys`, with the lease that is read again at the end.
unfoldable pub read_auto_type_keys : SharedKeyState → ℕ → ℕ → Array × Bool
unfolding auto_lease_is_active
read_auto_type_keys s lease_after now_ms =
    let generation = lease_generation s.auto_type_lease in
    let output : Array =
      λ scan. if auto_key_is_pressed (s.auto_type_keys scan) generation then 128 else 0 in
    if auto_lease_is_active s.auto_type_lease now_ms
    then if lease_generation lease_after == generation then (output, true) else ((λ _. 0), false)
    else ((λ _. 0), false)

-- What a reader sees of a state that nobody changes meanwhile: eight equal looks.
unfoldable pub quiet : SharedKeyState → View
quiet s =
    let look : Look = record {
      before = s.controller_sequence;
      bytes = s.controller_keys;
      after = s.controller_sequence;
    } in
    let looks = look ∷ look ∷ look ∷ look ∷ look ∷ look ∷ look ∷ look ∷ [] in
    record {
      state = s;
      looks = looks;
      fallback = s.controller_keys;
      lease_after = s.auto_type_lease;
      looks_after = looks;
      fallback_after = s.controller_keys;
    }

unfoldable pub keyboard_is_active : SharedKeyState → ℕ → Bool
unfolding auto_type_is_fresh
keyboard_is_active s now_ms = controller_keyboard_is_active s now_ms || auto_type_is_fresh s now_ms

unfoldable pub is_active : SharedKeyState → ℕ → Bool
unfolding keyboard_is_active
is_active s now_ms = keyboard_is_active s now_ms || mouse_is_active s now_ms
