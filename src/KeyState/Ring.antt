-- ===== src/KeyState/Ring.antt =====
-- The ring of controller transitions: `publish_controller_event` and `drain_controller_events`.
pub mod Drain
use stonemite.KeyState.State.{
  SharedKeyState, controller_event_capacity, u32_mod, wrapping_add, wrapping_sub,
}
use stonemite.Base.Arrays.{Array, store}
use stonemite.Base.{
  ℕ, zero, suc, ◌+◌, ◌*◌, ◌/◌, ◌%◌, Bool, true, false, Option, none, some, List, [], ◌∷◌, ◌++◌, ltb,
  ◌==◌, if◌then◌else◌,
}

-- What `visit` is called with: a scan code, and whether the key went down.
pub record Transition : Type 0 where
  pub scan : ℕ
  pub pressed : Bool

-- `(sequence << 32) | scan | (pressed << 8)`: the parts share no bit while `scan` is a byte.
unfoldable pub encode_event : ℕ → Transition → ℕ
encode_event sequence e = sequence * u32_mod + e.scan + (if e.pressed then 256 else 0)

-- `(record >> 32) as u32`, `record as u8`, `record & (1 << 8) != 0`.
unfoldable pub event_sequence : ℕ → ℕ
event_sequence word = word / u32_mod % u32_mod

unfoldable pub decode_event : ℕ → Transition
decode_event word = record { scan = word % 256; pressed = word / 256 % 2 == 1 }

unfoldable pub publish_controller_event : SharedKeyState → Transition → SharedKeyState
unfolding encode_event wrapping_add
publish_controller_event s e =
    let sequence = s.controller_event_head in
    record s {
      controller_events =
          store s.controller_events (sequence % controller_event_capacity)
            (encode_event sequence e);
      controller_event_head = wrapping_add sequence 1;
    }

-- The loop `while next != head`, with fuel: what it has visited, and whether a slot was lost.
-- `none` means that the fuel ran out.
unfoldable pub drain_loop :
    ℕ → Array → ℕ → ℕ → Bool → List Transition → Option (Bool × List Transition)
drain_loop zero events next head overflowed visited =
    if next == head then some (overflowed, visited) else none
drain_loop (suc fuel) events next head overflowed visited =
    let word = events (next % controller_event_capacity) in
    let fits = event_sequence word == next in
    let rest =
      drain_loop fuel events (wrapping_add next 1) head (if fits then overflowed else true)
        (if fits then visited ++ decode_event word ∷ [] else visited) in
    if next == head then some (overflowed, visited) else rest

pub record Drained : Type 0 where
  pub cursor : Option ℕ
  pub overflowed : Bool
  pub visited : List Transition

abbrev pub finish_drain : ℕ → Option (Bool × List Transition) → Option Drained
finish_drain head none = none
finish_drain head (some (overflowed, visited)) =
    some (record { cursor = some head; overflowed = overflowed; visited = visited })

-- At most `controller_event_capacity` rounds are left once the overflow is cut off.
unfoldable pub drain_from : SharedKeyState → ℕ → Option Drained
unfolding wrapping_sub
drain_from s next =
    let head = s.controller_event_head in
    let overflowed = ltb controller_event_capacity (wrapping_sub head next) in
    finish_drain head (
      drain_loop controller_event_capacity s.controller_events
        (if overflowed then wrapping_sub head controller_event_capacity else next) head overflowed
        [])

unfoldable pub drain_controller_events : SharedKeyState → Option ℕ → Option Drained
drain_controller_events s none =
    some (record { cursor = some s.controller_event_head; overflowed = false; visited = [] })
drain_controller_events s (some next) = drain_from s next
