-- ===== src/KeyState/Keys/Effective.antt =====
-- What a reader gets of the two owners' keys.
use stonemite.KeyState.State.{SharedKeyState, is_high, controller_keyboard_is_active}
use stonemite.KeyState.Lease.{lease_generation}
use stonemite.KeyState.Keys.{
  View, read_consistent, controller_part, auto_lease_is_active, read_effective_keys,
  read_auto_type_keys, quiet, key_is_pressed, retire_controller,
}
use stonemite.Base.{ℕ, ◌≡◌, ◌≢◌, true, arith, if◌then◌else◌}

read-quiet :
    (s : SharedKeyState) → read_consistent (quiet s).looks s.controller_keys ≡ s.controller_keys
unfolding quiet read_consistent
read-quiet s = ground arith

-- The reads of one key and of the whole buffer agree, owner by owner and whether or not the seqlock
-- was left locked: while nobody writes, the buffer holds 0x80 at each key that `key_is_pressed`
-- reports and 0 at every other, and no bit besides.
pub read_effective_keys-quiet :
    (s : SharedKeyState) (scan now_ms : ℕ)
    → (read_effective_keys (quiet s) now_ms).0 scan
      ≡ (if key_is_pressed s scan now_ms then 128 else 0)
unfolding read_effective_keys quiet key_is_pressed is_high read_consistent
read_effective_keys-quiet s scan now_ms = ground arith

-- No mixture of generations: if another generation holds the lease when the reader looks again,
-- then the buffer shows none of the auto-type keys, only those of the controller's second snapshot.
pub read_effective_keys-superseded :
    (v : View) (now_ms : ℕ)
    → auto_lease_is_active v.state.auto_type_lease now_ms ≡ true
    → lease_generation v.lease_after ≢ lease_generation v.state.auto_type_lease
    → read_effective_keys v now_ms ≡ (
      controller_part (controller_keyboard_is_active v.state now_ms) v.looks_after v.fallback_after,
      true,
    )
unfolding read_effective_keys
read_effective_keys-superseded v now_ms active other = ground arith

-- The owners do not release each other: after the controller retires, at any time and in whatever
-- state it left the buffer, the reader still gets exactly the keys that the auto-type owner holds.
pub read_effective_keys-retire_controller :
    (s : SharedKeyState) (now_ms : ℕ)
    → read_effective_keys (quiet (retire_controller s)) now_ms
      ≡ read_auto_type_keys s s.auto_type_lease now_ms
unfolding read_effective_keys read_auto_type_keys quiet retire_controller is_high read_consistent
    controller_keyboard_is_active
read_effective_keys-retire_controller s now_ms = ground arith
