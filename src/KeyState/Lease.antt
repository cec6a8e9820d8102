-- ===== src/KeyState/Lease.antt =====
-- The auto-type lease: a generation and its heartbeat in one word, and the keys tagged by generation.
pub mod Writers
pub mod Race
use stonemite.KeyState.State.{SharedKeyState, key_count, u32_mod, wrapping_add, heartbeat_is_fresh}
use stonemite.Base.Arrays.{Array, store}
use stonemite.Base.{
  ℕ, zero, suc, ◌+◌, ◌*◌, ◌/◌, ◌%◌, max, Bool, true, false, not, ◌&&◌, ◌||◌, Option, none, some,
  is_some, leb, ltb, ◌==◌, if◌then◌else◌,
}

-- `(generation << 32) | heartbeat_ms.max(1)`: the parts share no bit.
unfoldable pub encode_lease : ℕ → ℕ → ℕ
encode_lease generation heartbeat_ms = generation * u32_mod + max heartbeat_ms 1

unfoldable pub lease_generation : ℕ → ℕ
lease_generation lease = lease / u32_mod % u32_mod

unfoldable pub lease_heartbeat : ℕ → ℕ
lease_heartbeat lease = lease % u32_mod

unfoldable pub encode_auto_key : ℕ → Bool → ℕ
encode_auto_key generation pressed = generation * 2 + (if pressed then 1 else 0)

unfoldable pub auto_key_generation : ℕ → ℕ
auto_key_generation key = key / 2 % u32_mod

unfoldable pub auto_key_is_pressed : ℕ → ℕ → Bool
unfolding auto_key_generation
auto_key_is_pressed key generation = auto_key_generation key == generation && key % 2 == 1

unfoldable pub active_auto_type_generation : SharedKeyState → ℕ → Option ℕ
active_auto_type_generation s now_ms =
    let generation = lease_generation s.auto_type_lease in
    if not (generation == 0) && heartbeat_is_fresh (lease_heartbeat s.auto_type_lease) now_ms
    then some generation
    else none

unfoldable pub auto_type_is_fresh : SharedKeyState → ℕ → Bool
unfolding active_auto_type_generation
auto_type_is_fresh s now_ms = is_some (active_auto_type_generation s now_ms)

-- The loop of `set_auto_type_key` with no other writer: `compare_exchange_weak` fails `weak` times
-- for no reason, reads the value again, and then succeeds. The last test reads the lease again.
unfoldable pub set_auto_key_loop : ℕ → SharedKeyState → ℕ → ℕ → ℕ → ℕ → SharedKeyState × Bool
set_auto_key_loop zero s generation scan replacement current =
    if not (lease_generation s.auto_type_lease == generation)
      || ltb generation (auto_key_generation current)
    then (s, false)
    else (
      record s { auto_type_keys = store s.auto_type_keys scan replacement },
      lease_generation s.auto_type_lease == generation,
    )
set_auto_key_loop (suc weak) s generation scan replacement current =
    let rest = set_auto_key_loop weak s generation scan replacement (s.auto_type_keys scan) in
    if not (lease_generation s.auto_type_lease == generation)
      || ltb generation (auto_key_generation current)
    then (s, false)
    else rest

unfoldable pub set_auto_type_key : ℕ → SharedKeyState → ℕ → ℕ → ℕ → SharedKeyState × Bool
unfolding encode_auto_key
set_auto_type_key weak s generation scan value =
    if leb key_count scan
    then (s, false)
    else set_auto_key_loop weak s generation scan (encode_auto_key generation (not (value == 0)))
        (s.auto_type_keys scan)

unfoldable pub refresh_loop : ℕ → SharedKeyState → ℕ → ℕ → ℕ → SharedKeyState × Bool
refresh_loop zero s generation now_ms lease =
    if not (lease_generation lease == generation)
    then (s, false)
    else (record s { auto_type_lease = encode_lease generation now_ms }, true)
refresh_loop (suc weak) s generation now_ms lease =
    let rest = refresh_loop weak s generation now_ms s.auto_type_lease in
    if not (lease_generation lease == generation) then (s, false) else rest

unfoldable pub refresh_auto_type_lease : ℕ → SharedKeyState → ℕ → ℕ → SharedKeyState × Bool
refresh_auto_type_lease weak s generation now_ms =
    refresh_loop weak s generation now_ms s.auto_type_lease

unfoldable pub begin_loop : ℕ → SharedKeyState → ℕ → ℕ → ℕ → SharedKeyState
begin_loop zero s generation new_lease current =
    if leb generation (lease_generation current)
    then s
    else record s { auto_type_lease = new_lease }
begin_loop (suc weak) s generation new_lease current =
    let rest = begin_loop weak s generation new_lease s.auto_type_lease in
    if leb generation (lease_generation current) then s else rest

-- `none` is the panic of `assert_ne!`.
unfoldable pub begin_auto_type : ℕ → SharedKeyState → ℕ → Option (SharedKeyState × ℕ)
begin_auto_type weak s now_ms =
    let generation = wrapping_add s.auto_type_generation 1 in
    let t : SharedKeyState = record s { auto_type_generation = generation } in
    if generation == 0
    then none
    else some (
      begin_loop weak t generation (encode_lease generation now_ms) t.auto_type_lease,
      generation,
    )

unfoldable pub retire_loop : ℕ → SharedKeyState → ℕ → ℕ → SharedKeyState
retire_loop zero s generation lease =
    if not (lease_generation lease == generation) then s else record s { auto_type_lease = 0 }
retire_loop (suc weak) s generation lease =
    let rest = retire_loop weak s generation s.auto_type_lease in
    if not (lease_generation lease == generation) then s else rest

unfoldable pub retire_auto_type : ℕ → SharedKeyState → ℕ → SharedKeyState
retire_auto_type weak s generation = retire_loop weak s generation s.auto_type_lease
