-- ===== src/KeyState/Tests.antt =====
-- The theorems of the shared key state at concrete states.
use stonemite.KeyState.State.{
  SharedKeyState, initialize, key_count, u32_mod, controller_event_capacity, is_high, wrapping_add,
}
use stonemite.KeyState.Ring.{Transition, publish_controller_event, drain_controller_events}
use stonemite.KeyState.Ring.Drain.{Holds, publish-Holds, drain-Holds}
use stonemite.KeyState.Keys.{
  quiet, read_effective_keys, read_auto_type_keys, key_is_pressed, set_controller_key,
  clear_controller_keys, retire_controller,
}
use stonemite.KeyState.Keys.Effective.{
  read_effective_keys-quiet, read_effective_keys-retire_controller,
}
use stonemite.KeyState.Keys.Edges.{Tracks, edge, releases, initialize-Tracks}
use stonemite.KeyState.Keys.Edges.Locked.{
  Written, set_controller_key-Tracks, clear_controller_keys-Tracks,
}
use stonemite.KeyState.Lease.{
  encode_lease, lease_generation, encode_auto_key, auto_key_generation, auto_key_is_pressed,
  active_auto_type_generation, set_auto_type_key, begin_auto_type, refresh_auto_type_lease,
  retire_auto_type,
}
use stonemite.KeyState.Lease.Writers.{begin_auto_type-takes_over, lease_life}
use stonemite.KeyState.Lease.Race.{
  idle, fetched, trying, begun, fetch, load, win, System, pick, Reach, here, next,
}
use stonemite.KeyState.Lease.Race.Latest.{latest_wins}
use stonemite.KeyState.Lease.Race.Moved.{IsBeginning, IsPanicked}
use stonemite.Base.Arrays.{store}
use stonemite.Base.{
  ℕ, ◌-◌, ◌%◌, ◌≤◌, max, ◌≡◌, refl, true, false, not, ◌&&◌, some, none, [], ◌∷◌, ◌++◌, drop, ltb,
  leb, ◌==◌, if◌then◌else◌, arith,
}

abbrev press_a : Transition
press_a = record { scan = 30; pressed = true }

abbrev release_a : Transition
release_a = record { scan = 30; pressed = false }

-- Key A was pressed and released.
abbrev typed : SharedKeyState
typed = publish_controller_event (publish_controller_event initialize press_a) release_a

typed-Holds : Holds (press_a ∷ release_a ∷ []) typed
typed-Holds =
    publish-Holds (press_a ∷ []) (publish_controller_event initialize press_a) release_a
      (omega arith) (publish-Holds [] initialize press_a (omega arith) initialize-Tracks.holds)

drain-Holds_example :
    drain_controller_events typed (some (1 % u32_mod))
    ≡ some (record {
      cursor = some (2 % u32_mod);
      overflowed = ltb controller_event_capacity (2 - 1);
      visited = drop (max 1 (2 - controller_event_capacity)) (press_a ∷ release_a ∷ []);
    })
drain-Holds_example =
    drain-Holds (press_a ∷ release_a ∷ []) typed 1 typed-Holds (omega arith) (omega arith)

initialize-even : initialize.controller_sequence % 2 ≡ 0
unfolding initialize
initialize-even = refl

set_controller_key-Tracks_example :
    Written ([] ++ edge initialize 30 128) (set_controller_key initialize 30 128) λ t.
      is_high (t.controller_keys 30)
      ≡ (if leb key_count 30 then is_high (initialize.controller_keys 30) else is_high 128)
set_controller_key-Tracks_example =
    set_controller_key-Tracks [] initialize 30 128 initialize-even initialize-Tracks

-- Key A is down.
abbrev down_a : SharedKeyState
down_a =
    publish_controller_event
      (record initialize { controller_keys = store initialize.controller_keys 30 128 }) press_a

down_a-Tracks : Tracks (press_a ∷ []) down_a
unfolding publish_controller_event initialize
down_a-Tracks = record {
  holds =
      publish-Holds []
        (record initialize { controller_keys = store initialize.controller_keys 30 128 }) press_a
        (omega arith)
        (record { head = initialize-Tracks.holds.head; slot = initialize-Tracks.holds.slot });
  level = refl;
}

down_a-even : down_a.controller_sequence % 2 ≡ 0
unfolding publish_controller_event initialize
down_a-even = refl

clear_controller_keys-Tracks_example :
    Written
      ((press_a ∷ []) ++ releases key_count 0 down_a.controller_keys)
      (clear_controller_keys down_a)
      λ t.
        (key : ℕ)
        → is_high (t.controller_keys key)
          ≡ (is_high (down_a.controller_keys key) && not (leb 0 key && ltb key key_count))
clear_controller_keys-Tracks_example =
    clear_controller_keys-Tracks (press_a ∷ []) down_a down_a-even down_a-Tracks

-- Generation 7 holds the lease since 1000 ms.
abbrev leased_seven : SharedKeyState
leased_seven = record initialize { auto_type_generation = 7; auto_type_lease = encode_lease 7 1000 }

read_effective_keys-quiet_example :
    (read_effective_keys (quiet leased_seven) 1200).0 30
    ≡ (if key_is_pressed leased_seven 30 1200 then 128 else 0)
read_effective_keys-quiet_example = read_effective_keys-quiet leased_seven 30 1200

read_effective_keys-retire_controller_example :
    read_effective_keys (quiet (retire_controller leased_seven)) 1200
    ≡ read_auto_type_keys leased_seven leased_seven.auto_type_lease 1200
read_effective_keys-retire_controller_example =
    read_effective_keys-retire_controller leased_seven 1200

holds_seven : lease_generation leased_seven.auto_type_lease ≡ 7
unfolding lease_generation encode_lease
holds_seven = refl

no_newer : lease_generation leased_seven.auto_type_lease ≤ leased_seven.auto_type_generation
no_newer = ground (arith, holds_seven)

untouched : (key : ℕ) → auto_key_generation (leased_seven.auto_type_keys key) ≤ 7
unfolding auto_key_generation initialize
untouched key = omega arith

begin_auto_type-takes_over_example :
    (t : SharedKeyState) × (u : SharedKeyState) × (begin_auto_type 1 leased_seven 2000
      ≡ some (t, 8))
    × (set_auto_type_key 2 t 8 30 1 ≡ (u, true))
    × (auto_key_is_pressed (u.auto_type_keys 30) 8 ≡ not (1 == 0))
    × ((key : ℕ)
        → u.auto_type_keys key ≡ (
            if key == 30
            then encode_auto_key 8 (not (1 == 0))
            else leased_seven.auto_type_keys key))
    × (set_auto_type_key 0 u 7 31 1 ≡ (u, false))
begin_auto_type-takes_over_example =
    begin_auto_type-takes_over 1 2 0 leased_seven 2000 30 1 7 31 1 (omega arith) (omega arith)
      no_newer untouched (omega arith) (omega arith)

lease_life_example :
    (t : SharedKeyState) × (begin_auto_type 1 leased_seven 2000 ≡ some (t, 8))
    × (active_auto_type_generation t 2000 ≡ some 8)
    × ((refresh_auto_type_lease 0 t 8 2400).1 ≡ true)
    × (active_auto_type_generation (refresh_auto_type_lease 0 t 8 2400).0 2400 ≡ some 8)
    × ((at : ℕ) → active_auto_type_generation (retire_auto_type 3 t 8) at ≡ none)
lease_life_example =
    lease_life 1 0 3 leased_seven 2000 2400 (omega arith) no_newer (omega arith) (omega arith)
      (omega arith) (omega arith)

-- Process 0 has begun at 1000 ms, and its exchange has won.
abbrev after_win : System
after_win = record {
  words = record { counter = 1; lease = encode_lease 1 1000 };
  pc = store (store (store (λ _. idle) 0 (fetched 1 1000)) 0 (trying 1 1000 0)) 0 (begun 1);
}

Reach-after_win : Reach after_win
unfolding wrapping_add lease_generation
Reach-after_win =
    next (next (next here (pick 0 (fetch 1000 (omega arith) (ground arith)))) (pick 0 load))
      (pick 0 (win (ground arith) refl))

nobody : (i g : ℕ) → IsBeginning g (after_win.pc i) → ⊥
nobody i g b = ground arith

nobody_panicked : (i : ℕ) → IsPanicked (after_win.pc i) → ⊥
nobody_panicked i h = ground arith

latest_wins_example : lease_generation after_win.words.lease ≡ after_win.words.counter
latest_wins_example = latest_wins Reach-after_win nobody_panicked nobody
