-- ===== src/KeyState/State.antt =====
-- The record `SharedKeyState`, its constants, its publication, and the heartbeats.
-- A u32 or u64 atomic is a number, kept in range by `% 2 ^ w` where the source wraps. The reserved
-- words are left out. One call runs at a time here; `Lease.Race` interleaves atomic operations.
use stonemite.Base.Arrays.{Array}
use stonemite.Base.{
  ℕ, ◌+◌, ◌-◌, ◌/◌, ◌%◌, ◌≤◌, ◌<◌, max, ◌≡◌, ◌↔◌, Bool, true, not, ◌&&◌, arith, leb, ◌==◌,
  if◌then◌else◌,
}

abbrev pub magic_word : ℕ
magic_word = 0x53544D54

abbrev pub protocol_version : ℕ
protocol_version = 4

abbrev pub proxy_ready_word : ℕ
proxy_ready_word = 0xA5

abbrev pub heartbeat_timeout_ms : ℕ
heartbeat_timeout_ms = 500

abbrev pub key_count : ℕ
key_count = 256

abbrev pub controller_event_capacity : ℕ
controller_event_capacity = 1024

-- 2 ^ 32
abbrev pub u32_mod : ℕ
u32_mod = 4294967296

pub record SharedKeyState : Type 0 where
  pub magic : ℕ
  pub version : ℕ
  pub proxy_ready : ℕ
  pub suppress : ℕ
  pub controller_keyboard_active : ℕ
  pub controller_mouse_active : ℕ
  pub controller_sequence : ℕ
  pub controller_heartbeat_ms : ℕ
  pub auto_type_generation : ℕ
  pub auto_type_lease : ℕ
  pub controller_event_head : ℕ
  pub controller_events : Array
  pub controller_keys : Array
  pub auto_type_keys : Array

unfoldable pub unpublished : SharedKeyState
unpublished = record {
  magic = 0;
  version = 0;
  proxy_ready = 0;
  suppress = 0;
  controller_keyboard_active = 0;
  controller_mouse_active = 0;
  controller_sequence = 0;
  controller_heartbeat_ms = 0;
  auto_type_generation = 0;
  auto_type_lease = 0;
  controller_event_head = 0;
  controller_events = λ _. 0;
  controller_keys = λ _. 0;
  auto_type_keys = λ _. 0;
}

unfoldable pub initialize : SharedKeyState
unfolding unpublished
initialize = record unpublished { magic = magic_word; version = protocol_version }

unfoldable pub is_compatible : SharedKeyState → Bool
is_compatible s = s.version == protocol_version && s.magic == magic_word

unfoldable pub acknowledge_proxy : SharedKeyState → SharedKeyState
unfolding is_compatible
acknowledge_proxy s = if is_compatible s then record s { proxy_ready = proxy_ready_word } else s

unfoldable pub proxy_is_ready : SharedKeyState → Bool
unfolding is_compatible
proxy_is_ready s = is_compatible s && s.proxy_ready == proxy_ready_word

unfoldable pub wrapping_sub : ℕ → ℕ → ℕ
wrapping_sub a b = (a + u32_mod - b) % u32_mod

unfoldable pub wrapping_add : ℕ → ℕ → ℕ
wrapping_add a b = (a + b) % u32_mod

-- The top bit of a byte, `value & 0x80 != 0`.
unfoldable pub is_high : ℕ → Bool
is_high value = value / 128 % 2 == 1

unfoldable pub heartbeat_is_fresh : ℕ → ℕ → Bool
unfolding wrapping_sub
heartbeat_is_fresh heartbeat_ms now_ms =
    not (heartbeat_ms == 0) && leb (wrapping_sub now_ms heartbeat_ms) heartbeat_timeout_ms

unfoldable pub refresh_controller_heartbeat : SharedKeyState → ℕ → SharedKeyState
refresh_controller_heartbeat s now_ms = record s { controller_heartbeat_ms = max now_ms 1 }

unfoldable pub controller_is_fresh : SharedKeyState → ℕ → Bool
unfolding heartbeat_is_fresh
controller_is_fresh s now_ms = heartbeat_is_fresh s.controller_heartbeat_ms now_ms

-- `KEYBOARD_CONTROLLER_MASK` is 3, the two lowest bits.
unfoldable pub controller_keyboard_is_active : SharedKeyState → ℕ → Bool
unfolding controller_is_fresh
controller_keyboard_is_active s now_ms =
    not (s.controller_keyboard_active % 4 == 0) && controller_is_fresh s now_ms

unfoldable pub mouse_is_active : SharedKeyState → ℕ → Bool
unfolding controller_is_fresh
mouse_is_active s now_ms = not (s.controller_mouse_active == 0) && controller_is_fresh s now_ms

unfoldable pub should_suppress : SharedKeyState → ℕ → Bool
unfolding controller_is_fresh
should_suppress s now_ms = not (s.suppress == 0) && controller_is_fresh s now_ms

-- A proxy becomes ready by acknowledging exactly if the mapping has its version and magic word, its
-- acknowledgement leaves the compatibility as it is, and a second one changes nothing more.
pub proxy_is_ready-acknowledge_proxy :
    (s : SharedKeyState)
    → (proxy_is_ready (acknowledge_proxy s) ≡ is_compatible s)
      × (is_compatible (acknowledge_proxy s) ≡ is_compatible s)
      × (acknowledge_proxy (acknowledge_proxy s) ≡ acknowledge_proxy s)
unfolding proxy_is_ready acknowledge_proxy
proxy_is_ready-acknowledge_proxy s = ground arith

-- The tick count of a 32-bit clock that starts at `begin` and runs for `elapsed` ms, after a
-- heartbeat that is taken at `begin` as `refresh_controller_heartbeat` takes it. While the clock
-- has not gone round, the controller is fresh exactly for the first 500 ms, also across a wrap of
-- the clock.
pub controller_is_fresh-refresh :
    (s : SharedKeyState) (begin elapsed : ℕ)
    → 0 < begin
    → begin < u32_mod
    → elapsed < u32_mod
    → (controller_is_fresh (refresh_controller_heartbeat s begin) (wrapping_add begin elapsed)
        ≡ true)
      ↔ (elapsed ≤ heartbeat_timeout_ms)
unfolding controller_is_fresh refresh_controller_heartbeat wrapping_add
controller_is_fresh-refresh s begin elapsed pos small short = ground arith
