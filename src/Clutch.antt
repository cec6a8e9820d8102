-- ===== src/Clutch.antt =====
-- crates/stonemite/src/broadcast.rs: `MouseClutch`, the machine behind hold-to-broadcast.
-- Tick counts are u64 numbers, whose `saturating_add` is `min` with the greatest one.
pub mod Laws
mod Tests
use Prim.Native.Nat.{bit_and, bit_or}
use stonemite.Base.{
  ℕ, ◌+◌, ◌-◌, min, Bool, true, false, not, ◌&&◌, ◌||◌, Option, none, some, leb, ◌==◌, is_value,
  if◌then◌else◌,
}

pub data ClutchPhase : Type 0 where
  inactive active releasing draining : ClutchPhase

abbrev pub is_active_phase : ClutchPhase → Bool
is_active_phase active = true
is_active_phase p = false

abbrev pub is_releasing : ClutchPhase → Bool
is_releasing releasing = true
is_releasing p = false

abbrev pub is_draining : ClutchPhase → Bool
is_draining draining = true
is_draining p = false

pub data MouseClutchStatus : Type 0 where
  off on letting_go : MouseClutchStatus

pub data ClutchKeyEffect : Type 0 where
  pass swallow activates : ClutchKeyEffect

abbrev pub mouse_drain_ms : ℕ
mouse_drain_ms = 90

-- 2 ^ 64 - 1
abbrev pub u64_max : ℕ
u64_max = 18446744073709551615

abbrev pub saturating_add : ℕ → ℕ → ℕ
saturating_add a b = min (a + b) u64_max

pub record MouseClutch : Type 0 where
  pub phase : ClutchPhase
  pub buttons : ℕ
  pub swallowed_vk : Option ℕ
  pub local_owner_active : Bool
  pub source_pid : Option ℕ
  pub drain_deadline_ms : ℕ

unfoldable pub new : ℕ → MouseClutch
new buttons = record {
  phase = inactive;
  buttons = buttons;
  swallowed_vk = none;
  local_owner_active = false;
  source_pid = none;
  drain_deadline_ms = 0;
}

status_of : ClutchPhase → MouseClutchStatus
status_of inactive = off
status_of active = on
status_of releasing = letting_go
status_of draining = letting_go

unfoldable pub status : MouseClutch → MouseClutchStatus
unfolding status_of
status c = status_of c.phase

unfoldable pub begin_drain : MouseClutch → ℕ → MouseClutch
begin_drain c now_ms = record c {
  phase = draining;
  drain_deadline_ms = saturating_add now_ms mouse_drain_ms;
}

unfoldable pub activate : MouseClutch → ℕ → Bool → MouseClutch × Bool
activate c source_pid has_targets =
    if is_active_phase c.phase
    then (c, is_value c.source_pid source_pid)
    else if not (c.buttons == 0) || not has_targets
    then (c, false)
    else (record c { phase = active; source_pid = some source_pid; drain_deadline_ms = 0 }, true)

unfoldable pub release_if_unowned : MouseClutch → ℕ → Bool → MouseClutch
unfolding begin_drain
release_if_unowned c now_ms remote_owner_active =
    if c.local_owner_active || remote_owner_active || not (is_active_phase c.phase)
    then c
    else if c.buttons == 0
    then begin_drain c now_ms
    else record c { phase = releasing }

claim : MouseClutch × Bool → MouseClutch × ClutchKeyEffect
claim (c, false) = (c, swallow)
claim (c, true) = (record c { local_owner_active = true }, activates)

unfoldable pub on_key_down : MouseClutch → ℕ → ℕ → Bool → MouseClutch × ClutchKeyEffect
unfolding activate claim
on_key_down c vk source_pid has_targets =
    if is_value c.swallowed_vk vk
    then (c, swallow)
    else claim (activate (record c { swallowed_vk = some vk }) source_pid has_targets)

unfoldable pub on_key_up : MouseClutch → ℕ → ℕ → Bool → MouseClutch × ClutchKeyEffect
unfolding release_if_unowned
on_key_up c vk now_ms remote_owner_active =
    if not (is_value c.swallowed_vk vk) then (c, pass) else (
      release_if_unowned (record c { swallowed_vk = none; local_owner_active = false }) now_ms
          remote_owner_active,
      swallow,
    )

-- `!button` of a byte is 255 - button.
unfoldable pub set_button : MouseClutch → ℕ → Bool → ℕ → MouseClutch
unfolding begin_drain
set_button c button pressed now_ms =
    let buttons = if pressed then bit_or c.buttons button else bit_and c.buttons (255 - button) in
    let d : MouseClutch = record c { buttons = buttons } in
    if is_releasing c.phase && buttons == 0 then begin_drain d now_ms else d

unfoldable pub cancel_bounded : MouseClutch → ℕ → MouseClutch
unfolding begin_drain
cancel_bounded c now_ms =
    let d : MouseClutch = record c { local_owner_active = false } in
    if is_active_phase c.phase || is_releasing c.phase then begin_drain d now_ms else d

unfoldable pub force_inactive : MouseClutch → MouseClutch
force_inactive c = record c {
  phase = inactive;
  local_owner_active = false;
  source_pid = none;
  drain_deadline_ms = 0;
}

unfoldable pub finish_drain_if_due : MouseClutch → ℕ → MouseClutch × Bool
unfolding force_inactive
finish_drain_if_due c now_ms =
    if is_draining c.phase && leb c.drain_deadline_ms now_ms
    then (force_inactive c, true)
    else (c, false)

-- What the hooks, the poll and the remote holds do to the clutch, call by call: a clutch key goes down
-- or up; a mouse button does; all owners are cancelled; a remote hold begins, with the buttons as they
-- are sampled then; remote holds end or run out, and others may be left; the poll ends a drain that is
-- due; hooks cannot be installed for a new binding; the program ends. The poll is `release`, `cancel`
-- and `poll` at one time, the first two as they apply. Left out: the buttons are sampled also when the
-- mouse hook is installed.
pub data ClutchEvent : Type 0 where
  key_down : (vk source_pid : ℕ) → (has_targets : Bool) → ClutchEvent
  key_up : (vk now_ms : ℕ) → (remote_owner_active : Bool) → ClutchEvent
  button : (mask : ℕ) → (pressed : Bool) → (now_ms : ℕ) → ClutchEvent
  cancel : (now_ms : ℕ) → ClutchEvent
  begin_remote : (source_pid sampled : ℕ) → ClutchEvent
  release : (now_ms : ℕ) → (remote_owner_active : Bool) → ClutchEvent
  poll : (now_ms : ℕ) → ClutchEvent
  hooks_failed cleanup : ClutchEvent

-- A remote hold begins. Where the clutch is active for this source already, nothing is done.
unfoldable pub begin_remote_hold : MouseClutch → ℕ → ℕ → MouseClutch
unfolding activate
begin_remote_hold c source_pid sampled =
    if is_active_phase c.phase && is_value c.source_pid source_pid
    then c
    else (activate (record c { buttons = sampled }) source_pid true).0

unfoldable pub handle : MouseClutch → ClutchEvent → MouseClutch
unfolding on_key_down on_key_up set_button cancel_bounded finish_drain_if_due begin_remote_hold
    release_if_unowned force_inactive
handle c (key_down vk source_pid has_targets) = (on_key_down c vk source_pid has_targets).0
handle c (key_up vk now_ms remote) = (on_key_up c vk now_ms remote).0
handle c (button mask pressed now_ms) = set_button c mask pressed now_ms
handle c (cancel now_ms) = cancel_bounded c now_ms
handle c (begin_remote source_pid sampled) = begin_remote_hold c source_pid sampled
handle c (release now_ms remote) = release_if_unowned c now_ms remote
handle c (poll now_ms) = (finish_drain_if_due c now_ms).0
handle c hooks_failed = force_inactive c
handle c cleanup = record (force_inactive c) { swallowed_vk = none }
