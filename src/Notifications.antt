-- ===== src/Notifications.antt =====
-- crates/stonemite/src/overlay/notifications.rs: the unread events of each client, and the AA points
-- that are counted up to a notification. The hover and press marks of the buttons are left out.
pub mod Latest
pub mod Points
mod Tests
use stonemite.Base.Text.{Text}
use stonemite.Base.Dict
use stonemite.Base.{
  ℕ, zero, suc, ◌+◌, ◌-◌, ◌/◌, ◌%◌, min, max, Bool, true, false, not, ◌&&◌, ◌||◌, Option, none,
  some, List, [], ◌∷◌, ◌++◌, length, drop, keep, is_some, ltb, leb, ◌==◌, if◌then◌else◌,
}

abbrev pub preview_duration_ms : ℕ
preview_duration_ms = 6000

abbrev pub animation_lap_ms : ℕ
animation_lap_ms = 750

abbrev pub animation_duration_ms : ℕ
animation_duration_ms = 2250

abbrev pub max_tracked_unread : ℕ
max_tracked_unread = 256

-- 2 ^ 32 - 1
abbrev pub u32_max : ℕ
u32_max = 4294967295

pub data Kind : Type 0 where
  tell group_invite raid_invite trade resurrection death level_gain : Kind
  alternate_advancement_gain : Kind

abbrev kind_index : Kind → ℕ
kind_index tell = 0
kind_index group_invite = 1
kind_index raid_invite = 2
kind_index trade = 3
kind_index resurrection = 4
kind_index death = 5
kind_index level_gain = 6
kind_index alternate_advancement_gain = 7

abbrev pub same_kind : Kind → Kind → Bool
same_kind a b = kind_index a == kind_index b

pub record EnabledKinds : Type 0 where
  pub tells : Bool
  pub group_invites : Bool
  pub raid_invites : Bool
  pub trade_proposals : Bool
  pub resurrections : Bool
  pub deaths : Bool
  pub level_gains : Bool
  pub aa_gains : Bool

unfoldable pub enables : EnabledKinds → Kind → Bool
enables e tell = e.tells
enables e group_invite = e.group_invites
enables e raid_invite = e.raid_invites
enables e trade = e.trade_proposals
enables e resurrection = e.resurrections
enables e death = e.deaths
enables e level_gain = e.level_gains
enables e alternate_advancement_gain = e.aa_gains

abbrev differs : Bool → Bool → Bool
differs a b = a && not b || not a && b

abbrev kinds_differ : EnabledKinds → EnabledKinds → Bool
kinds_differ a b =
    differs a.tells b.tells
    || differs a.group_invites b.group_invites
    || differs a.raid_invites b.raid_invites
    || differs a.trade_proposals b.trade_proposals
    || differs a.resurrections b.resurrections
    || differs a.deaths b.deaths
    || differs a.level_gains b.level_gains
    || differs a.aa_gains b.aa_gains

pub record Unread : Type 0 where
  pub unread_kind : Kind
  pub unread_color : ℕ

pub data InviteAction : Type 0 where
  accept dismiss : InviteAction

pub record Notification : Type 0 where
  pub kind : Kind
  pub text : Text
  pub color : ℕ
  pub received_at_ms : ℕ
  pub unread : List Unread
  pub invite_actions : Bool
  pub hovered_action : Option InviteAction
  pub pressed_action : Option InviteAction
  pub invite_preview_pressed : Bool
  pub animation_complete : Bool
  pub preview_complete : Bool

-- What the notifications read of the config, the sound as `normalized_id` gives it.
pub record NotificationSettings : Type 0 where
  pub tell_visual_enabled : Bool
  pub tell_sound_enabled : Bool
  pub tell_sound : Text
  pub notify : EnabledKinds
  pub aa_points : ℕ

-- `Config::effective_aa_points_per_notification`: clamped to 1 ..= 100.
unfoldable pub effective_aa_points : NotificationSettings → ℕ
effective_aa_points cfg = min (max cfg.aa_points 1) 100

pub record NotificationCenter : Type 0 where
  pub entries : List (ℕ × Notification)
  pub visual_enabled : Bool
  pub sound_enabled : Bool
  pub sound : Text
  pub enabled_kinds : EnabledKinds
  pub animations_enabled : Bool
  pub aa_points_since_notification : List (ℕ × ℕ)
  pub aa_points_per_notification : ℕ

unfoldable pub new : NotificationSettings → Bool → NotificationCenter
unfolding effective_aa_points
new cfg animations = record {
  entries = [];
  visual_enabled = cfg.tell_visual_enabled;
  sound_enabled = cfg.tell_sound_enabled;
  sound = cfg.tell_sound;
  enabled_kinds = cfg.notify;
  animations_enabled = animations;
  aa_points_since_notification = [];
  aa_points_per_notification = effective_aa_points cfg;
}

unfoldable pub acknowledge : NotificationCenter → ℕ → NotificationCenter × Bool
unfolding Dict.remove Dict.lookup
acknowledge c pid =
    (record c { entries = Dict.remove pid c.entries }, is_some (Dict.lookup pid c.entries))

unfoldable pub remove_client : NotificationCenter → ℕ → NotificationCenter
unfolding Dict.remove
remove_client c pid = record c {
  entries = Dict.remove pid c.entries;
  aa_points_since_notification = Dict.remove pid c.aa_points_since_notification;
}

-- `entry(pid).or_default()`.
abbrev pub points_of : Option ℕ → ℕ
points_of none = 0
points_of (some n) = n

unfoldable pub record_aa_point_gain : NotificationCenter → ℕ → NotificationCenter × Option ℕ
record_aa_point_gain c pid =
    let count = min (points_of (Dict.lookup pid c.aa_points_since_notification) + 1) u32_max in
    let counted = Dict.insert pid count c.aa_points_since_notification in
    if ltb count c.aa_points_per_notification
    then (record c { aa_points_since_notification = counted }, none)
    else (record c { aa_points_since_notification = Dict.remove pid counted }, some count)

unfoldable pub apply_config :
    NotificationCenter → NotificationSettings → Bool → NotificationCenter × Bool
unfolding effective_aa_points
apply_config c cfg animations =
    let aa_points_per_notification = effective_aa_points cfg in
    let aa_policy_changed =
      differs c.enabled_kinds.aa_gains cfg.notify.aa_gains
      || not (c.aa_points_per_notification == aa_points_per_notification) in
    (
      record c {
        visual_enabled = cfg.tell_visual_enabled;
        sound_enabled = cfg.tell_sound_enabled;
        sound = cfg.tell_sound;
        enabled_kinds = cfg.notify;
        animations_enabled = animations;
        aa_points_per_notification = aa_points_per_notification;
        aa_points_since_notification =
            if aa_policy_changed then [] else c.aa_points_since_notification;
      },
      kinds_differ c.enabled_kinds cfg.notify,
    )

abbrev pub unread_of : Option Notification → List Unread
unread_of none = []
unread_of (some n) = n.unread

unfoldable pub push : Option Notification → Kind → Text → ℕ → ℕ → Bool → Notification
push previous kind text color received_at_ms invite_actions =
    let unread = unread_of previous in
    let kept = if length unread == max_tracked_unread then drop 1 unread else unread in
    record {
      kind = kind;
      text = text;
      color = color;
      received_at_ms = received_at_ms;
      unread = kept ++ record { unread_kind = kind; unread_color = color } ∷ [];
      invite_actions = invite_actions;
      hovered_action = none;
      pressed_action = none;
      invite_preview_pressed = false;
      animation_complete = false;
      preview_complete = false;
    }

unfoldable pub elapsed_ms : Notification → ℕ → ℕ
elapsed_ms n now_ms = now_ms - n.received_at_ms

unfoldable pub preview_visible : Notification → ℕ → Bool
unfolding elapsed_ms
preview_visible n now_ms = not n.preview_complete && ltb (elapsed_ms n now_ms) preview_duration_ms

-- The lap, and the milliseconds of it, which the source divides by the length of a lap.
unfoldable pub animation_frame : Notification → ℕ → Bool → Option (ℕ × ℕ)
unfolding elapsed_ms
animation_frame n now_ms animations =
    let elapsed = elapsed_ms n now_ms in
    if animations && not n.animation_complete && ltb elapsed animation_duration_ms
    then some (elapsed / animation_lap_ms, elapsed % animation_lap_ms)
    else none

-- Whether the border and the preview are drawn again, with what the call remembers of it.
unfoldable pub redraws_for_tick : Notification → ℕ → Bool → Notification × (Bool × Bool)
unfolding animation_frame preview_visible
redraws_for_tick n now_ms animations =
    let moves = is_some (animation_frame n now_ms animations) in
    let preview = not (preview_visible n now_ms) && not n.preview_complete in
    (
      record n {
        animation_complete = if moves then n.animation_complete else true;
        preview_complete = preview || n.preview_complete;
      },
      (moves || not n.animation_complete, preview),
    )

pub last_unread : List Unread → Option Unread
last_unread [] = none
last_unread (u ∷ []) = some u
last_unread (u ∷ v ∷ us) = last_unread (v ∷ us)

-- `self.unread.pop()`.
unfoldable pub pop : List Unread → List Unread
pop [] = []
pop (u ∷ []) = []
pop (u ∷ v ∷ us) = u ∷ pop (v ∷ us)

abbrev finished : Notification → Notification
finished n = record n {
  invite_actions = false;
  hovered_action = none;
  pressed_action = none;
  invite_preview_pressed = false;
  animation_complete = true;
  preview_complete = true;
}

unfoldable pub finish_current_preview : Notification → Notification × Bool
unfolding last_unread
finish_current_preview n = elim (last_unread n.unread) [
  | none ↦ (finished n, true)
  | some previous ↦
      (record (finished n) { kind = previous.unread_kind; color = previous.unread_color }, false)
]

abbrev pub is_empty : List Unread → Bool
is_empty [] = true
is_empty (u ∷ us) = false

unfoldable pub dismiss_invite : Notification → Notification × Bool
unfolding finish_current_preview pop
dismiss_invite n =
    if not (same_kind n.kind group_invite)
    then (n, false)
    else finish_current_preview (record n { unread = pop n.unread })

unfoldable pub resolve_kind : Notification → Kind → Notification × Bool
unfolding finish_current_preview
resolve_kind n kind =
    let m : Notification = record n {
      unread = keep (λ u. not (same_kind u.unread_kind kind)) n.unread;
    } in
    if same_kind n.kind kind then finish_current_preview m else (m, is_empty m.unread)
