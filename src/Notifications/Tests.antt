-- ===== src/Notifications/Tests.antt =====
-- The theorems of the notifications at concrete events.
use stonemite.Notifications.{
  tell, group_invite, Notification, NotificationCenter, NotificationSettings, new, resolve_kind,
  last_unread, effective_aa_points, same_kind,
}
use stonemite.Notifications.Latest.{ShowsLatest, GoesOn, resolve_kind-GoesOn}
use stonemite.Notifications.Points.{pending, record_all, times, record_all-keeps}
use stonemite.Base.Dict.{lookup}
use stonemite.Base.{none, not, keep, ◌+◌, ◌≤◌, ◌<◌, ◌≡◌, refl, true, false, [], ◌∷◌, arith}

-- A tell, and then an invitation, both unread.
abbrev invited : Notification
invited = record {
  kind = group_invite;
  text = [];
  color = 5;
  received_at_ms = 2000;
  unread =
      record { unread_kind = tell; unread_color = 3 }
      ∷ record { unread_kind = group_invite; unread_color = 5 }
      ∷ [];
  invite_actions = true;
  hovered_action = none;
  pressed_action = none;
  invite_preview_pressed = false;
  animation_complete = false;
  preview_complete = false;
}

invited-ShowsLatest : ShowsLatest invited
unfolding last_unread
invited-ShowsLatest = refl

resolve_kind-GoesOn_example :
    ((resolve_kind invited group_invite).0.unread
      ≡ keep (λ u. not (same_kind u.unread_kind group_invite)) invited.unread)
    × GoesOn (resolve_kind invited group_invite)
resolve_kind-GoesOn_example = resolve_kind-GoesOn invited group_invite invited-ShowsLatest

-- Three points make a notification.
abbrev three_points : NotificationSettings
three_points = record {
  tell_visual_enabled = true;
  tell_sound_enabled = false;
  tell_sound = [];
  notify = record {
    tells = true;
    group_invites = true;
    raid_invites = true;
    trade_proposals = true;
    resurrections = true;
    deaths = true;
    level_gains = true;
    aa_gains = true;
  };
  aa_points = 3;
}

abbrev center : NotificationCenter
center = new three_points true

nothing_pending : pending center 42 < center.aa_points_per_notification
unfolding new effective_aa_points lookup
nothing_pending = omega arith

in_range : center.aa_points_per_notification ≤ 100
unfolding new effective_aa_points
in_range = omega arith

record_all-keeps_example :
    ((record_all center (42 ∷ 7 ∷ 42 ∷ 42 ∷ 42 ∷ []) 42).1
        + pending (record_all center (42 ∷ 7 ∷ 42 ∷ 42 ∷ 42 ∷ []) 42).0 42
      ≡ times 42 (42 ∷ 7 ∷ 42 ∷ 42 ∷ 42 ∷ []) + pending center 42)
    × (pending (record_all center (42 ∷ 7 ∷ 42 ∷ 42 ∷ 42 ∷ []) 42).0 42
        < center.aa_points_per_notification)
record_all-keeps_example =
    record_all-keeps center (42 ∷ 7 ∷ 42 ∷ 42 ∷ 42 ∷ []) 42 nothing_pending in_range
