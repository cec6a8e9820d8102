-- ===== src/Awareness.antt =====
-- crates/stonemite/src/overlay/combat_awareness.rs: the combat border and status of each client.
-- Times are u64 milliseconds; of a config only the three values that are read are kept.
pub mod Timing
mod Tests
use stonemite.Base.Dict.{lookup, insert, remove, map_values, any_value}
use stonemite.Base.{
  ℕ, ◌+◌, ◌-◌, min, Bool, true, false, not, ◌&&◌, ◌||◌, Option, none, some, List, [], is_some, leb,
  ltb, ◌==◌, if◌then◌else◌,
}

abbrev pub hit_flash_ms : ℕ
hit_flash_ms = 120

abbrev pub min_hit_flash_interval_ms : ℕ
min_hit_flash_interval_ms = 334

abbrev pub damage_effect_ms : ℕ
damage_effect_ms = 850

abbrev pub damage_impact_ms : ℕ
damage_impact_ms = 150

abbrev pub damage_decay_ms : ℕ
damage_decay_ms = 450

abbrev pub attack_issue_ms : ℕ
attack_issue_ms = 10000

-- 2 ^ 64 - 1
abbrev u64_max : ℕ
u64_max = 18446744073709551615

pub data AttackProblem : Type 0 where
  out_of_range too_close line_of_sight : AttackProblem

pub data CombatStatus : Type 0 where
  attack : AttackProblem → CombatStatus
  dead : CombatStatus

pub data BorderKind : Type 0 where
  attacking hit attention grave : BorderKind

pub data DamagePhase : Type 0 where
  unharmed faint decay impact : DamagePhase

pub record VisualKey : Type 0 where
  pub border : Option BorderKind
  pub damage : DamagePhase
  pub status : Option CombatStatus

abbrev pub neutral : VisualKey
neutral = record { border = none; damage = unharmed; status = none }

pub record AttackIssue : Type 0 where
  pub problem : AttackProblem
  pub observed_at_ms : ℕ

pub record Entry : Type 0 where
  pub last_weapon_hit_ms : Option ℕ
  pub hit_flash_until_ms : ℕ
  pub last_hit_flash_ms : Option ℕ
  pub last_damage_taken_ms : Option ℕ
  pub attack_issue : Option AttackIssue
  pub is_dead : Bool
  pub rendered : Option VisualKey

abbrev pub default_entry : Entry
default_entry = record {
  last_weapon_hit_ms = none;
  hit_flash_until_ms = 0;
  last_hit_flash_ms = none;
  last_damage_taken_ms = none;
  attack_issue = none;
  is_dead = false;
  rendered = none;
}

-- `is_some_and(|last| now_ms.saturating_sub(last) < span)`.
abbrev pub within : Option ℕ → ℕ → ℕ → Bool
within none now_ms span = false
within (some last) now_ms span = ltb (now_ms - last) span

abbrev pub issue_status : Option AttackIssue → ℕ → Option CombatStatus
issue_status none now_ms = none
issue_status (some issue) now_ms =
    if ltb (now_ms - issue.observed_at_ms) attack_issue_ms
    then some (attack issue.problem)
    else none

abbrev pub issue_within : Option AttackIssue → ℕ → Bool
issue_within none now_ms = false
issue_within (some issue) now_ms = ltb (now_ms - issue.observed_at_ms) attack_issue_ms

abbrev pub damage_phase : Option ℕ → ℕ → Bool → DamagePhase
damage_phase none now_ms animations = unharmed
damage_phase (some last) now_ms animations =
    if leb damage_effect_ms (now_ms - last)
    then unharmed
    else if not animations
    then decay
    else if ltb (now_ms - last) damage_impact_ms
    then impact
    else if ltb (now_ms - last) damage_decay_ms
    then decay
    else faint

unfoldable pub visual_key : Entry → ℕ → ℕ → Bool → VisualKey
visual_key e now_ms hit_duration_ms animations =
    let status = issue_status e.attack_issue now_ms in
    let is_attacking = within e.last_weapon_hit_ms now_ms hit_duration_ms in
    let hit_flash = animations && is_attacking && ltb now_ms e.hit_flash_until_ms in
    if e.is_dead
    then record { border = some grave; damage = unharmed; status = some dead }
    else record {
      border =
          if is_some status
          then some attention
          else if hit_flash
          then some hit
          else if is_attacking
          then some attacking
          else none;
      damage = damage_phase e.last_damage_taken_ms now_ms animations;
      status = status;
    }

unfoldable pub has_pending_transition : Entry → ℕ → ℕ → Bool
has_pending_transition e now_ms hit_duration_ms =
    if e.is_dead
    then false
    else ltb now_ms e.hit_flash_until_ms
      || within e.last_weapon_hit_ms now_ms hit_duration_ms
      || within e.last_damage_taken_ms now_ms damage_effect_ms
      || issue_within e.attack_issue now_ms

pub record Center : Type 0 where
  pub entries : List (ℕ × Entry)
  pub enabled : Bool
  pub hit_duration_ms : ℕ
  pub animations_enabled : Bool

-- What `Config` says of combat awareness.
pub record Settings : Type 0 where
  pub combat_awareness_enabled : Bool
  pub combat_hit_duration_ms : ℕ

unfoldable pub new : Settings → Bool → Center
new cfg animations = record {
  entries = [];
  enabled = cfg.combat_awareness_enabled;
  hit_duration_ms = cfg.combat_hit_duration_ms;
  animations_enabled = animations;
}

abbrev differs : Bool → Bool → Bool
differs a b = a && not b || not a && b

abbrev quieted : Entry → Entry
quieted e = record default_entry { is_dead = e.is_dead }

abbrev restarted : Entry → Entry
restarted e = record e {
  last_weapon_hit_ms = none;
  hit_flash_until_ms = 0;
  last_hit_flash_ms = none;
  last_damage_taken_ms = none;
  rendered = none;
}

unfoldable pub apply_config : Center → Settings → Bool → Center × Bool
unfolding map_values
apply_config c cfg animations =
    let changed =
      differs c.enabled cfg.combat_awareness_enabled
      || not (c.hit_duration_ms == cfg.combat_hit_duration_ms)
      || differs c.animations_enabled animations in
    (
      record {
        entries =
            if not cfg.combat_awareness_enabled
            then map_values quieted c.entries
            else if changed
            then map_values restarted c.entries
            else c.entries;
        enabled = cfg.combat_awareness_enabled;
        hit_duration_ms = cfg.combat_hit_duration_ms;
        animations_enabled = animations;
      },
      changed,
    )

unfoldable pub remove_client : Center → ℕ → Center
remove_client c pid = record c { entries = remove pid c.entries }

-- The log events that matter here; `other` stands for all the rest.
pub data CombatLog : Type 0 where
  weapon_damage_dealt damage_taken died revived other : CombatLog
  attack_blocked : AttackProblem → CombatLog

abbrev pub is_durable : CombatLog → Bool
is_durable died = true
is_durable revived = true
is_durable e = false

abbrev flash_allowed : Option ℕ → ℕ → Bool
flash_allowed none now_ms = true
flash_allowed (some last) now_ms = leb min_hit_flash_interval_ms (now_ms - last)

unfoldable pub land_hit : Entry → Bool → ℕ → Entry
land_hit e animations now_ms =
    let d : Entry = record e { last_weapon_hit_ms = some now_ms; attack_issue = none } in
    if animations && flash_allowed e.last_hit_flash_ms now_ms
    then record d {
      last_hit_flash_ms = some now_ms;
      hit_flash_until_ms = min (now_ms + hit_flash_ms) u64_max;
    }
    else d

-- The arms of the match; `none` is `return false`.
unfoldable pub observe : Entry → Bool → CombatLog → ℕ → Option Entry
unfolding land_hit
observe e animations weapon_damage_dealt now_ms =
    if e.is_dead then none else some (land_hit e animations now_ms)
observe e animations damage_taken now_ms =
    if e.is_dead then none else some (record e { last_damage_taken_ms = some now_ms })
observe e animations (attack_blocked p) now_ms =
    if e.is_dead
    then none
    else some (record e { attack_issue = some (record { problem = p; observed_at_ms = now_ms }) })
observe e animations died now_ms =
    some (record default_entry { is_dead = true; rendered = e.rendered })
observe e animations revived now_ms =
    if e.is_dead then some (record default_entry { rendered = e.rendered }) else none
observe e animations other now_ms = none

abbrev pub entry_or_default : Option Entry → Entry
entry_or_default none = default_entry
entry_or_default (some e) = e

abbrev pub key_of : Center → Entry → ℕ → VisualKey
key_of c e now_ms =
    if c.enabled then visual_key e now_ms c.hit_duration_ms c.animations_enabled else neutral

-- The center after the event, with the keys before and after it; the source reports whether they
-- differ. `none` where the source returns early. The entry is there from then on in any case.
unfoldable pub apply_event : Center → ℕ → CombatLog → ℕ → Center × Option (VisualKey × VisualKey)
unfolding observe
apply_event c pid event now_ms =
    let e = entry_or_default (lookup pid c.entries) in
    if not c.enabled && not (is_durable event)
    then (c, none)
    else elim (observe e c.animations_enabled event now_ms) [
      | none ↦ (record c { entries = insert pid e c.entries }, none)
      | some d ↦ (
        record c { entries = insert pid d c.entries },
        some (key_of c e now_ms, key_of c d now_ms),
      )
    ]

unfoldable pub has_pending_transitions : Center → ℕ → Bool
unfolding any_value
has_pending_transitions c now_ms =
    c.enabled && any_value (λ e. has_pending_transition e now_ms c.hit_duration_ms) c.entries
