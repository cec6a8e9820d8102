-- ===== src/Awareness/Timing.antt =====
-- When the picture of a client can change by time alone, and how often it flashes.
use stonemite.Awareness.{
  Entry, visual_key, has_pending_transition, Center, key_of, has_pending_transitions, CombatLog,
  weapon_damage_dealt, damage_taken, died, revived, other, attack_blocked, observe, apply_event,
  entry_or_default, Settings, apply_config,
}
use stonemite.Base.Dict.{lookup, any_value, lookup-insert, lookup-map_values}
use stonemite.Base.{
  ℕ, ◌≤◌, ◌≡◌, ◌≢◌, refl, ◌⊎◌, inl, inr, Bool, true, false, Option, none, some, List, [], ◌∷◌,
  arith, Option-cases,
}

settled :
    (e : Entry) (now_ms later span : ℕ) (animations : Bool)
    → has_pending_transition e now_ms span ≡ false
    → now_ms ≤ later
    → visual_key e later span animations ≡ visual_key e now_ms span animations
unfolding visual_key has_pending_transition
settled e now_ms later span animations quiet after = ground arith

settled_entry :
    (es : List (ℕ × Entry)) (e : Entry) (pid now_ms span : ℕ)
    → any_value (λ d. has_pending_transition d now_ms span) es ≡ false
    → lookup pid es ≡ some e
    → has_pending_transition e now_ms span ≡ false
unfolding lookup any_value
settled_entry [] e pid now_ms span quiet found = cc
settled_entry ((j, d) ∷ es) e pid now_ms span quiet found =
    ground (arith, settled_entry es e pid now_ms span)

-- The redraw timer may stop when nothing is pending: from a moment at which no transition is
-- pending, the key of every client stays what it is for good, until the next event.
pub settled_for_good :
    (c : Center) (pid : ℕ) (e : Entry) (now_ms later : ℕ)
    → lookup pid c.entries ≡ some e
    → has_pending_transitions c now_ms ≡ false
    → now_ms ≤ later
    → key_of c e later ≡ key_of c e now_ms
unfolding has_pending_transitions
settled_for_good c pid e now_ms later found quiet after = ground (
  arith,
  settled_entry c.entries e pid now_ms c.hit_duration_ms,
  settled e now_ms later c.hit_duration_ms c.animations_enabled,
)

-- A character is on record as dead.
abbrev pub dead_entry : Option Entry → Bool
dead_entry none = false
dead_entry (some e) = e.is_dead

abbrev pub Dead : Center → ℕ → Type 0
Dead c pid = dead_entry (lookup pid c.entries) ≡ true

observe_dead :
    (e : Entry) (animations : Bool) (event : CombatLog) (now_ms : ℕ)
    → event ≢ revived
    → e.is_dead ≡ true
    → (observe e animations event now_ms ≡ none)
      ⊎ (dead_entry (observe e animations event now_ms) ≡ true)
unfolding observe
observe_dead e animations weapon_damage_dealt now_ms ne h = inl (rw h)
observe_dead e animations damage_taken now_ms ne h = inl (rw h)
observe_dead e animations (attack_blocked p) now_ms ne h = inl (rw h)
observe_dead e animations died now_ms ne h = inr refl
observe_dead e animations revived now_ms ne h = absurd (ne refl)
observe_dead e animations other now_ms ne h = inl refl

apply_event-Dead :
    (c : Center) (pid at : ℕ) (event : CombatLog) (now_ms : ℕ)
    → event ≢ revived
    → Dead c pid
    → Dead (apply_event c at event now_ms).0 pid
unfolding apply_event
apply_event-Dead c pid at event now_ms ne gone =
    let e = entry_or_default (lookup at c.entries) in
    let kept = observe_dead e c.animations_enabled event now_ms ne in
    elim (Option-cases (observe e c.animations_enabled event now_ms)) [
      | inl out ↦ ground (arith, out, lookup-insert at pid e c.entries)
      | inr (d, out) ↦ ground (arith, out, kept, lookup-insert at pid d c.entries)
    ]

-- Death outlives everything but a revival: no other log event of any client, and no change of the
-- settings, takes a dead character off the record.
pub Dead-until_revived :
    (c : Center) (pid at : ℕ) (event : CombatLog) (cfg : Settings) (animations : Bool) (now_ms : ℕ)
    → event ≢ revived
    → Dead c pid
    → Dead (apply_event c at event now_ms).0 pid × Dead (apply_config c cfg animations).0 pid
unfolding apply_config
Dead-until_revived c pid at event cfg animations now_ms ne gone =
    (apply_event-Dead c pid at event now_ms ne gone, grind (arith, lookup-map_values))
