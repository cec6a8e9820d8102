-- ===== src/Awareness/Tests.antt =====
-- The theorems of the combat borders at concrete clients.
use stonemite.Awareness.{
  Entry, default_entry, Center, key_of, has_pending_transitions, has_pending_transition,
  damage_taken, revived, apply_event, Settings, apply_config,
}
use stonemite.Awareness.Timing.{settled_for_good, Dead, Dead-until_revived}
use stonemite.Base.Dict.{lookup, any_value}
use stonemite.Base.{◌≡◌, ◌≢◌, refl, true, false, some, [], ◌∷◌, arith}

-- A client that hit at 1000 ms, with a flash.
abbrev fighting : Entry
fighting = record default_entry {
  last_weapon_hit_ms = some 1000;
  hit_flash_until_ms = 1120;
  last_hit_flash_ms = some 1000;
}

-- The next hit, at 1400 ms, flashes again.
abbrev again : Entry
again = record fighting {
  last_weapon_hit_ms = some 1400;
  hit_flash_until_ms = 1520;
  last_hit_flash_ms = some 1400;
}

-- Client 9 fights, client 4 is dead.
abbrev center : Center
center = record {
  entries = (9, fighting) ∷ (4, record default_entry { is_dead = true }) ∷ [];
  enabled = true;
  hit_duration_ms = 1500;
  animations_enabled = true;
}

found : lookup 9 center.entries ≡ some fighting
unfolding lookup
found = refl

over : has_pending_transitions center 2500 ≡ false
unfolding has_pending_transitions has_pending_transition any_value
over = refl

settled_for_good_example : key_of center fighting 9000 ≡ key_of center fighting 2500
settled_for_good_example = settled_for_good center 9 fighting 2500 9000 found over (omega arith)

four_is_Dead : Dead center 4
unfolding lookup
four_is_Dead = refl

no_revival : damage_taken ≢ revived
no_revival = ground arith

abbrev switched_off : Settings
switched_off = record { combat_awareness_enabled = false; combat_hit_duration_ms = 1500 }

Dead-until_revived_example :
    Dead (apply_event center 4 damage_taken 3000).0 4
    × Dead (apply_config center switched_off true).0 4
Dead-until_revived_example =
    Dead-until_revived center 4 4 damage_taken switched_off true 3000 no_revival four_is_Dead
