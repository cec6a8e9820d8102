-- ===== src/Encounters/Phases/Rules.antt =====
-- What the passes do to the policy and the sources.
use stonemite.Encounters.Lifecycle.{
  set_ending, enter_ending, finalize, is_inactive, all_closed, is_over, end_encounter,
  enter_if_inactive, end_if_over,
}
use stonemite.Encounters.{
  inactivity, PhaseState, active, ending, held, EncounterState, CombatEngine, update_encounter,
}
use stonemite.Base.{ℕ, ◌≡◌, refl, ◌∙◌, inl, inr, Option, none, some, Bool-cases}
use stonemite.Encounters.Phases.Update.{update_encounter_rest}
use stonemite.Encounters.Phases.Each.{held_for, partly_open}

-- What the passes leave alone.
abbrev pub HasSameRules : CombatEngine → CombatEngine → Type 0
HasSameRules c d = (d.policy ≡ c.policy) × (d.log_engine ≡ c.log_engine)

update-HasSameRules :
    (c : CombatEngine) (id : ℕ) (f : EncounterState → EncounterState)
    → HasSameRules c (update_encounter c id f)
update-HasSameRules c id f = ((update_encounter_rest c id f).0, (update_encounter_rest c id f).1.0)

end_encounter-HasSameRules :
    (now : ℕ) (c : CombatEngine) (id : ℕ) (p : PhaseState)
    → HasSameRules c (end_encounter now c id p)
unfolding end_encounter finalize
end_encounter-HasSameRules now c id active = (refl, refl)
end_encounter-HasSameRules now c id (held reason until) = (refl, refl)
end_encounter-HasSameRules now c id (ending reason entered_at cutoff closure_sources) =
    elim (Bool-cases (all_closed c.log_engine cutoff closure_sources)) [
      | inl q ↦ rw q (update-HasSameRules c id _)
      | inr q ↦
          let marked = update_encounter c id (partly_open c.log_engine cutoff closure_sources) in
          let (same_policy, same_logs) =
            update-HasSameRules marked id (held_for reason now marked.policy) in
          let (first_policy, first_logs) = update-HasSameRules c id _ in
          rw q (same_policy ∙ first_policy, same_logs ∙ first_logs)
    ]

pub end_if_over-HasSameRules :
    (now : ℕ) (c : CombatEngine) (id : ℕ) (o : Option EncounterState)
    → HasSameRules c (end_if_over now c id o)
unfolding end_encounter is_over
end_if_over-HasSameRules now c id none = (refl, refl)
end_if_over-HasSameRules now c id (some e) =
    elim (Bool-cases (is_over now c.policy c.log_engine e.phase)) [
      | inl q ↦ rw q (end_encounter-HasSameRules now c id e.phase)
      | inr q ↦ rw q (refl, refl)
    ]

pub enter_if_inactive-HasSameRules :
    (now : ℕ) (c : CombatEngine) (id : ℕ) (o : Option EncounterState)
    → HasSameRules c (enter_if_inactive now c id o)
unfolding enter_ending is_inactive
enter_if_inactive-HasSameRules now c id none = (refl, refl)
enter_if_inactive-HasSameRules now c id (some e) = elim (Bool-cases (is_inactive now c.policy e)) [
  | inl q ↦ rw q (update-HasSameRules c id (set_ending inactivity now e.last_sustain_eq))
  | inr q ↦ rw q (refl, refl)
]
