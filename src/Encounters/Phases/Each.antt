-- ===== src/Encounters/Phases/Each.antt =====
-- What the first two passes do to one encounter.
use stonemite.Encounters.Lifecycle.{
  set_ending, enter_ending, finalize, is_inactive, mark_open, all_closed, is_over, end_encounter,
  enter_if_inactive, end_if_over,
}
use stonemite.Encounters.{
  EndReason, inactivity, PhaseState, active, ending, held, EncounterState, CombatPolicy,
  CombatEngine, update_encounter, saturating_add,
}
use stonemite.Sources.{Engine}
use stonemite.Base.Dict.{lookup}
use stonemite.Base.{
  ℕ, ◌≡◌, refl, ap, ◌∙◌, inl, inr, true, false, some, List, arith, Option-cases, Bool-cases, ◌==◌,
}
use stonemite.Encounters.Phases.{quieted, ended, applied}
use stonemite.Encounters.Phases.Update.{
  applied-none, lookup-insert-applied, applied_same, update_known, lookup-update_encounter,
  update_encounter_rest, applied_agree, applied_twice,
}

pub enter-lookup :
    (now : ℕ) (c : CombatEngine) (id k : ℕ)
    → lookup k (enter_if_inactive now c id (lookup id c.encounters)).encounters
      ≡ applied (id == k) (quieted now c.policy) (lookup k c.encounters)
unfolding enter_ending quieted
enter-lookup now c id k = elim (Option-cases (lookup id c.encounters)) [
  | inl h ↦ rw h (applied-none id k (quieted now c.policy) c.encounters h)
  | inr (e, h) ↦ elim (Bool-cases (is_inactive now c.policy e)) [
    | inl q ↦
        rw (h, q)
          (rw (update_known c id (set_ending inactivity now e.last_sustain_eq) e h)
            (lookup-insert-applied id k (quieted now c.policy) c.encounters e _ h (rw q refl)))
    | inr q ↦ rw (h, q) (applied_same id k (quieted now c.policy) c.encounters e h (rw q refl))
  ]
]

pub enter_rest :
    (now : ℕ) (c : CombatEngine) (id : ℕ)
    → ((enter_if_inactive now c id (lookup id c.encounters)).policy ≡ c.policy)
      × (((enter_if_inactive now c id (lookup id c.encounters)).log_engine ≡ c.log_engine)
          × ((enter_if_inactive now c id (lookup id c.encounters)).source_active ≡ c.source_active))
unfolding enter_ending quieted update_encounter
enter_rest now c id = ground arith

pub quieted_again :
    (now : ℕ) (p : CombatPolicy) (e : EncounterState)
    → quieted now p (quieted now p e) ≡ quieted now p e
unfolding quieted is_inactive
quieted_again now p e = ground arith

pub ended_again :
    (now : ℕ) (p : CombatPolicy) (logs : Engine) (e : EncounterState)
    → ended now p logs (ended now p logs e) ≡ ended now p logs e
unfolding ended is_over
ended_again now p logs e = ground arith

abbrev pub held_for : EndReason → ℕ → CombatPolicy → EncounterState → EncounterState
held_for reason now p e = record e { phase = held reason (saturating_add now p.held_ms) }

abbrev pub partly_open : Engine → ℕ → List ℕ → EncounterState → EncounterState
unfolding mark_open
partly_open logs cutoff closure_sources e = record e {
  partial_sources = mark_open logs cutoff closure_sources e.partial_sources;
}

finalize-lookup :
    (c : CombatEngine) (id k : ℕ) (reason : EndReason) (now : ℕ)
    → lookup k (finalize c id reason now).encounters
      ≡ applied (id == k) (held_for reason now c.policy) (lookup k c.encounters)
unfolding finalize
finalize-lookup c id k reason now = lookup-update_encounter c id k (held_for reason now c.policy)

end_encounter-lookup :
    (now : ℕ) (c : CombatEngine) (id k : ℕ) (e : EncounterState) (p : PhaseState)
    → lookup id c.encounters ≡ some e
    → e.phase ≡ p
    → is_over now c.policy c.log_engine p ≡ true
    → lookup k (end_encounter now c id p).encounters
      ≡ applied (id == k) (ended now c.policy c.log_engine) (lookup k c.encounters)
unfolding end_encounter ended
end_encounter-lookup now c id k e (ending reason entered_at cutoff closure_sources) h phase over =
    elim (Bool-cases (all_closed c.log_engine cutoff closure_sources)) [
      | inl q ↦ rw q (
          finalize-lookup c id k reason now
          ∙ applied_agree id k _ (ended now c.policy c.log_engine) c.encounters e h
              (rw (phase, over, q) refl))
      | inr q ↦
          let marked = update_encounter c id (partly_open c.log_engine cutoff closure_sources) in
          rw q (
            finalize-lookup marked id k reason now
            ∙ ap (λ p. applied (id == k) (held_for reason now p) (lookup k marked.encounters))
                (update_encounter_rest c id _).0
            ∙ ap (applied (id == k) (held_for reason now c.policy))
                (lookup-update_encounter c id k (partly_open c.log_engine cutoff closure_sources))
            ∙ applied_twice (id == k) _ _ (lookup k c.encounters)
            ∙ applied_agree id k _ (ended now c.policy c.log_engine) c.encounters e h
                (rw (phase, over, q) refl))
    ]
end_encounter-lookup now c id k e active h phase over = absurd (cc (over))
end_encounter-lookup now c id k e (held reason until) h phase over = absurd (cc (over))

not_over :
    (now : ℕ) (p : CombatPolicy) (logs : Engine) (e : EncounterState)
    → is_over now p logs e.phase ≡ false
    → ended now p logs e ≡ e
unfolding ended is_over
not_over now p logs e q = ground (arith, q)

pub end-lookup :
    (now : ℕ) (c : CombatEngine) (id k : ℕ)
    → lookup k (end_if_over now c id (lookup id c.encounters)).encounters
      ≡ applied (id == k) (ended now c.policy c.log_engine) (lookup k c.encounters)
unfolding end_encounter is_over
end-lookup now c id k = elim (Option-cases (lookup id c.encounters)) [
  | inl h ↦ rw h (applied-none id k _ c.encounters h)
  | inr (e, h) ↦ elim (Bool-cases (is_over now c.policy c.log_engine e.phase)) [
    | inl q ↦ rw (h, q) (end_encounter-lookup now c id k e e.phase h refl q)
    | inr q ↦
        rw (h, q) (applied_same id k _ c.encounters e h (not_over now c.policy c.log_engine e q))
  ]
]
