-- ===== src/Encounters/Phases/Live.antt =====
-- What the clock keeps of `source_active`.
use stonemite.Encounters.Phases.{quieted, kept, applied}
use stonemite.Encounters.Phases.Passes.{kept_if, pass_expired}
use stonemite.Encounters.Phases.Each.{enter_rest}
use stonemite.Encounters.Phases.Each.{enter-lookup, end-lookup}
use stonemite.Encounters.Phases.Update.{update_encounter_rest}
use stonemite.Encounters.Lifecycle.{
  without_value, finalize, is_inactive, is_over, end_encounter, is_expired, enter_if_inactive,
  enter_inactive, end_if_over, end_all, remove_expired, advance_time, with_sources, all_closed,
}
use stonemite.Encounters.{
  PhaseState, active, ending, held, is_held, EncounterState, CombatPolicy, CombatEngine, keys,
}
use stonemite.Sources.{advance_sources}
use stonemite.Base.Dict.{lookup}
use stonemite.Base.{
  ℕ, ◌≡◌, ap, ◌∙◌, sym, subst, Bool, true, false, not, Option, none, some, List, [], ◌∷◌, All,
  arith, contains, ◌==◌, Bool-cases, Option-cases, inl, inr,
}

abbrev pub is_live : Option EncounterState → Bool
is_live none = false
is_live (some e) = not (is_held e.phase)

-- The active encounter of every log is there, and is not held.
abbrev pub IsTracked : CombatEngine → Type 0
IsTracked c = All (λ entry. is_live (lookup (entry.1) c.encounters) ≡ true) c.source_active

pub All-weaken :
    {P Q : ℕ × ℕ → Type 0} (entries : List (ℕ × ℕ))
    → ((entry : ℕ × ℕ) → P entry → Q entry)
    → All P entries
    → All Q entries
All-weaken [] f h = tt
All-weaken (entry ∷ rest) f (h, hs) = (f entry h, All-weaken rest f hs)

pub All-without_value :
    {P Q : ℕ × ℕ → Type 0} (id : ℕ) (entries : List (ℕ × ℕ))
    → ((entry : ℕ × ℕ) → (entry.1 == id) ≡ false → P entry → Q entry)
    → All P entries
    → All Q (without_value id entries)
unfolding without_value
All-without_value id [] f h = tt
All-without_value id ((source, at) ∷ rest) f (h, hs) = elim (Bool-cases (at == id)) [
  | inl q ↦ rw q (All-without_value id rest f hs)
  | inr q ↦ rw q (f (source, at) q h, All-without_value id rest f hs)
]

quieted_live :
    (b : Bool) (now : ℕ) (p : CombatPolicy) (o : Option EncounterState)
    → is_live o ≡ true
    → is_live (applied b (quieted now p) o) ≡ true
unfolding quieted is_inactive
quieted_live b now p none h = absurd (cc (h))
quieted_live true now p (some e) h = ground (arith, h)
quieted_live false now p (some e) h = h

enter-IsTracked :
    (now : ℕ) (c : CombatEngine) (id : ℕ)
    → IsTracked c
    → IsTracked (enter_if_inactive now c id (lookup id c.encounters))
enter-IsTracked now c id h =
    subst
      (All (λ entry.
        is_live (lookup (entry.1) (enter_if_inactive now c id (lookup id c.encounters)).encounters)
        ≡ true))
      (sym (enter_rest now c id).1.1)
      (All-weaken c.source_active
        (λ entry live.
          rw (enter-lookup now c id (entry.1))
            (quieted_live (id == entry.1) now c.policy (lookup (entry.1) c.encounters) live))
        h)

end_encounter-source_active :
    (now : ℕ) (c : CombatEngine) (id : ℕ) (p : PhaseState)
    → is_over now c.policy c.log_engine p ≡ true
    → (end_encounter now c id p).source_active ≡ without_value id c.source_active
unfolding end_encounter finalize is_over
end_encounter-source_active now c id active h = absurd (cc (h))
end_encounter-source_active now c id (held reason until) h = absurd (cc (h))
end_encounter-source_active now c id (ending reason entered_at cutoff closure_sources) h =
    elim (Bool-cases (all_closed c.log_engine cutoff closure_sources)) [
      | inl q ↦ rw q (ap (without_value id) (update_encounter_rest c id _).1.1)
      | inr q ↦ rw q (
          ap (without_value id)
            ((update_encounter_rest _ id _).1.1 ∙ (update_encounter_rest c id _).1.1))
    ]

==_flip : (id at : ℕ) → (at == id) ≡ false → (id == at) ≡ false
==_flip id at h = ground (arith, h)

when_over-IsTracked :
    (now : ℕ) (c : CombatEngine) (id : ℕ) (e : EncounterState)
    → lookup id c.encounters ≡ some e
    → is_over now c.policy c.log_engine e.phase ≡ true
    → IsTracked c
    → IsTracked (end_if_over now c id (lookup id c.encounters))
unfolding end_encounter is_over
when_over-IsTracked now c id e q over h =
    let next = end_if_over now c id (lookup id c.encounters) in
    let source_active : next.source_active ≡ without_value id c.source_active =
      rw (q, over) (end_encounter-source_active now c id e.phase over) in
    subst (All (λ entry. is_live (lookup (entry.1) next.encounters) ≡ true)) (sym source_active) (
      All-without_value id c.source_active
        (λ entry other live. rw (end-lookup now c id (entry.1), ==_flip id (entry.1) other) live) h)

end-IsTracked :
    (now : ℕ) (c : CombatEngine) (id : ℕ)
    → IsTracked c
    → IsTracked (end_if_over now c id (lookup id c.encounters))
unfolding end_encounter is_over
end-IsTracked now c id h = elim (Option-cases (lookup id c.encounters)) [
  | inl q ↦ rw q h
  | inr (e, q) ↦ elim (Bool-cases (is_over now c.policy c.log_engine e.phase)) [
    | inl over ↦ when_over-IsTracked now c id e q over h
    | inr waits ↦ rw (q, waits) h
  ]
]

-- The passes, one after the other.
enter_all-IsTracked :
    (now : ℕ) (ids : List ℕ) (c : CombatEngine) → IsTracked c → IsTracked (enter_inactive now ids c)
unfolding enter_inactive
enter_all-IsTracked now [] c h = h
enter_all-IsTracked now (id ∷ ids) c h = enter_all-IsTracked now ids _ (enter-IsTracked now c id h)

end_all-IsTracked :
    (now : ℕ) (ids : List ℕ) (c : CombatEngine) → IsTracked c → IsTracked (end_all now ids c)
unfolding end_all
end_all-IsTracked now [] c h = h
end_all-IsTracked now (id ∷ ids) c h = end_all-IsTracked now ids _ (end-IsTracked now c id h)

kept_live :
    (b : Bool) (now : ℕ) (o : Option EncounterState)
    → is_live o ≡ true
    → is_live (kept_if now b o) ≡ true
unfolding kept is_expired
kept_live b now none h = h
kept_live true now (some e) h = ground (arith, h)
kept_live false now (some e) h = h

expired-IsTracked : (now : ℕ) (c : CombatEngine) → IsTracked c → IsTracked (remove_expired now c)
unfolding remove_expired
expired-IsTracked now c h =
    All-weaken c.source_active
      (λ entry live. rw (pass_expired now (keys c.encounters) (entry.1) c.encounters) (
        kept_live (contains (entry.1) (keys c.encounters)) now (lookup (entry.1) c.encounters)
          live))
      h

-- If the active encounter of every log exists and is not held, that is so also after a look at the
-- clock: with an encounter that is held goes every entry that names it, and only held ones are removed.
pub advance_time-IsTracked : (c : CombatEngine) → IsTracked c → IsTracked (advance_time c)
unfolding advance_time
advance_time-IsTracked c h =
    let now = c.log_engine.now in
    let closed = with_sources c (advance_sources c.log_engine) in
    let inactive = enter_inactive now (keys closed.encounters) closed in
    expired-IsTracked now (end_all now (keys inactive.encounters) inactive) (
      end_all-IsTracked now (keys inactive.encounters) inactive
        (enter_all-IsTracked now (keys closed.encounters) closed h))
