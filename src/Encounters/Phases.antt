-- ===== src/Encounters/Phases.antt =====
-- The phases of an encounter as the clock goes on, each encounter by itself.
pub mod Update
pub mod Each
pub mod Rules
pub mod Passes
pub mod Live
use mathlib.Core.Option
use stonemite.Encounters.Lifecycle.{
  set_ending, enter_ending, without_value, finalize, is_inactive, source_is_closed, mark_open,
  all_closed, is_over, end_encounter, is_expired, enter_if_inactive, enter_inactive, end_if_over,
  end_all, has_expired, without_expired, remove_expired, with_sources, advance_time,
}
use stonemite.Encounters.{
  EndReason, inactivity, PhaseState, active, ending, held, EncounterState, CombatPolicy,
  CombatEngine, keys, update_encounter, saturating_add,
}
use stonemite.Sources.{Engine, advance_sources}
use stonemite.Base.Dict.{lookup, insert, lookup-insert, remove, lookup-remove}
use stonemite.Base.{
  ℕ, ◌-◌, ◌≡◌, refl, ap, ◌∙◌, sym, ◌≢◌, inl, inr, Bool, true, false, ◌||◌, Option, none, some, List,
  [], ◌∷◌, contains, arith, leb, ℕ_discrete, subst, ==_refl, ==_ne, Option-cases, Bool-cases, ◌==◌,
  is_some, if◌then◌else◌,
}

-- What a look at the clock makes of an encounter, in three steps: an active one that nothing
-- sustained for long enough enters its ending; an ending one whose sources have all closed its
-- cutoff, or that has waited long enough, is held; a held one goes when its time is out.
unfoldable pub quieted : ℕ → CombatPolicy → EncounterState → EncounterState
unfolding is_inactive
quieted now p e = if is_inactive now p e then set_ending inactivity now e.last_sustain_eq e else e

unfoldable pub ended : ℕ → CombatPolicy → Engine → EncounterState → EncounterState
unfolding is_over all_closed mark_open
ended now p logs e = elim e.phase [
  | ending reason entered_at cutoff closure_sources ↦
      if is_over now p logs (ending reason entered_at cutoff closure_sources)
      then record e {
        phase = held reason (saturating_add now p.held_ms);
        partial_sources =
            if all_closed logs cutoff closure_sources
            then e.partial_sources
            else mark_open logs cutoff closure_sources e.partial_sources;
      }
      else e
  | _ ↦ e
]

unfoldable pub kept : ℕ → EncounterState → Option EncounterState
unfolding is_expired
kept now e = if is_expired now e.phase then none else some e

abbrev pub advanced : ℕ → CombatPolicy → Engine → Option EncounterState → Option EncounterState
unfolding quieted ended kept
advanced now p logs none = none
advanced now p logs (some e) = kept now (ended now p logs (quieted now p e))

-- `f` on the encounter if the id is the one meant.
abbrev pub applied :
    Bool → (EncounterState → EncounterState) → Option EncounterState → Option EncounterState
applied true f o = Option.map f o
applied false f o = o
