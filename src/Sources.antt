-- ===== src/Sources.antt =====
-- crates/eqcombat/src/engine.rs: what the combat engine keeps of each log source, and which records
-- it takes. An `EqSecond` is an i64, written as that number plus 2 ^ 63. The text of a source id
-- is a number, and so are the server and the character of a source together (`descriptor`).
-- Encounters, the ledger, diagnostics and zones are left out.
pub mod Closed
pub mod Order
mod Tests
use stonemite.Base.Dict.{lookup, insert, map_values}
use stonemite.Base.{
  ℕ, zero, suc, ◌+◌, ◌-◌, ◌%◌, min, max, Bool, true, false, not, ◌&&◌, ◌||◌, Option, none, some,
  List, [], ◌∷◌, ◌++◌, length, drop, any, is_some, is_value, ltb, leb, ◌==◌, if◌then◌else◌,
}

-- 2 ^ 64
abbrev pub u64_mod : ℕ
u64_mod = 18446744073709551616

pub record SourceState : Type 0 where
  pub descriptor : ℕ
  pub generation : ℕ
  pub present : Bool
  pub registered_at : ℕ
  pub continuity : ℕ
  pub observed : Option ℕ
  pub closed_through : Option ℕ
  pub history_floor : Option ℕ
  pub last_progress_at : ℕ
  pub last_sequence : Option ℕ
  pub eof_second : Option ℕ
  pub eof_first_at : Option ℕ
  pub eof_passes : ℕ

pub data GapReason : Type 0 where
  file_recreated file_truncated boundary_changed oversized_record : GapReason
  discard_until_newline source_reassociated calendar_regression : GapReason
  out_of_order_closed_second generation_changed : GapReason

-- The reasons that make the seconds seen so far meaningless.
abbrev pub is_restart : GapReason → Bool
is_restart file_recreated = true
is_restart file_truncated = true
is_restart boundary_changed = true
is_restart source_reassociated = true
is_restart generation_changed = true
is_restart r = false

-- `max` of two options, of which `None` is the least.
abbrev pub later : Option ℕ → Option ℕ → Option ℕ
later none b = b
later (some a) none = some a
later (some a) (some b) = some (max a b)

-- `is_some_and(|x| value < x)` and `is_some_and(|x| value <= x)`.
abbrev pub precedes : ℕ → Option ℕ → Bool
precedes value none = false
precedes value (some x) = ltb value x

abbrev pub reaches : ℕ → Option ℕ → Bool
reaches value none = false
reaches value (some x) = leb value x

unfoldable pub first_state : ℕ → ℕ → ℕ → SourceState
first_state descriptor generation now = record {
  descriptor = descriptor;
  generation = generation;
  present = true;
  registered_at = now;
  continuity = 0;
  observed = none;
  closed_through = none;
  history_floor = none;
  last_progress_at = now;
  last_sequence = none;
  eof_second = none;
  eof_first_at = none;
  eof_passes = 0;
}

unfoldable pub register_known : SourceState → ℕ → ℕ → ℕ → SourceState
register_known s descriptor generation now =
    let discontinuity =
      not (s.generation == generation) || not (s.descriptor == descriptor) || not s.present in
    if discontinuity
    then record {
      descriptor = descriptor;
      generation = generation;
      present = true;
      registered_at = now;
      continuity = (s.continuity + 1) % u64_mod;
      observed = none;
      closed_through = none;
      history_floor = later s.history_floor s.closed_through;
      last_progress_at = now;
      last_sequence = none;
      eof_second = none;
      eof_first_at = none;
      eof_passes = 0;
    }
    else record s { descriptor = descriptor; present = true }

unfoldable pub mark_gap : SourceState → ℕ → GapReason → SourceState
mark_gap s generation reason = record s {
  history_floor = later s.history_floor s.closed_through;
  continuity = (s.continuity + 1) % u64_mod;
  generation = generation;
  last_sequence = none;
  eof_second = none;
  eof_first_at = none;
  eof_passes = 0;
  observed = if is_restart reason then none else s.observed;
  closed_through = if is_restart reason then none else s.closed_through;
}

abbrev pub count_eof : SourceState → ℕ → Option ℕ → SourceState
count_eof s now none = s
count_eof s now (some observed) =
    if is_value s.eof_second observed
    then record s { eof_passes = min (s.eof_passes + 1) 255 }
    else record s { eof_second = some observed; eof_first_at = some now; eof_passes = 1 }

unfoldable pub note_stable_eof : SourceState → ℕ → ℕ → SourceState
note_stable_eof s generation now =
    if not (s.generation == generation) then s else count_eof s now s.observed

pub record RecordId : Type 0 where
  pub id_source : ℕ
  pub id_generation : ℕ
  pub id_sequence : ℕ

pub record CombatRecord : Type 0 where
  pub id : RecordId
  pub source : ℕ
  pub source_descriptor : ℕ
  pub eq_time : Option ℕ

-- The gap that a record opens, by its generation and then by its second, the latter prevailing.
abbrev pub gap_of_time : SourceState → Option ℕ → Option GapReason → Option GapReason
gap_of_time s none gap = gap
gap_of_time s (some eq_time) gap =
    if precedes eq_time s.observed
    then some calendar_regression
    else if reaches eq_time s.closed_through
    then some out_of_order_closed_second
    else gap

unfoldable pub gap_of : SourceState → CombatRecord → Option GapReason
gap_of s r =
    gap_of_time s r.eq_time
      (if ltb s.generation r.id.id_generation then some generation_changed else none)

unfoldable pub is_obsolete : SourceState → CombatRecord → Bool
is_obsolete s r = ltb r.id.id_generation s.generation

unfoldable pub is_replayed : SourceState → CombatRecord → Bool
is_replayed s r =
    not (ltb s.generation r.id.id_generation) && reaches r.id.id_sequence s.last_sequence

abbrev pub with_gap : SourceState → ℕ → Option GapReason → SourceState
with_gap s generation none = s
with_gap s generation (some reason) = mark_gap s generation reason

-- `eq_time.checked_add(-1).unwrap_or(previous)`, and the maximum with what is closed.
abbrev pub close_before : SourceState → ℕ → Option ℕ → Option ℕ
close_before s eq_time none = s.closed_through
close_before s eq_time (some previous) =
    later s.closed_through (some (if eq_time == 0 then previous else eq_time - 1))

abbrev pub is_news : ℕ → Option ℕ → Bool
is_news eq_time none = true
is_news eq_time (some observed) = ltb observed eq_time

abbrev pub advance : SourceState → ℕ → Option ℕ → SourceState
advance s now none = s
advance s now (some eq_time) =
    let news = is_news eq_time s.observed in
    record s {
      closed_through = if news then close_before s eq_time s.observed else s.closed_through;
      observed = if news then some eq_time else s.observed;
      last_progress_at = if news then now else s.last_progress_at;
      eof_second = none;
      eof_first_at = none;
      eof_passes = 0;
    }

-- What a record that is taken does to its source.
unfoldable pub take_record : SourceState → CombatRecord → ℕ → SourceState
unfolding gap_of mark_gap
take_record s r now =
    let g = with_gap s r.id.id_generation (gap_of s r) in
    advance
      (record g {
        generation = r.id.id_generation;
        last_sequence = some r.id.id_sequence;
        present = true;
      })
      now r.eq_time

-- How `apply_record` goes on: `rejected` is `return false`, `untimed` and `replay_history` are
-- `return true` with nothing counted, and from `counted` on its events reach the ledger.
pub data Outcome : Type 0 where
  rejected untimed replay_history counted : Outcome

abbrev pub outcome_of : Option ℕ → Option ℕ → Outcome
outcome_of none history_floor = untimed
outcome_of (some eq_time) history_floor =
    if reaches eq_time history_floor then replay_history else counted

-- `now`, and two bounds of the policy.
pub record Engine : Type 0 where
  pub sources : List (ℕ × SourceState)
  pub accepted : List RecordId
  pub now : ℕ
  pub max_record_ids : ℕ
  pub stable_eof_ms : ℕ

abbrev pub same_id : RecordId → RecordId → Bool
same_id a b =
    a.id_source == b.id_source
    && a.id_generation == b.id_generation
    && a.id_sequence == b.id_sequence

-- `accepted_order` with its set `accepted`: the oldest are dropped beyond the bound.
abbrev pub remember : Engine → RecordId → List RecordId
remember e id = drop (length (e.accepted ++ id ∷ []) - e.max_record_ids) (e.accepted ++ id ∷ [])

unfoldable pub register_source : Engine → ℕ → ℕ → ℕ → ℕ → Engine
unfolding register_known first_state
register_source e source descriptor generation now = record e {
  sources =
      insert source
        (elim (lookup source e.sources) [
          | none ↦ first_state descriptor generation now
          | some s ↦ register_known s descriptor generation now
        ])
        e.sources;
}

-- The source that the record finds, registered on the spot if it is not known.
abbrev pub found_or_first : Option SourceState → CombatRecord → ℕ → SourceState
found_or_first none r now = first_state r.source_descriptor r.id.id_generation now
found_or_first (some s) r now = s

unfoldable pub apply_record : Engine → CombatRecord → ℕ → Engine × Outcome
apply_record e r now =
    let s = found_or_first (lookup r.source e.sources) r now in
    let t = take_record s r now in
    if not (r.id.id_source == r.source) || any (same_id r.id) e.accepted
    then (e, rejected)
    else if is_obsolete s r || is_replayed s r
    then (record e { sources = insert r.source s e.sources }, rejected)
    else (
      record e { sources = insert r.source t e.sources; accepted = remember e r.id },
      outcome_of r.eq_time t.history_floor,
    )

pub data EngineInput : Type 0 where
  source_registered : (source descriptor generation : ℕ) → EngineInput
  source_removed : (source : ℕ) → EngineInput
  source_gap : (source generation : ℕ) → GapReason → EngineInput
  source_stable_eof : (source generation : ℕ) → EngineInput
  record_read : CombatRecord → EngineInput

-- `if let Some(state) = self.sources.get_mut(&source)`.
abbrev pub update_source : Engine → ℕ → (SourceState → SourceState) → Engine
update_source e source f = elim (lookup source e.sources) [
  | none ↦ e
  | some s ↦ record e { sources = insert source (f s) e.sources }
]

-- The match of `CombatEngine::apply`, as far as it goes to the sources.
unfoldable pub receive : Engine → ℕ → EngineInput → Engine
receive e now (source_registered source descriptor generation) =
    register_source e source descriptor generation now
receive e now (source_removed source) = update_source e source (λ s. record s { present = false })
receive e now (source_gap source generation reason) =
    update_source e source (λ s. mark_gap s generation reason)
receive e now (source_stable_eof source generation) =
    update_source e source (λ s. note_stable_eof s generation now)
receive e now (record_read r) = (apply_record e r now).0

-- `is_some_and(|first| now - first >= span)`, saturating.
abbrev pub has_passed : Option ℕ → ℕ → ℕ → Bool
has_passed none now span = false
has_passed (some first) now span = leb span (now - first)

-- A file that ended twice in the same second, and some time ago, closes that second too.
unfoldable pub close_at_eof : ℕ → ℕ → SourceState → SourceState
close_at_eof now stable_eof_ms s =
    if leb 2 s.eof_passes && has_passed s.eof_first_at now stable_eof_ms
    then record s { closed_through = later s.closed_through s.observed }
    else s

-- The loop of `advance_time` over the sources.
unfoldable pub advance_sources : Engine → Engine
unfolding map_values
advance_sources e = record e { sources = map_values (close_at_eof e.now e.stable_eof_ms) e.sources }

abbrev pub clocked : Engine → ℕ → Engine
clocked e now = record e { now = max e.now now }

-- `CombatEngine::apply` and `CombatEngine::tick`.
unfoldable pub apply : Engine → ℕ → EngineInput → Engine
apply e now i = advance_sources (receive (clocked e now) now i)

unfoldable pub tick : Engine → ℕ → Engine
tick e now = advance_sources (clocked e now)
