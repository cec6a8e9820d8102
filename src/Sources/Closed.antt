-- ===== src/Sources/Closed.antt =====
-- The seconds that are closed, and which records are counted.
use stonemite.Sources.{
  SourceState, GapReason, first_state, register_known, mark_gap, note_stable_eof, CombatRecord,
  gap_of, is_obsolete, is_replayed, take_record, Outcome, rejected, counted, outcome_of, Engine,
  apply_record, found_or_first, register_source, EngineInput, source_registered, source_removed,
  source_gap, source_stable_eof, record_read, update_source, remember, same_id, apply, tick,
  receive, clocked, close_at_eof, advance_sources,
}
use stonemite.Base.Dict.{lookup, insert, lookup-insert, lookup-map_values}
use mathlib.Core.Option
use stonemite.Base.{
  ℕ, suc, max, ◌≤◌, ◌≡◌, refl, inl, inr, Bool, true, false, Option, none, some, arith, not, any,
  ◌||◌, ℕ_discrete, ==_refl, subst, Option-cases, List, [], ◌∷◌, ◌==◌, if◌then◌else◌,
}

-- How many seconds are closed, counted from the least: none, or those through the given one.
abbrev pub seconds_through : Option ℕ → ℕ
seconds_through none = 0
seconds_through (some second) = suc second

-- The seconds of the source that are closed now or were closed before a gap.
abbrev pub settled : SourceState → ℕ
settled s = max (seconds_through s.history_floor) (seconds_through s.closed_through)

-- No second is closed beyond the latest one that was observed.
abbrev pub IsOrdered : SourceState → Type 0
IsOrdered s = seconds_through s.closed_through ≤ seconds_through s.observed

abbrev pub Grows : SourceState → SourceState → Type 0
Grows s t = IsOrdered t × (settled s ≤ settled t)

register-Grows :
    (s : SourceState) (descriptor generation now : ℕ)
    → IsOrdered s
    → Grows s (register_known s descriptor generation now)
unfolding register_known
register-Grows s descriptor generation now v = ground arith

gap-Grows :
    (s : SourceState) (generation : ℕ) (reason : GapReason)
    → IsOrdered s
    → Grows s (mark_gap s generation reason)
unfolding mark_gap
gap-Grows s generation reason v = ground arith

eof-Grows :
    (s : SourceState) (generation now : ℕ)
    → IsOrdered s
    → Grows s (note_stable_eof s generation now)
unfolding note_stable_eof
eof-Grows s generation now v = ground arith

take-Grows :
    (s : SourceState) (r : CombatRecord) (now : ℕ) → IsOrdered s → Grows s (take_record s r now)
unfolding take_record gap_of mark_gap
take-Grows s r now v = ground arith

close-Grows : (now stable : ℕ) (s : SourceState) → IsOrdered s → Grows s (close_at_eof now stable s)
unfolding close_at_eof
close-Grows now stable s v = ground arith

abbrev pub OrderedIf : Option SourceState → Type 0
OrderedIf none = Unit
OrderedIf (some s) = IsOrdered s

abbrev pub settled_if : Option SourceState → ℕ
settled_if none = 0
settled_if (some s) = settled s

abbrev pub settled_at : Engine → ℕ → ℕ
settled_at e source = settled_if (lookup source e.sources)

abbrev pub OrderedAt : Engine → ℕ → Type 0
OrderedAt e source = OrderedIf (lookup source e.sources)

abbrev pub Keeps : Engine → Engine → ℕ → Type 0
Keeps e f source = OrderedAt f source × (settled_at e source ≤ settled_at f source)

first-IsOrdered :
    (descriptor generation now : ℕ) → IsOrdered (first_state descriptor generation now)
unfolding first_state
first-IsOrdered descriptor generation now = omega arith

found-Grows :
    (found : Option SourceState) (r : CombatRecord) (now : ℕ)
    → OrderedIf found
    → IsOrdered (found_or_first found r now)
      × (settled_if found ≤ settled (found_or_first found r now))
unfolding first_state
found-Grows none r now v = (omega arith, omega arith)
found-Grows (some s) r now v = (v, omega arith)

update-Keeps :
    (e : Engine) (at source : ℕ) (f : SourceState → SourceState)
    → OrderedAt e source
    → ((s : SourceState) → IsOrdered s → Grows s (f s))
    → Keeps e (update_source e at f) source
update-Keeps e at source f v grows = elim (Option-cases (lookup at e.sources)) [
  | inl out ↦ ground (arith, out)
  | inr (s, out) ↦ ground (arith, out, lookup-insert at source (f s) e.sources, grows s)
]

insert-Keeps :
    (e f : Engine) (at source : ℕ) (t : SourceState)
    → f.sources ≡ insert at t e.sources
    → OrderedAt e source
    → (OrderedAt e at → IsOrdered t × (settled_at e at ≤ settled t))
    → Keeps e f source
insert-Keeps e f at source t is v grows = elim (ℕ_discrete at source) [
  | yes same ↦
      let now_at : lookup source f.sources ≡ some t =
        rw (is, lookup-insert at source t e.sources, same, ==_refl source) refl in
      rw now_at
        (subst (λ n. OrderedAt e n → IsOrdered t × (settled_at e n ≤ settled t)) same grows v)
  | no other ↦
      let as_before : lookup source f.sources ≡ lookup source e.sources =
        rw (is, lookup-insert at source t e.sources) (ground (arith, other)) in
      rw as_before (v, omega arith)
]

register-Keeps :
    (e : Engine) (at descriptor generation now source : ℕ)
    → OrderedAt e source
    → Keeps e (register_source e at descriptor generation now) source
unfolding register_source
register-Keeps e at descriptor generation now source v =
    insert-Keeps e (register_source e at descriptor generation now) at source _ refl v
      (registered (lookup at e.sources))
  where
    registered :
        (found : Option SourceState)
        → OrderedIf found
        → let t : SourceState = elim found [
          | none ↦ first_state descriptor generation now
          | some s ↦ register_known s descriptor generation now
        ] in
          IsOrdered t × (settled_if found ≤ settled t)
    registered none w = (first-IsOrdered descriptor generation now, omega arith)
    registered (some s) w = register-Grows s descriptor generation now w

record-Keeps :
    (e : Engine) (r : CombatRecord) (now source : ℕ)
    → OrderedAt e source
    → Keeps e (apply_record e r now).0 source
unfolding apply_record
record-Keeps e r now source v =
    let found = lookup r.source e.sources in
    let s = found_or_first found r now in
    let t = take_record s r now in
    let seen : Engine = record e { sources = insert r.source s e.sources } in
    let taken : Engine = record e {
      sources = insert r.source t e.sources;
      accepted = remember e r.id;
    } in
    let kept = insert-Keeps e seen r.source source s refl v (found-Grows found r now) in
    let moved = insert-Keeps e taken r.source source t refl v (λ w.
      let (ordered, grown) = found-Grows found r now w in
      let (o, g) = take-Grows s r now ordered in (o, omega (arith, grown, g))) in
    cases seen taken (outcome_of r.eq_time t.history_floor) kept moved
      (not (r.id.id_source == r.source) || any (same_id r.id) e.accepted)
      (is_obsolete s r || is_replayed s r)
  where
    cases :
        (seen taken : Engine) (o : Outcome)
        → Keeps e seen source
        → Keeps e taken source
        → (a b : Bool)
        → let next : Engine × Outcome =
            if a then (e, rejected) else if b then (seen, rejected) else (taken, o) in
          Keeps e next.0 source
    cases seen taken o k m true b = (v, omega arith)
    cases seen taken o k m false true = k
    cases seen taken o k m false false = m

receive-Keeps :
    (e : Engine) (now : ℕ) (i : EngineInput) (source : ℕ)
    → OrderedAt e source
    → Keeps e (receive e now i) source
unfolding receive
receive-Keeps e now (source_registered at descriptor generation) source v =
    register-Keeps e at descriptor generation now source v
receive-Keeps e now (source_removed at) source v =
    update-Keeps e at source (λ s. record s { present = false }) v
      (λ s ordered. (ordered, omega arith))
receive-Keeps e now (source_gap at generation reason) source v =
    update-Keeps e at source (λ s. mark_gap s generation reason) v
      (λ s ordered. gap-Grows s generation reason ordered)
receive-Keeps e now (source_stable_eof at generation) source v =
    update-Keeps e at source (λ s. note_stable_eof s generation now) v
      (λ s ordered. eof-Grows s generation now ordered)
receive-Keeps e now (record_read r) source v = record-Keeps e r now source v

counted_state :
    (s : SourceState) (r : CombatRecord) (now t : ℕ)
    → IsOrdered s
    → r.eq_time ≡ some t
    → outcome_of r.eq_time (take_record s r now).history_floor ≡ counted
    → settled s ≤ t
unfolding take_record gap_of mark_gap
counted_state s r now t v at c = ground arith

advance-Keeps : (e : Engine) (source : ℕ) → OrderedAt e source → Keeps e (advance_sources e) source
unfolding advance_sources
advance-Keeps e source v =
    rw (lookup-map_values (close_at_eof e.now e.stable_eof_ms) e.sources source)
      (closed (lookup source e.sources) v)
  where
    closed :
        (found : Option SourceState)
        → OrderedIf found
        → let after = Option.map (close_at_eof e.now e.stable_eof_ms) found in
          OrderedIf after × (settled_if found ≤ settled_if after)
    closed none w = (tt, omega arith)
    closed (some s) w = close-Grows e.now e.stable_eof_ms s w

Keeps-trans : (e f g : Engine) (source : ℕ) → Keeps e f source → Keeps f g source → Keeps e g source
Keeps-trans e f g source (_, grown) (ordered, rest) = (ordered, omega (arith, grown, rest))

-- A call of the engine: `tick`, or `apply` with its input.
abbrev pub call : Engine → ℕ → Option EngineInput → Engine
call e now none = tick e now
call e now (some i) = apply e now i

-- Every call of the engine keeps each closed second of each source among those that it observed, and
-- takes no closed second back, where the seconds closed before a gap count as well.
pub call-Keeps :
    (e : Engine) (now : ℕ) (i : Option EngineInput) (source : ℕ)
    → OrderedAt e source
    → Keeps e (call e now i) source
unfolding apply tick
call-Keeps e now none source v = advance-Keeps (clocked e now) source v
call-Keeps e now (some i) source v =
    let kept = receive-Keeps (clocked e now) now i source v in
    let at = receive (clocked e now) now i in
    Keeps-trans e at (advance_sources at) source kept (advance-Keeps at source kept.0)

-- The engine after calls, each with its time.
unfoldable pub run : Engine → List (ℕ × Option EngineInput) → Engine
run e [] = e
run e ((now, i) ∷ is) = run (call e now i) is

run-Keeps :
    (e : Engine) (is : List (ℕ × Option EngineInput)) (source : ℕ)
    → OrderedAt e source
    → Keeps e (run e is) source
unfolding run
run-Keeps e [] source v = (v, omega arith)
run-Keeps e ((now, i) ∷ is) source v =
    let (ordered, grown) = call-Keeps e now i source v in
    let (still, rest) = run-Keeps (call e now i) is source ordered in
    (still, omega (arith, grown, rest))

counted_at :
    (e : Engine) (r : CombatRecord) (now t : ℕ)
    → OrderedAt e r.source
    → r.eq_time ≡ some t
    → (apply_record e r now).1 ≡ counted
    → settled_at e r.source ≤ t
unfolding apply_record
counted_at e r now t v at c =
    let found = lookup r.source e.sources in
    let (ordered, grown) = found-Grows found r now v in
    ground (arith, grown, counted_state (found_or_first found r now) r now t ordered at)

-- A closed second is never counted again. Whatever calls the engine gets after a state, be they
-- records, gaps of any kind, ends of files, removals, new registrations or the mere passing of
-- time, a record whose events then reach the ledger lies behind every second of its source that was
-- closed in that state. The state is any in which each closed second of the source is among those
-- that it observed.
pub never_counted_again :
    (e : Engine) (is : List (ℕ × Option EngineInput)) (r : CombatRecord) (now t : ℕ)
    → OrderedAt e r.source
    → r.eq_time ≡ some t
    → (apply_record (run e is) r now).1 ≡ counted
    → settled_at e r.source ≤ t
never_counted_again e is r now t v at c =
    let (ordered, grown) = run-Keeps e is r.source v in
    omega (arith, grown, counted_at (run e is) r now t ordered at c)
