-- ===== src/Sources/Tests.antt =====
-- The theorems of the log sources at concrete records.
use stonemite.Sources.{
  receive, advance_sources, close_at_eof, CombatRecord, Engine, EngineInput, source_gap,
  file_truncated, apply, apply_record, first_state, rejected, counted, take_record, gap_of,
  mark_gap, is_obsolete, is_replayed,
}
use stonemite.Sources.Closed.{OrderedAt, settled_at, run, never_counted_again}
use stonemite.Sources.Order.{stale_is_rejected}
use stonemite.Base.Dict.{lookup, insert, map_values}
use stonemite.Base.{Option, ℕ, ◌≤◌, ◌≡◌, ◌≢◌, refl, inr, some, List, [], ◌∷◌, arith}

abbrev record_of : ℕ → ℕ → CombatRecord
record_of sequence second = record {
  id = record { id_source = 3; id_generation = 1; id_sequence = sequence };
  source = 3;
  source_descriptor = 8;
  eq_time = some second;
}

abbrev empty : Engine
empty = record {
  sources = [];
  accepted = [];
  now = 0;
  max_record_ids = 200000;
  stable_eof_ms = 2000;
}

empty-OrderedAt : OrderedAt empty 3
unfolding lookup
empty-OrderedAt = tt

-- Seconds 100 to 105 were read.
abbrev reading : Engine
reading = (apply_record (apply_record empty (record_of 1 100) 10).0 (record_of 2 105) 20).0

reading-OrderedAt : OrderedAt reading 3
unfolding apply_record lookup insert take_record gap_of mark_gap is_obsolete is_replayed first_state
reading-OrderedAt = omega arith

-- The file is cut, and the reading goes on at second 106.
abbrev cut : List (ℕ × Option EngineInput)
cut = (30, some (source_gap 3 1 file_truncated)) ∷ []

behind_is_counted : (apply_record (run reading cut) (record_of 3 106) 40).1 ≡ counted
unfolding run apply receive advance_sources close_at_eof map_values apply_record lookup insert
    take_record gap_of mark_gap is_obsolete is_replayed first_state
behind_is_counted = refl

never_counted_again_example : settled_at reading 3 ≤ 106
never_counted_again_example =
    never_counted_again reading cut (record_of 3 106) 40 106 reading-OrderedAt refl
      behind_is_counted

was_taken : (apply_record empty (record_of 1 100) 10).1 ≢ rejected
unfolding apply_record lookup insert take_record gap_of mark_gap is_obsolete is_replayed first_state
was_taken = ground arith

stale_is_rejected_example :
    (apply_record (apply_record empty (record_of 1 100) 10).0 (record_of 1 101) 20).1 ≡ rejected
stale_is_rejected_example =
    stale_is_rejected empty (record_of 1 100) (record_of 1 101) 10 20 was_taken refl
      (inr (refl, omega arith))
