-- ===== src/Sources/Order.antt =====
-- The order in which records are taken.
use stonemite.Sources.{
  SourceState, CombatRecord, Engine, rejected, apply_record, found_or_first, take_record,
  is_obsolete, is_replayed,
}
use stonemite.Base.Dict.{lookup, lookup-insert}
use stonemite.Base.{ℕ, ◌≤◌, ◌<◌, ◌≡◌, ◌≢◌, ◌⊎◌, some, arith, ==_refl}

taken_order :
    (s : SourceState) (r : CombatRecord) (now : ℕ)
    → ((take_record s r now).generation ≡ r.id.id_generation)
      × ((take_record s r now).last_sequence ≡ some r.id.id_sequence)
unfolding take_record
taken_order s r now = ground arith

-- Once a record was taken, a next one of the same source is refused, whatever else it says and however
-- few record ids the engine remembers, if it is of an older generation, or of the same with a
-- sequence number that is not greater.
pub stale_is_rejected :
    (e : Engine) (r old : CombatRecord) (now later : ℕ)
    → (apply_record e r now).1 ≢ rejected
    → old.source ≡ r.source
    → (old.id.id_generation < r.id.id_generation)
      ⊎ ((old.id.id_generation ≡ r.id.id_generation) × (old.id.id_sequence ≤ r.id.id_sequence))
    → (apply_record (apply_record e r now).0 old later).1 ≡ rejected
unfolding apply_record is_obsolete is_replayed
stale_is_rejected e r old now later taken same behind =
    let s = found_or_first (lookup r.source e.sources) r now in
    let t = take_record s r now in
    ground
      (arith, lookup-insert r.source old.source t e.sources, taken_order s r now, ==_refl r.source)
