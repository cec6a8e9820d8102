-- ===== src/Triggers/Repeats.antt =====
-- `update_repeated` and `get_repeated`: how often a trigger fired within its window. A count is an
-- i64 that is never negative; the -1 in its place is `none`.
pub mod Counted
use stonemite.Triggers.{Seconds, is_below_zero}
use stonemite.Base.Text.{Text, is_empty, lowercase}
use stonemite.Base.TextMap.{find, put}
use stonemite.Base.Dict.{lookup, insert}
use stonemite.Base.{
  ℕ, ◌+◌, ◌-◌, Bool, ◌||◌, Option, none, some, List, [], ◌∷◌, ltb, ◌==◌, if◌then◌else◌,
}

pub record RepeatedData : Type 0 where
  pub count : ℕ
  pub last_ms : ℕ

-- For each trigger the texts that it repeated.
abbrev pub Buckets : Type 0
Buckets = List (ℕ × List (Text × RepeatedData))

-- `or_default`.
abbrev pub or_empty : Option (List (Text × RepeatedData)) → List (Text × RepeatedData)
or_empty none = []
or_empty (some bucket) = bucket

abbrev pub or_fresh : Option RepeatedData → RepeatedData
or_fresh none = record { count = 0; last_ms = 0 }
or_fresh (some seen) = seen

unfoldable pub bucket_of : Buckets → ℕ → List (Text × RepeatedData)
unfolding lookup
bucket_of buckets index = or_empty (lookup index buckets)

unfoldable pub seen_in : Buckets → ℕ → Text → Option RepeatedData
unfolding bucket_of find lowercase
seen_in buckets index value = find (lowercase value) (bucket_of buckets index)

-- The count after one more firing.
unfoldable pub next_count : RepeatedData → ℕ → ℕ → ℕ
next_count seen now reset_ms =
    if seen.count == 0 || ltb reset_ms (now - seen.last_ms) then 1 else seen.count + 1

abbrev pub count_of : Option RepeatedData → Option ℕ
count_of none = none
count_of (some seen) = some seen.count

unfoldable pub get_repeated : Buckets → ℕ → Text → Option ℕ
unfolding seen_in
get_repeated buckets index value = count_of (seen_in buckets index value)

-- The entry of a text is written.
unfoldable pub record_seen : Buckets → ℕ → Text → RepeatedData → Buckets
unfolding insert put bucket_of lowercase
record_seen buckets index value seen =
    insert index (put (lowercase value) seen (bucket_of buckets index)) buckets

module _ {F : Type 0} (seconds : Seconds F) where
  unfoldable pub update_repeated : Buckets → ℕ → Text → ℕ → F → Buckets × Option ℕ
  unfolding is_empty next_count seen_in record_seen
  update_repeated buckets index value now reset_seconds =
      if is_empty value || is_below_zero seconds reset_seconds
      then (buckets, none)
      else (let count =
            next_count (or_fresh (seen_in buckets index value)) now
              (seconds.millis reset_seconds) in
          (record_seen buckets index value (record { count = count; last_ms = now }), some count))
