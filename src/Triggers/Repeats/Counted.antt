-- ===== src/Triggers/Repeats/Counted.antt =====
-- How firings add up.
use stonemite.Triggers.{Seconds, is_below_zero}
use stonemite.Triggers.Repeats.{
  RepeatedData, Buckets, bucket_of, seen_in, or_empty, or_fresh, count_of, next_count, get_repeated,
  record_seen, update_repeated,
}
use stonemite.Base.Text.{Text, is_empty, lowercase, same_text_refl}
use stonemite.Base.TextMap.{find, put, find-put}
use stonemite.Base.Dict.{lookup, lookup-insert}
use stonemite.Base.{
  ℕ, suc, ◌+◌, ◌-◌, ◌≤◌, ◌≡◌, refl, ap, ◌∙◌, Bool, true, false, some, List, [], ◌∷◌, length, ltb,
  ◌==◌, ◌||◌, ==_refl, arith, if◌then◌else◌,
}

record_seen-seen_in :
    (buckets : Buckets) (index : ℕ) (value : Text) (seen : RepeatedData)
    → seen_in (record_seen buckets index value seen) index value ≡ some seen
unfolding record_seen seen_in bucket_of
record_seen-seen_in buckets index value seen =
    let bucket = put (lowercase value) seen (bucket_of buckets index) in
    ap (λ b. find (lowercase value) (or_empty b))
      (lookup-insert index index bucket buckets
        ∙ ap (λ b. if b then some bucket else lookup index buckets) (==_refl index))
    ∙ find-put (lowercase value) (lowercase value) seen (bucket_of buckets index)
    ∙ rw (same_text_refl (lowercase value)) refl

module _ {F : Type 0} (seconds : Seconds F) (index : ℕ) (value : Text) (reset : F) where
  -- A trigger fires at each of these times.
  unfoldable pub update_all : Buckets → List ℕ → Buckets
  unfolding update_repeated
  update_all buckets [] = buckets
  update_all buckets (now ∷ later) =
      update_all (update_repeated seconds buckets index value now reset).0 later

  -- Each time is at most the window behind the one before.
  unfoldable pub AreClose : ℕ → List ℕ → Type 0
  AreClose last [] = Unit
  AreClose last (now ∷ later) = (now ≤ last + seconds.millis reset) × AreClose now later

  -- The next firing begins a count.
  unfoldable pub starts_anew : Buckets → ℕ → Bool
  unfolding seen_in
  starts_anew buckets now =
      let seen = or_fresh (seen_in buckets index value) in
      seen.count == 0 || ltb (seconds.millis reset) (now - seen.last_ms)

  update_repeated-seen_in :
      (buckets : Buckets) (now : ℕ)
      → is_empty value ≡ false
      → is_below_zero seconds reset ≡ false
      → seen_in (update_repeated seconds buckets index value now reset).0 index value
        ≡ some (record {
          count = next_count (or_fresh (seen_in buckets index value)) now (seconds.millis reset);
          last_ms = now;
        })
  unfolding update_repeated
  update_repeated-seen_in buckets now h k = rw (h, k) (record_seen-seen_in buckets index value _)

  next_count_close :
      (last count now : ℕ)
      → now ≤ last + seconds.millis reset
      → next_count (record { count = suc count; last_ms = last }) now (seconds.millis reset)
        ≡ suc (suc count)
  unfolding next_count
  next_count_close last count now close = ground arith

  update_all-get_repeated :
      (buckets : Buckets) (last count : ℕ) (later : List ℕ)
      → is_empty value ≡ false
      → is_below_zero seconds reset ≡ false
      → seen_in buckets index value ≡ some (record { count = suc count; last_ms = last })
      → AreClose last later
      → get_repeated (update_all buckets later) index value ≡ some (suc count + length later)
  unfolding update_all get_repeated AreClose
  update_all-get_repeated buckets last count [] h k same close =
      ap count_of same ∙ ap some (omega arith)
  update_all-get_repeated buckets last count (now ∷ later) h k same close =
      update_all-get_repeated (update_repeated seconds buckets index value now reset).0 now
        (suc count) later h k
        (update_repeated-seen_in buckets now h k
          ∙ ap
              (λ o. some (record {
                count = next_count (or_fresh o) now (seconds.millis reset);
                last_ms = now;
              }))
              same
          ∙ ap (λ n. some (record { count = n; last_ms = now }))
              (next_count_close last count now close.0))
        close.1
      ∙ ap some (omega arith)

  first_count :
      (buckets : Buckets) (now : ℕ)
      → starts_anew buckets now ≡ true
      → next_count (or_fresh (seen_in buckets index value)) now (seconds.millis reset) ≡ 1
  unfolding next_count starts_anew
  first_count buckets now anew = rw anew refl

  -- Firings of a trigger with the same text add up: when the text is not empty and the window not
  -- negative, the first firing begins a count, and each is at most the window behind the one before,
  -- the count is how many there were.
  pub update_all_counts :
      (buckets : Buckets) (now : ℕ) (later : List ℕ)
      → is_empty value ≡ false
      → is_below_zero seconds reset ≡ false
      → starts_anew buckets now ≡ true
      → AreClose now later
      → get_repeated (update_all buckets (now ∷ later)) index value ≡ some (length (now ∷ later))
  unfolding update_all
  update_all_counts buckets now later h k anew close =
      update_all-get_repeated (update_repeated seconds buckets index value now reset).0 now 0 later
        h k
        (update_repeated-seen_in buckets now h k
          ∙ ap (λ n. some (record { count = n; last_ms = now })) (first_count buckets now anew))
        close
      ∙ ap some (omega arith)
