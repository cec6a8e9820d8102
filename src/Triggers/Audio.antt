-- ===== src/Triggers/Audio.antt =====
-- `push_audio`: a sound file if one is configured, else a text that is spoken.
use stonemite.Triggers.{MatchMap}
use stonemite.Triggers.Substitute.{
  Texts, resolve_template, replace_code, sanitize_tts, character_code, counter_code, repeated_code,
  logtime_code, null_code,
}
use stonemite.Triggers.Variables.{as_match_map}
use stonemite.Triggers.Repeats.{Buckets, update_repeated}
use stonemite.Triggers.State.{
  TriggerEngine, Running, ActionPhase, initial, play_sound, speak, push_event,
}
use stonemite.Base.Text.{Text, eq_ignore_ascii_case, is_empty, lowercase, same_text}
use stonemite.Base.{
  ℕ, ◌-◌, Bool, true, false, ◌&&◌, ◌||◌, Option, none, some, [], ◌∷◌, length, drop, ltb,
  if◌then◌else◌,
}

abbrev pub ends_with : Text → Text → Bool
ends_with text suffix = same_text (drop (length text - length suffix) text) suffix

unfoldable pub is_sound_file : Text → Bool
unfolding lowercase same_text
is_sound_file text =
    let lower = lowercase text in
    ends_with lower (b'.' ∷ b'w' ∷ b'a' ∷ b'v' ∷ [])
    || ends_with lower (b'.' ∷ b'm' ∷ b'p' ∷ b'3' ∷ [])

-- `sound.filter(|sound| is_sound_file(sound))`.
unfoldable pub sound_file : Option Text → Option Text
unfolding is_sound_file
sound_file none = none
sound_file (some sound) = if is_sound_file sound then some sound else none

-- A count as text; `none` is -1.
abbrev pub count_text : {F : Type 0} → Texts F → Option ℕ → Text
count_text texts none = b'-' ∷ b'1' ∷ []
count_text texts (some n) = texts.decimal n

abbrev pub with_log_time : Bool → Option Text → Text → Text
with_log_time true (some log_time) text = replace_code text logtime_code log_time
with_log_time wanted log_time text = text

abbrev pub is_counted : Option ℕ → Bool
is_counted none = false
is_counted (some n) = ltb 0 n

module _ {F R : Type 0} (engine : TriggerEngine F R) where
  -- A text is counted if its template asks for it.
  unfoldable pub count_text_if : Bool → Buckets → ℕ → Text → ℕ → Buckets × Option ℕ
  unfolding update_repeated
  count_text_if true buckets index text now =
      update_repeated engine.seconds buckets index text now
        (engine.triggers index).repeated_reset_seconds
  count_text_if false buckets index text now = (buckets, none)

  abbrev pub with_code_if : Bool → Text → Option ℕ → Text → Text
  with_code_if true code count text = replace_code text code (count_text engine.texts count)
  with_code_if false code count text = text

  -- The codes of a text that is spoken when the trigger fires, and the buckets behind it.
  unfoldable pub initial_codes : Buckets → ℕ → Text → Option Text → Option ℕ → ℕ → Buckets × Text
  unfolding count_text_if
  initial_codes buckets index text log_time counter_count now =
      let flags = (engine.triggers index).speak_flags in
      let counted = count_text_if flags.repeated buckets index text now in
      (
        counted.0,
        with_log_time flags.logtime log_time (
            with_code_if (flags.counter && is_counted counter_count) counter_code counter_count
              (with_code_if flags.repeated repeated_code counted.1 text)),
      )

  -- What is spoken, unless nothing is left of it.
  unfoldable pub speak_text : Running F R → ℕ → ActionPhase → Text → Running F R
  unfolding sanitize_tts is_empty push_event
  speak_text r index phase text =
      let tts = sanitize_tts text in
      let trigger = engine.triggers index in
      if is_empty (engine.texts.trim tts)
      then r
      else push_event trigger phase
          (speak tts (if ltb 0 trigger.voice_rate then some (trigger.voice_rate - 1) else none)
            trigger.volume)
          r

  unfoldable pub speak_resolved :
      Running F R → ℕ → ActionPhase → Text → Option Text → Option ℕ → ℕ → Running F R
  unfolding initial_codes speak_text
  speak_resolved r index initial text log_time counter_count now =
      let coded = initial_codes r.state.repeated_speak index text log_time counter_count now in
      speak_text (record r { state = record r.state { repeated_speak = coded.0 } }) index initial
        coded.1
  speak_resolved r index phase text log_time counter_count now = speak_text r index phase text

  unfoldable pub push_speech :
      Running F R
      → ℕ
      → ActionPhase
      → Text
      → Text
      → Option MatchMap
      → Option MatchMap
      → Option MatchMap
      → Option Text
      → Option ℕ
      → ℕ
      → Running F R
  unfolding is_empty eq_ignore_ascii_case resolve_template replace_code character_code
      speak_resolved
  push_speech r index phase template line captures original previous log_time counter_count now =
      elim (resolve_template engine.texts template line captures original previous
        (as_match_map r.state.variables)) [
          | none ↦ r
          | some text ↦
              speak_resolved r index phase (replace_code text character_code r.state.character_name)
                log_time counter_count now
        ]

  unfoldable pub push_audio :
      Running F R
      → ℕ
      → ActionPhase
      → Option Text
      → Text
      → Text
      → Option MatchMap
      → Option MatchMap
      → Option MatchMap
      → Option Text
      → Option ℕ
      → ℕ
      → Running F R
  unfolding sound_file push_speech is_empty eq_ignore_ascii_case null_code push_event
  push_audio r index phase sound template line captures original previous log_time counter_count
        now =
      elim (sound_file sound) [
        | none ↦
            if is_empty template || eq_ignore_ascii_case template null_code
            then r
            else push_speech r index phase template line captures original previous log_time
                counter_count now
        | some file ↦
            if eq_ignore_ascii_case file null_code
            then r
            else push_event (engine.triggers index) phase
                (play_sound file (engine.triggers index).volume) r
      ]
