-- ===== src/Triggers/Restart.antt =====
-- How many timers a trigger runs, by its restart mode.
use stonemite.Triggers.{
  TimerRestartMode, TimerBehavior, MatchMap, start_new, restart_all, restart_same_name,
  ignore_if_any_running, ignore_if_same_name_running,
}
use stonemite.Triggers.Timers.{ActiveTimer, is_of, has_name, make_room}
use stonemite.Triggers.State.{TriggerEngine, Running}
use stonemite.Triggers.Firing.{new_timer, add_timer, start_timer}
use stonemite.Base.Text.{
  Text, eq_ignore_ascii_case, eq_ignore_ascii_case-lowercase, same_text_refl, lowercase,
}
use stonemite.Base.{
  ℕ, ◌≤◌, ◌≡◌, ◌≢◌, refl, ap, ◌∙◌, Bool, true, false, not, Option, none, some, List, [], ◌∷◌, keep,
  any, length, length-append, keep-append, arith,
}

same_name : (a b : Text) → a ≡ b → eq_ignore_ascii_case a b ≡ true
same_name a b h =
    ap (λ c. eq_ignore_ascii_case c b) h
    ∙ eq_ignore_ascii_case-lowercase b b
    ∙ same_text_refl (lowercase b)

module _ {F R : Type 0} where
  -- The timers that a mode takes for the same as a new one.
  unfoldable pub is_rival : TimerRestartMode → ℕ → Text → ActiveTimer F R → Bool
  unfolding is_of has_name
  is_rival restart_same_name index name t = has_name index name t
  is_rival ignore_if_same_name_running index name t = has_name index name t
  is_rival mode index name t = is_of index t

  keep_none :
      (p : ActiveTimer F R → Bool) (ts : List (ActiveTimer F R))
      → length (keep p (keep (λ t. not (p t)) ts)) ≡ 0
  keep_none p [] = refl
  keep_none p (t ∷ ts) = ground (arith, keep_none p ts)

  any_none :
      (p : ActiveTimer F R → Bool) (ts : List (ActiveTimer F R))
      → any p ts ≡ false
      → length (keep p ts) ≡ 0
  any_none p [] h = refl
  any_none p (t ∷ ts) h = ground (arith, any_none p ts)

  any_some :
      (p : ActiveTimer F R → Bool) (ts : List (ActiveTimer F R))
      → any p ts ≡ true
      → 1 ≤ length (keep p ts)
  any_some p [] h = absurd (cc h)
  any_some p (t ∷ ts) h = ground (arith, any_some p ts)

  -- Where a timer may start, no rival is left.
  make_room_no_rival :
      (mode : TimerRestartMode) (index : ℕ) (name : Text) (ts rest : List (ActiveTimer F R))
      → mode ≢ start_new
      → make_room mode index name ts ≡ some rest
      → length (keep (is_rival mode index name) rest) ≡ 0
  unfolding make_room is_rival
  make_room_no_rival start_new index name ts rest h k = absurd (h refl)
  make_room_no_rival restart_all index name ts rest h k = ground (arith, keep_none (is_of index) ts)
  make_room_no_rival restart_same_name index name ts rest h k =
      ground (arith, keep_none (has_name index name) ts)
  make_room_no_rival ignore_if_any_running index name ts rest h k =
      ground (arith, any_none (is_of index) ts)
  make_room_no_rival ignore_if_same_name_running index name ts rest h k =
      ground (arith, any_none (has_name index name) ts)

  make_room_rival :
      (mode : TimerRestartMode) (index : ℕ) (name : Text) (ts : List (ActiveTimer F R))
      → make_room mode index name ts ≡ none
      → 1 ≤ length (keep (is_rival mode index name) ts)
  unfolding make_room is_rival
  make_room_rival start_new index name ts k = absurd (cc k)
  make_room_rival restart_all index name ts k = absurd (cc k)
  make_room_rival restart_same_name index name ts k = absurd (cc k)
  make_room_rival ignore_if_any_running index name ts k = ground (arith, any_some (is_of index) ts)
  make_room_rival ignore_if_same_name_running index name ts k =
      ground (arith, any_some (has_name index name) ts)

  is_rival_itself :
      (mode : TimerRestartMode) (index : ℕ) (name : Text) (t : ActiveTimer F R)
      → t.trigger_index ≡ index
      → t.display_name ≡ name
      → is_rival mode index name t ≡ true
  unfolding is_rival is_of has_name
  is_rival_itself restart_same_name index name t h k =
      ground (arith, h, same_name t.display_name name k)
  is_rival_itself ignore_if_same_name_running index name t h k =
      ground (arith, h, same_name t.display_name name k)
  is_rival_itself start_new index name t h k = ground arith
  is_rival_itself restart_all index name t h k = ground arith
  is_rival_itself ignore_if_any_running index name t h k = ground arith

  keep_alone :
      (p : ActiveTimer F R → Bool) (t : ActiveTimer F R) → p t ≡ true → length (keep p (t ∷ [])) ≡ 1
  keep_alone p t h = ground (arith, h)

  add_timer_one_rival :
      (engine : TriggerEngine F R) (r : Running F R) (mode : TimerRestartMode) (index : ℕ)
      (name : Text) (room : Option (List (ActiveTimer F R))) (t : ActiveTimer F R)
      → make_room mode index name r.state.timers ≡ room
      → mode ≢ start_new
      → is_rival mode index name t ≡ true
      → length (keep (is_rival mode index name) r.state.timers) ≤ 1
      → length (keep (is_rival mode index name) (add_timer engine r room t).state.timers) ≡ 1
  unfolding add_timer is_rival
  add_timer_one_rival engine r mode index name none t room h same few =
      omega (arith, few, make_room_rival mode index name r.state.timers room)
  add_timer_one_rival engine r mode index name (some ts) t room h same few =
      ap length (keep-append (is_rival mode index name) ts (t ∷ []))
      ∙ length-append (keep (is_rival mode index name) ts)
          (keep (is_rival mode index name) (t ∷ []))
      ∙ omega (
        arith,
        make_room_no_rival mode index name r.state.timers ts h room,
        keep_alone (is_rival mode index name) t same,
      )

module _ {F R : Type 0} (engine : TriggerEngine F R) where
  -- In every restart mode but that which always starts another timer, one timer is running after a
  -- start, if at most one was before: of the trigger, or of the trigger and the name where the mode
  -- goes by the name.
  pub start_timer_one_runs :
      (r : Running F R) (index : ℕ) (behavior : TimerBehavior F) (name template : Text)
      (dynamic : Option F) (line : Text) (log_time : Option Text) (captures previous : MatchMap)
      (now loop_count : ℕ) (count : Option ℕ)
      → behavior.restart_mode ≢ start_new
      → length (keep (is_rival behavior.restart_mode index name) r.state.timers) ≤ 1
      → length (
          keep
            (is_rival behavior.restart_mode index name)
            (start_timer engine r index behavior name template dynamic line log_time captures
              previous now loop_count count).state.timers)
        ≡ 1
  unfolding start_timer new_timer is_rival
  start_timer_one_runs r index behavior name template dynamic line log_time captures previous now
        loop_count count h few =
      let timer =
        new_timer engine r.state index behavior name template dynamic line log_time captures
          previous now loop_count count in
      add_timer_one_rival engine r behavior.restart_mode index name
        (make_room behavior.restart_mode index name r.state.timers) timer refl h
        (is_rival_itself behavior.restart_mode index name timer refl refl) few
