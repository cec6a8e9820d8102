-- ===== src/Clutch/Tests.antt =====
-- The theorems of the clutch on a press that is let go of, and on one that is cancelled.
use stonemite.Clutch.{
  off, status, new, handle, ClutchEvent, key_down, key_up, button, cancel, begin_remote, release,
  poll,
}
use stonemite.Clutch.Laws.{IsValid, run, run-IsValid, cancel_is_bounded}
use stonemite.Base.{◌≡◌, true, false, List, [], ◌∷◌, arith}

-- Key 112 goes down in the window of process 9, a button goes down, and the key comes up: the clutch
-- waits for the button.
abbrev let_go : List ClutchEvent
let_go = key_down 112 9 true ∷ button 1 true 480 ∷ key_up 112 490 false ∷ []

-- A remote hold begins and ends.
abbrev held : List ClutchEvent
held = begin_remote 9 0 ∷ release 400 false ∷ []

run-IsValid_example : IsValid (run (new 0) held)
run-IsValid_example = run-IsValid 0 held

-- The button comes up, another goes down, and a poll comes early.
abbrev meanwhile : List ClutchEvent
meanwhile = button 1 false 520 ∷ button 2 true 530 ∷ poll 540 ∷ []

cancel_is_bounded_example :
    status (handle (run (handle (run (new 0) let_go) (cancel 500)) meanwhile) (poll 590)) ≡ off
cancel_is_bounded_example =
    cancel_is_bounded 0 500 590 let_go meanwhile (tt, (omega arith, (omega arith, tt)))
      (tt, (tt, (tt, tt))) (omega arith)
