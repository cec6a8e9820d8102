-- ===== src/Clutch/Laws.antt =====
-- The invariant of the clutch, and how long it can outlive its owners.
use stonemite.Clutch.{
  ClutchPhase, inactive, active, releasing, draining, MouseClutch, new, ClutchEvent, key_down,
  key_up, button, cancel, begin_remote, release, poll, hooks_failed, cleanup, handle,
  mouse_drain_ms, status, off,
}
use stonemite.Base.{
  ℕ, ◌+◌, ◌≤◌, ◌≡◌, ◌≢◌, ◌⊎◌, true, false, not, ◌&&◌, All, none, List, [], ◌∷◌, is_some, arith,
}

-- `on_phase p a b c d`: what holds in the phase `p`.
abbrev pub OnPhase : ClutchPhase → Type 0 → Type 0 → Type 0 → Type 0 → Type 0
OnPhase inactive a b c d = a
OnPhase active a b c d = b
OnPhase releasing a b c d = c
OnPhase draining a b c d = d

abbrev pub IsFree : MouseClutch → Type 0
IsFree c = c.local_owner_active ≡ false

-- Only an active clutch has a local owner, and then a clutch key is down; a releasing one waits for
-- a mouse button; only a draining one has a deadline; an inactive one has no source.
pub record IsValid (c : MouseClutch) : Type 0 where
  pub owner : (c.local_owner_active && not (is_some c.swallowed_vk)) ≡ false
  pub by_phase :
      OnPhase c.phase
        (IsFree c × (c.source_pid ≡ none) × (c.drain_deadline_ms ≡ 0))
        ((is_some c.source_pid ≡ true) × (c.drain_deadline_ms ≡ 0))
        (IsFree c × (is_some c.source_pid ≡ true) × (c.drain_deadline_ms ≡ 0) × (c.buttons ≢ 0))
        (IsFree c × (is_some c.source_pid ≡ true))

handle-IsValid : (c : MouseClutch) (e : ClutchEvent) → IsValid c → IsValid (handle c e)
unfolding handle
handle-IsValid c (key_down vk source_pid has_targets) v = ground arith
handle-IsValid c (key_up vk now_ms remote) v = ground arith
handle-IsValid c (button mask pressed now_ms) v = ground arith
handle-IsValid c (cancel now_ms) v = ground arith
handle-IsValid c (begin_remote source_pid sampled) v = ground arith
handle-IsValid c (release now_ms remote) v = ground arith
handle-IsValid c (poll now_ms) v = ground arith
handle-IsValid c hooks_failed v = ground arith
handle-IsValid c cleanup v = ground arith

unfoldable pub run : MouseClutch → List ClutchEvent → MouseClutch
run c [] = c
run c (e ∷ es) = run (handle c e) es

new-IsValid : (buttons : ℕ) → IsValid (new buttons)
unfolding new
new-IsValid buttons = ground arith

run-kept : (c : MouseClutch) (es : List ClutchEvent) → IsValid c → IsValid (run c es)
unfolding run
run-kept c [] v = v
run-kept c (e ∷ es) v = run-kept (handle c e) es (handle-IsValid c e v)

-- What is true of the clutch, from a new one on, after any calls of `ClutchEvent` in any order: only
-- an active clutch has a local owner, and then a clutch key is down; all but an inactive one have a
-- source, which an inactive one has not; one that is releasing waits for a mouse button that is down;
-- and only a draining one has a deadline other than 0.
pub run-IsValid : (buttons : ℕ) (es : List ClutchEvent) → IsValid (run (new buttons) es)
run-IsValid buttons es = run-kept (new buttons) es (new-IsValid buttons)

-- The event neither presses a clutch key nor begins a remote hold.
abbrev pub IsPassive : ClutchEvent → Type 0
IsPassive (key_down vk source_pid has_targets) = ⊥
IsPassive (begin_remote source_pid sampled) = ⊥
IsPassive e = Unit

-- The clock of the event, where it reads one, shows `t` at most.
abbrev pub HappensBy : ℕ → ClutchEvent → Type 0
HappensBy t (key_up vk now_ms remote) = now_ms ≤ t
HappensBy t (button mask pressed now_ms) = now_ms ≤ t
HappensBy t (cancel now_ms) = now_ms ≤ t
HappensBy t (release now_ms remote) = now_ms ≤ t
HappensBy t (poll now_ms) = now_ms ≤ t
HappensBy t e = Unit

abbrev EndsBy : ℕ → MouseClutch → Type 0
EndsBy t c = c.drain_deadline_ms ≤ t + mouse_drain_ms

handle-EndsBy :
    (t : ℕ) (c : MouseClutch) (e : ClutchEvent) → HappensBy t e → EndsBy t c → EndsBy t (handle c e)
unfolding handle
handle-EndsBy t c (key_down vk source_pid has_targets) h b = ground arith
handle-EndsBy t c (key_up vk now_ms remote) h b = ground arith
handle-EndsBy t c (button mask pressed now_ms) h b = ground arith
handle-EndsBy t c (cancel now_ms) h b = ground arith
handle-EndsBy t c (begin_remote source_pid sampled) h b = ground arith
handle-EndsBy t c (release now_ms remote) h b = ground arith
handle-EndsBy t c (poll now_ms) h b = ground arith
handle-EndsBy t c hooks_failed h b = ground arith
handle-EndsBy t c cleanup h b = ground arith

run-EndsBy :
    (t : ℕ) (c : MouseClutch) (es : List ClutchEvent)
    → All (HappensBy t) es
    → EndsBy t c
    → EndsBy t (run c es)
unfolding run
run-EndsBy t c [] h b = b
run-EndsBy t c (e ∷ es) h b = run-EndsBy t (handle c e) es h.1 (handle-EndsBy t c e h.0 b)

-- The clutch is off, or drains until 90 ms after `t` at most.
abbrev Fading : ℕ → MouseClutch → Type 0
Fading t c =
    (c.phase ≡ inactive) ⊎ ((c.phase ≡ draining) × (c.drain_deadline_ms ≤ t + mouse_drain_ms))

handle-Fading :
    (t : ℕ) (c : MouseClutch) (e : ClutchEvent) → IsPassive e → Fading t c → Fading t (handle c e)
unfolding handle
handle-Fading t c (key_down vk source_pid has_targets) p f = absurd p
handle-Fading t c (key_up vk now_ms remote) p f = ground arith
handle-Fading t c (button mask pressed now_ms) p f = ground arith
handle-Fading t c (cancel now_ms) p f = ground arith
handle-Fading t c (begin_remote source_pid sampled) p f = absurd p
handle-Fading t c (release now_ms remote) p f = ground arith
handle-Fading t c (poll now_ms) p f = ground arith
handle-Fading t c hooks_failed p f = ground arith
handle-Fading t c cleanup p f = ground arith

run-Fading :
    (t : ℕ) (c : MouseClutch) (es : List ClutchEvent)
    → All IsPassive es
    → Fading t c
    → Fading t (run c es)
unfolding run
run-Fading t c [] p f = f
run-Fading t c (e ∷ es) p f = run-Fading t (handle c e) es p.1 (handle-Fading t c e p.0 f)

poll-Fading :
    (t now_ms : ℕ) (c : MouseClutch)
    → t + mouse_drain_ms ≤ now_ms
    → Fading t c
    → status (handle c (poll now_ms)) ≡ off
unfolding handle status
poll-Fading t now_ms c late f = ground arith

cancel-Fading : (c : MouseClutch) (t : ℕ) → EndsBy t c → Fading t (handle c (cancel t))
unfolding handle
cancel-Fading c t b = ground arith

new-EndsBy : (buttons t : ℕ) → EndsBy t (new buttons)
unfolding new
new-EndsBy buttons t = omega arith

-- A cancelled clutch is off 90 ms later at the latest. Let any calls be made of a new clutch, whose
-- clocks show `t` at most, and all owners be cancelled at `t`. Whatever is called then, mouse presses
-- and releases and further polls and cancellations included, but for a press of a clutch key and the
-- begin of a remote hold, the first poll at or after `t + 90` finds the clutch off or turns it off.
pub cancel_is_bounded :
    (buttons t now_ms : ℕ) (before after : List ClutchEvent)
    → All (HappensBy t) before
    → All IsPassive after
    → t + mouse_drain_ms ≤ now_ms
    → status (handle (run (handle (run (new buttons) before) (cancel t)) after) (poll now_ms)) ≡ off
cancel_is_bounded buttons t now_ms before after timely passive late =
    let c = run (new buttons) before in
    poll-Fading t now_ms (run (handle c (cancel t)) after) late (
      run-Fading t (handle c (cancel t)) after passive
        (cancel-Fading c t (run-EndsBy t (new buttons) before timely (new-EndsBy buttons t))))
