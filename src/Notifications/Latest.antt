-- ===== src/Notifications/Latest.antt =====
-- Which unread event a notification shows, and for how long it is drawn.
use stonemite.Notifications.{
  Kind, same_kind, Unread, Notification, push, unread_of, last_unread, pop, finish_current_preview,
  dismiss_invite, resolve_kind, redraws_for_tick, is_empty, preview_visible, elapsed_ms,
  max_tracked_unread,
}
use stonemite.Base.Text.{Text}
use stonemite.Base.{
  ℕ, suc, ◌≤◌, max, ◌≡◌, refl, ◌⊎◌, inl, inr, Bool, true, false, not, Option, none, some, List, [],
  ◌∷◌, ◌++◌, length, drop, keep, arith, length-append, Option-cases, Bool-cases,
}

-- The notification shows the kind and the color of its latest unread event.
abbrev pub ShowsLatest : Notification → Type 0
ShowsLatest n =
    last_unread n.unread ≡ some (record { unread_kind = n.kind; unread_color = n.color })

last_unread-append : (us : List Unread) (u : Unread) → last_unread (us ++ u ∷ []) ≡ some u
unfolding last_unread
last_unread-append [] u = refl
last_unread-append (v ∷ []) u = refl
last_unread-append (v ∷ w ∷ us) u = last_unread-append (w ∷ us) u

last_cons :
    (u w : Unread) (us : List Unread) → last_unread us ≡ some w → last_unread (u ∷ us) ≡ some w
unfolding last_unread
last_cons u w [] e = ground (arith, e)
last_cons u w (v ∷ us) e = e

last_kept :
    (kind : Kind) (us : List Unread) (w : Unread)
    → last_unread us ≡ some w
    → same_kind w.unread_kind kind ≡ false
    → last_unread (keep (λ v. not (same_kind v.unread_kind kind)) us) ≡ some w
unfolding last_unread
last_kept kind [] w e other = e
last_kept kind (u ∷ []) w e other = ground (arith, e)
last_kept kind (u ∷ v ∷ us) w e other = ground (
  arith,
  last_kept kind (v ∷ us) w e,
  last_cons u w (keep (λ x. not (same_kind x.unread_kind kind)) (v ∷ us)),
)

last_none : (us : List Unread) → last_unread us ≡ none → us ≡ []
unfolding last_unread
last_none [] e = refl
last_none (u ∷ []) e = ground (arith, e)
last_none (u ∷ v ∷ us) e = ground (arith, last_none (v ∷ us) e)

-- `r` says that the notification is spent, or it goes on with its latest unread event.
abbrev pub GoesOn : Notification × Bool → Type 0
GoesOn r = ((r.1 ≡ true) × (r.0.unread ≡ [])) ⊎ ((r.1 ≡ false) × ShowsLatest r.0)

finish-GoesOn : (n : Notification) → GoesOn (finish_current_preview n)
unfolding finish_current_preview
finish-GoesOn n = elim (Option-cases (last_unread n.unread)) [
  | inl out ↦ ground (arith, out, last_none n.unread)
  | inr (u, out) ↦ ground (arith, out)
]

finish-unread : (n : Notification) → (finish_current_preview n).0.unread ≡ n.unread
unfolding finish_current_preview
finish-unread n = elim (Option-cases (last_unread n.unread)) [
  | inl out ↦ ground (arith, out)
  | inr (u, out) ↦ ground (arith, out)
]

not_empty : (us : List Unread) (u : Unread) → last_unread us ≡ some u → is_empty us ≡ false
unfolding last_unread
not_empty [] u e = ground (arith, e)
not_empty (v ∷ us) u e = refl

-- When EQ settles the invitations or the trades, the unread events of that kind go and all others
-- stay in their order. Of a notification that shows its latest unread event, the latest that is left
-- is shown then, and the call reports that the notification is spent only if none is left.
pub resolve_kind-GoesOn :
    (n : Notification) (kind : Kind)
    → ShowsLatest n
    → ((resolve_kind n kind).0.unread ≡ keep (λ u. not (same_kind u.unread_kind kind)) n.unread)
      × GoesOn (resolve_kind n kind)
unfolding resolve_kind
resolve_kind-GoesOn n kind shows =
    let left : List Unread = keep (λ u. not (same_kind u.unread_kind kind)) n.unread in
    let m : Notification = record n { unread = left } in
    elim (Bool-cases (same_kind n.kind kind)) [
      | inl same ↦ rw same (finish-unread m, finish-GoesOn m)
      | inr other ↦ ground (
        arith,
        last_kept kind n.unread (record { unread_kind = n.kind; unread_color = n.color }) shows,
        not_empty left (record { unread_kind = n.kind; unread_color = n.color }),
      )
    ]

-- A new event is shown at once, is the latest unread one, and of 256 that are kept the oldest goes.
pub push-ShowsLatest :
    (previous : Option Notification) (kind : Kind) (text : Text) (color at : ℕ) (actions : Bool)
    → length (unread_of previous) ≤ max_tracked_unread
    → ShowsLatest (push previous kind text color at actions)
      × (length (push previous kind text color at actions).unread ≤ max_tracked_unread)
      × (preview_visible (push previous kind text color at actions) at ≡ true)
unfolding push preview_visible elapsed_ms
push-ShowsLatest previous kind text color at actions bounded = (
  last_unread-append _ _,
  ground (
    arith,
    length-append (unread_of previous) (new_unread kind color),
    length-append (drop 1 (unread_of previous)) (new_unread kind color),
    length-drop_one (unread_of previous),
  ),
  ground arith,
)
  where
    length-drop_one : (us : List Unread) → suc (length (drop 1 us)) ≤ max 1 (length us)
    length-drop_one [] = omega arith
    length-drop_one (u ∷ us) = omega arith

    new_unread : Kind → ℕ → List Unread
    new_unread kind color = record { unread_kind = kind; unread_color = color } ∷ []

dismiss_invite-GoesOn : (n : Notification) → ShowsLatest n → GoesOn (dismiss_invite n)
unfolding dismiss_invite
dismiss_invite-GoesOn n shows = ground (arith, finish-GoesOn (record n { unread = pop n.unread }))

-- The preview is redrawn exactly once when it goes out. From the tick at `t` on, which finds the preview
-- in sight or reports its end, no tick reports it again until a new event comes.
pub redraws_once :
    (n : Notification) (t later : ℕ) (animations again : Bool)
    → t ≤ later
    → (redraws_for_tick n t animations).1.1 ≡ true
    → ((redraws_for_tick (redraws_for_tick n t animations).0 later again).1.1 ≡ false)
      × (preview_visible (redraws_for_tick n t animations).0 later ≡ false)
unfolding redraws_for_tick preview_visible
redraws_once n t later animations again after went = ground arith
