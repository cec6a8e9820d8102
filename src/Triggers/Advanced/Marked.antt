-- ===== src/Triggers/Advanced/Marked.antt =====
-- The timers of a character, as a pass of warnings marks them.
use stonemite.Triggers.Timers.{ActiveTimer, is_ended, warning_due}
use stonemite.Triggers.Clock.{replace_at}
use stonemite.Base.{
  ℕ, zero, suc, ◌≡◌, refl, ap, ◌∙◌, Bool, true, false, not, ◌&&◌, none, some, List, [], ◌∷◌, keep,
  map, all, length, get_elem?, arith, if◌then◌else◌,
}

module _ {F R : Type 0} where
  -- A timer as the pass of warnings leaves it.
  unfoldable pub marked : ℕ → ActiveTimer F R → ActiveTimer F R
  unfolding warning_due
  marked now timer = if warning_due timer now then record timer { warned = true } else timer

  unfoldable pub mark_at : ℕ → ℕ → List (ActiveTimer F R) → List (ActiveTimer F R)
  unfolding marked
  mark_at now i [] = []
  mark_at now zero (t ∷ ts) = marked now t ∷ ts
  mark_at now (suc i) (t ∷ ts) = t ∷ mark_at now i ts

  unfoldable pub mark_from : ℕ → ℕ → ℕ → List (ActiveTimer F R) → List (ActiveTimer F R)
  unfolding mark_at
  mark_from now i zero ts = ts
  mark_from now i (suc n) ts = mark_from now (suc i) n (mark_at now i ts)

  pub mark_from-suc :
      (now i n : ℕ) (t : ActiveTimer F R) (ts : List (ActiveTimer F R))
      → mark_from now (suc i) n (t ∷ ts) ≡ t ∷ mark_from now i n ts
  unfolding mark_from
  mark_from-suc now i zero t ts = refl
  mark_from-suc now i (suc n) t ts = mark_from-suc now (suc i) n t (mark_at now i ts)

  pub mark_from_all :
      (now : ℕ) (ts : List (ActiveTimer F R)) → mark_from now 0 (length ts) ts ≡ map (marked now) ts
  unfolding mark_from marked
  mark_from_all now [] = refl
  mark_from_all now (t ∷ ts) =
      mark_from-suc now 0 (length ts) (marked now t) ts
      ∙ ap (◌∷◌ (marked now t)) (mark_from_all now ts)

  pub replace_at-marked :
      (now i : ℕ) (ts : List (ActiveTimer F R)) (t : ActiveTimer F R)
      → get_elem? ts i ≡ some t
      → (if warning_due t now then replace_at i (record t { warned = true }) ts else ts)
        ≡ mark_at now i ts
  unfolding mark_at warning_due
  replace_at-marked now i [] t h = ground arith
  replace_at-marked now zero (u ∷ ts) t h = ground arith
  replace_at-marked now (suc i) (u ∷ ts) t h = ground (arith, replace_at-marked now i ts t h)

  pub mark_at-none :
      (now i : ℕ) (ts : List (ActiveTimer F R)) → get_elem? ts i ≡ none → ts ≡ mark_at now i ts
  unfolding mark_at
  mark_at-none now i [] h = refl
  mark_at-none now zero (u ∷ ts) h = absurd (cc h)
  mark_at-none now (suc i) (u ∷ ts) h = ap (◌∷◌ u) (mark_at-none now i ts h)

  -- No warning is due, and no timer is over.
  unfoldable pub is_quiet : ℕ → ActiveTimer F R → Bool
  unfolding warning_due is_ended
  is_quiet now t = not (warning_due t now) && not (is_ended t now)

  pub kept_quiet :
      (now : ℕ) (ts : List (ActiveTimer F R))
      → all (is_quiet now) (keep (λ t. not (is_ended t now)) (map (marked now) ts)) ≡ true
  unfolding is_quiet marked warning_due is_ended
  kept_quiet now [] = refl
  kept_quiet now (t ∷ ts) = ground (arith, kept_quiet now ts)

  pub keep_quiet :
      (now : ℕ) (ts : List (ActiveTimer F R))
      → all (is_quiet now) ts ≡ true
      → keep (λ t. not (is_ended t now)) ts ≡ ts
  unfolding is_quiet
  keep_quiet now [] h = refl
  keep_quiet now (t ∷ ts) h = ground (arith, keep_quiet now ts)

  pub none_ended :
      (now : ℕ) (ts : List (ActiveTimer F R))
      → all (is_quiet now) ts ≡ true
      → keep (λ t. is_ended t now) ts ≡ []
  unfolding is_quiet
  none_ended now [] h = refl
  none_ended now (t ∷ ts) h = ground (arith, none_ended now ts)

  pub quiet_at :
      (now i : ℕ) (ts : List (ActiveTimer F R)) (t : ActiveTimer F R)
      → all (is_quiet now) ts ≡ true
      → get_elem? ts i ≡ some t
      → warning_due t now ≡ false
  unfolding is_quiet warning_due
  quiet_at now i [] t h k = absurd (cc k)
  quiet_at now zero (u ∷ ts) t h k = grind arith
  quiet_at now (suc i) (u ∷ ts) t h k = quiet_at now i ts t (ground arith) k
