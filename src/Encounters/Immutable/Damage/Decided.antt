-- ===== src/Encounters/Immutable/Damage/Decided.antt =====
-- The encounter that damage is located at.
use stonemite.Encounters.Immutable.{
  IsSafe, IsSafe-trans, IsSafe-refl, IsOpen, LeavesOpen, update-IsOpen, update-IsSafe,
  tracked-IsOpen,
}
use stonemite.Encounters.Immutable.Facts.{satisfied-IsOpen, find_among-satisfies}
use stonemite.Encounters.Immutable.Merge.{IsNotHeld, merge-IsSafe, merge-IsNotHeld}
use stonemite.Encounters.Phases.Live.{IsTracked}
use stonemite.Encounters.Facts.{
  correlated_with, locate, joined, Decision, ignored, goes_to, reviving, decide, decide_in_phase,
  may_resume,
}
use stonemite.Encounters.{
  PhaseState, active, ending, held, DamageFact, LedgerFact, CombatEngine, has_target,
  encounter_satisfies, find_id, keys,
}
use stonemite.Base.Dict.{lookup}
use stonemite.Base.{
  ℕ, ◌≡◌, refl, not, ◌&&◌, ◌||◌, Option, none, some, arith, ◌==◌, Bool-cases, Option-cases, inl,
  inr, contains, leb, ltb,
}

-- What holds of the engine and the id that `locate` gives, and of those that `decide` gives.
abbrev KeepsNotHeld : CombatEngine → CombatEngine → Type 0
KeepsNotHeld c d = (k : ℕ) → IsNotHeld c k → IsNotHeld d k

abbrev OptionIsOpen : CombatEngine → Option ℕ → Type 0
OptionIsOpen c none = Unit
OptionIsOpen c (some id) = IsOpen c id

abbrev IsLocated : CombatEngine → CombatEngine × Option ℕ → Type 0
IsLocated c (d, o) = IsSafe c d × (OptionIsOpen d o × KeepsNotHeld c d)

abbrev pub IsDecided : CombatEngine → CombatEngine × Decision → Type 0
IsDecided c (d, ignored) = IsSafe c d
IsDecided c (d, goes_to none) = IsSafe c d × KeepsNotHeld c d
IsDecided c (d, goes_to (some id)) = IsSafe c d × IsOpen d id

joined-IsLocated :
    (c : CombatEngine) (current correlated : Option ℕ)
    → OptionIsOpen c current
    → OptionIsOpen c correlated
    → IsTracked c
    → IsLocated c (joined c current correlated)
joined-IsLocated c none correlated live other_live h = (IsSafe-refl c h, (other_live, λ k n. n))
joined-IsLocated c (some id) none live other_live h = (IsSafe-refl c h, (live, λ k n. n))
joined-IsLocated c (some id) (some other) live other_live h = elim (Bool-cases (id == other)) [
  | inl q ↦ rw q (IsSafe-refl c h, (live, λ k n. n))
  | inr q ↦
      let (safe, still_live) = merge-IsSafe c id other live other_live h in
      rw q (safe, (still_live, λ k n. merge-IsNotHeld c id other k live other_live n))
]

active-IsOpen :
    (c : CombatEngine) (source : ℕ) (o : Option ℕ)
    → lookup source c.source_active ≡ o
    → IsTracked c
    → OptionIsOpen c o
active-IsOpen c source none found h = tt
active-IsOpen c source (some id) found h = tracked-IsOpen c source id found h

correlated-IsOpen :
    (c : CombatEngine) (f : LedgerFact) (d : DamageFact) (o : Option ℕ)
    → correlated_with c f d ≡ o
    → OptionIsOpen c o
unfolding correlated_with find_id
correlated-IsOpen c f d none found = tt
correlated-IsOpen c f d (some id) found =
    satisfied-IsOpen c id _ (λ e q. ground (arith, q))
      (find_among-satisfies _ c (keys c.encounters) id found)

pub locate-IsLocated :
    (c : CombatEngine) (f : LedgerFact) (d : DamageFact) → IsTracked c → IsLocated c (locate c f d)
unfolding locate
locate-IsLocated c f d h =
    joined-IsLocated c (lookup f.fact_source c.source_active) (correlated_with c f d)
      (active-IsOpen c f.fact_source _ refl h) (correlated-IsOpen c f d _ refl) h

reviving-LeavesOpen : (d : DamageFact) → LeavesOpen (reviving d)
reviving-LeavesOpen d e h = refl

decide_in_phase-IsDecided :
    (c : CombatEngine) (f : LedgerFact) (d : DamageFact) (id : ℕ) (p : PhaseState)
    → IsOpen c id
    → IsTracked c
    → IsDecided c (decide_in_phase c f d id p)
unfolding decide_in_phase
decide_in_phase-IsDecided c f d id active live h = (IsSafe-refl c h, live)
decide_in_phase-IsDecided c f d id (held reason until) live h = (IsSafe-refl c h, live)
decide_in_phase-IsDecided c f d id (ending reason entered_at cutoff closure) live h =
    let closure_source = contains f.fact_source closure in
    let after_cutoff = ltb cutoff f.eq_time in
    let resumes =
      closure_source
      && may_resume reason (encounter_satisfies c id (has_target d.target)) after_cutoff in
    elim (Bool-cases resumes) [
      | inl q ↦ rw q (
        update-IsSafe c id (reviving d) (reviving-LeavesOpen d) live h,
        update-IsOpen c id id (reviving d) (reviving-LeavesOpen d) live,
      )
      | inr q ↦ elim (Bool-cases (not closure_source || after_cutoff)) [
        | inl out ↦ elim (Bool-cases (not closure_source && leb f.eq_time cutoff)) [
          | inl late ↦ rw (q, out, late) (IsSafe-refl c h)
          | inr fresh ↦ rw (q, out, fresh) (IsSafe-refl c h, λ k n. n)
        ]
        | inr within ↦ rw (q, within) (IsSafe-refl c h, live)
      ]
    ]

IsDecided-after :
    (a b : CombatEngine) (r : CombatEngine × Decision)
    → IsSafe a b
    → KeepsNotHeld a b
    → (IsTracked b → IsDecided b r)
    → IsDecided a r
IsDecided-after a b (d, ignored) safe keeps next = IsSafe-trans a b d safe next
IsDecided-after a b (d, goes_to none) safe keeps next =
    (IsSafe-trans a b d safe (λ t. (next t).0), λ k n. (next (safe.0)).1 k (keeps k n))
IsDecided-after a b (d, goes_to (some id)) safe keeps next =
    (IsSafe-trans a b d safe (λ t. (next t).0), (next (safe.0)).1)

pub decide-IsDecided :
    (c : CombatEngine) (r : CombatEngine × Option ℕ) (f : LedgerFact) (d : DamageFact)
    → IsLocated c r
    → IsDecided c (decide r f d)
unfolding decide
decide-IsDecided c (next, none) f d (safe, (live, keeps)) = (safe, keeps)
decide-IsDecided c (next, some id) f d (safe, (live, keeps)) =
    IsDecided-after c next (decide (next, some id) f d) safe keeps λ tracked.
      elim (Option-cases (lookup id next.encounters)) [
        | inl q ↦ rw (decide, q) (IsSafe-refl next tracked, live)
        | inr (e, q) ↦ rw (decide, q) (decide_in_phase-IsDecided next f d id e.phase live tracked)
      ]
