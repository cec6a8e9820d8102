-- ===== src/Control/Revisions.antt =====
-- What a revision tells a subscriber.
use stonemite.Control.{StateSnapshot, publish, u64_max}
use stonemite.Base.{
  ◌+◌, ◌≤◌, ◌<◌, ◌≡◌, refl, Bool, true, false, List, [], ◌∷◌, length, arith, ap, Bool-cases, inl,
  inr,
}

module _ {D : Type 0} (same : D → D → Bool) where
  unfoldable pub publish_all : StateSnapshot D → List D → StateSnapshot D
  publish_all s [] = s
  publish_all s (d ∷ ds) = publish_all (publish same s d) ds

  publish-known : (s : StateSnapshot D) (d : D) → same s.state d ≡ true → publish same s d ≡ s
  unfolding publish
  publish-known s d known = rw known refl

  publish-new :
      (s : StateSnapshot D) (d : D)
      → same s.state d ≡ false
      → s.revision < u64_max
      → (publish same s d).revision ≡ s.revision + 1
  unfolding publish
  publish-new s d new room = rw new (omega (arith, room))

  step-known :
      (s : StateSnapshot D) (d : D) (ds : List D)
      → same s.state d ≡ true
      → publish_all s (d ∷ ds) ≡ publish_all s ds
  unfolding publish_all
  step-known s d ds known = ap (λ t. publish_all t ds) (publish-known s d known)

  counts :
      (s : StateSnapshot D) (ds : List D)
      → s.revision + length ds ≤ u64_max
      → s.revision ≤ (publish_all s ds).revision
  unfolding publish_all
  counts s [] fits = omega arith
  counts s (d ∷ ds) fits = elim (Bool-cases (same s.state d)) [
    | inl known ↦ rw (step-known s d ds known) (counts s ds (omega (arith, fits)))
    | inr new ↦
        let up = publish-new s d new (omega (arith, fits)) in
        omega (arith, up, counts (publish same s d) ds (omega (arith, fits, up)))
  ]

  -- A revision names a state: if any states are published, while the 64-bit counter has room, and the
  -- revision is afterwards what it was before, then the state is the same too.
  pub revision_names_state :
      (s : StateSnapshot D) (ds : List D)
      → s.revision + length ds ≤ u64_max
      → (publish_all s ds).revision ≡ s.revision
      → publish_all s ds ≡ s
  unfolding publish_all
  revision_names_state s [] fits e = refl
  revision_names_state s (d ∷ ds) fits e = elim (Bool-cases (same s.state d)) [
    | inl known ↦
        let kept = step-known s d ds known in
        rw kept (revision_names_state s ds (omega (arith, fits)) (rw (← kept) e))
    | inr new ↦
        let up = publish-new s d new (omega (arith, fits)) in
        absurd (omega (arith, e, up, counts (publish same s d) ds (omega (arith, fits, up))))
  ]
