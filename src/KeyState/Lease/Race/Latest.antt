-- ===== src/KeyState/Lease/Race/Latest.antt =====
-- Which generation holds the lease.
use stonemite.KeyState.State.{u32_mod}
use stonemite.KeyState.Lease.{lease_generation}
use stonemite.KeyState.Lease.Race.{
  Words, Pc, idle, fetched, trying, begun, refreshing, panicked, Move, fetch, exhaust, load,
  give_up, win, lose, look, leave, renew, look_again, System, Step, pick, Reach, here, next, start,
}
use stonemite.Base.Arrays.{store}
use stonemite.Base.{
  ℕ, ◌≤◌, ◌<◌, ◌≡◌, ◌⊎◌, inl, inr, refl, ◌==◌, Bool-cases, ==_iff, arith, ==_refl, subst,
}
use stonemite.KeyState.Lease.Race.Moved.{
  held, Knows, IsBeginning, IsPanicked, Moved, Move-Moved, Knows-mono,
}

pub record Inv (s : System) : Type 0 where
  pub range : s.words.counter < u32_mod
  pub behind : held s.words ≤ s.words.counter
  pub knows : (i : ℕ) → Knows s.words (s.pc i)
  pub newest : (held s.words ≡ s.words.counter) ⊎ ((i : ℕ) × IsBeginning s.words.counter (s.pc i))

Newest : ℕ → ℕ → (ℕ → Pc) → Type 0
Newest lease counter pc = (lease ≡ counter) ⊎ ((i : ℕ) × IsBeginning counter (pc i))

mover-Newest :
    (lease counter i : ℕ) (pc : ℕ → Pc) (p : Pc)
    → (lease ≡ counter) ⊎ IsBeginning counter p
    → Newest lease counter (store pc i p)
unfolding Newest
mover-Newest lease counter i pc p (inl e) = inl e
mover-Newest lease counter i pc p (inr b) = inr (i, rw (==_refl i) b)

Step-Newest :
    (m m' : Words) (i : ℕ) (pc : ℕ → Pc) (p : Pc)
    → Moved m (pc i) m' p
    → Newest (held m) m.counter pc
    → Newest (held m') m'.counter (store pc i p)
unfolding Newest
Step-Newest m m' i pc p moved (inl e) = mover-Newest (held m') m'.counter i pc p (moved.same e)
Step-Newest m m' i pc p moved (inr (j, b)) = elim (Bool-cases (j == i)) [
  | inl own ↦
      mover-Newest (held m') m'.counter i pc p
        (moved.own (subst (λ x. IsBeginning m.counter (pc x)) ((==_iff j i).0 own) b))
  | inr there ↦ elim moved.other [
    | inl e ↦ inr (j, rw (there, e) b)
    | inr c ↦ mover-Newest (held m') m'.counter i pc p (inr c)
  ]
]

Step-Knows :
    (m m' : Words) (i j : ℕ) (pc : ℕ → Pc) (p : Pc)
    → Moved m (pc i) m' p
    → Knows m (pc j)
    → Knows m' (store pc i p j)
Step-Knows m m' i j pc p moved k = elim (Bool-cases (j == i)) [
  | inl own ↦ rw own moved.knows
  | inr there ↦ rw there (Knows-mono m m' (pc j) moved.grows.0 moved.grows.1 k)
]

pick-Inv :
    {s : System} (i : ℕ) {m : Words} {p : Pc}
    → Move s.words (s.pc i) m p
    → (IsPanicked p → ⊥)
    → Inv s
    → Inv (record { words = m; pc = store s.pc i p })
unfolding Newest
pick-Inv {s} i {m} {p} mv fine v = record {
  range = moved.range;
  behind = moved.behind;
  knows = λ j. Step-Knows s.words m i j s.pc p moved (v.knows j);
  newest = Step-Newest s.words m i s.pc p moved v.newest;
}
  where
    moved : Moved s.words (s.pc i) m p
    moved = Move-Moved mv v.range v.behind (v.knows i) fine

-- Some process found the counter exhausted.
abbrev HasPanicked : System → Type 0
HasPanicked s = (i : ℕ) × IsPanicked (s.pc i)

IsPanicked-cases : (p : Pc) → IsPanicked p ⊎ (IsPanicked p → ⊥)
IsPanicked-cases idle = inr (λ h. h)
IsPanicked-cases (fetched g now_ms) = inr (λ h. h)
IsPanicked-cases (trying g now_ms c) = inr (λ h. h)
IsPanicked-cases (begun g) = inr (λ h. h)
IsPanicked-cases (refreshing g now_ms c) = inr (λ h. h)
IsPanicked-cases panicked = inl tt

-- A process that panicked does not move again.
Move-stuck : {m m' : Words} {p p' : Pc} → Move m p m' p' → IsPanicked p → ⊥
Move-stuck (fetch now_ms clock some_one) h = h
Move-stuck (exhaust over) h = h
Move-stuck load h = h
Move-stuck (give_up less) h = h
Move-stuck (win less e) h = h
Move-stuck (lose less) h = h
Move-stuck (look now_ms clock) h = h
Move-stuck (leave other) h = h
Move-stuck (renew own e) h = h
Move-stuck (look_again own) h = h

store-IsPanicked :
    {m m' : Words} (i j : ℕ) (pc : ℕ → Pc) {p : Pc}
    → Move m (pc i) m' p
    → IsPanicked (pc j)
    → IsPanicked (store pc i p j)
store-IsPanicked i j pc mv h = elim (Bool-cases (j == i)) [
  | inl own ↦ absurd (Move-stuck mv (subst (λ x. IsPanicked (pc x)) ((==_iff j i).0 own) h))
  | inr there ↦ rw there h
]

Step-Inv : {s t : System} → Step s t → HasPanicked s ⊎ Inv s → HasPanicked t ⊎ Inv t
Step-Inv {s} (pick i mv) (inl (j, h)) = inl (j, store-IsPanicked i j s.pc mv h)
Step-Inv {s} (pick i {m} {p} mv) (inr v) = elim (IsPanicked-cases p) [
  | inl h ↦ inl (i, rw (==_refl i) h)
  | inr fine ↦ inr (pick-Inv i mv fine v)
]

start-Inv : Inv start
unfolding lease_generation
start-Inv = record { range = omega arith; behind = omega arith; knows = λ i. tt; newest = inl refl }

Reach-Inv : {s : System} → Reach s → HasPanicked s ⊎ Inv s
Reach-Inv here = inr start-Inv
Reach-Inv (next r st) = Step-Inv st (Reach-Inv r)

-- Of any number of processes that begin and refresh auto-type in any interleaving, the latest to
-- begin holds the lease once all are through: while nobody retires, no process found the 32-bit
-- counter exhausted, and none is on its way in `begin_auto_type`, the lease carries the last
-- generation that was given out.
pub latest_wins :
    {s : System}
    → Reach s
    → ((i : ℕ) → IsPanicked (s.pc i) → ⊥)
    → ((i g : ℕ) → IsBeginning g (s.pc i) → ⊥)
    → lease_generation s.words.lease ≡ s.words.counter
latest_wins r fine quiet = elim (Reach-Inv r) [
  | inl (i, h) ↦ absurd (fine i h)
  | inr v ↦ elim v.newest [ inl e ↦ e | inr (i, b) ↦ absurd (quiet i _ b) ]
]
