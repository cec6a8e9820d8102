-- ===== src/KeyState/Lease/Race/Moved.antt =====
-- What one move of a process does to its own knowledge and to the words.
use stonemite.KeyState.State.{u32_mod, wrapping_add}
use stonemite.KeyState.Lease.{lease_generation}
use stonemite.KeyState.Lease.Writers.{lease-encode}
use stonemite.KeyState.Lease.Race.{
  Words, Pc, idle, fetched, trying, begun, refreshing, panicked, Move, fetch, exhaust, load,
  give_up, win, lose, look, leave, renew, look_again,
}
use stonemite.Base.{ℕ, ◌≤◌, ◌<◌, ◌≡◌, ◌⊎◌, inl, inr, refl, arith, ap}

abbrev pub held : Words → ℕ
held m = lease_generation m.lease

-- What a process knows: its generation was given out, and where it has left `begin_auto_type` that
-- generation or a newer one holds the lease.
abbrev pub Knows : Words → Pc → Type 0
Knows m idle = Unit
Knows m (fetched g now_ms) = (g ≤ m.counter) × (now_ms < u32_mod)
Knows m (trying g now_ms c) = (g ≤ m.counter) × (now_ms < u32_mod) × (lease_generation c ≤ held m)
Knows m (begun g) = g ≤ held m
Knows m (refreshing g now_ms c) = (g ≤ held m) × (now_ms < u32_mod) × (lease_generation c ≤ held m)
Knows m panicked = Unit

-- The process is on its way to take the lease for generation `g`.
abbrev pub IsBeginning : ℕ → Pc → Type 0
IsBeginning g (fetched h now_ms) = h ≡ g
IsBeginning g (trying h now_ms c) = h ≡ g
IsBeginning g p = ⊥

-- The process found the counter exhausted.
abbrev pub IsPanicked : Pc → Type 0
IsPanicked panicked = Unit
IsPanicked p = ⊥

-- One move of process `i` from `p` to `p'`, as far as that process and the words go.
pub record Moved (m : Words) (p : Pc) (m' : Words) (p' : Pc) : Type 0 where
  pub range : m'.counter < u32_mod
  pub behind : held m' ≤ m'.counter
  pub grows : (held m ≤ held m') × (m.counter ≤ m'.counter)
  pub knows : Knows m' p'
  pub own : IsBeginning m.counter p → (held m' ≡ m'.counter) ⊎ IsBeginning m'.counter p'
  pub other : (m'.counter ≡ m.counter) ⊎ IsBeginning m'.counter p'
  pub same : held m ≡ m.counter → (held m' ≡ m'.counter) ⊎ IsBeginning m'.counter p'

pub Move-Moved :
    {m m' : Words} {p p' : Pc}
    → Move m p m' p'
    → m.counter < u32_mod
    → held m ≤ m.counter
    → Knows m p
    → (IsPanicked p' → ⊥)
    → Moved m p m' p'
unfolding wrapping_add
Move-Moved {m} (fetch now_ms clock some_one) range behind k fine = record {
  range = omega arith;
  behind = omega arith;
  grows = omega arith;
  knows = omega arith;
  own = λ b. inr refl;
  other = inr refl;
  same = λ b. inr refl;
}
Move-Moved {m} (exhaust over) range behind k fine = absurd (fine tt)
Move-Moved load range behind k fine = record {
  range = range;
  behind = behind;
  grows = omega arith;
  knows = omega arith;
  own = λ b. inr b;
  other = inl refl;
  same = λ b. inl b;
}
Move-Moved {m} (give_up {g} h) range behind k fine = record {
  range = range;
  behind = behind;
  grows = omega arith;
  knows = omega arith;
  own = λ b. inl (omega arith);
  other = inl refl;
  same = λ b. inl b;
}
Move-Moved {m} (win {g} {now_ms} {c} h e) range behind k fine =
    let new = (lease-encode g now_ms (omega arith) k.1).0 in
    let old = ap lease_generation e in
    record {
      range = range;
      behind = omega (arith, new);
      grows = omega (arith, new, old);
      knows = omega (arith, new);
      own = λ b. inl (omega (arith, new));
      other = inl refl;
      same = λ b. inl (omega (arith, new, old));
    }
Move-Moved (lose h) range behind k fine = record {
  range = range;
  behind = behind;
  grows = omega arith;
  knows = omega arith;
  own = λ b. inr b;
  other = inl refl;
  same = λ b. inl b;
}
Move-Moved (look now_ms clock) range behind k fine = record {
  range = range;
  behind = behind;
  grows = omega arith;
  knows = omega arith;
  own = λ b. absurd b;
  other = inl refl;
  same = λ b. inl b;
}
Move-Moved (leave h) range behind k fine = record {
  range = range;
  behind = behind;
  grows = omega arith;
  knows = omega arith;
  own = λ b. absurd b;
  other = inl refl;
  same = λ b. inl b;
}
Move-Moved {m} (renew {g} {now_ms} {c} h e) range behind k fine =
    let new = (lease-encode g now_ms (omega arith) k.1).0 in
    let old = ap lease_generation e in
    record {
      range = range;
      behind = omega (arith, new, old);
      grows = omega (arith, new, old);
      knows = omega (arith, new, old);
      own = λ b. absurd b;
      other = inl refl;
      same = λ b. inl (omega (arith, new, old));
    }
Move-Moved (look_again h) range behind k fine = record {
  range = range;
  behind = behind;
  grows = omega arith;
  knows = omega arith;
  own = λ b. absurd b;
  other = inl refl;
  same = λ b. inl b;
}

pub Knows-mono :
    (m m' : Words) (p : Pc) → held m ≤ held m' → m.counter ≤ m'.counter → Knows m p → Knows m' p
Knows-mono m m' idle h c k = tt
Knows-mono m m' (fetched g now_ms) h c k = omega arith
Knows-mono m m' (trying g now_ms d) h c k = omega arith
Knows-mono m m' (begun g) h c k = omega arith
Knows-mono m m' (refreshing g now_ms d) h c k = omega arith
Knows-mono m m' panicked h c k = tt
