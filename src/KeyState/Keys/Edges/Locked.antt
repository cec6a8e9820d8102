-- ===== src/KeyState/Keys/Edges/Locked.antt =====
-- `set_controller_key` and `clear_controller_keys` under the sequence lock.
use stonemite.KeyState.State.{SharedKeyState, is_high, key_count, wrapping_add}
use stonemite.KeyState.Ring.{Transition}
use stonemite.KeyState.Keys.{
  lock_sequence, unlock_sequence, write_level, set_controller_key, clear_loop,
  clear_controller_keys, locked,
}
use stonemite.KeyState.Keys.Edges.{
  Tracks, edge, releases, sequenced, sequenced-Tracks, write_level-Tracks, clear_loop-Tracks,
  clear_loop-high, write_level-sequence, clear_loop-sequence, write_level-high,
}
use stonemite.Base.{
  ℕ, ◌%◌, ◌≡◌, refl, not, ◌&&◌, Option, some, List, ◌++◌, arith, leb, ltb, if◌then◌else◌,
  Bool-cases, subst, inl, inr,
}
use mathlib.Core.List.{append-nil}

abbrev pub Written : List Transition → Option SharedKeyState → (SharedKeyState → Type 0) → Type 0
Written h o P =
    (t : SharedKeyState) × (o ≡ some t) × Tracks h t × (t.controller_sequence % 2 ≡ 0) × P t

-- The state that the body of a locked operation gets.
abbrev entered : SharedKeyState → SharedKeyState
entered s = sequenced s (wrapping_add s.controller_sequence 1)

locked-Written :
    (h : List Transition) (s : SharedKeyState) (body : SharedKeyState → SharedKeyState)
    (P : SharedKeyState → Type 0)
    → s.controller_sequence % 2 ≡ 0
    → (body (entered s)).controller_sequence ≡ (entered s).controller_sequence
    → Tracks h (body (entered s))
    → P (unlock_sequence (body (entered s)))
    → Written h (locked s body) P
unfolding unlock_sequence wrapping_add lock_sequence
locked-Written h s body P even same v p = (
  unlock_sequence (body (entered s)),
  ground arith,
  sequenced-Tracks h (body (entered s)) _ v,
  omega (arith, same),
  p,
)

-- The ring tells of the key buffer: from a state whose transitions so far are `h`, and while no
-- other process holds the lock, a write returns, publishes the one transition that it makes (none,
-- if the level stays or the scan code is out of range), leaves the lock free and the buffer as the
-- replay of the longer history, and its key at the level of the top bit that is written, or as it
-- was if the scan code is out of range.
pub set_controller_key-Tracks :
    (h : List Transition) (s : SharedKeyState) (scan value : ℕ)
    → s.controller_sequence % 2 ≡ 0
    → Tracks h s
    → Written (h ++ edge s scan value) (set_controller_key s scan value) λ t.
      is_high (t.controller_keys scan)
      ≡ (if leb key_count scan then is_high (s.controller_keys scan) else is_high value)
unfolding set_controller_key unlock_sequence
set_controller_key-Tracks h s scan value even v = elim (Bool-cases (leb key_count scan)) [
  | inl out ↦ rw (out, append-nil h) (s, refl, v, even, refl)
  | inr inside ↦ rw inside (
      subst
        (λ l.
          Written l (locked s (λ t. write_level t scan (is_high value)))
            (λ t. is_high (t.controller_keys scan) ≡ is_high value))
        (rw inside)
        (locked-Written (h ++ edge (entered s) scan value) s
          (λ t. write_level t scan (is_high value)) _ even
          (write_level-sequence (entered s) scan (is_high value))
          (write_level-Tracks h (entered s) scan value (ground arith) (sequenced-Tracks h s _ v))
          (write_level-high (entered s) scan value)))
]

-- Clearing the keys publishes one release for each key that is down, in the order of the scan
-- codes, and of the 256 keys none is left down; it returns while no other process holds the lock.
pub clear_controller_keys-Tracks :
    (h : List Transition) (s : SharedKeyState)
    → s.controller_sequence % 2 ≡ 0
    → Tracks h s
    → Written (h ++ releases key_count 0 s.controller_keys) (clear_controller_keys s) λ t.
      (key : ℕ)
      → is_high (t.controller_keys key)
        ≡ (is_high (s.controller_keys key) && not (leb 0 key && ltb key key_count))
unfolding clear_controller_keys unlock_sequence
clear_controller_keys-Tracks h s even v =
    locked-Written (h ++ releases key_count 0 s.controller_keys) s (clear_loop key_count 0) _ even
      (clear_loop-sequence key_count 0 (entered s))
      (clear_loop-Tracks key_count 0 h (entered s) (omega arith) (sequenced-Tracks h s _ v))
      (clear_loop-high key_count 0 (entered s))
