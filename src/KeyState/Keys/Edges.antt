-- ===== src/KeyState/Keys/Edges.antt =====
-- The controller's writes and the transitions that they publish, behind the lock.
pub mod Locked
use stonemite.KeyState.State.{SharedKeyState, is_high, key_count, wrapping_add, initialize}
use stonemite.KeyState.Ring.{Transition, publish_controller_event}
use stonemite.KeyState.Ring.Drain.{Holds, publish-Holds}
use stonemite.KeyState.Keys.{
  lock_sequence, unlock_sequence, write_level, set_controller_key, clear_loop,
  clear_controller_keys, locked,
}
use stonemite.Base.Arrays.{Array, store}
use stonemite.Base.{
  ℕ, zero, suc, ◌+◌, ◌%◌, ◌≤◌, ◌<◌, ◌≡◌, refl, sym, Bool, true, false, not, ◌&&◌, ltb, Option, some,
  List, [], ◌∷◌, ◌++◌, arith, leb, if◌then◌else◌, Bool-cases, subst, ◌⊎◌, inl, inr,
}
use mathlib.Core.List.{append-nil, append_assoc}

-- The key levels that a reader arrives at who applies transitions in order.
abbrev pub replay : Array → List Transition → Array
replay levels [] = levels
replay levels (e ∷ es) = replay (store levels e.scan (if e.pressed then 128 else 0)) es

replay-append :
    (levels : Array) (h : List Transition) (e : Transition)
    → replay levels (h ++ e ∷ []) ≡ store (replay levels h) e.scan (if e.pressed then 128 else 0)
replay-append levels [] e = refl
replay-append levels (x ∷ h) e =
    replay-append (store levels x.scan (if x.pressed then 128 else 0)) h e

-- The ring holds the end of the history `h`, and the key buffer is what its replay gives.
pub record Tracks (h : List Transition) (s : SharedKeyState) : Type 0 where
  pub holds : Holds h s
  pub level : s.controller_keys ≡ replay (λ _. 0) h

-- The transition that a write makes, if it makes one.
abbrev pub edge : SharedKeyState → ℕ → ℕ → List Transition
edge s scan value =
    if leb key_count scan
    then []
    else if is_high (s.controller_keys scan)
    then if is_high value then [] else record { scan = scan; pressed = false } ∷ []
    else if is_high value
    then record { scan = scan; pressed = true } ∷ []
    else []

-- The transitions of `clear_controller_keys`, in the order of the scan codes.
pub releases : ℕ → ℕ → Array → List Transition
releases zero scan keys = []
releases (suc n) scan keys =
    if is_high (keys scan)
    then record { scan = scan; pressed = false } ∷ releases n (suc scan) keys
    else releases n (suc scan) keys

pub initialize-Tracks : Tracks [] initialize
unfolding initialize
initialize-Tracks = record {
  holds = record { head = refl; slot = λ k e found near. ground arith };
  level = refl;
}

abbrev pub sequenced : SharedKeyState → ℕ → SharedKeyState
sequenced s sequence = record s { controller_sequence = sequence }

pub sequenced-Tracks :
    (h : List Transition) (s : SharedKeyState) (sequence : ℕ)
    → Tracks h s
    → Tracks h (sequenced s sequence)
sequenced-Tracks h s sequence v = record {
  holds = record { head = v.holds.head; slot = v.holds.slot };
  level = v.level;
}

publish-Tracks :
    (h : List Transition) (s : SharedKeyState) (e : Transition)
    → e.scan < key_count
    → Tracks h s
    → Tracks (h ++ e ∷ []) (
        publish_controller_event
          (record s {
            controller_keys = store s.controller_keys e.scan (if e.pressed then 128 else 0);
          })
          e)
unfolding publish_controller_event
publish-Tracks h s e byte v = record {
  holds = record {
    head = (publish-Holds h s e byte v.holds).head;
    slot = (publish-Holds h s e byte v.holds).slot;
  };
  level = rw v.level (sym (replay-append (λ _. 0) h e));
}

pub write_level-Tracks :
    (h : List Transition) (s : SharedKeyState) (scan value : ℕ)
    → scan < key_count
    → Tracks h s
    → Tracks (h ++ edge s scan value) (write_level s scan (is_high value))
unfolding write_level
write_level-Tracks h s scan value byte v =
    let inside : leb key_count scan ≡ false = ground arith in
    elim (Bool-cases (is_high (s.controller_keys scan))) [
      | inl down ↦ elim (Bool-cases (is_high value)) [
        | inl press ↦ rw (inside, down, press) (rw (append-nil h) v)
        | inr lift ↦
            rw (inside, down, lift)
              (publish-Tracks h s (record { scan = scan; pressed = false }) byte v)
      ]
      | inr up ↦ elim (Bool-cases (is_high value)) [
        | inl press ↦
            rw (inside, up, press)
              (publish-Tracks h s (record { scan = scan; pressed = true }) byte v)
        | inr lift ↦ rw (inside, up, lift) (rw (append-nil h) v)
      ]
    ]

releases-store :
    (n i scan value : ℕ) (keys : Array)
    → scan < i
    → releases n i (store keys scan value) ≡ releases n i keys
unfolding releases
releases-store zero i scan value keys h = refl
releases-store (suc n) i scan value keys h =
    ground (arith, releases-store n (suc i) scan value keys)

abbrev released : SharedKeyState → ℕ → SharedKeyState
released s scan =
    publish_controller_event (record s { controller_keys = store s.controller_keys scan 0 })
      (record { scan = scan; pressed = false })

pub clear_loop-Tracks :
    (n scan : ℕ) (h : List Transition) (s : SharedKeyState)
    → scan + n ≤ key_count
    → Tracks h s
    → Tracks (h ++ releases n scan s.controller_keys) (clear_loop n scan s)
unfolding clear_loop publish_controller_event releases
clear_loop-Tracks zero scan h s byte v = rw (append-nil h) v
clear_loop-Tracks (suc n) scan h s byte v =
    let e : Transition = record { scan = scan; pressed = false } in
    elim (Bool-cases (is_high (s.controller_keys scan))) [
      | inl down ↦ rw down (
          subst (λ l. Tracks l (clear_loop n (suc scan) (released s scan))) (sym (appended e))
            (clear_loop-Tracks n (suc scan) (h ++ e ∷ []) (released s scan) (omega arith)
              (publish-Tracks h s e (omega arith) v)))
      | inr up ↦ rw up (clear_loop-Tracks n (suc scan) h s (omega arith) v)
    ]
  where
    appended :
        (e : Transition)
        → h ++ e ∷ releases n (suc scan) s.controller_keys
          ≡ (h ++ e ∷ []) ++ releases n (suc scan) (store s.controller_keys scan 0)
    appended e = rw (
      releases-store n (suc scan) scan 0 s.controller_keys (omega arith),
      append_assoc h (e ∷ []) (releases n (suc scan) s.controller_keys),
    )

pub clear_loop-high :
    (n scan : ℕ) (s : SharedKeyState) (key : ℕ)
    → is_high ((clear_loop n scan s).controller_keys key)
      ≡ (is_high (s.controller_keys key) && not (leb scan key && ltb key (scan + n)))
unfolding clear_loop publish_controller_event is_high
clear_loop-high zero scan s key = ground arith
clear_loop-high (suc n) scan s key =
    ground (
      arith,
      clear_loop-high n (suc scan) s key,
      clear_loop-high n (suc scan) (released s scan) key,
    )

pub write_level-sequence :
    (s : SharedKeyState) (scan : ℕ) (pressed : Bool)
    → (write_level s scan pressed).controller_sequence ≡ s.controller_sequence
unfolding write_level publish_controller_event
write_level-sequence s scan pressed = ground arith

pub clear_loop-sequence :
    (n scan : ℕ) (s : SharedKeyState)
    → (clear_loop n scan s).controller_sequence ≡ s.controller_sequence
unfolding clear_loop publish_controller_event
clear_loop-sequence zero scan s = refl
clear_loop-sequence (suc n) scan s =
    ground (
      arith,
      clear_loop-sequence n (suc scan) s,
      clear_loop-sequence n (suc scan) (released s scan),
    )

pub write_level-high :
    (s : SharedKeyState) (scan value : ℕ)
    → is_high ((write_level s scan (is_high value)).controller_keys scan) ≡ is_high value
unfolding write_level publish_controller_event is_high
write_level-high s scan value = ground arith
