-- ===== src/KeyState/Ring/Drain.antt =====
-- What a reader of the ring gets, in terms of all transitions published so far.
use stonemite.KeyState.State.{SharedKeyState, controller_event_capacity, u32_mod, wrapping_add}
use stonemite.KeyState.Ring.{
  Transition, encode_event, event_sequence, decode_event, publish_controller_event, drain_loop,
  drain_from, drain_controller_events,
}
use stonemite.Base.{
  ℕ, zero, suc, ◌+◌, ◌-◌, ◌%◌, ◌≤◌, ◌<◌, max, ◌≡◌, refl, ◌⊎◌, inl, inr, Bool, true, false, some,
  List, [], ◌∷◌, ◌++◌, length, get_elem?, drop, length-append, arith, ltb, dec_lt, ap, sym, subst,
}
use mathlib.Core.List.{append-nil, append_assoc}

-- The history `h` of all transitions, oldest first, and the slots that still hold the last of them.
pub record Holds (h : List Transition) (s : SharedKeyState) : Type 0 where
  pub head : s.controller_event_head ≡ length h % u32_mod
  pub slot :
      (k : ℕ) (e : Transition)
      → get_elem? h k ≡ some e
      → length h ≤ k + controller_event_capacity
      → (s.controller_events (k % u32_mod % controller_event_capacity)
          ≡ encode_event (k % u32_mod) e)
        × (e.scan < 256)

module _ {ℓ} {A : Type ℓ} where
  pub get_elem?-lt : (xs : List A) (k : ℕ) (a : A) → get_elem? xs k ≡ some a → k < length xs
  get_elem?-lt [] k a e = ground arith
  get_elem?-lt (x ∷ xs) zero a e = omega arith
  get_elem?-lt (x ∷ xs) (suc k) a e = omega (arith, get_elem?-lt xs k a e)

  get_elem?-append :
      (xs : List A) (y : A) (k : ℕ) (a : A)
      → get_elem? (xs ++ y ∷ []) k ≡ some a
      → (get_elem? xs k ≡ some a) ⊎ ((k ≡ length xs) × (y ≡ a))
  get_elem?-append [] y zero a e = inr (refl, ground arith)
  get_elem?-append [] y (suc k) a e = ground arith
  get_elem?-append (x ∷ xs) y zero a e = inl e
  get_elem?-append (x ∷ xs) y (suc k) a e = ground (arith, get_elem?-append xs y k a e)

  drop-get_elem? :
      (xs : List A) (k : ℕ)
      → k < length xs
      → (a : A) × (get_elem? xs k ≡ some a) × (drop k xs ≡ a ∷ drop (suc k) xs)
  drop-get_elem? [] k h = absurd (omega arith)
  drop-get_elem? (x ∷ xs) zero h = (x, refl, refl)
  drop-get_elem? (x ∷ xs) (suc k) h = drop-get_elem? xs k (omega arith)

  drop-length : (xs : List A) → drop (length xs) xs ≡ []
  drop-length [] = refl
  drop-length (x ∷ xs) = drop-length xs

pub decode-encode :
    (sequence : ℕ) (e : Transition)
    → sequence < u32_mod
    → e.scan < 256
    → (event_sequence (encode_event sequence e) ≡ sequence)
      × (decode_event (encode_event sequence e) ≡ e)
unfolding event_sequence decode_event encode_event
decode-encode sequence e small byte = ground arith

pub publish-Holds :
    (h : List Transition) (s : SharedKeyState) (e : Transition)
    → e.scan < 256
    → Holds h s
    → Holds (h ++ e ∷ []) (publish_controller_event s e)
unfolding publish_controller_event
publish-Holds h s e byte v = record {
  head = omega (arith, v.head, length-append h (e ∷ []));
  slot = λ k a found near. elim (get_elem?-append h e k a found) [
    | inl old ↦
        ground (arith, v.head, v.slot k a old, get_elem?-lt h k a old, length-append h (e ∷ []))
    | inr (last, same) ↦ ground (arith, v.head, ap (λ (n : ℕ). n % u32_mod) last)
  ];
}

caught_up : (k : ℕ) (h : List Transition) → k ≡ length h → drop k h ≡ []
caught_up k h e = subst (λ n. drop n h ≡ []) (sym e) (drop-length h)

drain_loop-Holds :
    (n k fuel : ℕ) (h : List Transition) (s : SharedKeyState) (o : Bool) (vs : List Transition)
    → Holds h s
    → k + n ≡ length h
    → n ≤ controller_event_capacity
    → n ≤ fuel
    → drain_loop fuel s.controller_events (k % u32_mod) s.controller_event_head o vs
      ≡ some (o, vs ++ drop k h)
unfolding drain_loop wrapping_add
drain_loop-Holds zero k zero h s o vs v total few enough =
    ground (arith, v.head, caught_up k h, append-nil vs)
drain_loop-Holds zero k (suc fuel) h s o vs v total few enough =
    ground (arith, v.head, caught_up k h, append-nil vs)
drain_loop-Holds (suc n) k zero h s o vs v total few enough = absurd (omega arith)
drain_loop-Holds (suc n) k (suc fuel) h s o vs v total few enough =
    let (e, found, rest) = drop-get_elem? h k (omega arith) in
    let (held, byte) = v.slot k e found (omega arith) in
    ground (
      arith,
      v.head,
      held,
      rest,
      decode-encode (k % u32_mod) e,
      append_assoc vs (e ∷ []) (drop (suc k) h),
      drain_loop-Holds n (suc k) fuel h s o (vs ++ e ∷ []) v,
    )

drain_from-Holds :
    (h : List Transition) (s : SharedKeyState) (c : ℕ)
    → Holds h s
    → c ≤ length h
    → length h < c + u32_mod
    → drain_from s (c % u32_mod)
      ≡ some (record {
        cursor = some s.controller_event_head;
        overflowed = ltb controller_event_capacity (length h - c);
        visited = drop (max c (length h - controller_event_capacity)) h;
      })
unfolding drain_from
drain_from-Holds h s c v past near = elim (dec_lt controller_event_capacity (length h - c)) [
  | yes behind ↦
      let k = length h - controller_event_capacity in
      ground (
        arith,
        v.head,
        ap (λ n. drop n h) (latest c (length h) behind),
        drain_loop-Holds controller_event_capacity k controller_event_capacity h s true [] v,
      )
  | no near_enough ↦ ground (
    arith,
    v.head,
    ap (λ n. drop n h) (recent c (length h) near_enough),
    drain_loop-Holds (length h - c) c controller_event_capacity h s false [] v,
  )
]
  where
    latest :
        (c n : ℕ)
        → controller_event_capacity < n - c
        → max c (n - controller_event_capacity) ≡ n - controller_event_capacity
    latest c n b = omega arith

    recent :
        (c n : ℕ)
        → ¬ (controller_event_capacity < n - c)
        → max c (n - controller_event_capacity) ≡ c
    recent c n b = omega arith

-- The ring loses nothing that it can hold. Whatever the number of transitions published so far (the
-- list `h`, whose latest are in the ring), a reader whose cursor stands behind the first `c` of
-- them, less than a round of the 32-bit counter ago, is given the transitions that follow, in
-- order, and its cursor moves to the head. Only if more than 1024 follow, it is given the last
-- 1024, and told of the loss. The loop ends within its fuel.
pub drain-Holds :
    (h : List Transition) (s : SharedKeyState) (c : ℕ)
    → Holds h s
    → c ≤ length h
    → length h < c + u32_mod
    → drain_controller_events s (some (c % u32_mod))
      ≡ some (record {
        cursor = some (length h % u32_mod);
        overflowed = ltb controller_event_capacity (length h - c);
        visited = drop (max c (length h - controller_event_capacity)) h;
      })
unfolding drain_controller_events
drain-Holds h s c v past near = rw (← v.head) (drain_from-Holds h s c v past near)
