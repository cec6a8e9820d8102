-- ===== src/KeyState/Lease/Writers.antt =====
-- The auto-type operations when no other process interferes.
use stonemite.KeyState.State.{SharedKeyState, key_count, u32_mod, wrapping_add, heartbeat_is_fresh}
use stonemite.KeyState.Lease.{
  encode_lease, lease_generation, lease_heartbeat, encode_auto_key, auto_key_generation,
  auto_key_is_pressed, active_auto_type_generation, set_auto_key_loop, set_auto_type_key,
  refresh_loop, refresh_auto_type_lease, begin_loop, begin_auto_type, retire_loop, retire_auto_type,
}
use stonemite.Base.{
  inl, ap, ℕ, zero, suc, ◌+◌, ◌%◌, ◌≤◌, ◌<◌, ◌⊎◌, max, ◌≡◌, ◌≢◌, refl, Bool, true, false, not, none,
  some, arith, ◌==◌, if◌then◌else◌,
}

-- A lease word is read back as the generation and the heartbeat that it was made of.
pub lease-encode :
    (generation now_ms : ℕ)
    → generation < u32_mod
    → now_ms < u32_mod
    → (lease_generation (encode_lease generation now_ms) ≡ generation)
      × (lease_heartbeat (encode_lease generation now_ms) ≡ max now_ms 1)
unfolding lease_generation lease_heartbeat encode_lease
lease-encode generation now_ms small clock = omega arith

pub auto_key-encode :
    (generation : ℕ) (pressed : Bool)
    → generation < u32_mod
    → (auto_key_generation (encode_auto_key generation pressed) ≡ generation)
      × (auto_key_is_pressed (encode_auto_key generation pressed) generation ≡ pressed)
unfolding auto_key_generation encode_auto_key auto_key_is_pressed
auto_key-encode generation pressed small = ground arith

set_auto_key_loop-lem :
    (weak : ℕ) (s : SharedKeyState) (generation scan replacement : ℕ)
    → set_auto_key_loop weak s generation scan replacement (s.auto_type_keys scan)
      ≡ set_auto_key_loop 0 s generation scan replacement (s.auto_type_keys scan)
unfolding set_auto_key_loop
set_auto_key_loop-lem zero s generation scan replacement = refl
set_auto_key_loop-lem (suc weak) s generation scan replacement =
    ground (arith, set_auto_key_loop-lem weak s generation scan replacement)

refresh_loop-lem :
    (weak : ℕ) (s : SharedKeyState) (generation now_ms : ℕ)
    → refresh_loop weak s generation now_ms s.auto_type_lease
      ≡ refresh_loop 0 s generation now_ms s.auto_type_lease
unfolding refresh_loop
refresh_loop-lem zero s generation now_ms = refl
refresh_loop-lem (suc weak) s generation now_ms =
    ground (arith, refresh_loop-lem weak s generation now_ms)

begin_loop-lem :
    (weak : ℕ) (s : SharedKeyState) (generation new_lease : ℕ)
    → begin_loop weak s generation new_lease s.auto_type_lease
      ≡ begin_loop 0 s generation new_lease s.auto_type_lease
unfolding begin_loop
begin_loop-lem zero s generation new_lease = refl
begin_loop-lem (suc weak) s generation new_lease =
    ground (arith, begin_loop-lem weak s generation new_lease)

retire_loop-lem :
    (weak : ℕ) (s : SharedKeyState) (generation : ℕ)
    → retire_loop weak s generation s.auto_type_lease ≡ retire_loop 0 s generation s.auto_type_lease
unfolding retire_loop
retire_loop-lem zero s generation = refl
retire_loop-lem (suc weak) s generation = ground (arith, retire_loop-lem weak s generation)

-- `set_auto_type_key` reports failure and changes nothing if another generation holds the lease, or
-- the key was written by a newer one, or the scan code is out of range.
set_auto_type_key-stale :
    (weak : ℕ) (s : SharedKeyState) (generation scan value : ℕ)
    → (lease_generation s.auto_type_lease ≢ generation)
      ⊎ ((generation < auto_key_generation (s.auto_type_keys scan)) ⊎ (key_count ≤ scan))
    → set_auto_type_key weak s generation scan value ≡ (s, false)
unfolding set_auto_type_key set_auto_key_loop
set_auto_type_key-stale weak s generation scan value stale = ground (
  arith,
  set_auto_key_loop-lem weak s generation scan (encode_auto_key generation (not (value == 0))),
)

-- If no newer generation wrote the key, a write of the owner of the lease succeeds: the key is pressed
-- exactly if the value is not zero, and no other key changes.
set_auto_type_key-owner :
    (weak : ℕ) (s : SharedKeyState) (generation scan value : ℕ)
    → generation < u32_mod
    → lease_generation s.auto_type_lease ≡ generation
    → auto_key_generation (s.auto_type_keys scan) ≤ generation
    → scan < key_count
    → ((set_auto_type_key weak s generation scan value).1 ≡ true)
      × (auto_key_is_pressed
            ((set_auto_type_key weak s generation scan value).0.auto_type_keys scan)
            generation
          ≡ not (value == 0))
      × ((other : ℕ)
          → (set_auto_type_key weak s generation scan value).0.auto_type_keys other ≡ (
              if other == scan
              then encode_auto_key generation (not (value == 0))
              else s.auto_type_keys other))
unfolding set_auto_type_key set_auto_key_loop
set_auto_type_key-owner weak s generation scan value small owner newer inside = (
  ground (
    arith,
    set_auto_key_loop-lem weak s generation scan (encode_auto_key generation (not (value == 0))),
  ),
  ground (
    arith,
    set_auto_key_loop-lem weak s generation scan (encode_auto_key generation (not (value == 0))),
    auto_key-encode generation (not (value == 0)),
  ),
  λ other. ground (
    arith,
    set_auto_key_loop-lem weak s generation scan (encode_auto_key generation (not (value == 0))),
  ),
)

abbrev leased : SharedKeyState → ℕ → ℕ → SharedKeyState
leased s generation now_ms = record s {
  auto_type_generation = generation;
  auto_type_lease = encode_lease generation now_ms;
}

begin_auto_type-leased :
    (weak : ℕ) (s : SharedKeyState) (now_ms : ℕ)
    → suc s.auto_type_generation < u32_mod
    → lease_generation s.auto_type_lease ≤ s.auto_type_generation
    → begin_auto_type weak s now_ms
      ≡ some (leased s (suc s.auto_type_generation) now_ms, suc s.auto_type_generation)
unfolding begin_auto_type begin_loop wrapping_add
begin_auto_type-leased weak s now_ms room behind = ground (
  arith,
  begin_loop-lem weak (record s { auto_type_generation = (s.auto_type_generation + 1) % u32_mod })
      ((s.auto_type_generation + 1) % u32_mod)
      (encode_lease ((s.auto_type_generation + 1) % u32_mod) now_ms),
)

set_auto_type_key-auto_type_lease :
    (weak : ℕ) (s : SharedKeyState) (generation scan value : ℕ)
    → (set_auto_type_key weak s generation scan value).0.auto_type_lease ≡ s.auto_type_lease
unfolding set_auto_type_key set_auto_key_loop
set_auto_type_key-auto_type_lease weak s generation scan value = ground (
  arith,
  set_auto_key_loop-lem weak s generation scan (encode_auto_key generation (not (value == 0))),
)

-- Beginning auto-type takes the keys over. Let the 32-bit counter have room, and let no generation
-- beyond the counter hold the lease or have written a key. Then `begin_auto_type` returns the next
-- generation; its write of a key within range succeeds, shows the key pressed exactly if the value is
-- not zero, and changes no other key; and a write of any key under an earlier generation, which comes
-- next, fails and changes nothing. All hold however often the exchanges fail for no reason.
pub begin_auto_type-takes_over :
    (w₁ w₂ w₃ : ℕ) (s : SharedKeyState) (now_ms scan value earlier other_scan other_value : ℕ)
    → suc s.auto_type_generation < u32_mod
    → now_ms < u32_mod
    → lease_generation s.auto_type_lease ≤ s.auto_type_generation
    → ((key : ℕ) → auto_key_generation (s.auto_type_keys key) ≤ s.auto_type_generation)
    → scan < key_count
    → earlier ≤ s.auto_type_generation
    → let generation = suc s.auto_type_generation in
      (t : SharedKeyState) × (u : SharedKeyState) × (begin_auto_type w₁ s now_ms
        ≡ some (t, generation))
      × (set_auto_type_key w₂ t generation scan value ≡ (u, true))
      × (auto_key_is_pressed (u.auto_type_keys scan) generation ≡ not (value == 0))
      × ((key : ℕ)
          → u.auto_type_keys key ≡ (
              if key == scan
              then encode_auto_key generation (not (value == 0))
              else s.auto_type_keys key))
      × (set_auto_type_key w₃ u earlier other_scan other_value ≡ (u, false))
begin_auto_type-takes_over w₁ w₂ w₃ s now_ms scan value earlier other_scan other_value room clock
      behind stamps inside old =
    let g = suc s.auto_type_generation in
    let t : SharedKeyState = leased s g now_ms in
    let owner = (lease-encode g now_ms room clock).0 in
    let u : SharedKeyState = (set_auto_type_key w₂ t g scan value).0 in
    let stamp = stamps scan in
    let written = set_auto_type_key-owner w₂ t g scan value room owner (omega arith) inside in
    let kept = ap lease_generation (set_auto_type_key-auto_type_lease w₂ t g scan value) in
    (
      t,
      u,
      begin_auto_type-leased w₁ s now_ms room behind,
      ap (λ b. (u, b)) written.0,
      written.1,
      written.2,
      set_auto_type_key-stale w₃ u earlier other_scan other_value
          (inl (λ e. omega (arith, kept, owner, e))),
    )

active-encode :
    (s : SharedKeyState) (generation now_ms : ℕ)
    → 0 < generation
    → generation < u32_mod
    → 0 < now_ms
    → now_ms < u32_mod
    → s.auto_type_lease ≡ encode_lease generation now_ms
    → active_auto_type_generation s now_ms ≡ some generation
unfolding active_auto_type_generation heartbeat_is_fresh
active-encode s generation now_ms some_one small pos clock e =
    ground (arith, e, lease-encode generation now_ms)

refresh-owner :
    (weak : ℕ) (s : SharedKeyState) (generation now_ms : ℕ)
    → lease_generation s.auto_type_lease ≡ generation
    → refresh_auto_type_lease weak s generation now_ms
      ≡ (record s { auto_type_lease = encode_lease generation now_ms }, true)
unfolding refresh_auto_type_lease refresh_loop
refresh-owner weak s generation now_ms owner =
    ground (arith, refresh_loop-lem weak s generation now_ms)

retire-owner :
    (weak : ℕ) (s : SharedKeyState) (generation now_ms : ℕ)
    → lease_generation s.auto_type_lease ≡ generation
    → active_auto_type_generation (retire_auto_type weak s generation) now_ms ≡ none
unfolding retire_auto_type retire_loop active_auto_type_generation lease_generation
retire-owner weak s generation now_ms owner = ground (arith, retire_loop-lem weak s generation)

-- The life of a lease. While the 32-bit counter has room and no newer lease is held, beginning
-- auto-type at a time that is not 0 returns the next generation and makes it the active one; a
-- refresh succeeds and keeps it active at the later time; its retirement ends it at every time.
pub lease_life :
    (w₁ w₂ w₃ : ℕ) (s : SharedKeyState) (begin later : ℕ)
    → suc s.auto_type_generation < u32_mod
    → lease_generation s.auto_type_lease ≤ s.auto_type_generation
    → 0 < begin
    → begin < u32_mod
    → 0 < later
    → later < u32_mod
    → let generation = suc s.auto_type_generation in
      (t : SharedKeyState) × (begin_auto_type w₁ s begin ≡ some (t, generation))
      × (active_auto_type_generation t begin ≡ some generation)
      × ((refresh_auto_type_lease w₂ t generation later).1 ≡ true)
      × (active_auto_type_generation (refresh_auto_type_lease w₂ t generation later).0 later
          ≡ some generation)
      × ((at : ℕ) → active_auto_type_generation (retire_auto_type w₃ t generation) at ≡ none)
lease_life w₁ w₂ w₃ s begin later room behind pos clock pos' clock' =
    let g = suc s.auto_type_generation in
    let t : SharedKeyState = leased s g begin in
    let owner = (lease-encode g begin room clock).0 in
    (
      t,
      begin_auto_type-leased w₁ s begin room behind,
      active-encode t g begin (omega arith) room pos clock refl,
      rw (refresh-owner w₂ t g later owner),
      rw (refresh-owner w₂ t g later owner) (
          active-encode (record t { auto_type_lease = encode_lease g later }) g later (omega arith)
            room pos' clock' refl),
      λ at. retire-owner w₃ t g at owner,
    )
