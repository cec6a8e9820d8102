-- ===== src/KeyState/Lease/Race.antt =====
-- The lease as processes race for it: each constructor of `Move` is one atomic operation of a
-- process in `begin_auto_type` or `refresh_auto_type_lease`. A weak exchange may fail at any time.
-- The clock readings are any u32. The assertion that the generation is not 0 comes after the counter
-- is stored: the process that finds it 0 panics, and the others go on from 0. Retirement is left out.
pub mod Moved
pub mod Latest
use stonemite.KeyState.State.{u32_mod, wrapping_add}
use stonemite.KeyState.Lease.{encode_lease, lease_generation}
use stonemite.Base.Arrays.{store}
use stonemite.Base.{ℕ, suc, ◌%◌, ◌≤◌, ◌<◌, ◌≡◌, ◌≢◌}

-- The two words that the operations share.
pub record Words : Type 0 where
  pub counter : ℕ
  pub lease : ℕ

-- Where a process stands: outside; behind `fetch_add`; at the head of the loop of
-- `begin_auto_type`; with a generation that it was given; at the head of the loop
-- of `refresh_auto_type_lease`; and panicked.
pub data Pc : Type 0 where
  idle : Pc
  fetched : (generation now_ms : ℕ) → Pc
  trying : (generation now_ms current : ℕ) → Pc
  begun : (generation : ℕ) → Pc
  refreshing : (generation now_ms lease : ℕ) → Pc
  panicked : Pc

pub data Move (m : Words) : Pc → Words → Pc → Type 0 where
  -- `fetch_add`, and the assertion that the generation is not 0, which holds or panics.
  fetch :
      (now_ms : ℕ)
      → now_ms < u32_mod
      → wrapping_add m.counter 1 ≢ 0
      → Move m idle
          (record m { counter = wrapping_add m.counter 1 })
          (fetched (wrapping_add m.counter 1) now_ms)
  exhaust :
      wrapping_add m.counter 1 ≡ 0
      → Move m idle (record m { counter = wrapping_add m.counter 1 }) panicked
  load : {g now_ms : ℕ} → Move m (fetched g now_ms) m (trying g now_ms m.lease)
  give_up : {g now_ms c : ℕ} → g ≤ lease_generation c → Move m (trying g now_ms c) m (begun g)
  win :
      {g now_ms c : ℕ}
      → lease_generation c < g
      → m.lease ≡ c
      → Move m (trying g now_ms c) (record m { lease = encode_lease g now_ms }) (begun g)
  lose :
      {g now_ms c : ℕ}
      → lease_generation c < g
      → Move m (trying g now_ms c) m (trying g now_ms m.lease)
  look : {g : ℕ} (now_ms : ℕ) → now_ms < u32_mod → Move m (begun g) m (refreshing g now_ms m.lease)
  leave : {g now_ms c : ℕ} → lease_generation c ≢ g → Move m (refreshing g now_ms c) m (begun g)
  renew :
      {g now_ms c : ℕ}
      → lease_generation c ≡ g
      → m.lease ≡ c
      → Move m (refreshing g now_ms c) (record m { lease = encode_lease g now_ms }) (begun g)
  look_again :
      {g now_ms c : ℕ}
      → lease_generation c ≡ g
      → Move m (refreshing g now_ms c) m (refreshing g now_ms m.lease)

pub record System : Type 0 where
  pub words : Words
  pub pc : ℕ → Pc

-- One process moves.
pub data Step (s : System) : System → Type 0 where
  pick :
      (i : ℕ) {m : Words} {p : Pc}
      → Move s.words (s.pc i) m p
      → Step s (record { words = m; pc = store s.pc i p })

abbrev pub start : System
start = record { words = record { counter = 0; lease = 0 }; pc = λ _. idle }

-- Any interleaving in which nobody retires.
pub data Reach : System → Type 0 where
  here : Reach start
  next : {s t : System} → Reach s → Step s t → Reach t
