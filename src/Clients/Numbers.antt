-- ===== src/Clients/Numbers.antt =====
-- `exchange_window_numbers`: the stable numbers of two clients change places.
use stonemite.Clients.{EqWindow}
use stonemite.Base.{
  ℕ, zero, suc, ◌≡◌, refl, Option, none, some, List, [], ◌∷◌, arith, ◌==◌, if◌then◌else◌,
  Option-cases, Bool-cases, inl, inr,
}

abbrev after_one : Option ℕ → Option ℕ
after_one none = none
after_one (some i) = some (suc i)

-- `iter().position(|window| window.pid == pid)`.
unfoldable pub position : ℕ → List EqWindow → Option ℕ
position pid [] = none
position pid (w ∷ ws) =
    let rest = position pid ws in if w.pid == pid then some 0 else after_one rest

unfoldable pub number_at : List EqWindow → ℕ → ℕ
number_at [] i = 0
number_at (w ∷ ws) zero = w.number
number_at (w ∷ ws) (suc i) = number_at ws i

unfoldable pub set_number : List EqWindow → ℕ → ℕ → List EqWindow
set_number [] i number = []
set_number (w ∷ ws) zero number = record w { number = number } ∷ ws
set_number (w ∷ ws) (suc i) number = w ∷ set_number ws i number

abbrev pub exchange_at : List EqWindow → Option ℕ → Option ℕ → Option (List EqWindow × (ℕ × ℕ))
exchange_at ws (some i) (some j) =
    let first_number = number_at ws i in
    let second_number = number_at ws j in
    some (
      if i == j then ws else set_number (set_number ws i second_number) j first_number,
      (first_number, second_number),
    )
exchange_at ws i j = none

-- The windows afterwards, and the numbers that the two had.
unfoldable pub exchange_window_numbers : List EqWindow → ℕ → ℕ → Option (List EqWindow × (ℕ × ℕ))
unfolding position number_at set_number
exchange_window_numbers ws first_pid second_pid =
    exchange_at ws (position first_pid ws) (position second_pid ws)

-- The number of the client.
unfoldable pub number_of : ℕ → List EqWindow → Option ℕ
number_of pid [] = none
number_of pid (w ∷ ws) = if w.pid == pid then some w.number else number_of pid ws

number_of-set :
    (pid other i number : ℕ) (ws : List EqWindow)
    → position pid ws ≡ some i
    → number_of other (set_number ws i number)
      ≡ (if pid == other then some number else number_of other ws)
unfolding number_of set_number position
number_of-set pid other i number [] h = ground (arith, h)
number_of-set pid other i number (w ∷ ws) h = elim (Option-cases (position pid ws)) [
  | inl out ↦ ground (arith, h, out)
  | inr (k, out) ↦ ground (arith, h, out, number_of-set pid other k number ws)
]

position-set :
    (pid i number : ℕ) (ws : List EqWindow)
    → position pid (set_number ws i number) ≡ position pid ws
unfolding set_number position
position-set pid i number [] = refl
position-set pid zero number (w ∷ ws) = ground arith
position-set pid (suc i) number (w ∷ ws) = ground (arith, position-set pid i number ws)

number_of-position :
    (pid i : ℕ) (ws : List EqWindow)
    → position pid ws ≡ some i
    → number_of pid ws ≡ some (number_at ws i)
unfolding number_of position number_at
number_of-position pid i [] h = ground (arith, h)
number_of-position pid i (w ∷ ws) h = elim (Option-cases (position pid ws)) [
  | inl out ↦ ground (arith, h, out)
  | inr (k, out) ↦ ground (arith, h, out, number_of-position pid k ws)
]

position-same :
    (p q i : ℕ) (ws : List EqWindow) → position p ws ≡ some i → position q ws ≡ some i → p ≡ q
unfolding position
position-same p q i [] h k = ground (arith, h)
position-same p q i (w ∷ ws) h k = elim (Option-cases (position p ws)) [
  | inl out ↦ elim (Option-cases (position q ws)) [
    | inl none_too ↦ ground (arith, h, k, out, none_too)
    | inr (n, found) ↦ ground (arith, h, k, out, found)
  ]
  | inr (m, out) ↦ elim (Option-cases (position q ws)) [
    | inl none_too ↦ ground (arith, h, k, out, none_too)
    | inr (n, found) ↦ ground (arith, h, k, out, found, position-same p q m ws)
  ]
]

position-none : (pid : ℕ) (ws : List EqWindow) → position pid ws ≡ none → number_of pid ws ≡ none
unfolding position number_of
position-none pid [] h = refl
position-none pid (w ∷ ws) h = elim (Option-cases (position pid ws)) [
  | inl out ↦ ground (arith, h, out, position-none pid ws)
  | inr (k, out) ↦ ground (arith, h, out)
]

exchange_at_lem :
    (ws : List EqWindow) (p q i j a b other : ℕ)
    → position p ws ≡ some i
    → position q ws ≡ some j
    → number_of p ws ≡ some a
    → number_of q ws ≡ some b
    → (t : List EqWindow) × (exchange_at ws (some i) (some j) ≡ some (t, (a, b)))
      × (number_of other t
          ≡ (if q == other then some a else if p == other then some b else number_of other ws))
exchange_at_lem ws p q i j a b other at_i at_j h k =
    let first = number_of-position p i ws at_i in
    let second = number_of-position q j ws at_j in
    elim (Bool-cases (i == j)) [
      | inl same ↦ (
        ws,
        ground (arith, h, k, first, second, same),
        ground (arith, h, k, first, second, at_i, at_j, same, position-same p q i ws),
      )
      | inr apart ↦ (
        set_number (set_number ws i (number_at ws j)) j (number_at ws i),
        ground (arith, h, k, first, second, apart),
        ground (
          arith,
          h,
          k,
          first,
          second,
          at_j,
          number_of-set q other j (number_at ws i) (set_number ws i (number_at ws j)),
          position-set q i (number_at ws j) ws,
          number_of-set p other i (number_at ws j) ws,
        ),
      )
    ]

-- Both clients get the other's number, every other client keeps its own, and the result tells what
-- the two had; this holds for any two clients that are loaded, and for a client with itself.
pub exchange_window_numbers_lem :
    (ws : List EqWindow) (p q a b other : ℕ)
    → number_of p ws ≡ some a
    → number_of q ws ≡ some b
    → (t : List EqWindow) × (exchange_window_numbers ws p q ≡ some (t, (a, b)))
      × (number_of other t
          ≡ (if q == other then some a else if p == other then some b else number_of other ws))
unfolding exchange_window_numbers
exchange_window_numbers_lem ws p q a b other h k = elim (Option-cases (position p ws)) [
  | inl out ↦ absurd (ground (arith, h, position-none p ws out))
  | inr (i, at_i) ↦ elim (Option-cases (position q ws)) [
    | inl out ↦ absurd (ground (arith, k, position-none q ws out))
    | inr (j, at_j) ↦
        rw (exchange_window_numbers, at_i, at_j)
          (exchange_at_lem ws p q i j a b other at_i at_j h k)
  ]
]
