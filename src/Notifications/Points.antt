-- ===== src/Notifications/Points.antt =====
-- The AA points of each client on their way to a notification.
use stonemite.Notifications.{NotificationCenter, record_aa_point_gain, points_of, u32_max}
use stonemite.Base.Dict.{lookup, insert, lookup-insert, lookup-remove}
use stonemite.Base.{ℕ, ◌+◌, min, ◌≤◌, ◌<◌, ◌≡◌, List, [], ◌∷◌, arith, ◌==◌, if◌then◌else◌}

abbrev pub pending : NotificationCenter → ℕ → ℕ
pending c pid = points_of (lookup pid c.aa_points_since_notification)

-- The points that a list of gains, each of one client, has reported for `pid`.
pub record_all : NotificationCenter → List ℕ → ℕ → NotificationCenter × ℕ
record_all c [] pid = (c, 0)
record_all c (gainer ∷ gainers) pid =
    let r = record_aa_point_gain c gainer in
    let rest = record_all r.0 gainers pid in
    (rest.0, (if gainer == pid then points_of r.1 else 0) + rest.1)

abbrev pub times : ℕ → List ℕ → ℕ
times pid [] = 0
times pid (gainer ∷ gainers) = (if gainer == pid then 1 else 0) + times pid gainers

one_gain :
    (c : NotificationCenter) (gainer pid : ℕ)
    → pending c pid < c.aa_points_per_notification
    → c.aa_points_per_notification ≤ 100
    → ((if gainer == pid then points_of (record_aa_point_gain c gainer).1 else 0)
          + pending (record_aa_point_gain c gainer).0 pid
        ≡ (if gainer == pid then 1 else 0) + pending c pid)
      × (pending (record_aa_point_gain c gainer).0 pid < c.aa_points_per_notification)
      × ((record_aa_point_gain c gainer).0.aa_points_per_notification
          ≡ c.aa_points_per_notification)
unfolding record_aa_point_gain
one_gain c gainer pid below bound =
    let xs = c.aa_points_since_notification in
    let counted = insert gainer (min (points_of (lookup gainer xs) + 1) u32_max) xs in
    ground (
      arith,
      lookup-insert gainer pid (min (points_of (lookup gainer xs) + 1) u32_max) xs,
      lookup-remove gainer pid counted,
    )

-- No AA point is lost or counted twice: over any gains of any clients, the points that the
-- notifications of one client have reported and those still pending for it are its gains and the
-- points that were pending before; and fewer stay pending than a notification takes.
pub record_all-keeps :
    (c : NotificationCenter) (gainers : List ℕ) (pid : ℕ)
    → pending c pid < c.aa_points_per_notification
    → c.aa_points_per_notification ≤ 100
    → ((record_all c gainers pid).1 + pending (record_all c gainers pid).0 pid
        ≡ times pid gainers + pending c pid)
      × (pending (record_all c gainers pid).0 pid < c.aa_points_per_notification)
unfolding record_all
record_all-keeps c [] pid below bound = (omega arith, below)
record_all-keeps c (gainer ∷ gainers) pid below bound =
    let (kept, still, same) = one_gain c gainer pid below bound in
    let next = (record_aa_point_gain c gainer).0 in
    let (rest, less) = record_all-keeps next gainers pid (rw same still) (rw same bound) in
    (omega (arith, kept, rest), omega (arith, same, less))
