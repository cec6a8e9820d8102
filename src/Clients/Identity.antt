-- ===== src/Clients/Identity.antt =====
-- `reconcile_identity`: names that the log gives to a client, against names given by hand.
use stonemite.Clients.{EqWindow}
use stonemite.Base.Text.{Text, eq_ignore_ascii_case}
use stonemite.Base.Dict.{lookup, insert, lookup-insert}
use stonemite.Base.{
  ℕ, ◌≡◌, Bool, true, false, ◌&&◌, Option, none, some, List, arith, ==_refl, if◌then◌else◌,
}

-- What was observed of a client before is the same identity, but for the case of letters.
abbrev pub is_seen : Option (Text × Text) → Text → Text → Bool
is_seen none character server = false
is_seen (some (old_character, old_server)) character server =
    eq_ignore_ascii_case old_character character && eq_ignore_ascii_case old_server server

-- The observed identities, the window, and whether they changed.
unfoldable pub reconcile_identity :
    List (ℕ × (Text × Text))
    → EqWindow
    → Text
    → Text
    → Option Text
    → List (ℕ × (Text × Text)) × (EqWindow × Bool)
reconcile_identity observed window character server class =
    if is_seen (lookup window.pid observed) character server then (observed, (window, false)) else (
      insert window.pid (character, server) observed,
      (record window { character = some character; server = some server; class = class }, true),
    )

-- Names given by hand last. When the log has given a client a new identity, its window may be changed
-- in any way but its process id; if the log then repeats the names, in any case of letters, nothing
-- is overwritten.
pub reconcile_identity-repeated :
    (observed : List (ℕ × (Text × Text))) (w edited : EqWindow)
    (character server again_character again_server : Text) (class again_class : Option Text)
    → edited.pid ≡ w.pid
    → is_seen (lookup w.pid observed) character server ≡ false
    → eq_ignore_ascii_case character again_character ≡ true
    → eq_ignore_ascii_case server again_server ≡ true
    → reconcile_identity
        (reconcile_identity observed w character server class).0
        edited
        again_character
        again_server
        again_class
      ≡ ((reconcile_identity observed w character server class).0, (edited, false))
unfolding reconcile_identity
reconcile_identity-repeated observed w edited c s c' s' k k' same new ec es =
    ground (arith, lookup-insert w.pid w.pid (c, s) observed, ==_refl w.pid)
