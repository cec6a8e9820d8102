-- ===== src/Lib.antt =====
-- Models of the program logic of Stonemite, a companion for playing several EverQuest clients at once.
--
-- The parts, and how they interact. The application (crates/stonemite) broadcasts keys and the mouse
-- to background clients through a block of shared memory, whose layout and protocol stand in
-- crates/trusik-protocol and which the key proxy in each client reads. Its overlay keeps the
-- registry of clients, their notifications and their combat borders. Log lines of all clients
-- reach the combat engine (crates/eqcombat), which counts damage and shows rates, and the trigger engine
-- (crates/eqtrigger), which shows, plays and speaks what the user asked for.
--
-- The modules:
-- - Base: the shared numbers, tests, lists, arrays, maps and texts.
-- - KeyState: crates/trusik-protocol/src/lib.rs. State has the record SharedKeyState and the
--   heartbeats, Ring the ring of transitions, Keys the key levels behind the sequence lock and the
--   merged reads, Lease the auto-type lease and its keys; Lease/Race interleaves the atomic operations of
--   begin_auto_type and refresh_auto_type_lease.
-- - Clutch: MouseClutch of crates/stonemite/src/broadcast.rs; `handle` is one call of the hooks,
--   of the poll or for a remote hold.
-- - Awareness: CombatAwarenessCenter of crates/stonemite/src/overlay/combat_awareness.rs.
-- - Metrics: crates/eqcombat/src/metrics.rs.
-- - Sources: the log sources of CombatEngine in crates/eqcombat/src/engine.rs.
-- - Encounters: the encounters of CombatEngine. Facts has what a fact read from a log does to them,
--   Lifecycle the ends of encounters and the deadlines, Run composes them with Sources to the
--   engine's apply and tick. Phases advances each encounter by itself.
-- - Conditions: the tokenizer, the parser and the evaluation of crates/eqtrigger/src/conditions.rs,
--   with a writer of texts for them to be measured by.
-- - Triggers: the triggers of a character, in crates/eqtrigger/src. Substitute has the templates of
--   substitute.rs, Variables, Repeats and Timers what the engine keeps of a character, Profiles which
--   triggers are active. Audio, Actions, Firing and Handle have the parts of handle_trigger, Stages and
--   Clock of advance, Enders of check_timer_enders, and Lines of process_line, in engine.rs.
-- - Clients: ClientRegistry of crates/stonemite/src/overlay/clients.rs, with BoxIdentity of
--   crates/stonemite/src/config.rs.
-- - Notifications: NotificationCenter and Notification of
--   crates/stonemite/src/overlay/notifications.rs.
-- - Control: the ids, the revisions and the bounds on input of crates/trushar/src/control.rs, through
--   which a remote controller sees and steers the clients.
-- A function has the name of the source's function; a method takes its object first, and what it
-- changes is in its result.
--
-- Numbers are natural, with the wrap-around or the saturation of their width written out. An i64
-- second is shifted by 2 ^ 63. Bounds and fuel: the loop of drain_controller_events runs on 1024
-- rounds, which is the capacity of the ring and all that is left once an overflow is cut off; the
-- binary search of mul_div_bounded runs on 20 halvings, enough for multipliers below 2 ^ 20, of
-- which 1000000 is the only one in use; the parser of conditions runs on six units for each token
-- and six more, as each token costs at most six calls and rounds of loops; the tokenizer and the
-- replacement of codes run on the length of the text, of which each round reads a character. Weak
-- exchanges that fail for no reason are counted by a parameter `weak`; waiting for a lock that
-- another process holds is `none`.
--
-- Not modelled: the snapshots and elections of the combat engine and its resolution of names, the
-- import, the storage and the compilation of triggers, their patterns, which stand on the regex
-- crate, and their traces and snapshots (crates/eqtrigger), the parsers of log lines
-- (crates/eqlog), the hooks and windows of the operating system, drawing, sound, the transport of
-- the server (crates/trushar), settings on disk, and the pages and plugins under packages.
pub mod Base
pub mod KeyState
pub mod Clutch
pub mod Awareness
pub mod Encounters
pub mod Metrics
pub mod Clients
pub mod Notifications
pub mod Sources
pub mod Control
pub mod Conditions
pub mod Triggers
