-- ===== src/Db/Threads/Alone.antt =====
-- db_sync of src/db.c as the steps of the database thread, without the main thread in between.
use autodialer_core.Base.{◌≡◌, Bool, List, [], ◌++◌, Text}
use autodialer_core.Db.{null, DbCon, Ping, db_reconnect}
use autodialer_core.Db.Threads.{outside, Shared, Reach}

-- The database thread can go from `t` to a state outside `db_sync` with this connection, and has
-- sent these statements by then.
abbrev pub CanSync : Shared → DbCon × List Text → Type 0
CanSync t x =
    (u : Shared) × (Reach t u × (u.db ≡ x.0) × (u.sent ≡ t.sent ++ x.1) × (u.stage ≡ outside))

abbrev renewed : Ping → DbCon → Bool × DbCon
renewed g c = db_reconnect g.server (record c { con = null; sqllist = [] })
