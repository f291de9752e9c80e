-- ===== src/Db/Queue.antt =====
-- Which statements reach MySQL through the queue of src/db.c, and in which order.
use mathlib.Core.List.{append-nil, append_assoc}
use autodialer_core.Base.{
  ◌≡◌, refl, sym, ap, ◌∙◌, true, false, ◌⊎◌, Option, none, some, List, [], ◌∷◌, ◌++◌, Text, All,
  arith, ◌>>=◌, if◌then◌else◌,
}
use autodialer_core.Db.{connected, null, freed, DbCon, Ping, db_exec, db_sync}

-- What a thread does to the queue.
pub data Event : Type 0 where
  exec : Text → Event
  sync : Ping → Event

-- A history: the connection after it, and all that was sent.
unfoldable pub run : List Event → DbCon → Option (DbCon × List Text)
run [] c = some (c, [])
run (exec sql ∷ es) c = run es (db_exec (some sql) c).1
run (sync g ∷ es) c =
    db_sync g c >>= λ (c', sent). run es c' >>= λ (c'', more). some (c'', sent ++ more)

-- The statements that were handed to `db_exec`.
abbrev pub issued : List Event → List Text
issued [] = []
issued (exec sql ∷ es) = sql ∷ issued es
issued (sync g ∷ es) = issued es

-- The connection is alive or comes back.
abbrev pub Reaches : Event → Type 0
Reaches (exec sql) = Unit
Reaches (sync g) = (g.alive ≡ true) ⊎ ((g.server.init ≡ true) × (g.server.real_connect ≡ true))

pub sync-sends :
    (g : Ping) (c : DbCon)
    → c.con ≡ connected
    → Reaches (sync g)
    → db_sync g c ≡ some (record c { sqllist = [] }, c.sqllist)
unfolding db_sync
sync-sends g c h r = ground arith

-- While every synchronisation finds the connection alive or renews it, no statement is lost, sent
-- twice or overtaken: what was sent, and then what is queued, is what was queued first and then
-- what was issued, in order. The connection stays open, so no query meets a dead handle.
pub run_fifo :
    (es : List Event) (c : DbCon)
    → c.con ≡ connected
    → All Reaches es
    → (c' : DbCon) × (sent : List Text) × (run es c ≡ some (c', sent))
      × (sent ++ c'.sqllist ≡ c.sqllist ++ issued es)
      × (c'.con ≡ connected)
unfolding run db_exec
run_fifo [] c h r = (c, [], refl, sym (append-nil c.sqllist), h)
run_fifo (exec sql ∷ es) c h r =
    let (c', sent, e, q, h') = run_fifo es (record c { sqllist = c.sqllist ++ sql ∷ [] }) h r.1 in
    (c', sent, e, q ∙ append_assoc c.sqllist (sql ∷ []) (issued es), h')
run_fifo (sync g ∷ es) c h r =
    let (c', sent, e, q, h') = run_fifo es (record c { sqllist = [] }) h r.1 in
    (
      c',
      c.sqllist ++ sent,
      rw (sync-sends g c h r.0, e),
      append_assoc c.sqllist sent c'.sqllist ∙ ap (◌++◌ c.sqllist) q,
      h',
    )

-- If the connection was open and is found dead, and the reconnection fails, all that was queued is
-- gone, nothing of it was sent, and the next synchronisation hands libmysql a dead handle.
pub db_sync_lost :
    (g next : Ping) (c : DbCon)
    → c.con ≡ connected
    → g.alive ≡ false
    → (g.server.init ≡ false) ⊎ (g.server.real_connect ≡ false)
    → (c' : DbCon) × (db_sync g c ≡ some (c', [])) × (c'.sqllist ≡ []) × (db_sync next c' ≡ none)
unfolding db_sync
db_sync_lost g next c h a f = (
  record c { con = if g.server.init then freed else null; sqllist = [] },
  ground arith,
  refl,
  ground arith,
)
