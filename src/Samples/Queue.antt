-- ===== src/Samples/Queue.antt =====
-- The queue of statements on small inputs.
use autodialer_core.Base.{◌≡◌, refl, true, false, inl, inr, none, some, List, [], ◌∷◌, ◌++◌, Text}
use autodialer_core.Structs.{codes}
use autodialer_core.Db.{connected, freed, DbCon, Ping, db_reconnect, db_exec, db_sync}
use autodialer_core.Db.Queue.{Event, exec, sync, run, run_fifo, db_sync_lost}
use autodialer_core.Db.Threads.{
  outside, testing, Shared, Reach, here, next, IsOrdered, Reach-IsOrdered,
}
use autodialer_core.Db.Threads

abbrev connection : DbCon
connection = record {
  config = record { user = codes "u"; pass = codes "p"; host = codes "h"; db = codes "d" };
  con = connected;
  sqllist = codes "first" ∷ [];
}

abbrev up : Ping
up = record { alive = true; server = record { init = true; real_connect = true } }

abbrev down : Ping
down = record { alive = false; server = record { init = true; real_connect = false } }

abbrev history : List Event
history = exec (codes "a") ∷ sync up ∷ exec (codes "b") ∷ []

run_fifo_example :
    (c' : DbCon) × (sent : List Text) × (run history connection ≡ some (c', sent))
    × (sent ++ c'.sqllist ≡ codes "first" ∷ codes "a" ∷ codes "b" ∷ [])
    × (c'.con ≡ connected)
run_fifo_example = run_fifo history connection refl (tt, (inl refl, (tt, tt)))

db_sync_lost_example :
    (c' : DbCon) × (db_sync down connection ≡ some (c', []))
    × (c'.sqllist ≡ [])
    × (db_sync up c' ≡ none)
db_sync_lost_example = db_sync_lost down up connection refl refl (inr refl)

-- One statement is queued, taken over, and lost, and the next one is queued.
abbrev quiet : Shared
quiet = record {
  db = record connection { sqllist = [] };
  stage = outside;
  batch = [];
  issued = [];
  sent = [];
  lost = [];
}

abbrev queued : Shared
queued = record quiet { db = connection; issued = codes "first" ∷ [] }

abbrev taken : Shared
taken = record queued {
  db = record connection { sqllist = [] };
  stage = testing;
  batch = codes "first" ∷ [];
}

abbrev gone : Shared
gone = record quiet {
  db = record connection { con = freed; sqllist = [] };
  issued = codes "first" ∷ [];
  lost = codes "first" ∷ [];
}

abbrev later : Shared
later = record gone {
  db = record connection { con = freed; sqllist = codes "a" ∷ [] };
  issued = codes "first" ∷ codes "a" ∷ [];
}

Reach-IsOrdered_example : IsOrdered later
unfolding db_exec db_reconnect
Reach-IsOrdered_example =
    Reach-IsOrdered {t = quiet} {u = later}
      (record { in_order = refl; spared = λ c. refl; live = λ c. refl; done = λ c. refl })
      (next {u = gone}
        (next {u = taken}
          (next {u = queued} (next {u = quiet} here (Threads.exec (codes "first") refl))
            (Threads.take_over refl refl))
          (Threads.gives_up down.server refl refl refl refl))
        (Threads.exec (codes "a") refl))
