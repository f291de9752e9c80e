-- ===== src/Process/Endings.antt =====
-- What main of src/main.c leaves behind, on each of its ways out.
use autodialer_core.Base.{◌≡◌, ◌≢◌, ◌⊎◌, Bool, true, false, Option, none, some}
use autodialer_core.Db.{DbCon, db_connect}
use autodialer_core.Incoming.{Incoming, init_incoming}
use autodialer_core.Process.{
  Startup, null, set, Globals, Exit, returned, version, faulted, hangs, at_start, read_options, out,
  serve, set_up, configure,
}

-- How the process may end. What `out` frees is given back; the thread runs on only if the
-- message queue could not be had; and a code of 0 without an event loop means that MySQL refused or
-- that the thread was not made.
abbrev pub Ends : Startup → Exit → Type 0
Ends w (returned g) =
    ((g.conf ≡ null) × (g.db ≡ none) × (g.audio_path ≡ none) × (g.msgq ≡ false) × (g.lock ≡ false))
    × (g.thread ≡ true → w.mqueue_alloc ≢ 0)
    × (g.looped ≡ true
        → (g.thread ≡ false) × (g.incoming ≡ false) × (g.stack.sip ≡ false) × (w.signalled ≡ true))
    × (g.looped ≡ false
        → g.err ≡ 0
        → (db_connect w.server w.mysql ≡ none) ⊎ (w.thrd_create ≡ false))
Ends w version = read_options w.options false ≡ none
Ends w faulted = (w.libre_init ≢ 0) ⊎ ((init_incoming w.incoming ≡ none) ⊎ (w.crashed ≡ true))
Ends w hangs = w.signalled ≡ false

module _ (w : Startup) where
  -- Behind `init_incoming`.
  abbrev listen : Globals → Option Incoming → Exit
  listen g none = faulted
  listen g (some i) = serve w g

  abbrev connect : Globals → Option DbCon → Exit
  connect g none = out (record g { conf = set })
  connect g (some c) = set_up w (record g { conf = set; db = some c })

  abbrev by_options : Option Bool → Exit
  by_options none = version
  by_options (some d) = configure w (record at_start { run_daemon = d })
