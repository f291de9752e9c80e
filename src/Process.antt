-- ===== src/Process.antt =====
-- Start and end of the process in src/main.c: main on what libre, MySQL and the system answer.
pub mod Endings
use autodialer_core.Base.{
  ℕ, Bool, true, false, not, ◌&&◌, Option, none, some, is_some, List, [], ◌∷◌, ◌++◌, Text, take,
  ◌==◌, if◌then◌else◌,
}
use autodialer_core.Rtp.{Sa, Os}
use autodialer_core.Structs.{codes}
use autodialer_core.Db.{DbConfig, DbCon, Server, db_connect}
use autodialer_core.Incoming.{Start, init_incoming, destroy_incoming}
use autodialer_core.Stack.{Stack, no_stack, Codes, sipcall_alloc, close_sip}

-- What the calls of `main` give. `options` is what `getopt` finds, and `mysql` what `uri_decode`
-- leaves in `uri`. `crashed` says whether a handler faults while `re_main` runs, or the database
-- thread before it is joined, and `signalled` whether it was the signal handler that ended the
-- loop.
pub record Startup : Type 0 where
  pub libre_init : ℕ
  pub options : List ℕ
  pub cwd : Option Text
  pub conf_alloc : Text → ℕ
  pub conf_mysql : ℕ
  pub mysql : DbConfig
  pub server : Server
  pub conf_server : ℕ
  pub uri_decode : ℕ
  pub sa_set : ℕ
  pub sa : Sa
  pub conf_audio : ℕ
  pub pl_strdup : Option Text
  pub sys_daemon : ℕ
  pub sip : Codes
  pub os : ℕ → Os
  pub thrd_create : Bool
  pub mqueue_alloc : ℕ
  pub incoming : Start
  pub re_main : ℕ
  pub crashed : Bool
  pub signalled : Bool

-- The local `conf` has no value at first.
pub data Pointer : Type 0 where
  unset null set : Pointer

-- The variables of `main` and of the file. `thread` is the database thread, and `looped` says
-- whether `re_main` ran.
pub record Globals : Type 0 where
  pub conf : Pointer
  pub run_daemon : Bool
  pub db : Option DbCon
  pub audio_path : Option Text
  pub stack : Stack
  pub lock : Bool
  pub thread : Bool
  pub msgq : Bool
  pub incoming : Bool
  pub looped : Bool
  pub err : ℕ

-- `main` returns with libre closed, or returns behind `-v`, or computes with a pointer that has no
-- value or faults otherwise, or waits for a thread that nobody stops.
pub data Exit : Type 0 where
  returned : Globals → Exit
  version : Exit
  faulted : Exit
  hangs : Exit

abbrev pub at_start : Globals
at_start = record {
  conf = unset;
  run_daemon = false;
  db = none;
  audio_path = none;
  stack = no_stack;
  lock = false;
  thread = false;
  msgq = false;
  incoming = false;
  looped = false;
  err = 0;
}

-- The loop over the options: `-v` is none, otherwise whether to run as a daemon.
unfoldable pub read_options : List ℕ → Bool → Option Bool
read_options [] d = some d
read_options (c ∷ cs) d =
    let rest = read_options cs in
    if c == b'd' then rest true else if c == b'v' then none else rest d

unfoldable pub conf_path : Option Text → Text
conf_path none = codes "/etc/autodailer.conf"
conf_path (some cwd) = take 1023 (cwd ++ codes "/autodialer.conf")

-- The label `out`, where all but the thread is given back.
unfoldable pub out : Globals → Exit
out g = elim g.conf [
  | unset ↦ faulted
  | null ↦ returned (record g { msgq = false; db = none; audio_path = none; lock = false })
  | set ↦
      returned (record g { conf = null; msgq = false; db = none; audio_path = none; lock = false })
]

-- The event loop and what follows it. The thread ends once the signal handler has cleared
-- `running`.
unfoldable pub serve : Startup → Globals → Exit
unfolding out
serve w g =
    if w.crashed
    then faulted
    else if w.signalled
    then out (record g {
      stack = close_sip g.stack;
      thread = false;
      incoming = false;
      looped = true;
      err = w.re_main;
    })
    else hangs

-- The code of `sipcall_alloc` is not looked at, and `init_incoming` may fault.
unfoldable pub start_threads : Startup → Globals → Exit
unfolding serve
start_threads w g =
    let g1 : Globals = record g {
      stack = (sipcall_alloc w.sip w.os w.sa g.stack).1;
      lock = true;
    } in
    let g2 : Globals = record g1 { thread = true; err = w.mqueue_alloc } in
    if not w.thrd_create
    then out g1
    else if not (w.mqueue_alloc == 0)
    then out g2
    else elim (init_incoming w.incoming) [
      | none ↦ faulted
      | some i ↦ serve w (record g2 { msgq = true; incoming = true })
    ]

-- From the address of the server to the fork. A missing audio path is no error.
unfoldable pub set_up : Startup → Globals → Exit
unfolding start_threads
set_up w g =
    let g1 : Globals = record g {
      audio_path = if w.conf_audio == 0 then w.pl_strdup else none;
      err = if g.run_daemon then w.sys_daemon else w.conf_audio;
    } in
    if not (w.conf_server == 0)
    then out (record g { err = w.conf_server })
    else if not (w.uri_decode == 0)
    then out (record g { err = w.uri_decode })
    else if not (w.sa_set == 0)
    then out (record g { err = w.sa_set })
    else if g.run_daemon && not (w.sys_daemon == 0)
    then out g1
    else start_threads w g1

-- From the configuration file to the connection to MySQL. A refused connection leaves `err` at 0.
unfoldable pub configure : Startup → Globals → Exit
unfolding set_up
configure w g =
    let code = w.conf_alloc (conf_path w.cwd) in
    if not (code == 0)
    then out (record g { conf = null; err = code })
    else if not (w.conf_mysql == 0)
    then out (record g { conf = set; err = w.conf_mysql })
    else elim (db_connect w.server w.mysql) [
      | none ↦ out (record g { conf = set })
      | some c ↦ set_up w (record g { conf = set; db = some c })
    ]

unfoldable pub main : Startup → Exit
unfolding configure
main w =
    if not (w.libre_init == 0)
    then out (record at_start { err = w.libre_init })
    else elim (read_options w.options false) [
      | none ↦ version
      | some d ↦ configure w (record at_start { run_daemon = d })
    ]
