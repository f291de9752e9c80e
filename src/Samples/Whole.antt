-- ===== src/Samples/Whole.antt =====
-- The whole program on small inputs.
use autodialer_core.Base.{
  inr, Text, ℕ, ◌≡◌, refl, Bool, true, false, some, [], ◌∷◌, All, ltb, arith,
}
use autodialer_core.Rtp.Ownership.{Owns}
use autodialer_core.Structs.{Destination, Campaign, Stmt}
use autodialer_core.Db.{connected, DbCon, Ping}
use autodialer_core.Rows.{Parsers}
use autodialer_core.Config.{Answered}
use autodialer_core.Call.Ownership.Ending.{IsIdle}
use autodialer_core.Dialer.Fill.{too_early, fill}
use autodialer_core.Dialer.Fill.Prefix.{fill_takes}
use autodialer_core.Dialer.Groups.{own}
use autodialer_core.Stack.{no_stack}
use autodialer_core.System.{
  System, Running, with_services, flush_services, signal_handler, db_thread,
}
use autodialer_core.System.Isolation.{IsOwned}
use autodialer_core.System.Shutdown.{signal_handler-Frees}
use autodialer_core.System.Rounds.{db_thread_ends}
use autodialer_core.Samples.{
  half_used, half_used-IsPool, setup, campaign, idle_destination, fresh_leg,
}
use autodialer_core.Samples.Loading.{parsers, answers, pulled}

-- A campaign, with one destination whose call has session 0.
abbrev talking : Destination
talking = record (idle_destination 3) { call = some (own fresh_leg) }

abbrev busy_campaign : Campaign
busy_campaign = record campaign { processl = talking ∷ [] }

abbrev busy_system : System
busy_system = record {
  gateways = setup.gateways;
  services = busy_campaign ∷ [];
  rtp = half_used;
  sqllist = [];
  messages = [];
}

busy_system-IsOwned : IsOwned busy_system
busy_system-IsOwned = record {
  owns = record {
    pool = half_used-IsPool;
    clean = λ j e. refl;
    held = (
      record { used = ((omega arith, refl), tt); once = (tt, tt); closed = ((λ k e. cc), tt) },
      tt,
    );
    apart = (tt, tt);
  };
  tidy = (record { idle = (refl, (refl, tt)); sane = ((λ f. refl), tt) }, tt);
}

abbrev on_air : Running
on_air = record { system = busy_system; stack = no_stack; running = true; cancelled = false }

signal_handler-Frees_example :
    let e = signal_handler on_air in
    let p = flush_services (busy_campaign ∷ []) half_used in
    ((e.system.gateways ≡ []) × (e.system.services ≡ []))
    × (Owns p []
        × (e.system.rtp ≡ record p { rtp_sessions = [] })
        × All (All (IsIdle e.system.rtp)) ((0 ∷ []) ∷ []))
    × ((e.stack.sip ≡ false)
        × (e.stack.sess_sock ≡ false)
        × (e.running ≡ false)
        × (e.cancelled ≡ true))
signal_handler-Frees_example = signal_handler-Frees on_air busy_system-IsOwned

-- The flag is found set twice.
abbrev pub flag : ℕ → Bool
flag k = ltb k 2

abbrev pub printed : Stmt → Text
printed q = []

-- The connection is found dead each time, and renewed.
abbrev pub pings : ℕ → Ping
pings k = record { alive = false; server = record { init = true; real_connect = true } }

abbrev pub connection : DbCon
connection = record {
  config = record { user = []; pass = []; host = []; db = [] };
  con = connected;
  sqllist = [];
}

abbrev loads : ℕ → Parsers × Answered
loads k = (parsers, answers)

abbrev pub nothing_else : ℕ → System → System
nothing_else k st = st

db_thread_ends_example :
    (st' : System) × (db_thread printed flag pings loads nothing_else 2 0 connection busy_system
      ≡ some st')
db_thread_ends_example =
    db_thread_ends printed flag pings loads nothing_else 2 1 0 connection busy_system refl
      (λ j. inr (refl, refl)) (λ j h. ground arith) (λ j id. (refl, refl)) (omega arith)

fill_takes_example :
    (fill 100 60 2
      (record (idle_destination 3) { try_count = 1; last_try = 90 } ∷ campaign.destinations)
      (talking ∷ [])).1
    ≡ talking ∷ idle_destination 1 ∷ []
unfolding too_early
fill_takes_example =
    fill_takes 100 60 2
      (record (idle_destination 3) { try_count = 1; last_try = 90 } ∷ campaign.destinations)
      (talking ∷ []) (omega arith)

-- The first round of the database thread, with one campaign in the database.
abbrev pub blank : System
blank = record busy_system { gateways = []; services = [] }

abbrev pub loaded : System
loaded = with_services blank pulled
