-- ===== src/System.antt =====
-- src/main.c as a whole: the lists that its two threads share, the RTP sessions of src/call.c, the
-- queue of statements of src/db.c, and the messages from the database thread to the main thread. A
-- round of the database thread is one step.
pub mod Isolation
pub mod Settings
pub mod Shutdown
pub mod Rounds
pub mod Threads
use autodialer_core.Base.{
  ℕ, zero, suc, ◌≡◌, Bool, true, false, Option, none, some, ◌>>=◌, List, [], ◌∷◌, ◌++◌, Text,
}
use autodialer_core.Rtp.{Rtp}
use autodialer_core.Structs.{Gateway, Destination, Campaign, Stmt}
use autodialer_core.Call.Alloc.{Answers}
use autodialer_core.Rows.{Parsers}
use autodialer_core.Stack.{Stack, close_sip}
use autodialer_core.Config.{Answered, Services, campaign_destructor, map_rows, pull_groups}
use autodialer_core.Db.{DbCon, Ping, db_sync, with_handle}
use autodialer_core.Dialer.Dial.{Setup}
use autodialer_core.Dialer.Campaigns.{Dialer, campaign_service_handler}
use autodialer_core.Dialer.Campaigns.History

-- `messages` holds the numbers of the campaigns that `mqueue_push` sent.
pub record System : Type 0 where
  pub gateways : List Gateway
  pub services : List Campaign
  pub rtp : Rtp
  pub sqllist : List Stmt
  pub messages : List ℕ

abbrev pub services_of : System → Services
services_of st = record { gateways = st.gateways; services = st.services; rtp = st.rtp }

-- What the handlers of one campaign work on.
abbrev pub dialer_of : System → Campaign → Dialer
dialer_of st cp = record { cp = cp; rtp = st.rtp; sqllist = st.sqllist }

abbrev pub with_services : System → Services × List ℕ → System
with_services st (sv, pushed) = record {
  gateways = sv.gateways;
  services = sv.services;
  rtp = sv.rtp;
  sqllist = st.sqllist;
  messages = st.messages ++ pushed;
}

abbrev pub with_dialer : System → List Campaign → Dialer → List Campaign → System
with_dialer st before d after = record st {
  services = before ++ d.cp ∷ after;
  rtp = d.rtp;
  sqllist = d.sqllist;
}

-- The gateways are those that the database thread loaded last.
abbrev pub setup_of : Setup → System → Setup
setup_of s st = record s { gateways = st.gateways }

-- `list_flush` of `services`.
unfoldable pub flush_services : List Campaign → Rtp → Rtp
flush_services [] p = p
flush_services (cp ∷ cps) p = flush_services cps (campaign_destructor cp p)

-- What `terminate` and the signal handler work on besides: the flag `running` that the database
-- thread reads, the SIP stack, and whether `re_cancel` was called. `rtp` of the stack is that of
-- the system.
pub record Running : Type 0 where
  pub system : System
  pub stack : Stack
  pub running : Bool
  pub cancelled : Bool

unfoldable pub terminate : Running → Running
unfolding close_sip
terminate r =
    let closed = close_sip (record r.stack { rtp = r.system.rtp }) in
    record {
      system = record r.system { rtp = closed.rtp };
      stack = closed;
      running = false;
      cancelled = true;
    }

unfoldable pub signal_handler : Running → Running
unfolding terminate
signal_handler r = terminate (record r {
  system = record r.system {
    gateways = [];
    services = [];
    rtp = flush_services r.system.services r.system.rtp;
  };
})

-- A round: `db_sync` on the queue, whose statements `sql_of` prints, and `pull_groups`, whose first
-- query needs a handle that is open. `db_sync` always empties the queue. It is none on a fault.
unfoldable pub db_round :
    (Stmt → Text)
    → Ping
    → Parsers × Answered
    → DbCon
    → System
    → Option (DbCon × (Services × List ℕ))
db_round sql_of g q c st =
    db_sync g (record c { sqllist = map_rows sql_of st.sqllist }) >>= λ (c', sent).
    with_handle c' (services_of st) >>= λ sv. pull_groups q.0 q.1 sv >>= λ r. some (c', r)

-- `DbThread`. `running` is what the flag says each time it is read, `pings` what a synchronisation
-- meets, `loads` what the queries of a round give, and `others` what the main thread does while the
-- database thread sleeps. It is none when a round meets a fault or the fuel is used up.
unfoldable pub db_thread :
    (Stmt → Text)
    → (ℕ → Bool)
    → (ℕ → Ping)
    → (ℕ → Parsers × Answered)
    → (ℕ → System → System)
    → ℕ
    → ℕ
    → DbCon
    → System
    → Option System
db_thread sql_of running pings loads others zero k c st = none
db_thread sql_of running pings loads others (suc fuel) k c st = elim (running k) [
  | false ↦ some st
  | true ↦ db_round sql_of (pings k) (loads k) c st >>= λ (c', r).
      let after = with_services (record st { sqllist = [] }) r in
      elim (running (suc k)) [
        | false ↦ some after
        | true ↦ db_thread sql_of running pings loads others fuel (suc (suc k)) c' (others k after)
      ]
]

module _ (list_sort : (Destination → Destination → Bool) → List Destination → List Destination)
    (s : Setup) where
  -- `pulls` and `syncs` are the database thread's. The others are the main thread's: it takes a
  -- message, or runs a timer or handler of one campaign.
  pub data Step (st st' : System) : Type 0 where
    pulls :
        (t : Parsers) (q : Answered) (r : Services × List ℕ)
        → pull_groups t q (services_of st) ≡ some r
        → st' ≡ with_services st r
        → Step st st'
    syncs : st' ≡ record st { sqllist = [] } → Step st st'
    handles :
        (answers : ℕ → Answers) (now id : ℕ) (rest : List ℕ) (before : List Campaign)
        (cp : Campaign) (after : List Campaign) (d : Dialer)
        → st.messages ≡ id ∷ rest
        → st.services ≡ before ++ cp ∷ after
        → cp.campaign_id ≡ id
        → campaign_service_handler list_sort (setup_of s st) answers now (dialer_of st cp) ≡ some d
        → st' ≡ record (with_dialer st before d after) { messages = rest }
        → Step st st'
    works :
        (before : List Campaign) (cp : Campaign) (after : List Campaign) (d : Dialer)
        → st.services ≡ before ++ cp ∷ after
        → (step : History.Step list_sort (setup_of s st) (dialer_of st cp) d)
        → History.IsOwn list_sort (setup_of s st) step
        → st' ≡ with_dialer st before d after
        → Step st st'

  pub data Reach (st : System) : System → Type 0 where
    here : Reach st st
    next : {t u : System} → Reach st t → Step t u → Reach st u
