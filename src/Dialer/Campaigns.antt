-- ===== src/Dialer/Campaigns.antt =====
-- The timer handlers of src/main.c on the state of a campaign: start_fake_calling,
-- campaign_service_handler and on_call_end.
pub mod History
pub mod LegSessions
pub mod Calls
pub mod Sessions
pub mod Tries
pub mod Conservation
pub mod Budget
pub mod Settings
pub mod Timers
pub mod Noting
pub mod Wiring
pub mod Routes
pub mod Supply
use autodialer_core.Base.{
  none, ℕ, Bool, true, false, Option, some, List, [], ◌∷◌, ◌++◌, ◌==◌, if◌then◌else◌, ◌>>=◌,
}
use autodialer_core.Rtp.{Rtp}
use autodialer_core.Structs.{Destination, Campaign, Stmt}
use autodialer_core.Call.Alloc.{Answers}
use autodialer_core.Dialer.Fill.{fill_processl}
use autodialer_core.Dialer.Dial.{Setup, dial}
use autodialer_core.Dialer.Supervise.{Verdict, stay, gone, requeue, on_call_end}

-- A campaign with what its handlers share: the RTP sessions and the queue of statements.
pub record Dialer : Type 0 where
  pub cp : Campaign
  pub rtp : Rtp
  pub sqllist : List Stmt

abbrev Sort : Type 0
Sort = (Destination → Destination → Bool) → List Destination → List Destination

-- A campaign that is not at status 2 stops, and its timer is not started again.
unfoldable pub start_fake_calling : Sort → Setup → (ℕ → Answers) → ℕ → Dialer → Option Dialer
start_fake_calling list_sort s answers now st =
    let cp = st.cp in
    let (ds, pl) =
      fill_processl list_sort now cp.retry_delay cp.call_limit cp.destinations cp.processl in
    if cp.campaign_status == 2
    then (dial s cp answers now 0 pl st.rtp >>= λ r. some (record {
      cp = record cp { destinations = ds; processl = r.dests; tmr = true };
      rtp = r.rtp;
      sqllist = st.sqllist ++ r.stmts;
    }))
    else some (record st { cp = record cp { is_running = false } })

-- The message that the database thread sends for a campaign which does not run. `tmr_init` wipes
-- the links of the timer: on a timer that libre still has in its list, that is a fault.
unfoldable pub campaign_service_handler : Sort → Setup → (ℕ → Answers) → ℕ → Dialer → Option Dialer
unfolding start_fake_calling
campaign_service_handler list_sort s answers now st =
    let run =
      start_fake_calling list_sort s answers now
        (record st { cp = record st.cp { is_running = true; tmr = false } }) in
    if st.cp.tmr then none else run

abbrev apply_verdict : Campaign → List Destination → Verdict → List Destination → Campaign
apply_verdict cp before (stay d) after = record cp { processl = before ++ d ∷ after }
apply_verdict cp before gone after = record cp { processl = before ++ after }
apply_verdict cp before (requeue d) after = record cp {
  processl = before ++ after;
  destinations = cp.destinations ++ d ∷ [];
}

-- The timer of the destination `d`, which stands between `before` and `after` in the process list.
unfoldable pub call_timer :
    Setup → Answers → ℕ → List Destination → Destination → List Destination → Dialer → Option Dialer
call_timer s a now before d after st = on_call_end s st.cp a now d st.rtp >>= λ t. some (record {
  cp = apply_verdict st.cp before t.verdict after;
  rtp = t.rtp;
  sqllist = st.sqllist ++ t.stmts;
})
