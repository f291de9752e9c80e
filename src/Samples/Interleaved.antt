-- ===== src/Samples/Interleaved.antt =====
-- A round of the database thread, row by row, and the main thread's message in between.
use autodialer_core.Base.{◌≡◌, refl, true, false, none, some, [], ◌∷◌, All, arith}
use autodialer_core.Rtp.Ownership.{NotIn}
use autodialer_core.Structs.{Campaign, codes}
use autodialer_core.Rows.{CampaignRow}
use autodialer_core.Config.{load_gateway, set_campaign, new_campaign, prepare}
use autodialer_core.Dialer.Campaigns.{Dialer, campaign_service_handler}
use autodialer_core.Dialer.Campaigns.Timers.{IsClocked}
use autodialer_core.System.{
  System, services_of, dialer_of, setup_of, with_dialer, db_round, db_thread, handles,
}
use autodialer_core.System.Threads.{
  Phase, asleep, campaigns, preparing, Threads, pushes, Step, syncs, asks, loads_gateway,
  asks_again, loads_campaign, looks, prepares, main, Reach, here, next, IsMain,
}
use autodialer_core.Db.{db_reconnect, db_sync}
use autodialer_core.System
use autodialer_core.System.Threads.Safety.{IsSafe, Reach-IsSafe}
use autodialer_core.System.Threads.Numbers.{Found}
use autodialer_core.System.Threads.Timely.{Timely, at_once, later, Timely-Reach, Timely-Found}
use autodialer_core.System.Threads.Timers.{Reach-Clocked}
use autodialer_core.System.Threads.Walking.{Stands, Reach-Stands}
use autodialer_core.System.Threads.Rounds.{db_thread-Reach}
use autodialer_core.System.Threads.Dangling.{Absent, loads_campaign_dangles}
use autodialer_core.Samples.{program, half_used-IsPool, setup}
use autodialer_core.Samples.Dialling.{insertion_sort, insertion_sort-IsSort, calm}
use autodialer_core.Samples.Loading.{loading, parsers, answers, gateway_row, campaign_row}
use autodialer_core.Samples.Whole.{blank, loaded, printed, flag, pings, connection, nothing_else}

abbrev stands : System → Phase → Threads
stands st p = record { system = st; phase = p }

blank-IsSafe : IsSafe blank
blank-IsSafe = record {
  owned = record {
    owns = record { pool = half_used-IsPool; clean = λ j e. refl; held = tt; apart = tt };
    tidy = tt;
  };
  loaded = record { gateways_once = tt; campaigns_once = tt; configured = tt };
}

abbrev with_gateway : System
with_gateway = record blank { gateways = load_gateway parsers gateway_row [] }

-- The campaign of the row, before and after the third loop.
abbrev read : Campaign
read = set_campaign parsers with_gateway.gateways campaign_row (new_campaign 9)

abbrev with_campaign : System
with_campaign = record with_gateway { services = read ∷ [] }

abbrev ready : Campaign
ready = elim (prepare parsers answers with_gateway.gateways read) [ none ↦ read | some r ↦ r.0 ]

abbrev told : System
told = pushes with_campaign [] ready true []

walked :
    Timely insertion_sort setup parsers
      (stands blank asleep)
      (stands with_campaign (preparing (9 ∷ [])))
unfolding loading
walked =
    later
      (later
        (later
          (later
            (later (later at_once (syncs refl refl) tt) (asks (some (gateway_row ∷ [])) refl refl)
              refl)
            (loads_gateway gateway_row [] refl refl) tt)
          (asks_again (some (campaign_row ∷ [])) refl refl) tt)
        (loads_campaign campaign_row [] refl refl) tt)
      (looks refl refl) tt

history : Timely insertion_sort setup parsers (stands blank asleep) (stands told (preparing []))
unfolding loading
history = later walked (prepares answers 9 [] [] read [] ready true refl refl refl refl refl) tt

Timely-Found_example : (f : Found 9 told.services) × (f.cp.tmr ≡ false) × NotIn 9 []
unfolding loading
Timely-Found_example =
    Timely-Found insertion_sort setup parsers {x = stands blank asleep}
      {y = stands told (preparing [])} 9 [] insertion_sort-IsSort blank-IsSafe tt refl refl history
      refl

Reach-Stands_example :
    Stands 9 [] with_campaign.services
    × (z : Threads) × Step insertion_sort setup parsers
        (stands with_campaign (preparing (9 ∷ [])))
        z
    × (z.phase ≡ preparing [])
Reach-Stands_example =
    Reach-Stands insertion_sort setup parsers {x = stands blank asleep}
      {y = stands with_campaign (preparing (9 ∷ []))} answers 9 [] refl (λ id. (refl, refl))
      (Timely-Reach insertion_sort setup parsers walked) refl

-- Before the database thread goes on, the main thread takes the message.
abbrev served : Dialer
served =
    elim (campaign_service_handler insertion_sort (setup_of setup told) calm 100
      (dialer_of told ready)) [ none ↦ dialer_of told ready | some d ↦ d ]

abbrev busy : System
busy = record (with_dialer told [] served []) { messages = [] }

whole : Reach insertion_sort setup parsers (stands blank asleep) (stands busy (preparing []))
unfolding loading program insertion_sort campaign_service_handler
whole =
    next (Timely-Reach insertion_sort setup parsers history)
      (main busy (handles calm 100 9 [] [] ready [] served refl refl refl refl refl) tt refl)

Reach-IsSafe_example : IsSafe busy
Reach-IsSafe_example =
    Reach-IsSafe insertion_sort setup parsers {x = stands blank asleep}
      {y = stands busy (preparing [])} insertion_sort-IsSort blank-IsSafe whole

Reach-Clocked_example : All IsClocked busy.services
Reach-Clocked_example =
    Reach-Clocked insertion_sort setup parsers {x = stands blank asleep}
      {y = stands busy (preparing [])} insertion_sort-IsSort tt whole

db_thread-Reach_example :
    Reach insertion_sort setup parsers (stands blank asleep) (stands loaded asleep)
unfolding loading db_thread db_round db_sync db_reconnect
db_thread-Reach_example =
    db_thread-Reach insertion_sort setup parsers printed flag pings (λ k. answers) nothing_else 2 0
      connection blank loaded (λ j u. here) refl

-- The campaign is over before its message is taken.
abbrev over_row : CampaignRow
over_row = record campaign_row { status = some (codes "4") }

loads_campaign_dangles_example :
    (y : Threads) × Step insertion_sort setup parsers (stands told (campaigns (over_row ∷ []))) y
    × (y.system.messages ≡ 9 ∷ [])
    × Absent 9 y.system.services
    × ((st : System) (step : System.Step insertion_sort setup y.system st)
        → IsMain insertion_sort setup step
        → st.messages ≡ 9 ∷ [])
unfolding loading
loads_campaign_dangles_example =
    loads_campaign_dangles insertion_sort setup parsers (stands told (campaigns (over_row ∷ [])))
      over_row [] ready [] refl refl refl refl (omega arith)
      (record {
        gateways_once = (tt, tt);
        campaigns_once = (tt, tt);
        configured = (
          (
            omega arith,
            omega arith,
            omega arith,
            omega arith,
            omega arith,
            omega arith,
            omega arith,
          ),
          tt,
        );
      })
