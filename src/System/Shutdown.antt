-- ===== src/System/Shutdown.antt =====
-- The end of src/main.c on a signal.
use autodialer_core.Base.{◌≡◌, refl, true, false, List, [], ◌∷◌, All}
use autodialer_core.Rtp.{Rtp}
use autodialer_core.Rtp.Ownership.{Owns}
use autodialer_core.Structs.{Campaign}
use autodialer_core.Call.Ownership.Ending.{IsIdle}
use autodialer_core.Stack.{close_sip}
use autodialer_core.Config.{campaign_destructor}
use autodialer_core.Config.Ending.{Frees, Frees-trans, campaign_destructor-Frees}
use autodialer_core.Dialer.Campaigns.Calls.{IsTidy, all_calls}
use autodialer_core.System.{Running, flush_services, terminate, signal_handler}
use autodialer_core.System.Isolation.{IsOwned}

flush_services-Frees :
    (cps : List Campaign) (p : Rtp)
    → All IsTidy cps
    → Owns p (all_calls cps)
    → Frees p (flush_services cps p) (all_calls cps) []
unfolding flush_services
flush_services-Frees [] p t v = record { owns = v; idle = tt; stays = λ j e. e }
flush_services-Frees (cp ∷ cps) p t v =
    let f = campaign_destructor-Frees cp p (all_calls cps) t.0 v in
    Frees-trans f (flush_services-Frees cps (campaign_destructor cp p) t.1 f.owns)

-- In a state that `IsOwned` describes: after the signal handler no gateway and no campaign is left,
-- every session that a call had is free, the pool was sound when `rtp_session_destroy` emptied it,
-- the SIP socket is closed, and the loops of both threads are told to end.
pub signal_handler-Frees :
    (r : Running)
    → IsOwned r.system
    → let e = signal_handler r in
      let p = flush_services r.system.services r.system.rtp in
      ((e.system.gateways ≡ []) × (e.system.services ≡ []))
      × (Owns p []
          × (e.system.rtp ≡ record p { rtp_sessions = [] })
          × All (All (IsIdle e.system.rtp)) (all_calls r.system.services))
      × ((e.stack.sip ≡ false)
          × (e.stack.sess_sock ≡ false)
          × (e.running ≡ false)
          × (e.cancelled ≡ true))
unfolding signal_handler terminate close_sip
signal_handler-Frees r v =
    let f = flush_services-Frees r.system.services r.system.rtp v.tidy v.owns in
    ((refl, refl), (f.owns, refl, f.idle), (refl, refl, refl, refl))
