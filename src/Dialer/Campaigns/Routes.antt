-- ===== src/Dialer/Campaigns/Routes.antt =====
-- The timers of the calls in src/main.c meet no null pointer.
use mathlib.Core.Path.{subst}
use autodialer_core.Base.{
  ℕ, ◌≡◌, refl, sym, ◌∙◌, Bool, true, false, none, some, List, ◌∷◌, ◌++◌, All, All-append_right,
}
use autodialer_core.Structs.{Destination}
use autodialer_core.Call.Alloc.{Answers}
use autodialer_core.Dialer.Fill.Selection.{IsSort}
use autodialer_core.Dialer.Dial.{Setup}
use autodialer_core.Dialer.Supervise.{on_call_end}
use autodialer_core.Dialer.Supervise.Routes.{on_call_end_total, bind_some}
use autodialer_core.Dialer.Campaigns.{Dialer, call_timer}
use autodialer_core.Dialer.Campaigns.History.{
  again, campaign_service_handler-starts, fired, Step, wakes, serves, ticks, call_event, pbx_event,
  Reach, here, next,
}
use autodialer_core.Dialer.Campaigns.Noting.{LegEvent-Notes, Notes-IsRouted}
use autodialer_core.Dialer.Campaigns.Timers.{IsClocked, Step-IsClocked}
use autodialer_core.Dialer.Campaigns.Wiring.{
  Finds, IsWired, rewired, start_fake_calling-IsWired, call_timer-IsWired, with_call-IsWired,
  pbx_event-IsRouted,
}

module _ (list_sort : (Destination → Destination → Bool) → List Destination → List Destination)
    (s : Setup) where
  Step-IsWired :
      {st st' : Dialer}
      → IsSort list_sort
      → Step list_sort s st st'
      → IsWired s st.cp
      → IsWired s st'.cp
  Step-IsWired {st} {st'} law (wakes answers now on e) v =
      start_fake_calling-IsWired list_sort s answers now (fired st) st' law
        (rewired s st.cp st.cp.destinations st.cp.processl false st.cp.is_running v v.waiting
          v.calls)
        e
  Step-IsWired {st} {st'} law (serves answers now e) v =
      start_fake_calling-IsWired list_sort s answers now (again st) st' law
        (rewired s st.cp st.cp.destinations st.cp.processl false true v v.waiting v.calls)
        (campaign_service_handler-starts list_sort s answers now st st' e)
  Step-IsWired {st} {st'} law (ticks a now before d after at on e) v =
      call_timer-IsWired s a now before d after st st' at v e
  Step-IsWired {st} law (call_event before d after c h at held ev e) v =
      subst (λ x. IsWired s x.cp) (sym e)
        (with_call-IsWired s st before d after c (record c { leg = h.leg }) h at held
          (Notes-IsRouted s st.cp.pbx_gateway st.cp.file_name st.cp.actions c.leg h.leg c.pbx_call
            v.goes (LegEvent-Notes d.dest_id none st.cp.actions c.leg st.rtp h ev))
          v)
  Step-IsWired {st} law (pbx_event before d after c b h at held has ev e) v =
      subst (λ x. IsWired s x.cp) (sym e)
        (with_call-IsWired s st before d after c (record c { pbx_call = some h.leg }) h at held
          (pbx_event-IsRouted s st.cp.pbx_gateway st.cp.file_name c b h.leg has) v)

  pub Reach-IsWired :
      {st st' : Dialer}
      → IsSort list_sort
      → IsWired s st.cp
      → IsClocked st.cp
      → Reach list_sort s st st'
      → IsWired s st'.cp × IsClocked st'.cp
  Reach-IsWired law v w here = (v, w)
  Reach-IsWired law v w (next r step) =
      let (v', w') = Reach-IsWired law v w r in
      (Step-IsWired law step v', Step-IsClocked list_sort s law step w')

  -- In whatever order the timers and the events of the calls come, and whatever the network
  -- answers: a destination's timer that runs finds what `on_call_end` reads through, the call, the
  -- noted action and the gateways, and the handler comes to its end, if `sdp_session_alloc` returns
  -- 0 for a call to the PBX. The campaign starts as `IsWired` and `IsClocked` say, and `list_sort`
  -- is taken to sort.
  pub Reach-ticks :
      {st st' : Dialer} (a : Answers) (now : ℕ) (before : List Destination) (d : Destination)
      (after : List Destination)
      → IsSort list_sort
      → IsWired s st.cp
      → IsClocked st.cp
      → Reach list_sort s st st'
      → a.sdp_session_alloc ≡ 0
      → st'.cp.processl ≡ before ++ d ∷ after
      → d.tmr ≡ true
      → (u : Dialer) × (call_timer s a now before d after st' ≡ some u)
  unfolding call_timer
  Reach-ticks {st' = st'} a now before d after law v w r k at on =
      let cp = st'.cp in
      let (wired, clocked) = Reach-IsWired law v w r in
      let calls =
        All-append_right (Finds s cp) before (d ∷ after)
          (subst (All (Finds s cp)) at wired.calls) in
      let clocks = All-append_right _ before (d ∷ after) (subst (All _) at clocked.processed) in
      let (t, e) = on_call_end_total s cp a now d st'.rtp (sym clocks.0 ∙ on) calls.0 wired.own k in
      (_, bind_some (on_call_end s cp a now d st'.rtp) _ e refl)
