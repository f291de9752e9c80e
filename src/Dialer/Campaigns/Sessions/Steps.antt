-- ===== src/Dialer/Campaigns/Sessions/Steps.antt =====
-- Each step of a campaign's history in src/main.c moves the RTP sessions of its own calls only.
use mathlib.Core.Path.{subst}
use autodialer_core.Base.{
  ◌≡◌, sym, ◌∙◌, Bool, none, some, List, [], ◌∷◌, ◌++◌, All, All-append_right,
}
use autodialer_core.Rtp.Ownership.Frame.{Evolves, Moves-Evolves}
use autodialer_core.Structs.{Call, Destination}
use autodialer_core.Call.Events.{Handled}
use autodialer_core.Dialer.Groups.{held_by, group, Sane, IsSane}
use autodialer_core.Dialer.Fill.Selection.{IsSort}
use autodialer_core.Dialer.Dial.{Setup}
use autodialer_core.Dialer.Campaigns.{Dialer}
use autodialer_core.Dialer.Campaigns.Calls.{IsTidy}
use autodialer_core.Dialer.Campaigns.History.{
  again, campaign_service_handler-starts, fired, with_call, Step, wakes, serves, ticks, call_event,
  pbx_event,
}
use autodialer_core.Dialer.Campaigns.LegSessions.{
  call_event-Moves, call_event-Sane, pbx_event-Moves,
}
use autodialer_core.Dialer.Campaigns.Sessions.{
  Turns, decided_After, start_fake_calling-Turns, call_timer-Turns,
}

with_call-Turns :
    (st : Dialer) (before : List Destination) (d : Destination) (after : List Destination)
    (c : Call) (h : Handled)
    → st.cp.processl ≡ before ++ d ∷ after
    → IsTidy st.cp
    → Sane (some c)
    → Evolves st.rtp h.rtp (group d ∷ []) (held_by (some c) ∷ [])
    → Turns st (with_call st before d c after h)
with_call-Turns st before d after c h at t s e =
    decided_After st.cp st.rtp h.rtp before d after (record d { call = some c } ∷ [])
      st.cp.destinations at t t.idle (s, tt) e

event_Turns :
    (st : Dialer) (before : List Destination) (d : Destination) (after : List Destination)
    (c c' : Call) (h : Handled)
    → st.cp.processl ≡ before ++ d ∷ after
    → d.call ≡ some c
    → IsTidy st.cp
    → (Sane (some c) → Sane (some c'))
    → Evolves st.rtp h.rtp (held_by (some c) ∷ []) (held_by (some c') ∷ [])
    → Turns st (with_call st before d c' after h)
event_Turns st before d after c c' h at on t s e =
    let sane = (All-append_right IsSane before (d ∷ after) (subst (All IsSane) at t.sane)).0 in
    with_call-Turns st before d after c' h at t (s (subst Sane on sane))
      (subst (λ o. Evolves st.rtp h.rtp (held_by o ∷ []) (held_by (some c') ∷ [])) (sym on) e)

some-none {ℓ} : {A : Type ℓ} {a : A} → some a ≡ none → ⊥
some-none e = cc

-- A step of a campaign's history.
pub Step-Turns :
    (list_sort : (Destination → Destination → Bool) → List Destination → List Destination)
    (s : Setup) (st st' : Dialer)
    → IsSort list_sort
    → IsTidy st.cp
    → Step list_sort s st st'
    → Turns st st'
Step-Turns list_sort s st st' law t (wakes answers now on e) =
    start_fake_calling-Turns list_sort s answers now (fired st) st' law
      (record { idle = t.idle; sane = t.sane }) e
Step-Turns list_sort s st st' law t (serves answers now e) =
    start_fake_calling-Turns list_sort s answers now (again st) st' law
      (record { idle = t.idle; sane = t.sane })
      (campaign_service_handler-starts list_sort s answers now st st' e)
Step-Turns list_sort s st st' law t (ticks a now before d after at on e) =
    call_timer-Turns s a now before d after st st' at t e
Step-Turns list_sort s st st' law t (call_event before d after c h at on ev e) =
    subst (Turns st) (sym e) (
      event_Turns st before d after c _ h at on t
        (call_event-Sane d.dest_id st.cp.actions c st.rtp h ev)
        (Moves-Evolves (call_event-Moves d.dest_id st.cp.actions c st.rtp h ev)))
Step-Turns list_sort s st st' law t (pbx_event before d after c b h at on has ev e) =
    subst (Turns st) (sym e) (
      event_Turns st before d after c _ h at on t (λ w f. absurd (some-none (sym has ∙ w f)))
        (Moves-Evolves (pbx_event-Moves d.dest_id st.cp.actions c b st.rtp h has ev)))
