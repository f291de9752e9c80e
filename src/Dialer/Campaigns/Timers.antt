-- ===== src/Dialer/Campaigns/Timers.antt =====
-- The timers of src/main.c: the campaign's, which calls its destinations, and each destination's,
-- which looks after its call.
use mathlib.Core.Path.{subst}
use mathlib.Core.List.Perm
use autodialer_core.Base.{
  ℕ, suc, ◌≡◌, refl, sym, ap, ◌∙◌, Bool, true, false, inl, inr, Bool-cases, some, is_some, List, [],
  ◌∷◌, ◌++◌, All, All-append, All-append_left, All-append_right, All-perm, arith, >>=-eq-some,
  of_some, ◌==◌,
}
use autodialer_core.Rtp.{Rtp}
use autodialer_core.Structs.{Call, Destination, Campaign}
use autodialer_core.Call.Alloc.{Answers}
use autodialer_core.Dialer.Fill.{fill_processl}
use autodialer_core.Dialer.Fill.Selection.{IsSort}
use autodialer_core.Dialer.Dial.{Setup, Dialled, Round, dial_dest, dial}
use autodialer_core.Dialer.Supervise.{Verdict, stay, gone, requeue, on_call_end}
use autodialer_core.Dialer.Supervise.Timers.{Clocked, StaysClocked, on_call_end-StaysClocked}
use autodialer_core.Call.Events.{Handled}
use autodialer_core.Dialer.Campaigns.{Dialer, apply_verdict, start_fake_calling, call_timer}
use autodialer_core.Dialer.Campaigns.Conservation.{fill_processl-perm}
use autodialer_core.Dialer.Campaigns.History.{
  again, campaign_service_handler-starts, fired, with_call, Step, wakes, serves, ticks, call_event,
  pbx_event, IsOwn,
}

-- A campaign's timer runs exactly while the campaign runs, a destination's while it has a call.
pub record IsClocked (cp : Campaign) : Type 0 where
  pub campaign : cp.tmr ≡ cp.is_running
  pub waiting : All Clocked cp.destinations
  pub processed : All Clocked cp.processl

Clocked-IsProp : (d : Destination) → IsProp (Clocked d)
Clocked-IsProp d = hlevel

dial_dest-Clocked :
    (s : Setup) (cp : Campaign) (a : Answers) (now : ℕ) (d : Destination) (p : Rtp) (r : Dialled)
    → Clocked d
    → dial_dest s cp a now d p ≡ some r
    → Clocked r.dest
unfolding dial_dest
dial_dest-Clocked s cp a now d p r v e = ground (arith, v, e)

dial-Clocked :
    (s : Setup) (cp : Campaign) (answers : ℕ → Answers) (now k : ℕ) (ds : List Destination)
    (p : Rtp) (r : Round)
    → All Clocked ds
    → dial s cp answers now k ds p ≡ some r
    → All Clocked r.dests
unfolding dial
dial-Clocked s cp answers now k [] p r v e = subst (λ x. All Clocked x.dests) (of_some e) tt
dial-Clocked s cp answers now k (d ∷ ds) p r v e =
    let (one, e1, f1) = >>=-eq-some (dial_dest s cp (answers k) now d p) _ e in
    let (rest, e2, f2) = >>=-eq-some (dial s cp answers now (suc k) ds one.rtp) _ f1 in
    subst (λ x. All Clocked x.dests) (of_some f2)
      (
        dial_dest-Clocked s cp (answers k) now d p one v.0 e1,
        dial-Clocked s cp answers now (suc k) ds one.rtp rest v.1 e2,
      )

fill_processl-Clocked :
    (list_sort : (Destination → Destination → Bool) → List Destination → List Destination)
    (now delay limit : ℕ) (ds pl : List Destination)
    → IsSort list_sort
    → All Clocked ds
    → All Clocked pl
    → let r = fill_processl list_sort now delay limit ds pl in All Clocked r.0 × All Clocked r.1
fill_processl-Clocked list_sort now delay limit ds pl law v w =
    let r = fill_processl list_sort now delay limit ds pl in
    let (same, _) = fill_processl-perm list_sort now delay limit ds pl law in
    let all = All-perm Clocked Clocked-IsProp (Perm.symm same) (All-append Clocked ds pl v w) in
    (All-append_left Clocked r.0 r.1 all, All-append_right Clocked r.0 r.1 all)

-- The handler runs when the timer has been taken off its list.
start_fake_calling-IsClocked :
    (list_sort : (Destination → Destination → Bool) → List Destination → List Destination)
    (s : Setup) (answers : ℕ → Answers) (now : ℕ) (st st' : Dialer)
    → IsSort list_sort
    → st.cp.is_running ≡ true
    → st.cp.tmr ≡ false
    → All Clocked st.cp.destinations
    → All Clocked st.cp.processl
    → start_fake_calling list_sort s answers now st ≡ some st'
    → IsClocked st'.cp
unfolding start_fake_calling
start_fake_calling-IsClocked list_sort s answers now st st' law runs off v w e =
    let cp = st.cp in
    let (ds, pl) =
      fill_processl list_sort now cp.retry_delay cp.call_limit cp.destinations cp.processl in
    let (waiting, filled) =
      fill_processl-Clocked list_sort now cp.retry_delay cp.call_limit cp.destinations cp.processl
        law v w in
    elim (Bool-cases (cp.campaign_status == 2)) [
      | inr stopped ↦
          subst (λ x. IsClocked x.cp) (of_some (rw (stopped, start_fake_calling) at e))
            (record { campaign = off; waiting = v; processed = w })
      | inl goes_on ↦
          let (r, e1, e2) =
            >>=-eq-some (dial s cp answers now 0 pl st.rtp) _
              (rw (goes_on, start_fake_calling) at e) in
          subst (λ x. IsClocked x.cp) (of_some e2)
            (record {
              campaign = sym runs;
              waiting = waiting;
              processed = dial-Clocked s cp answers now 0 pl st.rtp r filled e1;
            })
    ]

apply_verdict-IsClocked :
    (cp : Campaign) (before after : List Destination) (v : Verdict)
    → All Clocked before
    → All Clocked after
    → StaysClocked v
    → IsClocked cp
    → IsClocked (apply_verdict cp before v after)
apply_verdict-IsClocked cp before after (stay d) f r h k = record {
  campaign = k.campaign;
  waiting = k.waiting;
  processed = All-append Clocked before (d ∷ after) f (h, r);
}
apply_verdict-IsClocked cp before after gone f r h k = record {
  campaign = k.campaign;
  waiting = k.waiting;
  processed = All-append Clocked before after f r;
}
apply_verdict-IsClocked cp before after (requeue d) f r h k = record {
  campaign = k.campaign;
  waiting = All-append Clocked cp.destinations (d ∷ []) k.waiting (h, tt);
  processed = All-append Clocked before after f r;
}

call_timer-IsClocked :
    (s : Setup) (a : Answers) (now : ℕ) (before : List Destination) (d : Destination)
    (after : List Destination) (st st' : Dialer)
    → st.cp.processl ≡ before ++ d ∷ after
    → IsClocked st.cp
    → call_timer s a now before d after st ≡ some st'
    → IsClocked st'.cp
unfolding call_timer
call_timer-IsClocked s a now before d after st st' at v e =
    let (t, e1, e2) = >>=-eq-some (on_call_end s st.cp a now d st.rtp) _ e in
    let all = subst (All Clocked) at v.processed in
    subst (λ x. IsClocked x.cp) (of_some e2)
      (apply_verdict-IsClocked st.cp before after t.verdict
        (All-append_left Clocked before (d ∷ after) all)
        (All-append_right Clocked before (d ∷ after) all).1
        (on_call_end-StaysClocked s st.cp a now d st.rtp t e1) v)

-- An event of a call leaves the timer of its destination alone.
with_call-IsClocked :
    (st : Dialer) (before : List Destination) (d : Destination) (after : List Destination)
    (c c' : Call) (h : Handled)
    → st.cp.processl ≡ before ++ d ∷ after
    → d.call ≡ some c
    → IsClocked st.cp
    → IsClocked (with_call st before d c' after h).cp
with_call-IsClocked st before d after c c' h at held v =
    let all = subst (All Clocked) at v.processed in
    let rest = All-append_right Clocked before (d ∷ after) all in
    record {
      campaign = v.campaign;
      waiting = v.waiting;
      processed =
          All-append Clocked before (record d { call = some c' } ∷ after)
            (All-append_left Clocked before (d ∷ after) all) (rest.0 ∙ ap is_some held, rest.1);
    }

verdict_Rests :
    (cp : Campaign) (before : List Destination) (v : Verdict) (after : List Destination)
    → cp.is_running ≡ false
    → (apply_verdict cp before v after).is_running ≡ false
verdict_Rests cp before (stay d) after off = off
verdict_Rests cp before gone after off = off
verdict_Rests cp before (requeue d) after off = off

module _ (list_sort : (Destination → Destination → Bool) → List Destination → List Destination)
    (s : Setup) where
  pub Step-IsClocked :
      {st st' : Dialer}
      → IsSort list_sort
      → Step list_sort s st st'
      → IsClocked st.cp
      → IsClocked st'.cp
  Step-IsClocked {st} {st'} law (wakes answers now on e) v =
      start_fake_calling-IsClocked list_sort s answers now (fired st) st' law (sym v.campaign ∙ on)
        refl v.waiting v.processed e
  Step-IsClocked {st} {st'} law (serves answers now e) v =
      start_fake_calling-IsClocked list_sort s answers now (again st) st' law refl refl v.waiting
        v.processed (campaign_service_handler-starts list_sort s answers now st st' e)
  Step-IsClocked {st} {st'} law (ticks a now before d after at on e) v =
      call_timer-IsClocked s a now before d after st st' at v e
  Step-IsClocked {st} law (call_event before d after c h at held ev e) v =
      subst (λ x. IsClocked x.cp) (sym e)
        (with_call-IsClocked st before d after c (record c { leg = h.leg }) h at held v)
  Step-IsClocked {st} law (pbx_event before d after c b h at held has ev e) v =
      subst (λ x. IsClocked x.cp) (sym e)
        (with_call-IsClocked st before d after c (record c { pbx_call = some h.leg }) h at held v)

  -- A campaign that does not run goes on so until its message comes.
  pub Step-Rests :
      {st st' : Dialer} (step : Step list_sort s st st')
      → IsOwn list_sort s step
      → IsClocked st.cp
      → st.cp.is_running ≡ false
      → st'.cp.is_running ≡ false
  unfolding call_timer
  Step-Rests (wakes answers now on e) own v off = absurd (cc (v.campaign, on, off))
  Step-Rests (serves answers now e) own v off = absurd own
  Step-Rests {st} (ticks a now before d after at on e) own v off =
      let (t, e1, e2) = >>=-eq-some (on_call_end s st.cp a now d st.rtp) _ e in
      subst (λ x. x.cp.is_running ≡ false) (of_some e2)
        (verdict_Rests st.cp before t.verdict after off)
  Step-Rests (call_event before d after c h at held ev e) own v off =
      subst (λ x. x.cp.is_running ≡ false) (sym e) off
  Step-Rests (pbx_event before d after c b h at held has ev e) own v off =
      subst (λ x. x.cp.is_running ≡ false) (sym e) off
