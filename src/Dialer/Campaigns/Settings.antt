-- ===== src/Dialer/Campaigns/Settings.antt =====
-- The handlers of src/main.c leave the number and the settings of a campaign alone.
use mathlib.Core.Path.{subst}
use autodialer_core.Base.{
  ℕ, ◌≡◌, refl, sym, Bool, inl, inr, Bool-cases, some, List, >>=-eq-some, of_some, ◌==◌,
}
use autodialer_core.Structs.{Destination, Campaign}
use autodialer_core.Call.Alloc.{Answers}
use autodialer_core.Dialer.Fill.{fill_processl}
use autodialer_core.Dialer.Dial.{Setup, dial}
use autodialer_core.Dialer.Supervise.{Verdict, stay, gone, requeue, on_call_end}
use autodialer_core.Dialer.Campaigns.{Dialer, apply_verdict, start_fake_calling, call_timer}
use autodialer_core.Dialer.Campaigns.History.{
  again, campaign_service_handler-starts, fired, Step, wakes, serves, ticks, call_event, pbx_event,
}

-- A campaign keeps its number and its settings.
abbrev pub Kept : Campaign → Campaign → Type 0
Kept cp c = c ≡ record cp {
  destinations = c.destinations;
  processl = c.processl;
  tmr = c.tmr;
  is_running = c.is_running;
}

start_fake_calling-Kept :
    (list_sort : (Destination → Destination → Bool) → List Destination → List Destination)
    (s : Setup) (answers : ℕ → Answers) (now : ℕ) (st st' : Dialer)
    → start_fake_calling list_sort s answers now st ≡ some st'
    → Kept st.cp st'.cp
unfolding start_fake_calling
start_fake_calling-Kept list_sort s answers now st st' e =
    let cp = st.cp in
    let (ds, pl) =
      fill_processl list_sort now cp.retry_delay cp.call_limit cp.destinations cp.processl in
    elim (Bool-cases (cp.campaign_status == 2)) [
      | inr stopped ↦
          subst (λ x. Kept cp x.cp) (of_some (rw (stopped, start_fake_calling) at e)) refl
      | inl runs ↦
          let (r, e1, e2) =
            >>=-eq-some (dial s cp answers now 0 pl st.rtp) _
              (rw (runs, start_fake_calling) at e) in
          subst (λ x. Kept cp x.cp) (of_some e2) refl
    ]

apply_verdict-Kept :
    (cp : Campaign) (before : List Destination) (v : Verdict) (after : List Destination)
    → Kept cp (apply_verdict cp before v after)
apply_verdict-Kept cp before (stay d) after = refl
apply_verdict-Kept cp before gone after = refl
apply_verdict-Kept cp before (requeue d) after = refl

call_timer-Kept :
    (s : Setup) (a : Answers) (now : ℕ) (before : List Destination) (d : Destination)
    (after : List Destination) (st st' : Dialer)
    → call_timer s a now before d after st ≡ some st'
    → Kept st.cp st'.cp
unfolding call_timer
call_timer-Kept s a now before d after st st' e =
    let (t, e1, e2) = >>=-eq-some (on_call_end s st.cp a now d st.rtp) _ e in
    subst (λ x. Kept st.cp x.cp) (of_some e2) (apply_verdict-Kept st.cp before t.verdict after)

pub Step-Kept :
    (list_sort : (Destination → Destination → Bool) → List Destination → List Destination)
    (s : Setup) (st st' : Dialer)
    → Step list_sort s st st'
    → Kept st.cp st'.cp
Step-Kept list_sort s st st' (wakes answers now on e) =
    start_fake_calling-Kept list_sort s answers now (fired st) st' e
Step-Kept list_sort s st st' (serves answers now e) =
    start_fake_calling-Kept list_sort s answers now (again st) st'
      (campaign_service_handler-starts list_sort s answers now st st' e)
Step-Kept list_sort s st st' (ticks a now before d after at on e) =
    call_timer-Kept s a now before d after st st' e
Step-Kept list_sort s st st' (call_event before d after c h at held ev e) =
    subst (λ x. Kept st.cp x.cp) (sym e) refl
Step-Kept list_sort s st st' (pbx_event before d after c b h at held has ev e) =
    subst (λ x. Kept st.cp x.cp) (sym e) refl
