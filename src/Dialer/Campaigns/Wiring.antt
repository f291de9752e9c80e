-- ===== src/Dialer/Campaigns/Wiring.antt =====
-- What the handlers of src/main.c read through the settings of a campaign and its calls.
use mathlib.Core.Path.{subst}
use mathlib.Core.List.Perm
use autodialer_core.Base.{
  ℕ, ◌≡◌, sym, ap, Bool, true, false, inl, inr, Bool-cases, Option, some, is_some, List, [], ◌∷◌,
  ◌++◌, All, All-append, All-append_left, All-append_right, All-imp, All-perm, arith, >>=-eq-some,
  of_some, ltb, length, ◌==◌, Text,
}
use autodialer_core.Structs.{Leg, Call, Destination, Campaign}
use autodialer_core.Call.Alloc.{Answers}
use autodialer_core.Call.Events.{Handled}
use autodialer_core.Dialer.Fill.{fill_processl}
use autodialer_core.Dialer.Fill.Selection.{IsSort, fill_processl-Filled}
use autodialer_core.Dialer.Dial.{Setup, dial}
use autodialer_core.Dialer.Dial.Routes.{dial-Routed}
use autodialer_core.Dialer.Supervise.{Verdict, stay, gone, requeue, on_call_end}
use autodialer_core.Dialer.Supervise.Routes.{leads, IsRouted, Routed}
use autodialer_core.Dialer.Supervise.Routes.Verdict.{StaysRouted, on_call_end-StaysRouted}
use autodialer_core.Dialer.Campaigns.{Dialer, apply_verdict, start_fake_calling, call_timer}
use autodialer_core.Dialer.Campaigns.Calls.{Idle}
use autodialer_core.Dialer.Campaigns.Tries.{none_of}
use autodialer_core.Dialer.Campaigns.History.{with_call}
use autodialer_core.Dialer.Campaigns.Noting.{Goes}

-- The call of a destination of this campaign.
abbrev pub Finds : Setup → Campaign → Destination → Type 0
Finds s cp d = Routed s cp.pbx_gateway cp.file_name d.call

-- The campaign's gateway is loaded, and so are its PBX's, if it has one, and those of its actions,
-- but for actions that end the call, if it plays a file; its calls find what they read through.
pub record IsWired (s : Setup) (cp : Campaign) : Type 0 where
  pub own : leads s cp.gateway ≡ true
  pub pbx : is_some cp.pbx_gateway ≡ true → leads s cp.pbx_gateway ≡ true
  pub goes : All (Goes s cp.file_name) cp.actions
  pub waiting : All Idle cp.destinations
  pub calls : All (λ d. Routed s cp.pbx_gateway cp.file_name d.call) cp.processl

-- The campaign with other lists.
pub rewired :
    (s : Setup) (cp : Campaign) (ds pl : List Destination) (tmr runs : Bool)
    → IsWired s cp
    → All Idle ds
    → All (Finds s cp) pl
    → IsWired s (record cp { destinations = ds; processl = pl; tmr = tmr; is_running = runs })
rewired s cp ds pl tmr runs v w f = record {
  own = v.own;
  pbx = v.pbx;
  goes = v.goes;
  waiting = w;
  calls = f;
}

Idle-IsProp : (d : Destination) → IsProp (Idle d)
Idle-IsProp d = hlevel

Idle-Finds : (s : Setup) (cp : Campaign) (d : Destination) → Idle d → Finds s cp d
Idle-Finds s cp d h = subst (Routed s cp.pbx_gateway cp.file_name) (sym (none_of d.call h)) tt

pub fill_processl-Finds :
    (list_sort : (Destination → Destination → Bool) → List Destination → List Destination)
    (s : Setup) (cp : Campaign) (now delay limit : ℕ) (ds pl : List Destination)
    → IsSort list_sort
    → All Idle ds
    → All (Finds s cp) pl
    → let r = fill_processl list_sort now delay limit ds pl in All Idle r.0 × All (Finds s cp) r.1
unfolding fill_processl
fill_processl-Finds list_sort s cp now delay limit ds pl law w h =
    elim (Bool-cases (ltb (length pl) limit)) [
      | inr full ↦ rw full (w, h)
      | inl room ↦
          let (f, same, _) =
            fill_processl-Filled list_sort now delay limit ds pl law (ground arith) in
          let r = fill_processl list_sort now delay limit ds pl in
          let all = All-perm Idle Idle-IsProp (Perm.symm same) w in
          (
            All-append_left Idle r.0 f.moved all,
            subst (All (Finds s cp)) (sym f.grown) (
                All-append (Finds s cp) pl f.moved h
                  (All-imp f.moved (Idle-Finds s cp) (All-append_right Idle r.0 f.moved all))),
          )
    ]

pub start_fake_calling-IsWired :
    (list_sort : (Destination → Destination → Bool) → List Destination → List Destination)
    (s : Setup) (answers : ℕ → Answers) (now : ℕ) (st st' : Dialer)
    → IsSort list_sort
    → IsWired s st.cp
    → start_fake_calling list_sort s answers now st ≡ some st'
    → IsWired s st'.cp
unfolding start_fake_calling
start_fake_calling-IsWired list_sort s answers now st st' law v e =
    let cp = st.cp in
    let (ds, pl) =
      fill_processl list_sort now cp.retry_delay cp.call_limit cp.destinations cp.processl in
    let (waiting, filled) =
      fill_processl-Finds list_sort s cp now cp.retry_delay cp.call_limit cp.destinations
        cp.processl law v.waiting v.calls in
    elim (Bool-cases (cp.campaign_status == 2)) [
      | inr stopped ↦
          subst (λ x. IsWired s x.cp) (of_some (rw (stopped, start_fake_calling) at e))
            (rewired s cp cp.destinations cp.processl cp.tmr false v v.waiting v.calls)
      | inl runs ↦
          let (r, e1, e2) =
            >>=-eq-some (dial s cp answers now 0 pl st.rtp) _
              (rw (runs, start_fake_calling) at e) in
          subst (λ x. IsWired s x.cp) (of_some e2)
            (rewired s cp ds r.dests true cp.is_running v waiting
              (dial-Routed s cp answers now 0 pl st.rtp r v.pbx filled e1))
    ]

apply_verdict-IsWired :
    (s : Setup) (cp : Campaign) (before after : List Destination) (v : Verdict)
    → All (Finds s cp) before
    → All (Finds s cp) after
    → StaysRouted s cp.pbx_gateway cp.file_name v
    → IsWired s cp
    → IsWired s (apply_verdict cp before v after)
apply_verdict-IsWired s cp before after (stay d) f r h k =
    rewired s cp cp.destinations (before ++ d ∷ after) cp.tmr cp.is_running k k.waiting
      (All-append (Finds s cp) before (d ∷ after) f (h, r))
apply_verdict-IsWired s cp before after gone f r h k =
    rewired s cp cp.destinations (before ++ after) cp.tmr cp.is_running k k.waiting
      (All-append (Finds s cp) before after f r)
apply_verdict-IsWired s cp before after (requeue d) f r h k =
    rewired s cp (cp.destinations ++ d ∷ []) (before ++ after) cp.tmr cp.is_running k
      (All-append Idle cp.destinations (d ∷ []) k.waiting (ap is_some h, tt))
      (All-append (Finds s cp) before after f r)

pub call_timer-IsWired :
    (s : Setup) (a : Answers) (now : ℕ) (before : List Destination) (d : Destination)
    (after : List Destination) (st st' : Dialer)
    → st.cp.processl ≡ before ++ d ∷ after
    → IsWired s st.cp
    → call_timer s a now before d after st ≡ some st'
    → IsWired s st'.cp
unfolding call_timer
call_timer-IsWired s a now before d after st st' at v e =
    let (t, e1, e2) = >>=-eq-some (on_call_end s st.cp a now d st.rtp) _ e in
    let all = subst (All (Finds s st.cp)) at v.calls in
    let rest = All-append_right (Finds s st.cp) before (d ∷ after) all in
    subst (λ x. IsWired s x.cp) (of_some e2)
      (apply_verdict-IsWired s st.cp before after t.verdict
        (All-append_left (Finds s st.cp) before (d ∷ after) all) rest.1
        (on_call_end-StaysRouted s st.cp a now d st.rtp t rest.0 e1) v)

pub with_call-IsWired :
    (s : Setup) (st : Dialer) (before : List Destination) (d : Destination)
    (after : List Destination) (c c' : Call) (h : Handled)
    → st.cp.processl ≡ before ++ d ∷ after
    → d.call ≡ some c
    → (IsRouted s st.cp.pbx_gateway st.cp.file_name c
        → IsRouted s st.cp.pbx_gateway st.cp.file_name c')
    → IsWired s st.cp
    → IsWired s (with_call st before d c' after h).cp
with_call-IsWired s st before d after c c' h at held keeps v =
    let cp = st.cp in
    let all = subst (All (Finds s cp)) at v.calls in
    let rest = All-append_right (Finds s cp) before (d ∷ after) all in
    let was = subst (Routed s cp.pbx_gateway cp.file_name) held rest.0 in
    rewired s cp cp.destinations (before ++ record d { call = some c' } ∷ after) cp.tmr
      cp.is_running v v.waiting
      (All-append (Finds s cp) before (record d { call = some c' } ∷ after)
        (All-append_left (Finds s cp) before (d ∷ after) all) (keeps was, rest.1))

pub pbx_event-IsRouted :
    (s : Setup) (pbx : Option ℕ) (file : Option Text) (c : Call) (b b' : Leg)
    → c.pbx_call ≡ some b
    → IsRouted s pbx file c
    → IsRouted s pbx file (record c { pbx_call = some b' })
pbx_event-IsRouted s pbx file c b b' has v = record {
  noted = λ h. elim (v.noted h) [
    | inl good ↦ inl good
    | inr (over, alone) ↦ cc (alone, ap is_some has)
  ];
  joins = v.joins;
  linked = λ h. v.linked (ap is_some has);
}
