-- ===== src/Dialer/Campaigns/Sessions.antt =====
-- The handlers of src/main.c move the RTP sessions of one campaign's calls, and of no other's.
pub mod Steps
use mathlib.Core.Path.{subst}
use mathlib.Core.List.{append-nil}
use mathlib.Core.List.Perm
use autodialer_core.Base.{
  ℕ, ◌≡◌, refl, sym, ◌∙◌, ap, Bool, true, false, inl, inr, Bool-cases, none, some, List, [], ◌∷◌,
  ◌++◌, All, All-append, All-append_left, All-append_right, All-imp, All-perm, arith, >>=-eq-some,
  of_some, ltb, length, ◌==◌,
}
use autodialer_core.Rtp.{Rtp}
use autodialer_core.Rtp.Ownership.Frame.{
  Evolves, Evolves-refl, Evolves-trans, Evolves-beside, Evolves-less, Evolves-more, Moves-Evolves,
}
use autodialer_core.Structs.{Call, Destination, Campaign}
use autodialer_core.Call.Alloc.{Answers}
use autodialer_core.Call.Events.{Handled}
use autodialer_core.Dialer.Groups.{held_by, group, groups, Sane, IsSane, groups-append}
use autodialer_core.Dialer.Fill.{fill_processl}
use autodialer_core.Dialer.Fill.Selection.{IsSort, fill_processl-Filled}
use autodialer_core.Dialer.Dial.{Setup, dial}
use autodialer_core.Dialer.Dial.Sessions.{dial-Evolves}
use autodialer_core.Dialer.Supervise.{Verdict, stay, gone, requeue, on_call_end}
use autodialer_core.Dialer.Supervise.Sessions.{
  left, StaysSane, on_call_end-Moves, on_call_end-StaysSane,
}
use autodialer_core.Dialer.Campaigns.{
  Dialer, apply_verdict, start_fake_calling, campaign_service_handler, call_timer,
}
use autodialer_core.Dialer.Campaigns.Tries.{none_of}
use autodialer_core.Dialer.Campaigns.Calls.{Idle, IsTidy, calls}
use autodialer_core.Dialer.Campaigns.History.{
  with_call, Step, wakes, serves, ticks, call_event, pbx_event,
}
use autodialer_core.Dialer.Campaigns.LegSessions.{
  call_event-Moves, call_event-Sane, pbx_event-Moves,
}

-- The sessions of a campaign move, whatever other calls there are.
abbrev pub Turns : Dialer → Dialer → Type 0
Turns st st' = Evolves st.rtp st'.rtp (calls st.cp) (calls st'.cp) × IsTidy st'.cp

Idle-nil : (d : Destination) → Idle d → group d ≡ []
Idle-nil d h = ap held_by (none_of d.call h)

Idle-IsSane : (d : Destination) → Idle d → IsSane d
Idle-IsSane d h = subst Sane (sym (none_of d.call h)) tt

Idle-Evolves : (p : Rtp) (ds : List Destination) → All Idle ds → Evolves p p [] (groups ds)
Idle-Evolves p [] h = Evolves-refl
Idle-Evolves p (d ∷ ds) h =
    subst (λ g. Evolves p p [] (g ∷ groups ds)) (sym (Idle-nil d h.0))
      (Evolves-trans (Idle-Evolves p ds h.1) Evolves-more)

grown_Evolves :
    (p : Rtp) (pl moved : List Destination)
    → All Idle moved
    → Evolves p p (groups pl) (groups (pl ++ moved))
grown_Evolves p pl moved h = rw groups-append (
    rw (append-nil (groups pl), append-nil (groups moved)) at
      (Evolves-beside (groups pl) [] (Idle-Evolves p moved h)))

-- What becomes of one destination's group in the process list.
among_Evolves :
    {p q : Rtp} (before : List Destination) (d : Destination) (after new : List Destination)
    → Evolves p q (group d ∷ []) (groups new)
    → Evolves p q (groups (before ++ d ∷ after)) (groups (before ++ (new ++ after)))
among_Evolves before d after new e =
    rw (groups-append, groups-append before (new ++ after), groups-append new after)
      (Evolves-beside (groups before) (groups after) e)

replaced-IsSane :
    (before : List Destination) (d : Destination) (after new : List Destination)
    → All IsSane (before ++ d ∷ after)
    → All IsSane new
    → All IsSane (before ++ (new ++ after))
replaced-IsSane before d after new h n =
    All-append IsSane before (new ++ after) (All-append_left IsSane before (d ∷ after) h)
      (All-append IsSane new after n (All-append_right IsSane before (d ∷ after) h).1)

-- What the verdict leaves in the process list.
abbrev remains : Verdict → List Destination
remains (stay d) = d ∷ []
remains gone = []
remains (requeue d) = []

verdict_Evolves :
    {p q : Rtp} (v : Verdict) (d : Destination)
    → Evolves p q (group d ∷ []) (left v ∷ [])
    → Evolves p q (group d ∷ []) (groups (remains v))
verdict_Evolves (stay d') d e = e
verdict_Evolves gone d e = Evolves-trans e Evolves-less
verdict_Evolves (requeue d') d e = Evolves-trans e Evolves-less

abbrev pub After : Campaign → Rtp → Campaign → Rtp → Type 0
After cp p cp' q = Evolves p q (calls cp) (calls cp') × IsTidy cp'

pub decided_After :
    (cp : Campaign) (p q : Rtp) (before : List Destination) (d : Destination)
    (after new ds : List Destination)
    → cp.processl ≡ before ++ d ∷ after
    → IsTidy cp
    → All Idle ds
    → All IsSane new
    → Evolves p q (group d ∷ []) (groups new)
    → After cp p (record cp { processl = before ++ (new ++ after); destinations = ds }) q
decided_After cp p q before d after new ds at t idle sane e = (
  subst (λ l. Evolves p q (groups l) (groups (before ++ (new ++ after)))) (sym at)
      (among_Evolves before d after new e),
  record {
    idle = idle;
    sane = replaced-IsSane before d after new (subst (All IsSane) at t.sane) sane;
  },
)

apply_verdict-After :
    (cp : Campaign) (p q : Rtp) (before : List Destination) (d : Destination)
    (after : List Destination) (v : Verdict)
    → cp.processl ≡ before ++ d ∷ after
    → IsTidy cp
    → StaysSane v
    → Evolves p q (group d ∷ []) (groups (remains v))
    → After cp p (apply_verdict cp before v after) q
apply_verdict-After cp p q before d after (stay d') at t s e =
    decided_After cp p q before d after (d' ∷ []) cp.destinations at t t.idle (s, tt) e
apply_verdict-After cp p q before d after gone at t s e =
    decided_After cp p q before d after [] cp.destinations at t t.idle tt e
apply_verdict-After cp p q before d after (requeue d') at t s e =
    decided_After cp p q before d after [] (cp.destinations ++ d' ∷ []) at t
      (All-append Idle cp.destinations (d' ∷ []) t.idle (rw s refl, tt)) tt e

pub call_timer-Turns :
    (s : Setup) (a : Answers) (now : ℕ) (before : List Destination) (d : Destination)
    (after : List Destination) (st st' : Dialer)
    → st.cp.processl ≡ before ++ d ∷ after
    → IsTidy st.cp
    → call_timer s a now before d after st ≡ some st'
    → Turns st st'
unfolding call_timer
call_timer-Turns s a now before d after st st' at t e =
    let sane = (All-append_right IsSane before (d ∷ after) (subst (All IsSane) at t.sane)).0 in
    let (k, e1, e2) = >>=-eq-some (on_call_end s st.cp a now d st.rtp) _ e in
    let moves : Evolves st.rtp k.rtp (group d ∷ []) (left k.verdict ∷ []) =
      Moves-Evolves (λ v c g. on_call_end-Moves s st.cp a now d st.rtp k v c g sane e1) in
    subst (Turns st) (of_some e2) (
      apply_verdict-After st.cp st.rtp k.rtp before d after k.verdict at t
        (on_call_end-StaysSane s st.cp a now d st.rtp k sane e1)
        (verdict_Evolves k.verdict d moves))

Idle-IsProp : (d : Destination) → IsProp (Idle d)
Idle-IsProp d = hlevel

-- What is moved to the process list has no call, and what stays has none.
filled_Evolves :
    (list_sort : (Destination → Destination → Bool) → List Destination → List Destination)
    (now delay limit : ℕ) (p : Rtp) (ds pl : List Destination)
    → IsSort list_sort
    → All Idle ds
    → All IsSane pl
    → let r = fill_processl list_sort now delay limit ds pl in
      Evolves p p (groups pl) (groups r.1) × (All Idle r.0 × All IsSane r.1)
unfolding fill_processl
filled_Evolves list_sort now delay limit p ds pl law i w =
    elim (Bool-cases (ltb (length pl) limit)) [
      | inr full ↦ rw full (Evolves-refl, (i, w))
      | inl room ↦
          let (f, same, _) =
            fill_processl-Filled list_sort now delay limit ds pl law (ground arith) in
          let r = fill_processl list_sort now delay limit ds pl in
          let all = All-perm Idle Idle-IsProp (Perm.symm same) i in
          let moved = All-append_right Idle r.0 f.moved all in
          (
            subst (λ l. Evolves p p (groups pl) (groups l)) (sym f.grown)
                (grown_Evolves p pl f.moved moved),
            (
              All-append_left Idle r.0 f.moved all,
              subst (All IsSane) (sym f.grown)
                  (All-append IsSane pl f.moved w (All-imp f.moved Idle-IsSane moved)),
            ),
          )
    ]

pub start_fake_calling-Turns :
    (list_sort : (Destination → Destination → Bool) → List Destination → List Destination)
    (s : Setup) (answers : ℕ → Answers) (now : ℕ) (st st' : Dialer)
    → IsSort list_sort
    → IsTidy st.cp
    → start_fake_calling list_sort s answers now st ≡ some st'
    → Turns st st'
unfolding start_fake_calling
start_fake_calling-Turns list_sort s answers now st st' law t e =
    let cp = st.cp in
    let (ds, pl) =
      fill_processl list_sort now cp.retry_delay cp.call_limit cp.destinations cp.processl in
    let (grown, (idle, sane)) =
      filled_Evolves list_sort now cp.retry_delay cp.call_limit st.rtp cp.destinations cp.processl
        law t.idle t.sane in
    elim (Bool-cases (cp.campaign_status == 2)) [
      | inr stopped ↦
          subst (Turns st) (of_some (rw (stopped, start_fake_calling) at e))
            (Evolves-refl, record { idle = t.idle; sane = t.sane })
      | inl runs ↦
          let (r, e1, e2) =
            >>=-eq-some (dial s cp answers now 0 pl st.rtp) _
              (rw (runs, start_fake_calling) at e) in
          let (dialled, sane') = dial-Evolves s cp answers now 0 pl st.rtp r sane e1 in
          subst (Turns st) (of_some e2)
            (Evolves-trans grown dialled, record { idle = idle; sane = sane' })
    ]
