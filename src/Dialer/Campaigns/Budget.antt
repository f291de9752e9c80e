-- ===== src/Dialer/Campaigns/Budget.antt =====
-- How many calls of a campaign of src/main.c can come to stand in its process list at all.
pub mod Histories
use mathlib.Core.Path.{subst}
use mathlib.Core.List.{append-nil}
use autodialer_core.Base.{
  ℕ, ◌+◌, ◌-◌, ◌*◌, ◌≤◌, ◌<◌, ◌≡◌, refl, sym, ap, ◌∙◌, Bool, true, false, inl, inr, Bool-cases,
  none, some, is_some, List, [], ◌∷◌, ◌++◌, length, length-append, All, All-append, All-append_left,
  All-append_right, All-imp, total, total-append, total-perm, arith, >>=-eq-some, of_some, ◌==◌,
  ltb, if◌then◌else◌,
}
use autodialer_core.Structs.{Call, Destination, Campaign}
use autodialer_core.Call.Events.{Handled}
use autodialer_core.Call.Alloc.{Answers}
use autodialer_core.Dialer.Fill.{fill_processl}
use autodialer_core.Dialer.Fill.Selection.{IsSort, fill_processl-Filled}
use autodialer_core.Dialer.Dial.{Setup, dial}
use autodialer_core.Dialer.Dial.Attempts.{Attempt, Each, dial-Attempt}
use autodialer_core.Dialer.Supervise.{Verdict, stay, gone, requeue, on_call_end}
use autodialer_core.Dialer.Supervise.Verdicts.{
  Decides, talked, on_call_end_held, on_call_end-Decides,
}
use autodialer_core.Dialer.Campaigns.{
  Dialer, apply_verdict, start_fake_calling, campaign_service_handler, call_timer,
}
use autodialer_core.Dialer.Campaigns.Tries.{HasTries, KeepsTries, fill_processl-Split}
use autodialer_core.Dialer.Campaigns.Conservation.{fill_processl-perm}
use autodialer_core.Dialer.Campaigns.History.{
  with_call, Step, wakes, serves, ticks, call_event, pbx_event, Reach, here, next, IsSound,
  Reach-IsSound,
}

-- The tries that a destination has left under a limit.
abbrev pub left : ℕ → Destination → ℕ
left m d = m - d.try_count

abbrev pub all_dests : Campaign → List Destination
all_dests cp = cp.destinations ++ cp.processl

-- The tries that a campaign has left.
abbrev pub budget : Campaign → ℕ
budget cp = total (left cp.max_try) (all_dests cp)

-- The destinations that had no call before and have one since. A call that `call_alloc` sets up and
-- the same run drops again, for want of an audio file or a PBX, is none of them.
abbrev pub calls_kept : List Destination → List Destination → ℕ
calls_kept [] es = 0
calls_kept (d ∷ ds) [] = 0
calls_kept (d ∷ ds) (e ∷ es) =
    (if is_some d.call then 0 else if is_some e.call then 1 else 0) + calls_kept ds es

-- A call that stays costs its destination one try, and nothing else does.
one_call :
    (m now : ℕ) (d e : Destination)
    → m ≤ 255
    → HasTries m d
    → Attempt now d e
    → (if is_some d.call then 0 else if is_some e.call then 1 else 0) + left m e ≡ left m d
one_call m now d e w h t = ground arith

Each-calls :
    (m now : ℕ) (ds es : List Destination)
    → m ≤ 255
    → All (HasTries m) ds
    → Each (Attempt now) ds es
    → calls_kept ds es + total (left m) es ≡ total (left m) ds
Each-calls m now [] [] w h t = omega arith
Each-calls m now [] (e ∷ es) w h t = absurd t
Each-calls m now (d ∷ ds) [] w h t = absurd t
Each-calls m now (d ∷ ds) (e ∷ es) w h t =
    omega (arith, one_call m now d e w h.0 t.0, Each-calls m now ds es w h.1 t.1)

no_calls : (pl moved : List Destination) → calls_kept (pl ++ moved) pl ≡ 0
no_calls [] [] = refl
no_calls [] (d ∷ ds) = refl
no_calls (d ∷ pl) moved = elim (Bool-cases (is_some d.call)) [
  | inl busy ↦ rw busy (omega (arith, no_calls pl moved))
  | inr free ↦ rw free (omega (arith, no_calls pl moved))
]

-- The process list that the dialling loop meets.
abbrev pub filled :
    ((Destination → Destination → Bool) → List Destination → List Destination)
    → ℕ
    → Campaign
    → List Destination
filled list_sort now cp =
    (fill_processl list_sort now cp.retry_delay cp.call_limit cp.destinations cp.processl).1

fill_processl-append :
    (list_sort : (Destination → Destination → Bool) → List Destination → List Destination)
    (now delay limit : ℕ) (ds pl : List Destination)
    → IsSort list_sort
    → (moved : List Destination) × ((fill_processl list_sort now delay limit ds pl).1 ≡ pl ++ moved)
unfolding fill_processl
fill_processl-append list_sort now delay limit ds pl law =
    elim (Bool-cases (ltb (length pl) limit)) [
      | inr full ↦ ([], rw (full, append-nil pl) refl)
      | inl room ↦
          let (f, _, _) = fill_processl-Filled list_sort now delay limit ds pl law (ground arith) in
          (f.moved, f.grown)
    ]

pub wakes-budget :
    (list_sort : (Destination → Destination → Bool) → List Destination → List Destination)
    (s : Setup) (answers : ℕ → Answers) (now : ℕ) (st st' : Dialer)
    → IsSort list_sort
    → KeepsTries st.cp
    → start_fake_calling list_sort s answers now st ≡ some st'
    → (calls_kept (filled list_sort now st.cp) st'.cp.processl + budget st'.cp ≡ budget st.cp)
      × (st'.cp.max_try ≡ st.cp.max_try)
unfolding start_fake_calling
wakes-budget list_sort s answers now st st' law v e =
    let cp = st.cp in
    let (ds, pl) =
      fill_processl list_sort now cp.retry_delay cp.call_limit cp.destinations cp.processl in
    let perm =
      fill_processl-perm list_sort now cp.retry_delay cp.call_limit cp.destinations cp.processl
        law in
    let split =
      fill_processl-Split list_sort cp.max_try now cp.retry_delay cp.call_limit cp.destinations
        cp.processl law v.waiting v.processed in
    let f = left cp.max_try in
    elim (Bool-cases (cp.campaign_status == 2)) [
      | inr stopped ↦
          let (moved, grown) =
            fill_processl-append list_sort now cp.retry_delay cp.call_limit cp.destinations
              cp.processl law in
          subst
            (λ x.
              (calls_kept pl x.cp.processl + budget x.cp ≡ budget cp) × (x.cp.max_try ≡ cp.max_try))
            (of_some (rw (stopped, start_fake_calling) at e))
            (
              omega (arith, ap (λ l. calls_kept l cp.processl) grown, no_calls cp.processl moved),
              refl,
            )
      | inl runs ↦
          let (r, e1, e2) =
            >>=-eq-some (dial s cp answers now 0 pl st.rtp) _
              (rw (runs, start_fake_calling) at e) in
          let tried =
            dial-Attempt s cp answers now 0 pl st.rtp r
              (All-imp pl (λ d h. omega (arith, h.1, v.narrow)) split.1) e1 in
          subst
            (λ x.
              (calls_kept pl x.cp.processl + budget x.cp ≡ budget cp) × (x.cp.max_try ≡ cp.max_try))
            (of_some e2)
            (
              omega (
                arith,
                Each-calls cp.max_try now pl r.dests v.narrow split.1 tried,
                total-append f ds r.dests,
                total-append f ds pl,
                total-perm f perm.0,
              ),
              refl,
            )
    ]

total-parts :
    (f : Destination → ℕ) (ds before after : List Destination)
    → total f (ds ++ (before ++ after)) ≡ total f ds + (total f before + total f after)
total-parts f ds before after =
    omega (arith, total-append f ds (before ++ after), total-append f before after)

-- The budget with the process list in parts.
budget_parts :
    (cp : Campaign) (before : List Destination) (d : Destination) (after : List Destination)
    → cp.processl ≡ before ++ d ∷ after
    → let f = left cp.max_try in
      budget cp ≡ total f cp.destinations + (total f before + (f d + total f after))
budget_parts cp before d after at =
    let f = left cp.max_try in
    ap (λ l. total f (cp.destinations ++ l)) at ∙ total-parts f cp.destinations before (d ∷ after)

decided_budget :
    (cp : Campaign) (before : List Destination) (d : Destination) (after : List Destination)
    (v : Verdict) (b : Bool)
    → cp.processl ≡ before ++ d ∷ after
    → Decides cp d b v
    → budget (apply_verdict cp before v after) ≤ budget cp
decided_budget cp before d after (stay d') b at t =
    let f = left cp.max_try in
    let same : f d' ≡ f d = ap (λ n. cp.max_try - n) t.1 in
    omega (
      arith,
      budget_parts cp before d after at,
      total-parts f cp.destinations before (d' ∷ after),
      same,
    )
decided_budget cp before d after gone b at t =
    let f = left cp.max_try in
    omega (arith, budget_parts cp before d after at, total-parts f cp.destinations before after)
decided_budget cp before d after (requeue d') b at t =
    let f = left cp.max_try in
    let same : f d' ≡ f d = ap f t.0 in
    omega (
      arith,
      budget_parts cp before d after at,
      total-parts f (cp.destinations ++ d' ∷ []) before after,
      total-append f cp.destinations (d' ∷ []),
      same,
    )

pub ticks-budget :
    (s : Setup) (a : Answers) (now : ℕ) (before : List Destination) (d : Destination)
    (after : List Destination) (st st' : Dialer)
    → st.cp.processl ≡ before ++ d ∷ after
    → call_timer s a now before d after st ≡ some st'
    → budget st'.cp ≤ budget st.cp
unfolding call_timer
ticks-budget s a now before d after st st' at e =
    let (t, e1, e2) = >>=-eq-some (on_call_end s st.cp a now d st.rtp) _ e in
    let (c, held) = on_call_end_held s st.cp a now d st.rtp t e1 in
    let decides = on_call_end-Decides s st.cp a now d c st.rtp t held e1 in
    subst (λ x. budget x.cp ≤ budget st.cp) (of_some e2)
      (decided_budget st.cp before d after t.verdict (talked now c) at decides)

pub with_call-budget :
    (st : Dialer) (before : List Destination) (d : Destination) (after : List Destination)
    (c : Call) (h : Handled)
    → st.cp.processl ≡ before ++ d ∷ after
    → budget (with_call st before d c after h).cp ≡ budget st.cp
with_call-budget st before d after c h at =
    let f = left st.cp.max_try in
    total-parts f st.cp.destinations before (record d { call = some c } ∷ after)
    ∙ sym (budget_parts st.cp before d after at)
