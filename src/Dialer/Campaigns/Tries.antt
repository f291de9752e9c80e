-- ===== src/Dialer/Campaigns/Tries.antt =====
-- No destination of src/main.c is dialled more often than its campaign allows.
use mathlib.Core.Path.{subst}
use mathlib.Core.List.Perm
use native.Mathlib.Bridge.{le_prop}
use autodialer_core.Base.{
  ℕ, ◌≤◌, ◌<◌, ◌≡◌, refl, sym, Bool, false, inl, inr, Bool-cases, Option, none, some, is_some, List,
  [], ◌∷◌, ◌++◌, All, All-append, All-append_left, All-append_right, All-imp, All-perm, arith,
  >>=-eq-some, of_some, ltb, length, ◌==◌,
}
use autodialer_core.Structs.{Destination, Campaign}
use autodialer_core.Call.Alloc.{Answers}
use autodialer_core.Dialer.Fill.{fill_processl}
use autodialer_core.Dialer.Fill.Selection.{IsSort, fill_processl-Filled}
use autodialer_core.Dialer.Dial.{Setup, dial}
use autodialer_core.Dialer.Dial.Attempts.{Attempt, Each, dial-Attempt}
use autodialer_core.Dialer.Supervise.{Verdict, stay, gone, requeue, on_call_end}
use autodialer_core.Dialer.Supervise.Verdicts.{
  Decides, talked, on_call_end_held, on_call_end-Decides,
}
use autodialer_core.Dialer.Campaigns.{Dialer, apply_verdict, start_fake_calling, call_timer}

pub none_of {ℓ} : {A : Type ℓ} (o : Option A) → is_some o ≡ false → o ≡ none
none_of none h = refl
none_of (some a) h = cc

-- A destination without a call has tries left; one with a call has used at most all of them.
abbrev pub HasTries : ℕ → Destination → Type 0
HasTries m d = (is_some d.call ≡ false → d.try_count < m) × (d.try_count ≤ m)

abbrev pub Waits : ℕ → Destination → Type 0
Waits m d = (is_some d.call ≡ false) × (d.try_count < m)

HasTries-Waits : (m : ℕ) (d : Destination) → Waits m d → HasTries m d
HasTries-Waits m d h = ((λ _. h.1), omega arith)

-- The invariant of a campaign with a limit on the tries.
pub record KeepsTries (cp : Campaign) : Type 0 where
  pub limited : 0 < cp.max_try
  pub narrow : cp.max_try ≤ 255
  pub waiting : All (Waits cp.max_try) cp.destinations
  pub processed : All (HasTries cp.max_try) cp.processl

Attempt-HasTries :
    (m now : ℕ) (d e : Destination) → m ≤ 255 → HasTries m d → Attempt now d e → HasTries m e
Attempt-HasTries m now d e w h t = ground arith

Each-HasTries :
    (m now : ℕ) (ds es : List Destination)
    → m ≤ 255
    → All (HasTries m) ds
    → Each (Attempt now) ds es
    → All (HasTries m) es
Each-HasTries m now [] [] w h t = tt
Each-HasTries m now [] (e ∷ es) w h t = absurd t
Each-HasTries m now (d ∷ ds) [] w h t = absurd t
Each-HasTries m now (d ∷ ds) (e ∷ es) w h t =
    (Attempt-HasTries m now d e w h.0 t.0, Each-HasTries m now ds es w h.1 t.1)

Waits-IsProp : (m : ℕ) (d : Destination) → IsProp (Waits m d)
Waits-IsProp m d = hlevel le_prop

-- What stays still waits, and the process list has tries.
abbrev Split : ℕ → List Destination × List Destination → Type 0
Split m r = All (Waits m) r.0 × All (HasTries m) r.1

pub fill_processl-Split :
    (list_sort : (Destination → Destination → Bool) → List Destination → List Destination)
    (m now delay limit : ℕ) (ds pl : List Destination)
    → IsSort list_sort
    → All (Waits m) ds
    → All (HasTries m) pl
    → Split m (fill_processl list_sort now delay limit ds pl)
unfolding fill_processl
fill_processl-Split list_sort m now delay limit ds pl law w h =
    elim (Bool-cases (ltb (length pl) limit)) [
      | inr full ↦ rw full (w, h)
      | inl room ↦
          let (f, same, _) =
            fill_processl-Filled list_sort now delay limit ds pl law (ground arith) in
          let r = fill_processl list_sort now delay limit ds pl in
          let all = All-perm (Waits m) (Waits-IsProp m) (Perm.symm same) w in
          (
            All-append_left (Waits m) r.0 f.moved all,
            subst (All (HasTries m)) (sym f.grown) (
                All-append (HasTries m) pl f.moved h (
                  All-imp f.moved (HasTries-Waits m) (All-append_right (Waits m) r.0 f.moved all))),
          )
    ]

-- With `list_sort` a sort and `max_try` between 1 and 255: `start_fake_calling` leaves every
-- waiting destination with tries left, and every one in the process list with at most `max_try`
-- used, and fewer if it has no call, if it found them so.
pub start_fake_calling-KeepsTries :
    (list_sort : (Destination → Destination → Bool) → List Destination → List Destination)
    (s : Setup) (answers : ℕ → Answers) (now : ℕ) (st st' : Dialer)
    → IsSort list_sort
    → KeepsTries st.cp
    → start_fake_calling list_sort s answers now st ≡ some st'
    → KeepsTries st'.cp
unfolding start_fake_calling
start_fake_calling-KeepsTries list_sort s answers now st st' law v e =
    let cp = st.cp in
    let (ds, pl) =
      fill_processl list_sort now cp.retry_delay cp.call_limit cp.destinations cp.processl in
    let split =
      fill_processl-Split list_sort cp.max_try now cp.retry_delay cp.call_limit cp.destinations
        cp.processl law v.waiting v.processed in
    elim (Bool-cases (cp.campaign_status == 2)) [
      | inr stopped ↦
          subst (λ x. KeepsTries x.cp) (of_some (rw (stopped, start_fake_calling) at e))
            (record {
              limited = v.limited;
              narrow = v.narrow;
              waiting = v.waiting;
              processed = v.processed;
            })
      | inl runs ↦
          let (r, e1, e2) =
            >>=-eq-some (dial s cp answers now 0 pl st.rtp) _
              (rw (runs, start_fake_calling) at e) in
          let tried =
            dial-Attempt s cp answers now 0 pl st.rtp r
              (All-imp pl (λ d h. omega (arith, h.1, v.narrow)) split.1) e1 in
          subst (λ x. KeepsTries x.cp) (of_some e2)
            (record {
              limited = v.limited;
              narrow = v.narrow;
              waiting = split.0;
              processed = Each-HasTries cp.max_try now pl r.dests v.narrow split.1 tried;
            })
    ]

stay-HasTries :
    (cp : Campaign) (d d' : Destination) (b : Bool)
    → HasTries cp.max_try d
    → Decides cp d b (stay d')
    → HasTries cp.max_try d'
stay-HasTries cp d d' b h k =
    ((λ idle. absurd (k.3 (none_of d'.call idle))), omega (arith, h.1, k.1))

apply_verdict-KeepsTries :
    (cp : Campaign) (before : List Destination) (d : Destination) (after : List Destination)
    (v : Verdict) (b : Bool)
    → All (HasTries cp.max_try) (before ++ d ∷ after)
    → KeepsTries cp
    → Decides cp d b v
    → KeepsTries (apply_verdict cp before v after)
apply_verdict-KeepsTries cp before d after (stay d') b h k t =
    let rest = All-append_right _ before (d ∷ after) h in
    record {
      limited = k.limited;
      narrow = k.narrow;
      waiting = k.waiting;
      processed =
          All-append _ before (d' ∷ after) (All-append_left _ before (d ∷ after) h)
            (stay-HasTries cp d d' b rest.0 t, rest.1);
    }
apply_verdict-KeepsTries cp before d after gone b h k t = record {
  limited = k.limited;
  narrow = k.narrow;
  waiting = k.waiting;
  processed =
      All-append _ before after (All-append_left _ before (d ∷ after) h)
        (All-append_right _ before (d ∷ after) h).1;
}
apply_verdict-KeepsTries cp before d after (requeue d') b h k t = record {
  limited = k.limited;
  narrow = k.narrow;
  waiting =
      All-append (Waits cp.max_try) cp.destinations (d' ∷ []) k.waiting
        (ground (arith, k.limited), tt);
  processed =
      All-append _ before after (All-append_left _ before (d ∷ after) h)
        (All-append_right _ before (d ∷ after) h).1;
}

-- With `max_try` between 1 and 255, `on_call_end` for a destination of the process list leaves
-- every waiting destination with tries left, and every one in the process list with at most
-- `max_try` used, and fewer if it has no call, if it found them so.
pub call_timer-KeepsTries :
    (s : Setup) (a : Answers) (now : ℕ) (before : List Destination) (d : Destination)
    (after : List Destination) (st st' : Dialer)
    → st.cp.processl ≡ before ++ d ∷ after
    → KeepsTries st.cp
    → call_timer s a now before d after st ≡ some st'
    → KeepsTries st'.cp
unfolding call_timer
call_timer-KeepsTries s a now before d after st st' at v e =
    let (t, e1, e2) = >>=-eq-some (on_call_end s st.cp a now d st.rtp) _ e in
    let (c, held) = on_call_end_held s st.cp a now d st.rtp t e1 in
    let decides = on_call_end-Decides s st.cp a now d c st.rtp t held e1 in
    subst (λ x. KeepsTries x.cp) (of_some e2)
      (apply_verdict-KeepsTries st.cp before d after t.verdict (talked now c)
        (subst (All (HasTries st.cp.max_try)) at v.processed) v decides)
