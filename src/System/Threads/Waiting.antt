-- ===== src/System/Threads/Waiting.antt =====
-- The campaigns that messages of src/main.c name do not run yet.
use mathlib.Core.Path.{subst}
use autodialer_core.Base.{
  ℕ, ◌≡◌, ◌≢◌, refl, sym, ap, ◌∙◌, Bool, true, false, List, [], ◌∷◌, ◌++◌, All, All-append,
  All-append_right, All-imp,
}
use autodialer_core.Structs.{Destination, Campaign}
use autodialer_core.Rows.{Parsers}
use autodialer_core.Rtp.Pool.{Distinct}
use autodialer_core.Config.{load_campaign}
use autodialer_core.Config.Keys.{Unique}
use autodialer_core.Config.Loading.{campaign_key}
use autodialer_core.Config.Preparing.{prepare_settings}
use autodialer_core.Config.Resting.{prepare_rests}
use autodialer_core.Dialer.Dial.{Setup}
use autodialer_core.Dialer.Campaigns.History
use autodialer_core.Dialer.Campaigns.Settings.{Step-Kept}
use autodialer_core.Dialer.Campaigns.Timers.{IsClocked, Step-Rests}
use autodialer_core.System.{System, services_of, dialer_of, setup_of, pulls, syncs, handles, works}
use autodialer_core.System
use autodialer_core.System.Threads.{
  Threads, pushes, IsMain, Step, syncs, asks, loads_gateway, asks_again, loads_campaign, looks,
  prepares, sleeps, main,
}
use autodialer_core.System.Threads.Safety.{IsSafe}
use autodialer_core.System.Threads.Timers.{placed-All}
use autodialer_core.System.Threads.Messages.{left_of, Heard, Distinct-append_left}

-- The campaign of a number does not run.
abbrev pub Rests : ℕ → List Campaign → Type 0
Rests id cps = All (λ c. c.campaign_id ≡ id → c.is_running ≡ false) cps

abbrev pub Waiting : System → Type 0
Waiting st = All (λ id. Rests id st.services) st.messages

away_Rests : (id : ℕ) (cps : List Campaign) → All (λ c. campaign_key c ≢ id) cps → Rests id cps
away_Rests id cps h = All-imp cps (λ c n e. absurd (n e)) h

-- One campaign of a number is the only one.
Unique-Rests :
    (before : List Campaign) (c : Campaign) (after : List Campaign)
    → Unique campaign_key (before ++ c ∷ after)
    → c.is_running ≡ false
    → Rests c.campaign_id (before ++ c ∷ after)
Unique-Rests [] c after u off = ((λ e. off), away_Rests c.campaign_id after u.0)
Unique-Rests (x ∷ before) c after u off =
    let away = All-append_right (λ y. campaign_key y ≢ campaign_key x) before (c ∷ after) u.0 in
    ((λ e. absurd (away.0 (sym e))), Unique-Rests before c after u.1 off)

-- A campaign keeps its number, and goes on to rest if it did.
placed_Waiting :
    (ids : List ℕ) (cps before : List Campaign) (cp c : Campaign) (after : List Campaign)
    → cps ≡ before ++ cp ∷ after
    → c.campaign_id ≡ cp.campaign_id
    → (cp.is_running ≡ false → c.is_running ≡ false)
    → All (λ id. Rests id cps) ids
    → All (λ id. Rests id (before ++ c ∷ after)) ids
placed_Waiting ids cps before cp c after at same off v =
    All-imp ids (λ id h. placed-All _ cps before cp c after at (λ k e. off (k (sym same ∙ e))) h) v

-- A campaign of another number changes as it likes.
other_Waiting :
    (ids : List ℕ) (cps before : List Campaign) (cp c : Campaign) (after : List Campaign)
    → cps ≡ before ++ cp ∷ after
    → All (λ id. c.campaign_id ≢ id) ids
    → All (λ id. Rests id cps) ids
    → All (λ id. Rests id (before ++ c ∷ after)) ids
other_Waiting [] cps before cp c after at n v = tt
other_Waiting (id ∷ ids) cps before cp c after at n v = (
  placed-All _ cps before cp c after at (λ k e. absurd (n.0 e)) v.0,
  other_Waiting ids cps before cp c after at n.1 v.1,
)

pushed_Waiting :
    (st : System) (before : List Campaign) (cp c : Campaign) (after : List Campaign) (pushed : Bool)
    → (pushed ≡ true → c.is_running ≡ false)
    → Unique campaign_key (before ++ c ∷ after)
    → All (λ id. Rests id (before ++ c ∷ after)) st.messages
    → Waiting (pushes st before c pushed after)
pushed_Waiting st before cp c after true off u v =
    All-append _ st.messages (c.campaign_id ∷ []) v (Unique-Rests before c after u (off refl), tt)
pushed_Waiting st before cp c after false off u v = All-append _ st.messages [] v tt

module _ (list_sort : (Destination → Destination → Bool) → List Destination → List Destination)
    (s : Setup) where
  main-Waiting :
      {st st' : System} (step : System.Step list_sort s st st')
      → IsMain list_sort s step
      → All IsClocked st.services
      → Distinct st.messages
      → Waiting st
      → Waiting st'
  main-Waiting (pulls t q r e at) mine clocked once v = absurd mine
  main-Waiting (syncs at) mine clocked once v = absurd mine
  main-Waiting {st} (handles answers now id rest before cp after d sent at same e done) mine clocked
        once v =
      let kept =
        Step-Kept list_sort (setup_of s st) (dialer_of st cp) d (History.serves answers now e) in
      let named : d.cp.campaign_id ≡ id = ap (λ c. c.campaign_id) kept ∙ same in
      let others = (subst Distinct sent once).0 in
      let waiting = (subst (All (λ i. Rests i st.services)) sent v).1 in
      subst Waiting (sym done) (
        other_Waiting rest st.services before cp d.cp after at
          (All-imp rest (λ j n e. n (sym named ∙ e)) others) waiting)
  main-Waiting {st} (works before cp after d at step own done) mine clocked once v =
      let kept = Step-Kept list_sort (setup_of s st) (dialer_of st cp) d step in
      let clock =
        (All-append_right IsClocked before (cp ∷ after) (subst (All IsClocked) at clocked)).0 in
      subst Waiting (sym done) (
        placed_Waiting st.messages st.services before cp d.cp after at
          (ap (λ c. c.campaign_id) kept) (Step-Rests list_sort (setup_of s st) step own clock) v)

module _ (list_sort : (Destination → Destination → Bool) → List Destination → List Destination)
    (s : Setup) (t : Parsers) where
  pub Step-Waiting :
      {x y : Threads}
      → Step list_sort s t x y
      → IsSafe y.system
      → All IsClocked x.system.services
      → Heard x.system x.phase
      → Waiting x.system
      → Waiting y.system
  Step-Waiting (syncs at e) safe clocked h v = subst (λ z. Waiting z.system) (sym e) v
  Step-Waiting (asks answer at e) safe clocked h v = subst (λ z. Waiting z.system) (sym e) v
  Step-Waiting (loads_gateway r rows at e) safe clocked h v =
      subst (λ z. Waiting z.system) (sym e) v
  Step-Waiting (asks_again answer at e) safe clocked h v = subst (λ z. Waiting z.system) (sym e) v
  Step-Waiting {x} (loads_campaign r rows at e) safe clocked h v =
      let quiet = (subst (Heard x.system) at h).quiet in
      let cps = (load_campaign t r (services_of x.system)).services in
      subst (λ z. Waiting z.system) (sym e) (subst (All (λ id. Rests id cps)) (sym quiet) tt)
  Step-Waiting (looks at e) safe clocked h v = subst (λ z. Waiting z.system) (sym e) v
  Step-Waiting {x} (prepares q id left before cp after c pushed at has same done e) safe clocked h
        v =
      let (runs, off) = prepare_rests t q x.system.gateways cp c pushed done in
      let kept = (prepare_settings t q x.system.gateways cp c pushed done).0 in
      let safe' = subst (λ z. IsSafe z.system) e safe in
      subst (λ z. Waiting z.system) (sym e)
        (pushed_Waiting x.system before cp c after pushed (λ k. runs ∙ off k)
          safe'.loaded.campaigns_once
          (placed_Waiting x.system.messages x.system.services before cp c after has kept
            (λ k. runs ∙ k) v))
  Step-Waiting (sleeps at e) safe clocked h v = subst (λ z. Waiting z.system) (sym e) v
  Step-Waiting {x} (main st step mine e) safe clocked h v =
      subst (λ z. Waiting z.system) (sym e)
        (main-Waiting list_sort s step mine clocked
          (Distinct-append_left x.system.messages (left_of x.phase) h.once) v)
