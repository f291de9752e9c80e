-- ===== src/System/Threads/Timers.antt =====
-- The timers of the campaigns and their destinations in src/main.c, with the two threads
-- interleaved.
use mathlib.Core.Path.{subst}
use autodialer_core.Base.{
  ◌≡◌, sym, Bool, List, ◌∷◌, ◌++◌, All, All-append, All-append_left, All-append_right,
}
use autodialer_core.Structs.{Destination, Campaign}
use autodialer_core.Rows.{Parsers}
use autodialer_core.Config.Resting.{load_campaign-Clocked, prepare-IsClocked}
use autodialer_core.Dialer.Fill.Selection.{IsSort}
use autodialer_core.Dialer.Dial.{Setup}
use autodialer_core.Dialer.Campaigns.History
use autodialer_core.Dialer.Campaigns.Timers.{IsClocked, Step-IsClocked}
use autodialer_core.System.{System, services_of, dialer_of, setup_of, pulls, syncs, handles, works}
use autodialer_core.System
use autodialer_core.System.Threads.{
  Threads, IsMain, Step, syncs, asks, loads_gateway, asks_again, loads_campaign, looks, prepares,
  sleeps, main, Reach, here, next,
}

-- One campaign changes.
pub placed-All {κ} :
    (P : Campaign → Type κ) (cps before : List Campaign) (cp c : Campaign) (after : List Campaign)
    → cps ≡ before ++ cp ∷ after
    → (P cp → P c)
    → All P cps
    → All P (before ++ c ∷ after)
placed-All P cps before cp c after at f v =
    let all = subst (All P) at v in
    let rest = All-append_right P before (cp ∷ after) all in
    All-append P before (c ∷ after) (All-append_left P before (cp ∷ after) all) (f rest.0, rest.1)

module _ (list_sort : (Destination → Destination → Bool) → List Destination → List Destination)
    (s : Setup) where
  main-Clocked :
      {st st' : System} (step : System.Step list_sort s st st')
      → IsMain list_sort s step
      → IsSort list_sort
      → All IsClocked st.services
      → All IsClocked st'.services
  main-Clocked (pulls t q r e at) mine law v = absurd mine
  main-Clocked (syncs at) mine law v = absurd mine
  main-Clocked {st} (handles answers now id rest before cp after d sent at same e done) mine law v =
      subst (λ x. All IsClocked x.services) (sym done)
        (placed-All IsClocked st.services before cp d.cp after at
          (Step-IsClocked list_sort (setup_of s st) {st = dialer_of st cp} {st' = d} law
            (History.serves answers now e))
          v)
  main-Clocked {st} (works before cp after d at step own done) mine law v =
      subst (λ x. All IsClocked x.services) (sym done)
        (placed-All IsClocked st.services before cp d.cp after at
          (Step-IsClocked list_sort (setup_of s st) law step) v)

module _ (list_sort : (Destination → Destination → Bool) → List Destination → List Destination)
    (s : Setup) (t : Parsers) where
  Step-Clocked :
      {x y : Threads}
      → IsSort list_sort
      → Step list_sort s t x y
      → All IsClocked x.system.services
      → All IsClocked y.system.services
  Step-Clocked law (syncs at e) v = subst (λ z. All IsClocked z.system.services) (sym e) v
  Step-Clocked law (asks answer at e) v = subst (λ z. All IsClocked z.system.services) (sym e) v
  Step-Clocked law (loads_gateway r rows at e) v =
      subst (λ z. All IsClocked z.system.services) (sym e) v
  Step-Clocked law (asks_again answer at e) v =
      subst (λ z. All IsClocked z.system.services) (sym e) v
  Step-Clocked {x} law (loads_campaign r rows at e) v =
      subst (λ z. All IsClocked z.system.services) (sym e)
        (load_campaign-Clocked t r (services_of x.system) v)
  Step-Clocked law (looks at e) v = subst (λ z. All IsClocked z.system.services) (sym e) v
  Step-Clocked {x} law (prepares q id left before cp after c pushed at has same done e) v =
      subst (λ z. All IsClocked z.system.services) (sym e)
        (placed-All IsClocked x.system.services before cp c after has
          (λ w. prepare-IsClocked t q x.system.gateways cp c pushed w done) v)
  Step-Clocked law (sleeps at e) v = subst (λ z. All IsClocked z.system.services) (sym e) v
  Step-Clocked law (main st step mine e) v =
      subst (λ z. All IsClocked z.system.services) (sym e)
        (main-Clocked list_sort s step mine law v)

  -- Whatever the database answers, and wherever between two rows of a round the messages, the
  -- timers and the events of the calls come: if every campaign's timer runs exactly while the
  -- campaign runs, and every destination's exactly while it has a call, that holds ever after. A
  -- message for a campaign whose timer runs already is a fault, and in none of these histories.
  -- `list_sort` is taken to sort.
  pub Reach-Clocked :
      {x y : Threads}
      → IsSort list_sort
      → All IsClocked x.system.services
      → Reach list_sort s t x y
      → All IsClocked y.system.services
  Reach-Clocked law v here = v
  Reach-Clocked law v (next r step) = Step-Clocked law step (Reach-Clocked law v r)
