-- ===== src/System/Settings.antt =====
-- The settings of the campaigns of src/main.c change with the database thread's rounds only.
use mathlib.Core.Path.{subst}
use autodialer_core.Base.{
  ◌≡◌, ◌≢◌, sym, ap, ◌∙◌, Bool, List, [], ◌∷◌, ◌++◌, All, All-append_left, All-append_right,
  All-append,
}
use autodialer_core.Structs.{Destination, Campaign}
use autodialer_core.Config.Keys.{Unique}
use autodialer_core.Config.Loading.{IsLoaded, IsConfigured, campaign_key}
use autodialer_core.Config.Preparing.{pull_groups-IsLoaded}
use autodialer_core.Dialer.Dial.{Setup}
use autodialer_core.Dialer.Campaigns.{Dialer}
use autodialer_core.Dialer.Campaigns.History
use autodialer_core.Dialer.Campaigns.Settings.{Kept, Step-Kept}
use autodialer_core.System.{
  System, services_of, dialer_of, setup_of, Step, pulls, syncs, handles, works, Reach, here, next,
}

-- An entry that keeps its number.
replaced-Unique :
    (before : List Campaign) (cp c : Campaign) (after : List Campaign)
    → c.campaign_id ≡ cp.campaign_id
    → Unique campaign_key (before ++ cp ∷ after)
    → Unique campaign_key (before ++ c ∷ after)
replaced-Unique [] cp c after e u = rw e u
replaced-Unique (x ∷ before) cp c after e u =
    let away = All-append_right (λ y. campaign_key y ≢ campaign_key x) before (cp ∷ after) u.0 in
    (
      All-append _ before (c ∷ after) (All-append_left _ before (cp ∷ after) u.0)
          ((λ k. away.0 (sym e ∙ k)), away.1),
      replaced-Unique before cp c after e u.1,
    )

-- A campaign that keeps its number, and its settings if they were sound.
pub placed-IsLoaded :
    (st : System) (before : List Campaign) (cp c : Campaign) (after : List Campaign)
    → st.services ≡ before ++ cp ∷ after
    → c.campaign_id ≡ cp.campaign_id
    → (IsConfigured cp → IsConfigured c)
    → IsLoaded st.gateways st.services
    → IsLoaded st.gateways (before ++ c ∷ after)
placed-IsLoaded st before cp c after at same sound v =
    let all = subst (All IsConfigured) at v.configured in
    let rest = All-append_right IsConfigured before (cp ∷ after) all in
    record {
      gateways_once = v.gateways_once;
      campaigns_once =
          replaced-Unique before cp c after same (subst (Unique campaign_key) at v.campaigns_once);
      configured =
          All-append IsConfigured before (c ∷ after)
            (All-append_left IsConfigured before (cp ∷ after) all) (sound rest.0, rest.1);
    }

turn-IsLoaded :
    (st : System) (before : List Campaign) (cp : Campaign) (after : List Campaign) (d : Dialer)
    → st.services ≡ before ++ cp ∷ after
    → Kept cp d.cp
    → IsLoaded st.gateways st.services
    → IsLoaded st.gateways (before ++ d.cp ∷ after)
turn-IsLoaded st before cp after d at kept v =
    placed-IsLoaded st before cp d.cp after at (ap (λ c. c.campaign_id) kept)
      (subst IsConfigured (sym kept)) v

module _ (list_sort : (Destination → Destination → Bool) → List Destination → List Destination)
    (s : Setup) where
  pub Step-IsLoaded :
      {st st' : System}
      → Step list_sort s st st'
      → IsLoaded st.gateways st.services
      → IsLoaded st'.gateways st'.services
  Step-IsLoaded {st} (pulls t q (sv, pushed) e at) v =
      subst (λ x. IsLoaded x.gateways x.services) (sym at)
        (pull_groups-IsLoaded t q (services_of st) sv pushed v e)
  Step-IsLoaded {st} (syncs at) v = subst (λ x. IsLoaded x.gateways x.services) (sym at) v
  Step-IsLoaded {st} (handles answers now id rest before cp after d sent at same e done) v =
      let kept =
        Step-Kept list_sort (setup_of s st) (dialer_of st cp) d (History.serves answers now e) in
      subst (λ x. IsLoaded x.gateways x.services) (sym done)
        (turn-IsLoaded st before cp after d at kept v)
  Step-IsLoaded {st} (works before cp after d at step own done) v =
      let kept = Step-Kept list_sort (setup_of s st) (dialer_of st cp) d step in
      subst (λ x. IsLoaded x.gateways x.services) (sym done)
        (turn-IsLoaded st before cp after d at kept v)

  -- Whatever the database answers, and in whatever order the rounds of the database thread, the
  -- messages, the timers and the events of the calls come: if no gateway and no campaign stands
  -- twice and each campaign has a call limit between 1 and 65535, at most ten minutes for a call
  -- and between 1 and 255 plays, that holds ever after.
  Reach-IsLoaded :
      {st st' : System}
      → IsLoaded st.gateways st.services
      → Reach list_sort s st st'
      → IsLoaded st'.gateways st'.services
  Reach-IsLoaded v here = v
  Reach-IsLoaded v (next r step) = Step-IsLoaded step (Reach-IsLoaded v r)
