-- ===== src/System/Threads/Dangling.antt =====
-- A campaign that src/main.c destroys while a message still names it.
use mathlib.Core.Path.{subst}
use autodialer_core.Base.{
  ℕ, ◌<◌, ◌≡◌, ◌≢◌, refl, ap, ◌∙◌, Bool, true, some, List, [], ◌∷◌, ◌++◌, All, All-append_right,
  ltb, u8, arith,
}
use autodialer_core.Structs.{Destination, Campaign}
use autodialer_core.Rows.{find_by, Parsers, CampaignRow, parse_int}
use autodialer_core.Config.{Services, set_campaign, keep_campaign, campaign_entry, load_campaign}
use autodialer_core.Config.Keys.{Unique, unlink_gone}
use autodialer_core.Config.Loading.{IsLoaded, campaign_key}
use autodialer_core.Dialer.Dial.{Setup}
use autodialer_core.System.{System, services_of, handles, works, pulls, syncs}
use autodialer_core.System
use autodialer_core.System.Threads.{campaigns, Threads, IsMain, Step, loads_campaign}

-- No campaign has this number.
abbrev pub Absent : ℕ → List Campaign → Type 0
Absent id cps = All (λ c. campaign_key c ≢ id) cps

keep_campaign-Absent :
    (t : Parsers) (r : CampaignRow) (st : Services) (cp : Campaign)
    → cp.processl ≡ []
    → 3 < u8 (parse_int t r.status)
    → Unique campaign_key st.services
    → Absent (parse_int t r.id) (keep_campaign t r st cp st.services).services
unfolding keep_campaign set_campaign
keep_campaign-Absent t r st cp idle over u =
    let over' : ltb 3 (u8 (parse_int t r.status)) ≡ true = ground arith in
    rw (over', idle) (unlink_gone campaign_key (parse_int t r.id) st.services u)

load_campaign-Absent :
    (t : Parsers) (r : CampaignRow) (st : Services) (cp : Campaign)
    → find_by campaign_key (parse_int t r.id) st.services ≡ some cp
    → cp.processl ≡ []
    → 3 < u8 (parse_int t r.status)
    → Unique campaign_key st.services
    → Absent (parse_int t r.id) (load_campaign t r st).services
unfolding load_campaign campaign_entry
load_campaign-Absent t r st cp found idle over u =
    rw found (keep_campaign-Absent t r st cp idle over u)

not_Absent :
    (id : ℕ) (before : List Campaign) (cp : Campaign) (after : List Campaign)
    → cp.campaign_id ≡ id
    → Absent id (before ++ cp ∷ after)
    → ⊥
not_Absent id before cp after e h =
    (All-append_right (λ c. campaign_key c ≢ id) before (cp ∷ after) h).0 e

module _ (list_sort : (Destination → Destination → Bool) → List Destination → List Destination)
    (s : Setup) where
  -- The main thread cannot take a message whose campaign is gone.
  main_stuck :
      {st st' : System} (id : ℕ) (rest : List ℕ) (step : System.Step list_sort s st st')
      → IsMain list_sort s step
      → st.messages ≡ id ∷ rest
      → Absent id st.services
      → st'.messages ≡ id ∷ rest
  main_stuck id rest (pulls t q r e at) mine sent gone = absurd mine
  main_stuck id rest (syncs at) mine sent gone = absurd mine
  main_stuck {st} id rest (handles answers now i more before cp after d first at same e done) mine
        sent gone =
      absurd (not_Absent id before cp after (same ∙ cc (first, sent)) (subst (Absent id) at gone))
  main_stuck id rest (works before cp after d at step own done) mine sent gone =
      ap (λ x. x.messages) done ∙ sent

  -- A row of the second loop with a status above 3, for a campaign of the list without calls whose
  -- message is the next that the main thread is to take: after the row no campaign has that number,
  -- the message is still the next one, and no step of the main thread takes it. No gateway and no
  -- campaign stands twice before, and the settings are in their bounds.
  pub loads_campaign_dangles :
      (t : Parsers) (x : Threads) (r : CampaignRow) (rows : List CampaignRow) (cp : Campaign)
      (rest : List ℕ)
      → x.phase ≡ campaigns (r ∷ rows)
      → x.system.messages ≡ parse_int t r.id ∷ rest
      → find_by campaign_key (parse_int t r.id) x.system.services ≡ some cp
      → cp.processl ≡ []
      → 3 < u8 (parse_int t r.status)
      → IsLoaded x.system.gateways x.system.services
      → (y : Threads) × Step list_sort s t x y
        × (y.system.messages ≡ parse_int t r.id ∷ rest)
        × Absent (parse_int t r.id) y.system.services
        × ((st : System) (step : System.Step list_sort s y.system st)
            → IsMain list_sort s step
            → st.messages ≡ parse_int t r.id ∷ rest)
  loads_campaign_dangles t x r rows cp rest at sent found idle over v =
      let gone =
        load_campaign-Absent t r (services_of x.system) cp found idle over v.campaigns_once in
      (
        _,
        loads_campaign r rows at refl,
        sent,
        gone,
        λ st step mine. main_stuck (parse_int t r.id) rest step mine sent gone,
      )
