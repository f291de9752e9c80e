-- ===== src/Config/Resting.antt =====
-- pull_groups of src/main.c leaves the timers of campaigns and destinations alone.
use mathlib.Core.Path.{subst}
use autodialer_core.Base.{
  ℕ, ◌≡◌, refl, sym, ◌∙◌, Bool, true, false, ◌&&◌, inl, inr, ◌⊎◌, Bool-cases, Option, Option-cases,
  none, some, List, [], ◌∷◌, ◌++◌, All, All-append, ltb, is_empty, ◌==◌, arith,
}
use autodialer_core.Structs.{Gateway, Campaign}
use autodialer_core.Rows.{find_by, Parsers, CampaignRow, CallRow, parse_int}
use autodialer_core.Config.{
  Answered, Services, set_campaign, new_campaign, new_destination, map_rows, keep_campaign,
  campaign_entry, load_campaign, prepare,
}
use autodialer_core.Config.Keys.{find_by-some, put-All, unlink-All}
use autodialer_core.Config.Loading.{campaign_key}
use autodialer_core.Dialer.Supervise.Timers.{Clocked}
use autodialer_core.Dialer.Campaigns.Timers.{IsClocked}

-- What every new campaign has, and the settings of a row do not change, holds after a row.
module _ (P : Campaign → Type 0) (t : Parsers)
    (set : (gs : List Gateway) (r : CampaignRow) (cp : Campaign)
      → P cp
      → P (set_campaign t gs r cp))
    (fresh : (id : ℕ) → P (new_campaign id)) where
  keep_campaign-All :
      (r : CampaignRow) (st : Services) (c : Campaign) (all : List Campaign)
      → P c
      → All P all
      → All P (keep_campaign t r st c all).services
  unfolding keep_campaign
  keep_campaign-All r st c all h v =
      let cp = set_campaign t st.gateways r c in
      elim (Bool-cases (ltb 3 cp.campaign_status && is_empty cp.processl)) [
        | inl over ↦ rw over (unlink-All campaign_key P cp.campaign_id all v)
        | inr goes_on ↦ rw goes_on (put-All campaign_key P cp all (set st.gateways r c h) v)
      ]

  campaign_entry-All :
      (r : CampaignRow) (st : Services) (found : Option Campaign)
      → find_by campaign_key (parse_int t r.id) st.services ≡ found
      → All P st.services
      → All P (campaign_entry t r st found).services
  unfolding campaign_entry
  campaign_entry-All r st (some c) e v =
      keep_campaign-All r st c st.services
        (find_by-some campaign_key P (parse_int t r.id) st.services c e v).0 v
  campaign_entry-All r st none e v = elim (Bool-cases (parse_int t r.status == 2)) [
    | inl runs ↦
        let c = new_campaign (parse_int t r.id) in
        rw runs (
          keep_campaign-All r st c (st.services ++ c ∷ []) (fresh (parse_int t r.id))
            (All-append P st.services (c ∷ []) v (fresh (parse_int t r.id), tt)))
    | inr other ↦ rw other v
  ]

  load_campaign-All :
      (r : CampaignRow) (st : Services) → All P st.services → All P (load_campaign t r st).services
  unfolding load_campaign
  load_campaign-All r st v = campaign_entry-All r st _ refl v

set_campaign-IsClocked :
    (t : Parsers) (gs : List Gateway) (r : CampaignRow) (cp : Campaign)
    → IsClocked cp
    → IsClocked (set_campaign t gs r cp)
unfolding set_campaign
set_campaign-IsClocked t gs r cp v = record {
  campaign = v.campaign;
  waiting = v.waiting;
  processed = v.processed;
}

pub load_campaign-Clocked :
    (t : Parsers) (r : CampaignRow) (st : Services)
    → All IsClocked st.services
    → All IsClocked (load_campaign t r st).services
load_campaign-Clocked t =
    load_campaign-All IsClocked t (set_campaign-IsClocked t)
      (λ id. record { campaign = refl; waiting = tt; processed = tt })

new_destinations-Clocked :
    (t : Parsers) (rs : List CallRow) → All Clocked (map_rows (new_destination t) rs)
new_destinations-Clocked t [] = tt
new_destinations-Clocked t (r ∷ rs) = (refl, new_destinations-Clocked t rs)

-- A campaign that is pushed does not run, and nothing of a campaign is started or stopped.
pub prepare_rests :
    (t : Parsers) (q : Answered) (gs : List Gateway) (cp c : Campaign) (pushed : Bool)
    → prepare t q gs cp ≡ some (c, pushed)
    → (c.is_running ≡ cp.is_running) × (pushed ≡ true → cp.is_running ≡ false)
unfolding prepare
prepare_rests t q gs cp c pushed e = ground arith

prepare_keeps :
    (t : Parsers) (q : Answered) (gs : List Gateway) (cp c : Campaign) (pushed : Bool)
    → prepare t q gs cp ≡ some (c, pushed)
    → (c.tmr ≡ cp.tmr) × (c.processl ≡ cp.processl)
unfolding prepare
prepare_keeps t q gs cp c pushed e = ground arith

-- The destinations stay, or are read.
prepare_destinations :
    (t : Parsers) (q : Answered) (gs : List Gateway) (cp c : Campaign) (pushed : Bool)
    → prepare t q gs cp ≡ some (c, pushed)
    → (c.destinations ≡ cp.destinations)
      ⊎ ((rs : List CallRow) × (c.destinations ≡ map_rows (new_destination t) rs))
unfolding prepare
prepare_destinations t q gs cp c pushed e = elim (Bool-cases cp.is_running) [
  | inl runs ↦ inl (ground (arith, e, runs))
  | inr rests ↦ elim (Bool-cases (is_empty cp.destinations)) [
    | inr some_left ↦ inl (ground (arith, e, rests, some_left))
    | inl none_left ↦ elim (Option-cases (q.calls cp.campaign_id)) [
      | inl failed ↦ inl (ground (arith, e, rests, none_left, failed))
      | inr (rs, found) ↦ inr (rs, ground (arith, e, rests, none_left, found))
    ]
  ]
]

pub prepare-IsClocked :
    (t : Parsers) (q : Answered) (gs : List Gateway) (cp c : Campaign) (pushed : Bool)
    → IsClocked cp
    → prepare t q gs cp ≡ some (c, pushed)
    → IsClocked c
prepare-IsClocked t q gs cp c pushed v e =
    let (tmr, processl) = prepare_keeps t q gs cp c pushed e in
    record {
      campaign = tmr ∙ (v.campaign ∙ sym (prepare_rests t q gs cp c pushed e).0);
      waiting = elim (prepare_destinations t q gs cp c pushed e) [
        | inl same ↦ subst (All Clocked) (sym same) v.waiting
        | inr (rs, read) ↦ subst (All Clocked) (sym read) (new_destinations-Clocked t rs)
      ];
      processed = subst (All Clocked) (sym processl) v.processed;
    }
