-- ===== src/Config/Loading.antt =====
-- What pull_groups of src/main.c loads.
use autodialer_core.Base.{
  ℕ, ◌≤◌, ◌<◌, ◌≡◌, ◌≢◌, refl, ◌&&◌, inl, inr, Bool-cases, Option, Option-cases, none, some, List,
  [], ◌∷◌, ◌++◌, All, All-append, ltb, is_empty, ◌==◌, arith,
}
use autodialer_core.Structs.{Gateway, Campaign}
use autodialer_core.Rows.{
  find_by, Parsers, GatewayRow, CampaignRow, parse_int, gateway_uri, differs,
}
use autodialer_core.Config.{
  gateway_entry, set_gateway, load_gateway, campaign_entry, set_campaign, new_campaign, Services,
  keep_campaign, load_campaign, load_gateways, load_campaigns,
}
use autodialer_core.Config.Keys.{
  Unique, find_by-none, Unique-snoc, put-All, put-Unique, unlink-All, unlink-Unique, put-snoc,
  unlink-snoc,
}

abbrev pub gateway_key : Gateway → ℕ
gateway_key g = g.gateway_id

abbrev pub campaign_key : Campaign → ℕ
campaign_key c = c.campaign_id

-- Settings that the handlers can work with.
abbrev pub IsConfigured : Campaign → Type 0
IsConfigured cp =
    (0 < cp.call_limit)
    × (cp.call_limit < 65536)
    × (cp.max_call_duration ≤ 600)
    × (0 < cp.max_play)
    × (cp.max_play ≤ 255)
    × (cp.max_try ≤ 255)
    × (cp.campaign_status ≤ 255)

-- No gateway and no campaign stands twice, and every campaign has its settings.
pub record IsLoaded (gs : List Gateway) (cps : List Campaign) : Type 0 where
  pub gateways_once : Unique gateway_key gs
  pub campaigns_once : Unique campaign_key cps
  pub configured : All IsConfigured cps

set_campaign-IsConfigured :
    (t : Parsers) (gs : List Gateway) (r : CampaignRow) (cp : Campaign)
    → IsConfigured (set_campaign t gs r cp)
unfolding set_campaign
set_campaign-IsConfigured t gs r cp = (
  ground arith,
  ground arith,
  ground arith,
  ground arith,
  ground arith,
  ground arith,
  ground arith,
)

gateway_entry-Unique :
    (id : ℕ) (gs : List Gateway) (found : Option Gateway)
    → find_by gateway_key id gs ≡ found
    → Unique gateway_key gs
    → Unique gateway_key (gateway_entry id gs found).1
gateway_entry-Unique id gs none e u =
    Unique-snoc gateway_key _ gs u (find_by-none gateway_key id gs e)
gateway_entry-Unique id gs (some g) e u = u

set_gateway-Unique :
    (t : Parsers) (r : GatewayRow) (g : Gateway) (all : List Gateway)
    → Unique gateway_key all
    → Unique gateway_key (set_gateway t r (g, all))
unfolding set_gateway
set_gateway-Unique t r g all u = elim (Bool-cases (differs t (some (gateway_uri t r)) g.uri_str)) [
  | inr same ↦ rw same u
  | inl new ↦ elim (Option-cases (t.uri_decode (gateway_uri t r))) [
    | inl bad ↦ rw (new, bad) (unlink-Unique gateway_key g.gateway_id all u)
    | inr (uri, good) ↦ rw (new, good) (put-Unique gateway_key _ all u)
  ]
]

pub load_gateways-Unique :
    (t : Parsers) (rs : List GatewayRow) (gs : List Gateway)
    → Unique gateway_key gs
    → Unique gateway_key (load_gateways t rs gs)
unfolding load_gateways load_gateway
load_gateways-Unique t [] gs u = u
load_gateways-Unique t (r ∷ rs) gs u =
    let id = parse_int t r.id in
    let (g, all) = gateway_entry id gs (find_by gateway_key id gs) in
    load_gateways-Unique t rs _ (set_gateway-Unique t r g all (gateway_entry-Unique id gs _ refl u))

abbrev pub Loaded : Services → Type 0
Loaded st = IsLoaded st.gateways st.services

keep_campaign-Loaded :
    (t : Parsers) (r : CampaignRow) (st : Services) (c : Campaign)
    → Loaded st
    → Loaded (keep_campaign t r st c st.services)
unfolding keep_campaign
keep_campaign-Loaded t r st c v =
    let cp = set_campaign t st.gateways r c in
    elim (Bool-cases (ltb 3 cp.campaign_status && is_empty cp.processl)) [
      | inl over ↦ rw over (record {
        gateways_once = v.gateways_once;
        campaigns_once = unlink-Unique campaign_key cp.campaign_id st.services v.campaigns_once;
        configured = unlink-All campaign_key IsConfigured cp.campaign_id st.services v.configured;
      })
      | inr goes_on ↦ rw goes_on (record {
        gateways_once = v.gateways_once;
        campaigns_once = put-Unique campaign_key cp st.services v.campaigns_once;
        configured =
            put-All campaign_key IsConfigured cp st.services
              (set_campaign-IsConfigured t st.gateways r c) v.configured;
      })
    ]

keep_campaign-Loaded_new :
    (t : Parsers) (r : CampaignRow) (st : Services)
    → let id = parse_int t r.id in
      All (λ c. c.campaign_id ≢ id) st.services
      → Loaded st
      → Loaded (keep_campaign t r st (new_campaign id) (st.services ++ new_campaign id ∷ []))
unfolding keep_campaign set_campaign parse_int
keep_campaign-Loaded_new t r st h v =
    let c = new_campaign (parse_int t r.id) in
    let cp = set_campaign t st.gateways r c in
    elim (Bool-cases (ltb 3 cp.campaign_status && is_empty cp.processl)) [
      | inl over ↦ rw (over, unlink-snoc campaign_key cp.campaign_id c st.services h refl) v
      | inr goes_on ↦
          rw (goes_on, put-snoc campaign_key cp c st.services h refl)
            (record {
              gateways_once = v.gateways_once;
              campaigns_once = Unique-snoc campaign_key cp st.services v.campaigns_once h;
              configured =
                  All-append IsConfigured st.services (cp ∷ []) v.configured
                    (set_campaign-IsConfigured t st.gateways r c, tt);
            })
    ]

campaign_entry-Loaded :
    (t : Parsers) (r : CampaignRow) (st : Services) (found : Option Campaign)
    → find_by campaign_key (parse_int t r.id) st.services ≡ found
    → Loaded st
    → Loaded (campaign_entry t r st found)
unfolding campaign_entry
campaign_entry-Loaded t r st (some c) e v = keep_campaign-Loaded t r st c v
campaign_entry-Loaded t r st none e v = elim (Bool-cases (parse_int t r.status == 2)) [
  | inl runs ↦ rw runs (
      keep_campaign-Loaded_new t r st (find_by-none campaign_key (parse_int t r.id) st.services e)
        v)
  | inr other ↦ rw other v
]

load_campaign-Loaded :
    (t : Parsers) (r : CampaignRow) (st : Services) → Loaded st → Loaded (load_campaign t r st)
unfolding load_campaign
load_campaign-Loaded t r st v = campaign_entry-Loaded t r st _ refl v

pub load_campaigns-Loaded :
    (t : Parsers) (rs : List CampaignRow) (st : Services)
    → Loaded st
    → Loaded (load_campaigns t rs st)
unfolding load_campaigns
load_campaigns-Loaded t [] st v = v
load_campaigns-Loaded t (r ∷ rs) st v =
    load_campaigns-Loaded t rs (load_campaign t r st) (load_campaign-Loaded t r st v)
