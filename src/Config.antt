-- ===== src/Config.antt =====
-- pull_groups of src/main.c: the database thread loads gateways, campaigns, their destinations and
-- actions, and hands campaigns that do not run to the main thread. The rows of the queries are
-- arguments, and so is what libre reads from texts.
pub mod Keys
pub mod Loading
pub mod Actions
pub mod Sparing
pub mod Ending
pub mod Preparing
pub mod Resting
use autodialer_core.Base.{
  ℕ, zero, suc, ◌+◌, ◌*◌, Bool, true, false, not, ◌&&◌, Option, none, some, List, [], ◌∷◌, ◌++◌,
  Text, u8, u16, ltb, leb, ◌==◌, is_empty, take, drop, if◌then◌else◌, ◌>>=◌,
}
use autodialer_core.Rtp.{Rtp}
use autodialer_core.Structs.{Uri, Gateway, CampaignAction, Destination, Campaign, Libre, codes}
use autodialer_core.Call.Release.{deref_call}
use autodialer_core.Rows.{
  find_by, put, unlink, Parsers, GatewayRow, CampaignRow, CallRow, ActionRow, parse_int, text,
  has_text, differs, gateway_uri,
}

abbrev no_uri : Uri
no_uri = record { user = []; password = []; host = []; port = 0; params = [] }

-- The gateway of a row, and the list that holds it: a new one is made if none was found.
abbrev pub gateway_entry : ℕ → List Gateway → Option Gateway → Gateway × List Gateway
gateway_entry id gs none =
    let fresh : Gateway = record { gateway_id = id; uri_str = none; sip_uri = no_uri } in
    (fresh, gs ++ fresh ∷ [])
gateway_entry id gs (some g) = (g, gs)

-- A gateway whose URI changed; one whose URI cannot be read is destroyed.
unfoldable pub set_gateway : Parsers → GatewayRow → Gateway × List Gateway → List Gateway
unfolding differs
set_gateway t r (g, all) =
    let uri = gateway_uri t r in
    if differs t (some uri) g.uri_str
    then elim (t.uri_decode uri) [
      | none ↦ unlink (λ h. h.gateway_id) g.gateway_id all
      | some u ↦
          put (λ h. h.gateway_id)
            (record { gateway_id = g.gateway_id; uri_str = some uri; sip_uri = u }) all
    ]
    else all

-- One row of the first loop.
unfoldable pub load_gateway : Parsers → GatewayRow → List Gateway → List Gateway
load_gateway t r gs =
    let id = parse_int t r.id in
    set_gateway t r (gateway_entry id gs (find_by (λ g. g.gateway_id) id gs))

-- A pointer to the gateway of a number.
abbrev gateway_ref : List Gateway → ℕ → Option ℕ
gateway_ref gs id = elim (find_by (λ h. h.gateway_id) id gs) [
  | none ↦ none
  | some g ↦ some g.gateway_id
]

-- The settings of a row. The tests for negative numbers never hold, since the fields are unsigned.
unfoldable pub set_campaign : Parsers → List Gateway → CampaignRow → Campaign → Campaign
unfolding differs parse_int
set_campaign t gs r cp =
    let limit = u16 (parse_int t r.frequency) in
    let duration = u16 (parse_int t r.max_call_duration) in
    let plays = u8 (parse_int t r.play_count) in
    record cp {
      campaign_id = parse_int t r.id;
      client_id = parse_int t r.client_id;
      call_limit = if limit == 0 then 2 else limit;
      max_call_duration = if leb 600 duration then 600 else duration;
      caller_id =
          if has_text r.caller_id && differs t r.caller_id cp.caller_id
          then r.caller_id
          else cp.caller_id;
      file_name =
          if has_text r.filename
          then (if differs t r.filename cp.file_name then r.filename else cp.file_name)
          else none;
      campaign_status = u8 (parse_int t r.status);
      retry_delay = u16 (parse_int t r.retries_time * 60);
      max_try = u8 (parse_int t r.max_call_retry);
      max_play = if leb plays 0 then 1 else plays;
      gateway = gateway_ref gs (parse_int t r.gateway_id);
      pbx_gateway = gateway_ref gs (parse_int t r.pbx_gateway_id);
      pbx_number = if differs t r.pbx_number cp.pbx_number then r.pbx_number else cp.pbx_number;
    }

-- A campaign as `mem_zalloc` leaves it.
abbrev pub new_campaign : ℕ → Campaign
new_campaign id = record {
  campaign_id = id;
  client_id = 0;
  campaign_status = 0;
  gateway = none;
  pbx_gateway = none;
  pbx_number = none;
  caller_id = none;
  file_name = none;
  call_limit = 0;
  retry_delay = 0;
  max_call_duration = 0;
  max_try = 0;
  is_running = false;
  max_play = 0;
  destinations = [];
  processl = [];
  tmr = false;
  actions = [];
}

-- `list_flush` of destinations: each is destroyed with its call.
unfoldable pub flush : List Destination → Rtp → Rtp
flush [] p = p
flush (d ∷ ds) p = flush ds (deref_call d.call p)

unfoldable pub campaign_destructor : Campaign → Rtp → Rtp
unfolding flush
campaign_destructor cp p = flush cp.processl (flush cp.destinations p)

-- The lists that the database thread shares with the main thread.
pub record Services : Type 0 where
  pub gateways : List Gateway
  pub services : List Campaign
  pub rtp : Rtp

-- A campaign that is over and has no call any more is destroyed. `all` is the list that holds it.
unfoldable pub keep_campaign :
    Parsers → CampaignRow → Services → Campaign → List Campaign → Services
keep_campaign t r st c all =
    let cp = set_campaign t st.gateways r c in
    if ltb 3 cp.campaign_status && is_empty cp.processl
    then record st {
      services = unlink (λ h. h.campaign_id) cp.campaign_id all;
      rtp = campaign_destructor cp st.rtp;
    }
    else record st { services = put (λ h. h.campaign_id) cp all }

-- A new campaign is made only if it is to run.
unfoldable pub campaign_entry : Parsers → CampaignRow → Services → Option Campaign → Services
campaign_entry t r st (some c) = keep_campaign t r st c st.services
campaign_entry t r st none =
    let fresh = new_campaign (parse_int t r.id) in
    if parse_int t r.status == 2 then keep_campaign t r st fresh (st.services ++ fresh ∷ []) else st

-- One row of the second loop.
unfoldable pub load_campaign : Parsers → CampaignRow → Services → Services
load_campaign t r st =
    campaign_entry t r st (find_by (λ c. c.campaign_id) (parse_int t r.id) st.services)

-- A destination of the third loop.
abbrev pub new_destination : Parsers → CallRow → Destination
new_destination t r = record {
  dest_id = parse_int t r.id;
  dest = text r.contact_number;
  last_try = 0;
  call = none;
  try_count = 0;
  tmr = false;
}

-- An action of type 0 names a gateway and a number, with a comma in between.
unfoldable pub load_action : Parsers → List Gateway → ActionRow → CampaignAction
load_action t gs r =
    let key = u8 (parse_int t r.key_press) in
    let kind = u8 (parse_int t r.action) in
    let plain : CampaignAction = record {
      action_key = key;
      action_type = kind;
      gateway = none;
      dest = none;
    } in
    if kind == 0
    then elim (t.pl_strchr (text r.action_data) b',') [
      | none ↦ plain
      | some p ↦ record plain {
        gateway = gateway_ref gs (t.lib.pl_u32 (take p (text r.action_data)));
        dest = some (drop (suc p) (text r.action_data));
      }
    ]
    else plain

abbrev pub map_rows {ℓ κ} : {A : Type ℓ} {B : Type κ} → (A → B) → List A → List B
map_rows f [] = []
map_rows f (x ∷ xs) = f x ∷ map_rows f xs

-- What the queries answer, each none on an error.
pub record Answered : Type 0 where
  pub gateway_rows : Option (List GatewayRow)
  pub campaign_rows : Option (List CampaignRow)
  pub calls : ℕ → Option (List CallRow)
  pub actions : ℕ → Option (List ActionRow)

-- The actions are read whether the query failed or not: `none` is a read through its null pointer.
load_actions : Parsers → Answered → List Gateway → Campaign → Option Campaign
load_actions t q gs cp = q.actions cp.campaign_id >>= λ rows.
    some (record cp { actions = map_rows (load_action t gs) rows })

-- One campaign of the third loop, and whether it is pushed to the main thread.
unfoldable pub prepare : Parsers → Answered → List Gateway → Campaign → Option (Campaign × Bool)
unfolding load_actions
prepare t q gs cp =
    if cp.is_running
    then some (cp, false)
    else if is_empty cp.destinations
    then elim (q.calls cp.campaign_id) [
      | none ↦ some (cp, false)
      | some rows ↦
          load_actions t q gs (record cp { destinations = map_rows (new_destination t) rows })
          >>= λ c. some (c, true)
    ]
    else load_actions t q gs cp >>= λ c. some (c, true)

-- The third loop: the campaigns, and the numbers of those that `mqueue_push` sends.
unfoldable pub prepare_all :
    Parsers → Answered → List Gateway → List Campaign → Option (List Campaign × List ℕ)
prepare_all t q gs [] = some ([], [])
prepare_all t q gs (cp ∷ cps) = prepare t q gs cp >>= λ (c, pushed).
    prepare_all t q gs cps >>= λ (cs, more).
    some (c ∷ cs, if pushed then c.campaign_id ∷ more else more)

unfoldable pub load_gateways : Parsers → List GatewayRow → List Gateway → List Gateway
load_gateways t [] gs = gs
load_gateways t (r ∷ rs) gs = load_gateways t rs (load_gateway t r gs)

unfoldable pub load_campaigns : Parsers → List CampaignRow → Services → Services
load_campaigns t [] st = st
load_campaigns t (r ∷ rs) st = load_campaigns t rs (load_campaign t r st)

-- A failed query for gateways or campaigns ends the round.
unfoldable pub pull_groups : Parsers → Answered → Services → Option (Services × List ℕ)
pull_groups t q st = elim q.gateway_rows [
  | none ↦ some (st, [])
  | some grows ↦
      let st1 : Services = record st { gateways = load_gateways t grows st.gateways } in
      elim q.campaign_rows [
        | none ↦ some (st1, [])
        | some crows ↦
            let st2 = load_campaigns t crows st1 in
            prepare_all t q st2.gateways st2.services >>= λ (cps, pushed).
            some (record st2 { services = cps }, pushed)
      ]
]
