-- ===== src/Samples/Loading.antt =====
-- The loading of campaigns on small inputs.
use autodialer_core.Base.{ℕ, ◌≡◌, refl, ◌%◌, true, false, none, some, List, [], ◌∷◌, Text}
use autodialer_core.Structs.{Campaign, codes}
use autodialer_core.Rows.{
  find_by, put, unlink, Parsers, GatewayRow, CampaignRow, parse_int, differs, gateway_uri,
}
use autodialer_core.Config.{
  Answered, Services, set_gateway, load_gateway, set_campaign, keep_campaign, campaign_entry,
  load_campaign, load_action, prepare, prepare_all, load_gateways, load_campaigns, pull_groups,
  campaign_destructor,
}
use autodialer_core.Config.Preparing.{AllPrepared, prepare_all-AllPrepared}
use autodialer_core.Samples.{half_used, libre, trunk, campaign}

unfoldable pub loading : Unit {0}
unfolding find_by put unlink parse_int differs gateway_uri set_gateway load_gateway set_campaign
    keep_campaign campaign_entry load_campaign load_action prepare prepare_all load_gateways
    load_campaigns pull_groups campaign_destructor
loading = tt

-- A text of one digit is that number.
abbrev digit_of : Text → ℕ
digit_of [] = 0
digit_of (c ∷ cs) = c % 16

abbrev pub parsers : Parsers
parsers = record {
  lib = record libre { pl_u32 = digit_of };
  str_casecmp = λ a b. true;
  uri_decode = λ u. some trunk.sip_uri;
  pl_strchr = λ s c. none;
  re_snprintf = λ s. s;
}

abbrev pub gateway_row : GatewayRow
gateway_row = record {
  id = some (codes "4");
  ip = some (codes "gw");
  port = some (codes "5060");
  user = some (codes "ann");
  password = none;
  prefix = none;
  codec = none;
}

-- A new campaign at status 2.
abbrev pub campaign_row : CampaignRow
campaign_row = record {
  id = some (codes "9");
  client_id = none;
  frequency = none;
  max_call_duration = none;
  caller_id = none;
  filename = some (codes "hi.wav");
  status = some (codes "2");
  retries_time = some (codes "1");
  max_call_retry = some (codes "3");
  play_count = none;
  gateway_id = some (codes "4");
  pbx_gateway_id = none;
  pbx_number = none;
}

abbrev pub answers : Answered
answers = record {
  gateway_rows = some (gateway_row ∷ []);
  campaign_rows = some (campaign_row ∷ []);
  calls = λ id. some (record { id = some (codes "1"); contact_number = some (codes "100") } ∷ []);
  actions = λ id.
      some (
        record { key_press = some (codes "1"); action = some (codes "1"); action_data = none }
        ∷ []);
}

abbrev pub nothing : Services
nothing = record { gateways = []; services = []; rtp = half_used }

abbrev pub pulled : Services × List ℕ
pulled = elim (pull_groups parsers answers nothing) [ none ↦ (nothing, []) | some r ↦ r ]

-- One campaign runs, and one waits.
abbrev two : List Campaign
two = campaign ∷ record campaign { campaign_id = 9; is_running = false } ∷ []

prepare_all-AllPrepared_example :
    (cs : List Campaign) × (prepare_all parsers answers (trunk ∷ []) two ≡ some (cs, 9 ∷ []))
    × AllPrepared parsers answers (trunk ∷ []) two cs
prepare_all-AllPrepared_example =
    prepare_all-AllPrepared parsers answers (trunk ∷ []) two (λ id. (refl, refl))
