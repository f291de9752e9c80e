-- ===== src/Samples.antt =====
-- Small inputs: a pool of two sessions, a campaign with two destinations, and answers of libre.
mod Pool
mod Calls
mod Dialling
mod Supervising
mod Queue
mod Playing
mod Loading
mod Incoming
mod Whole
mod Interleaved
mod Starting
use autodialer_core.Base.{
  ℕ, Bool, true, false, Option, none, some, List, [], ◌∷◌, ◌==◌, refl, arith,
}
use autodialer_core.Rtp.{
  Sa, RtpSession, Rtp, fresh_session, find_idle, find_rtp_session, release_rtp_session,
  candidate_port, udp_range_listen, allocate_one, rtp_session_allocate,
}
use autodialer_core.Rtp.Pool.{IsPool, busy}
use autodialer_core.Structs.{
  Uri, Gateway, gateway_at, CampaignAction, CallStatus, connecting, Sdp, Leg, Call, Destination,
  Campaign, Libre, codes,
}
use autodialer_core.Call.Release.{release_opt, call_destructor}
use autodialer_core.Call.Alloc.{
  Answers, sdp_sess_alloc, call_alloc, offered_format, payload_type, remote_uri, new_leg,
}
use autodialer_core.Call.Events.{
  establish_handler, update_call_status, rtp_recv_handler, find_campaign_action, link,
}
use autodialer_core.Dialer.Fill.{destination_sort_handler, too_early, fill, fill_processl}
use autodialer_core.Dialer.Dial.{Setup, base_name, dial_dest, dial}
use autodialer_core.Dialer.Supervise.{hang_up, supervise, finish_row, settle, on_call_end}
use autodialer_core.Dialer.Campaigns.{Dialer, start_fake_calling, call_timer}
use autodialer_core.Db.{db_reconnect, db_exec, db_sync}
use autodialer_core.Media.{codec_of, send_frame, play_frames, one_round, rtp_thread}

-- What a run unfolds.
unfoldable pub program : Unit {0}
unfolding find_idle find_rtp_session release_rtp_session candidate_port udp_range_listen
    allocate_one rtp_session_allocate gateway_at release_opt call_destructor offered_format
    payload_type remote_uri sdp_sess_alloc call_alloc establish_handler update_call_status link
    rtp_recv_handler find_campaign_action destination_sort_handler too_early fill fill_processl
    base_name dial_dest dial hang_up supervise finish_row settle on_call_end start_fake_calling
    call_timer db_reconnect db_exec db_sync codec_of send_frame play_frames one_round rtp_thread
program = tt

abbrev pub localhost : Sa
localhost = record { host = 1; port = 9000 }

-- Session 0 is in use, and session 1 is free.
abbrev pub half_used : Rtp
half_used = record {
  sessions = λ i. record (fresh_session localhost) { rs = true; in_use = i == 0 };
  total = 2;
  rtp_sessions = 1 ∷ [];
}

pub half_used-IsPool : IsPool half_used
unfolding busy
half_used-IsPool = record {
  idle = (refl, tt);
  stored = (omega arith, tt);
  distinct = (tt, tt);
  counted = refl;
}

abbrev pub libre : Libre
libre = record {
  uri_param_get = λ params name. none;
  pl_u32 = λ t. 0;
  fmt_d = λ n. codes "5060";
  fmt_sa = λ a. codes "10.0.0.1:9000";
}

abbrev pub fine : Answers
fine = record {
  zalloc = true;
  sdp_session_alloc = 0;
  sdp_media_add = 0;
  sdp_format_add = 0;
  telephone_event_add = 0;
  sdp_encode = 0;
  sipsess_connect = 0;
  rtp_alloc = 0;
  rand = 77;
}

-- `sdp_media_add` fails.
abbrev pub no_media : Answers
no_media = record fine { sdp_media_add = 12 }

abbrev pub trunk : Gateway
trunk = record {
  gateway_id = 4;
  uri_str = none;
  sip_uri = record {
    user = codes "ann";
    password = codes "pw";
    host = codes "gw";
    port = 5060;
    params = [];
  };
}

abbrev pub setup : Setup
setup = record {
  lib = libre;
  laddr = localhost;
  audio_path = codes "/audio";
  access = λ f. true;
  gateways = trunk ∷ [];
}

abbrev pub idle_destination : ℕ → Destination
idle_destination id = record {
  dest_id = id;
  dest = codes "100";
  last_try = 0;
  call = none;
  try_count = 0;
  tmr = false;
}

abbrev pub transfer : CampaignAction
transfer = record { action_key = 1; action_type = 0; gateway = some 4; dest = some (codes "7") }

abbrev pub campaign : Campaign
campaign = record {
  campaign_id = 8;
  client_id = 2;
  campaign_status = 2;
  gateway = some 4;
  pbx_gateway = none;
  pbx_number = none;
  caller_id = none;
  file_name = some (codes "hi.wav");
  call_limit = 1;
  retry_delay = 60;
  max_call_duration = 0;
  max_try = 3;
  is_running = true;
  max_play = 2;
  destinations = idle_destination 1 ∷ idle_destination 2 ∷ [];
  processl = [];
  tmr = true;
  actions = transfer ∷ [];
}

-- A call as `call_alloc` leaves it, with session 0.
abbrev pub fresh_leg : Leg
fresh_leg = new_leg fine 0 0 (record { media_port = 9000; formats = 0 ∷ 101 ∷ [] }) 100

abbrev pub dialler : Dialer
dialler = record { cp = campaign; rtp = half_used; sqllist = [] }
