-- ===== src/Structs.antt =====
-- The records of src/call.h. A pointer to a campaign, destination or call stands where its owner
-- holds it, a pointer to an RTP session is its number in the pool, and a pointer to a gateway is
-- its id in the list of gateways. What libre holds behind a pointer is a flag.
use Prim.Native.Char.{code}
use Prim.Native.String.{String}
use autodialer_core.Base.{
  ℕ, Bool, true, false, Option, none, some, List, [], ◌∷◌, Text, ◌==◌, if◌then◌else◌, ℤ,
}
use autodialer_core.Rtp.{Sa}

-- The code points of a text, which is ASCII.
abbrev pub codes : String → Text
codes String.[] = []
codes (String.◌∷◌ c s) = code c ∷ codes s

-- `struct uri` of libre.
pub record Uri : Type 0 where
  pub user : Text
  pub password : Text
  pub host : Text
  pub port : ℕ
  pub params : Text

pub record Gateway : Type 0 where
  pub gateway_id : ℕ
  pub uri_str : Option Text
  pub sip_uri : Uri

-- A read through a pointer to a gateway; `none` if no such gateway is left.
unfoldable pub gateway_at : ℕ → List Gateway → Option Gateway
gateway_at id [] = none
gateway_at id (g ∷ gs) = if g.gateway_id == id then some g else gateway_at id gs

pub record CampaignAction : Type 0 where
  pub action_key : ℕ
  pub action_type : ℕ
  pub gateway : Option ℕ
  pub dest : Option Text

-- The enum of call states, and its numbers.
pub data CallStatus : Type 0 where
  connecting trying ringing established disconnected : CallStatus

abbrev pub status_code : CallStatus → ℕ
status_code connecting = 0
status_code trying = 1
status_code ringing = 2
status_code established = 3
status_code disconnected = 4

abbrev pub is_established : CallStatus → Bool
is_established established = true
is_established _ = false

-- What an SDP session offers: the media port and the payload types.
pub record Sdp : Type 0 where
  pub media_port : ℕ
  pub formats : List ℕ

-- `struct call` but for the pointer to the forwarded call. `arg` and `dest` point to the
-- destination that holds the call.
pub record Leg : Type 0 where
  pub resp_code : ℕ
  pub sess : Bool
  pub rs : Bool
  pub rtp_sess : Option ℕ
  pub sdp : Option Sdp
  pub audio : Option Text
  pub rtp_dest : Sa
  pub ts : ℕ
  pub connect_tm : ℕ
  pub establish_tm : ℕ
  pub call_status : CallStatus
  pub num_play : ℕ
  pub action_key : ℕ
  pub action_type : ℕ
  pub pt : ℕ
  pub action : Option CampaignAction
  pub join_pbx : Bool
  pub thrd_created : Bool
  pub ended : Bool
  pub ispbxcall : Bool
  pub event_received : Bool
  pub forwarded : Bool

-- `struct call`. The call to the PBX has no further one: only `on_call_end` sets the pointer, and
-- only of a destination's own call.
pub record Call : Type 0 where
  pub leg : Leg
  pub open leg use *
  pub pbx_call : Option Leg

-- `tmr` says whether the timer runs.
pub record Destination : Type 0 where
  pub dest_id : ℕ
  pub dest : Text
  pub last_try : ℕ
  pub call : Option Call
  pub try_count : ℕ
  pub tmr : Bool

pub record Campaign : Type 0 where
  pub campaign_id : ℕ
  pub client_id : ℕ
  pub campaign_status : ℕ
  pub gateway : Option ℕ
  pub pbx_gateway : Option ℕ
  pub pbx_number : Option Text
  pub caller_id : Option Text
  pub file_name : Option Text
  pub call_limit : ℕ
  pub retry_delay : ℕ
  pub max_call_duration : ℕ
  pub max_try : ℕ
  pub is_running : Bool
  pub max_play : ℕ
  pub destinations : List Destination
  pub processl : List Destination
  pub tmr : Bool
  pub actions : List CampaignAction

-- The final update of a call's row.
pub record Finish : Type 0 where
  pub retry_count : ℕ
  pub call_status : ℕ
  pub call_duration : ℤ
  pub connect_time : ℕ
  pub establish_time : ℕ
  pub disconnect_time : ℕ
  pub disconnect_cause : ℕ
  pub call_action_key : ℕ
  pub call_action_type : ℕ
  pub event_received : Bool
  pub id : ℕ

-- The row of a forwarded call.
pub record Forwarding : Type 0 where
  pub campaigns_id : ℕ
  pub gateway_id : ℕ
  pub call_from : Text
  pub call_to : Option Text
  pub call_status : ℕ
  pub call_duration : ℤ
  pub connect_time : ℕ
  pub establish_time : ℕ
  pub disconnect_time : ℕ
  pub disconnect_cause : ℕ

-- The statements that main.c hands to `db_exec`, before they are formatted.
pub data Stmt : Type 0 where
  update_calls : (status duration connect establish id : ℕ) → Stmt
  finish_calls : Finish → Stmt
  insert_forwarding : Forwarding → Stmt

-- What the program uses of libre's texts: a URI parameter, a decimal number read and written, and
-- a printed address.
pub record Libre : Type 0 where
  pub uri_param_get : Text → Text → Option Text
  pub pl_u32 : Text → ℕ
  pub fmt_d : ℕ → Text
  pub fmt_sa : Sa → Text
