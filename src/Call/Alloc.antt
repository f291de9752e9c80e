-- ===== src/Call/Alloc.antt =====
-- sdp_sess_alloc and call_alloc of src/call.c. The answers of libre's functions are arguments.
pub mod Leaks
pub mod Sessions
pub mod Touched
pub mod Totality
pub mod Supply
use autodialer_core.Base.{
  ℕ, Bool, true, false, Option, none, some, List, [], ◌∷◌, ◌++◌, Text, u8, u32, ◌==◌, if◌then◌else◌,
  ◌>>=◌,
}
use autodialer_core.Rtp.{Sa, Rtp, find_rtp_session, release_rtp_session, set_session}
use autodialer_core.Structs.{Uri, connecting, Sdp, Leg, Call, Libre, codes}

-- The error codes of the calls that set up a call, and the number drawn by `rand`.
pub record Answers : Type 0 where
  pub zalloc : Bool
  pub sdp_session_alloc : ℕ
  pub sdp_media_add : ℕ
  pub sdp_format_add : ℕ
  pub telephone_event_add : ℕ
  pub sdp_encode : ℕ
  pub sipsess_connect : ℕ
  pub rtp_alloc : ℕ
  pub rand : ℕ

-- The payload type that is offered for the gateway's codec.
unfoldable pub offered_format : ℕ → ℕ
offered_format pt = if pt == 18 then 18 else if pt == 8 then 8 else 0

-- The first error of a chain of steps, each made if those before it returned 0.
abbrev pub first_error : List ℕ → ℕ
first_error [] = 0
first_error (e ∷ es) = if e == 0 then first_error es else e

pub record SdpResult : Type 0 where
  pub err : ℕ
  pub media : Option (Sdp × ℕ)
  pub rtp : Rtp

-- With a session at hand. If `sdp_session_alloc` fails, `mem_deref(sdpsess)` reads a pointer that
-- was never set: a fault. After a later error the session stays in use and off the list.
sdp_with_session : Answers → ℕ → ℕ → Rtp → Option SdpResult
unfolding offered_format
sdp_with_session a pt i p =
    let err = first_error (a.sdp_media_add ∷ a.sdp_format_add ∷ a.telephone_event_add ∷ []) in
    let r = p.sessions i in
    let offer : Sdp = record {
      media_port = r.local_ip.port;
      formats = offered_format pt ∷ 101 ∷ [];
    } in
    if a.sdp_session_alloc == 0
    then some (
        if err == 0
        then record {
          err = 0;
          media = some (offer, i);
          rtp = set_session p i (record r { connected = true });
        }
        else record { err = err; media = none; rtp = p })
    else none

-- With the result of `find_rtp_session`.
sdp_given : Answers → ℕ → Option ℕ × Rtp → Option SdpResult
unfolding sdp_with_session
sdp_given a pt (none, q) = some (record { err = 1; media = none; rtp = q })
sdp_given a pt (some i, q) = sdp_with_session a pt i q

unfoldable pub sdp_sess_alloc : Answers → ℕ → Rtp → Option SdpResult
unfolding sdp_given
sdp_sess_alloc a pt p = sdp_given a pt (find_rtp_session p)

-- The INVITE that `sipsess_connect` sends.
pub record Invite : Type 0 where
  pub remote : Text
  pub url : Text
  pub fname : Text
  pub offer : Sdp

pub record Allocated : Type 0 where
  pub err : ℕ
  pub call : Option Call
  pub invite : Option Invite
  pub rtp : Rtp

abbrev param : Libre → Uri → Text → Text
param lib gateway name = elim (lib.uri_param_get gateway.params name) [ none ↦ [] | some v ↦ v ]

-- "sip:PREFIX TEL@HOST:PORT", without the prefix where the gateway has none.
unfoldable pub remote_uri : Libre → Uri → Text → Text
remote_uri lib gateway tel =
    codes "sip:"
    ++ (param lib gateway (codes "prefix")
        ++ (tel ++ (codes "@" ++ (gateway.host ++ (codes ":" ++ lib.fmt_d gateway.port)))))

-- The payload type: the forwarding call's, or the gateway's parameter "codec", or 0.
unfoldable pub payload_type : Libre → Uri → Option ℕ → ℕ
payload_type lib gateway (some pt) = pt
payload_type lib gateway none = elim (lib.uri_param_get gateway.params (codes "codec")) [
  | none ↦ 0
  | some v ↦ u8 (lib.pl_u32 v)
]

-- A new call as `mem_zalloc` and the assignments of `call_alloc` leave it.
abbrev pub new_leg : Answers → ℕ → ℕ → Sdp → ℕ → Leg
new_leg a pt i offer now = record {
  resp_code = 0;
  sess = a.sipsess_connect == 0;
  rs = true;
  rtp_sess = some i;
  sdp = some offer;
  audio = none;
  rtp_dest = record { host = 0; port = 0 };
  ts = u32 a.rand;
  connect_tm = now;
  establish_tm = 0;
  call_status = connecting;
  num_play = 0;
  action_key = 0;
  action_type = 0;
  pt = pt;
  action = none;
  join_pbx = false;
  thrd_created = false;
  ended = false;
  ispbxcall = false;
  event_received = false;
  forwarded = false;
}

-- From `sdp_encode` to the end. The code of `sipsess_connect` is overwritten by that of
-- `rtp_alloc`. On an error `mem_deref(call)` gives the session back.
connect_call : Libre → Answers → Sa → Text → Uri → ℕ → ℕ → Sdp → ℕ → Rtp → Allocated
unfolding remote_uri
connect_call lib a laddr tel gateway now pt offer i p =
    let q = set_session p i (record (p.sessions i) { arg = true }) in
    let invite : Invite = record {
      remote = remote_uri lib gateway tel;
      url = codes "sip:" ++ (gateway.user ++ (codes "@" ++ lib.fmt_sa laddr));
      fname = gateway.user;
      offer = offer;
    } in
    if a.sdp_encode == 0
    then (if a.rtp_alloc == 0
        then record {
          err = 0;
          call = some (record { leg = new_leg a pt i offer now; pbx_call = none });
          invite = some invite;
          rtp = q;
        }
        else record {
          err = a.rtp_alloc;
          call = none;
          invite = some invite;
          rtp = release_rtp_session q i;
        })
    else record { err = a.sdp_encode; call = none; invite = none; rtp = release_rtp_session p i }

-- `goto out` on an error of `sdp_sess_alloc`, whose call has no session yet.
from_media : Libre → Answers → Sa → Text → Uri → ℕ → ℕ → SdpResult → Allocated
unfolding connect_call
from_media lib a laddr tel gateway now pt r = elim r.media [
  | none ↦ record { err = r.err; call = none; invite = none; rtp = r.rtp }
  | some (offer, i) ↦ connect_call lib a laddr tel gateway now pt offer i r.rtp
]

-- `pbx_pt` is the payload type of the call that is forwarded, or none for a first call. Without
-- memory for the call nothing happens.
unfoldable pub call_alloc :
    Libre → Answers → Sa → Text → Uri → Option ℕ → ℕ → Rtp → Option Allocated
unfolding payload_type from_media
call_alloc lib a laddr tel gateway pbx_pt now p =
    let pt = payload_type lib gateway pbx_pt in
    if a.zalloc
    then (sdp_sess_alloc a pt p >>= λ r. some (from_media lib a laddr tel gateway now pt r))
    else some (record { err = 1; call = none; invite = none; rtp = p })
