-- ===== src/Call/Events.antt =====
-- The handlers of src/call.c that the SIP stack and the RTP socket call. `none` is a read through a
-- null pointer.
pub mod Media
pub mod Links
use autodialer_core.Base.{
  ℕ, Bool, true, false, not, Option, none, some, List, [], ◌∷◌, Text, u8, u16, ltb, ◌==◌, ◌&&◌,
  ◌||◌, if◌then◌else◌, ◌>>=◌,
}
use autodialer_core.Rtp.{Sa, Rtp, set_session}
use autodialer_core.Structs.{
  CampaignAction, established, is_established, status_code, Leg, Stmt, update_calls, Uri,
}

-- The session failed or the peer hung up.
unfoldable pub close_handler : ℕ → ℕ → Leg → Leg
close_handler err scode l = record l {
  ended = true;
  resp_code =
      if is_established l.call_status
      then 2
      else if err == 0 && ltb 0 scode
      then u16 scode
      else if err == 0
      then l.resp_code
      else 400;
}

-- update_call_status of src/main.c: the row of the destination's call, with no duration.
unfoldable pub update_call_status : ℕ → Leg → Stmt
update_call_status id l = update_calls (status_code l.call_status) 0 l.connect_tm l.establish_tm id

unfoldable pub progress_handler : ℕ → ℕ → Leg → Leg × List Stmt
progress_handler id scode l =
    let l' : Leg = record l { resp_code = u16 scode } in
    (l', if l.ispbxcall then [] else update_call_status id l' ∷ [])

-- The answer that `establish_handler` looks at: the code of `sdp_decode`, the payload type of the
-- common format if there is one, the media address, and whether the thread starts.
pub record Answer : Type 0 where
  pub sdp_decode : ℕ
  pub rformat : Option ℕ
  pub raddr : Sa
  pub thrd_create : Bool

pub record Handled : Type 0 where
  pub leg : Leg
  pub rtp : Rtp
  pub stmts : List Stmt

-- `out:` with an error.
abbrev hang : Leg → Leg
hang l = record l { ended = true; sess = false }

-- The two sessions of a forwarded call pass their packets on to one another.
unfoldable pub link : ℕ → ℕ → Rtp → Rtp
link i j p =
    let q = set_session p j (record (p.sessions j) { remote = some i }) in
    set_session q i (record (q.sessions i) { remote = some j })

-- The thread that plays the audio, and the receiver of digits.
start_media : ℕ → Bool → ℕ → Leg → Rtp → Leg × Rtp
start_media now started i l p = (
  if started then record l { establish_tm = now; thrd_created = true } else l,
  set_session p i (record (p.sessions i) { telev = true; telev_recv = true }),
)

-- With the media of the answer set: the call to the PBX is linked to the destination's own call,
-- whose session is `parent`; a call that joins a PBX waits for it; any other plays its audio.
media_started :
    ℕ → ℕ → Option ℕ → Answer → ℕ → Leg → Rtp → (ispbxcall join_pbx : Bool) → Option Handled
unfolding link start_media
media_started id now parent a i l p ispbxcall join_pbx =
    let (l', p') = start_media now a.thrd_create i l p in
    if ispbxcall
    then (parent >>= λ j. some (record { leg = l; rtp = link i j p; stmts = [] }))
    else some (
        if join_pbx
        then record { leg = l; rtp = p; stmts = update_call_status id l ∷ [] }
        else record { leg = l'; rtp = p'; stmts = update_call_status id l' ∷ [] })

-- `id` is the row of the destination.
media_agreed : ℕ → ℕ → Option ℕ → Answer → ℕ → Leg → Rtp → Option Handled
unfolding media_started
media_agreed id now parent a pt l p = l.rtp_sess >>= λ i.
    let l' : Leg = record l { pt = u8 pt; rtp_dest = a.raddr } in
    let q = set_session p i (record (p.sessions i) { remote_ip = a.raddr }) in
    media_started id now parent a i l' q l.ispbxcall l.join_pbx

unfoldable pub establish_handler : ℕ → ℕ → Option ℕ → Answer → ℕ → Leg → Rtp → Option Handled
unfolding media_agreed
establish_handler id now parent a scode l p =
    let l1 : Leg = record l { resp_code = u16 scode } in
    let l2 : Leg = record l1 { establish_tm = now; call_status = established } in
    let refused : Handled = record { leg = hang l2; rtp = p; stmts = [] } in
    if is_established l.call_status
    then some (record { leg = l1; rtp = p; stmts = [] })
    else if a.sdp_decode == 0
    then elim a.rformat [
      | none ↦ some refused
      | some pt ↦ if pt == 101 then some refused else media_agreed id now parent a pt l2 p
    ]
    else some refused

-- An RTP packet: its length, its payload type, and what `telev_recv` makes of its payload.
pub record Packet : Type 0 where
  pub left : ℕ
  pub pt : ℕ
  pub telev : Option (ℕ × Bool)

unfoldable pub find_campaign_action : List CampaignAction → ℕ → Option CampaignAction
find_campaign_action [] event = none
find_campaign_action (a ∷ rest) event =
    if a.action_key == event then some a else find_campaign_action rest event

-- The action of a digit is noted, and one with a type ends the call.
take_action : Leg → CampaignAction → Leg
take_action l a = record l {
  action = some a;
  event_received = true;
  action_key = a.action_key;
  action_type = a.action_type;
  ended = ltb 0 a.action_type || l.ended;
}

-- A telephone event in a packet: none if it goes on to the other party.
on_digit : List CampaignAction → Packet → Leg → Option Leg
unfolding take_action
on_digit actions m l = elim m.telev [
  | none ↦ some l
  | some (event, end) ↦
      if end
      then some (elim (find_campaign_action actions event) [ none ↦ l | some a ↦ take_action l a ])
      else none
]

-- The packet goes to the remote session's socket: the session, and the address that it sends to.
abbrev pass_on : Rtp → ℕ → List (ℕ × Sa)
pass_on p i = elim (p.sessions i).remote [ none ↦ [] | some j ↦ (j, (p.sessions j).remote_ip) ∷ [] ]

unfoldable pub rtp_recv_handler : List CampaignAction → Packet → ℕ → Leg → Rtp → Leg × List (ℕ × Sa)
unfolding on_digit
rtp_recv_handler actions m i l p =
    if ltb m.left 12
    then (l, [])
    else if (p.sessions i).telev_recv && not l.event_received && m.pt == 101
    then elim (on_digit actions m l) [ none ↦ (l, pass_on p i) | some l' ↦ (l', []) ]
    else (l, pass_on p i)

-- The credentials of a gateway.
unfoldable pub auth_handler : Uri → Text × Text
auth_handler gateway = (gateway.user, gateway.password)

-- A re-INVITE is refused, and an answer is taken as it is.
unfoldable pub offer_handler : ℕ
offer_handler = 1

unfoldable pub answer_handler : ℕ
answer_handler = 0
