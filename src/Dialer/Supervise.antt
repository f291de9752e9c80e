-- ===== src/Dialer/Supervise.antt =====
-- on_call_end of src/main.c: once a second for each destination with a call.
pub mod Limits
pub mod Rows
pub mod Verdicts
pub mod Timers
pub mod Routes
pub mod Sessions
use autodialer_core.Base.{
  ℕ, ◌+◌, ◌*◌, Bool, true, false, not, ◌&&◌, ◌||◌, Option, none, some, List, [], ◌∷◌, Text, ltb,
  leb, is_empty, if◌then◌else◌, ◌>>=◌, ℤ, pos, sub_ℕ, is_positive,
}
use autodialer_core.Rtp.{Rtp}
use autodialer_core.Structs.{
  gateway_at, disconnected, status_code, is_established, Leg, Call, Destination, Campaign, Finish,
  Forwarding, Stmt, finish_calls, insert_forwarding,
}
use autodialer_core.Call.Release.{call_destructor}
use autodialer_core.Call.Alloc.{Answers, call_alloc}
use autodialer_core.Dialer.Dial.{Setup}

abbrev pub with_leg : Call → Leg → Call
with_leg c l = record c { leg = l }

-- The program hangs up.
unfoldable pub hang_up : Call → Call
hang_up c = with_leg c (record c.leg { sess = false; ended = true; resp_code = 1 })

-- Where a call is forwarded to: the action of the digit, or the campaign's PBX.
target : Campaign → Call → Option (Option Text × Option ℕ)
target cp c =
    if c.event_received
    then (c.action >>= λ a. some (a.dest, a.gateway))
    else some (cp.pbx_number, cp.pbx_gateway)

abbrev printed : Option Text → Text
printed none = []
printed (some t) = t

abbrev forwarded_as : Call → Call → Call
forwarded_as c b = record {
  leg = record c.leg { forwarded = true };
  pbx_call = some (record b.leg { ispbxcall = true });
}

-- What `call_alloc` for the PBX leaves.
abbrev joined_by : Call → Rtp → Option Call → Call × Rtp
joined_by c q none = (c, q)
joined_by c q (some b) = (forwarded_as c b, q)

-- The call to the PBX; if `call_alloc` fails, it is tried again a second later.
forward : Setup → Campaign → Answers → ℕ → Call → Rtp → Option (Call × Rtp)
unfolding target
forward s cp a now c p = target cp c >>= λ (number, to). to >>= λ id.
    gateway_at id s.gateways >>= λ gw.
    call_alloc s.lib a s.laddr (printed number) gw.sip_uri (some c.pt) now p >>= λ r.
    some (joined_by c r.rtp r.call)

abbrev pbx_ended : Option Leg → Bool
pbx_ended none = false
pbx_ended (some l) = l.ended

-- A call that is to be forwarded, or has been: at most half an hour, and no longer than the PBX.
joined : Setup → Campaign → Answers → ℕ → Call → Rtp → Option (Call × Rtp)
unfolding forward hang_up
joined s cp a now c p =
    if c.forwarded
    then some (
        if ltb (c.establish_tm + 30 * 60) now
        then (hang_up c, p)
        else if pbx_ended c.pbx_call
        then (hang_up c, p)
        else (c, p))
    else forward s cp a now c p

-- A call that is not forwarded: at most the campaign's duration, and 40 seconds to be answered.
timed : Campaign → ℕ → Call → Call
unfolding hang_up
timed cp now c =
    if not c.forwarded
      && is_established c.call_status
      && ltb 0 cp.max_call_duration
      && ltb (c.establish_tm + cp.max_call_duration) now
    then hang_up c
    else if ltb (status_code c.call_status) 3 && ltb (c.connect_tm + 40) now
    then hang_up c
    else c

-- The first half of `on_call_end`: which branch the call is in, and what it does to it.
unfoldable pub supervise : Setup → Campaign → Answers → ℕ → Call → Rtp → Option (Call × Rtp)
unfolding joined timed
supervise s cp a now c p =
    if c.ended
    then some (with_leg c (record c.leg { sess = false; resp_code = 1 }), p)
    else if is_empty cp.actions && is_established c.call_status && leb cp.max_play c.num_play
    then some (hang_up c, p)
    else if is_established c.call_status && (c.event_received || c.join_pbx)
    then joined s cp a now c p
    else some (timed cp now c, p)

-- The seconds that a call was established.
abbrev pub talk_time : ℕ → Leg → ℤ
talk_time now l = if is_established l.call_status then sub_ℕ now l.establish_tm else pos 0

-- The final row of a call; its state is `CALL_DISCONNECTED` by then.
unfoldable pub finish_row : ℕ → Destination → Call → Finish
finish_row now d c = record {
  retry_count = d.try_count;
  call_status = status_code disconnected;
  call_duration = talk_time now c.leg;
  connect_time = c.connect_tm;
  establish_time = c.establish_tm;
  disconnect_time = now;
  disconnect_cause = c.resp_code;
  call_action_key = c.action_key;
  call_action_type = c.action_type;
  event_received = c.event_received;
  id = d.dest_id;
}

-- The row of a call to the PBX. The gateway is read through the action or the campaign.
forwarding_row : Setup → Campaign → ℕ → Destination → Call → Leg → Option Forwarding
forwarding_row s cp now d c b =
    (if c.event_received then (c.action >>= λ a. a.gateway) else cp.gateway) >>= λ g.
    gateway_at g s.gateways >>= λ gw. some (record {
      campaigns_id = cp.campaign_id;
      gateway_id = gw.gateway_id;
      call_from = d.dest;
      call_to = if c.event_received then (c.action >>= λ a. a.dest) else cp.pbx_number;
      call_status = status_code b.call_status;
      call_duration = talk_time now b;
      connect_time = b.connect_tm;
      establish_time = b.establish_tm;
      disconnect_time = now;
      disconnect_cause = b.resp_code;
    })

-- The rows of an ended call, and the `duration` that is left: the last one computed.
rows : Setup → Campaign → ℕ → Destination → Call → Option (List Stmt × ℤ)
unfolding finish_row forwarding_row
rows s cp now d c = elim c.pbx_call [
  | none ↦ some (finish_calls (finish_row now d c) ∷ [], talk_time now c.leg)
  | some b ↦ forwarding_row s cp now d c b >>= λ f.
      some (finish_calls (finish_row now d c) ∷ insert_forwarding f ∷ [], talk_time now b)
]

-- What becomes of a destination: it stays with its timer running, is destroyed, or goes to the
-- end of the campaign's destinations.
pub data Verdict : Type 0 where
  stay : Destination → Verdict
  gone : Verdict
  requeue : Destination → Verdict

pub record Ticked : Type 0 where
  pub verdict : Verdict
  pub rtp : Rtp
  pub stmts : List Stmt

-- The second half: an ended call is written down and destroyed. The destination is done with when
-- its tries are used up or when somebody talked.
unfoldable pub settle : Setup → Campaign → ℕ → Destination → Call → Rtp → Option Ticked
unfolding rows
settle s cp now d c p =
    if c.ended
    then (rows s cp now d c >>= λ (stmts, duration). some (record {
      verdict =
          if ltb 0 cp.max_try && leb cp.max_try d.try_count
          then gone
          else if is_positive duration
          then gone
          else requeue (record d { call = none; tmr = false });
      rtp = (call_destructor c p).rtp;
      stmts = stmts;
    }))
    else some
        (record { verdict = stay (record d { call = some c; tmr = true }); rtp = p; stmts = [] })

unfoldable pub on_call_end : Setup → Campaign → Answers → ℕ → Destination → Rtp → Option Ticked
unfolding supervise settle
on_call_end s cp a now d p =
    d.call >>= λ c. supervise s cp a now c p >>= λ (c', p'). settle s cp now d c' p'
