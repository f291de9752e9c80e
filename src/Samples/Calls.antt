-- ===== src/Samples/Calls.antt =====
-- Calls and their sessions on small inputs.
use autodialer_core.Base.{
  ℕ, ◌<◌, ◌≡◌, ◌≢◌, refl, true, false, none, some, List, [], ◌∷◌, arith, is_some, ap, u8,
}
use autodialer_core.Rtp.{Rtp, Sa, set_session}
use autodialer_core.Rtp.Pool.{IsPool, busy}
use autodialer_core.Structs.{Leg, Call, established, codes}
use autodialer_core.Call.Alloc.{SdpResult, Allocated, sdp_sess_alloc, call_alloc}
use autodialer_core.Call.Alloc.Sessions.{AllocOutcome, call_alloc_outcome}
use autodialer_core.Call.Alloc.Leaks.{call_alloc_leaks}
use autodialer_core.Call.Events.{Answer, Handled, Packet, find_campaign_action, establish_handler}
use autodialer_core.Call.Events.Media.{
  Linked, digit, establish_handler-Linked, rtp_recv_handler-digit,
}
use autodialer_core.Samples.{
  program, half_used, half_used-IsPool, libre, fine, no_media, trunk, localhost, transfer,
  fresh_leg,
}

-- Both sessions are in use, by a call and the call to its PBX.
abbrev both_used : Rtp
both_used = record half_used {
  sessions = λ i. record (half_used.sessions i) { in_use = true };
  rtp_sessions = [];
}

both_used-IsPool : IsPool both_used
unfolding busy
both_used-IsPool = record { idle = tt; stored = tt; distinct = tt; counted = refl }

abbrev forwarded_call : Call
forwarded_call = record {
  leg = record fresh_leg { forwarded = true };
  pbx_call = some (record fresh_leg { rtp_sess = some 1; ispbxcall = true });
}

abbrev offered : SdpResult
offered = elim (sdp_sess_alloc fine 0 half_used) [
  | none ↦ record { err = 1; media = none; rtp = half_used }
  | some r ↦ r
]

abbrev allocated : Allocated
allocated = elim (call_alloc libre fine localhost (codes "100") trunk.sip_uri none 5 half_used) [
  | none ↦ record { err = 1; call = none; invite = none; rtp = half_used }
  | some r ↦ r
]

call_alloc_outcome_example :
    IsPool allocated.rtp × AllocOutcome fine half_used allocated allocated.call
unfolding program
call_alloc_outcome_example =
    call_alloc_outcome libre fine localhost (codes "100") trunk.sip_uri none 5 half_used allocated
      half_used-IsPool refl

call_alloc_leaks_example :
    (r : Allocated) × (call_alloc libre no_media localhost
        (codes "100")
        trunk.sip_uri
        none
        5
        half_used
      ≡ some r)
    × (r.call ≡ none)
    × (r.rtp.rtp_sessions ≡ [])
    × ((r.rtp.sessions 1).in_use ≡ true)
call_alloc_leaks_example =
    call_alloc_leaks libre no_media localhost (codes "100") trunk.sip_uri none 5 half_used 1 []
      half_used-IsPool refl refl refl (omega arith)

abbrev answer : Answer
answer = record {
  sdp_decode = 0;
  rformat = some 8;
  raddr = record { host = 9; port = 4000 };
  thrd_create = true;
}

abbrev pbx_leg : Leg
pbx_leg = record fresh_leg { rtp_sess = some 1; ispbxcall = true }

establish_handler-Linked_example :
    (h : Handled) × (establish_handler 1 70 (some 0) answer 200 pbx_leg both_used ≡ some h)
    × Linked h.rtp 1 0
    × ((h.rtp.sessions 1).remote_ip ≡ answer.raddr)
    × (h.leg.call_status ≡ established)
    × (h.leg.pt ≡ u8 8)
    × (h.stmts ≡ [])
    × ((k : ℕ) → k ≢ 1 → k ≢ 0 → h.rtp.sessions k ≡ both_used.sessions k)
establish_handler-Linked_example =
    establish_handler-Linked 1 70 answer 200 8 1 0 pbx_leg both_used refl refl refl (omega arith)
      refl refl (omega arith)

-- A session that listens for digits and is linked to session 1.
abbrev listening : Rtp
listening =
    set_session half_used 0 (record (half_used.sessions 0) { telev_recv = true; remote = some 1 })

abbrev one_pressed : Packet
one_pressed = record { left = 16; pt = 101; telev = some (1, true) }

abbrev noted : Leg
noted = record fresh_leg { action = some transfer; event_received = true; action_key = 1 }

-- The digit goes no further.
abbrev nowhere : List (ℕ × Sa)
nowhere = []

rtp_recv_handler-digit_example :
    (fresh_leg.event_received ≡ false)
    × ((listening.sessions 0).telev_recv ≡ true)
    × (one_pressed.pt ≡ 101)
    × (one_pressed.telev ≡ some (digit one_pressed, true))
    × (find_campaign_action (transfer ∷ []) (digit one_pressed) ≡ noted.action)
    × (is_some noted.action ≡ true)
    × (noted.event_received ≡ true)
    × (0 < noted.action_type → noted.ended ≡ true)
    × (noted.action_type ≡ 0 → noted.ended ≡ fresh_leg.ended)
    × (nowhere ≡ [])
unfolding program
rtp_recv_handler-digit_example =
    rtp_recv_handler-digit (transfer ∷ []) one_pressed 0 fresh_leg noted listening [] refl
      (λ e. cc (ap (λ l. l.event_received) e))
