-- ===== src/Call/Events/Media.antt =====
-- The media paths that the handlers of src/call.c set up: linked sessions and received digits.
use autodialer_core.Base.{
  ℕ, ◌≤◌, ◌<◌, ◌≡◌, ◌≢◌, refl, true, false, ◌⊎◌, Option, none, some, List, [], ◌∷◌, arith, u8, u16,
  is_some,
}
use autodialer_core.Rtp.{Sa, Rtp, set_session}
use autodialer_core.Structs.{CampaignAction, established, is_established, Leg}
use autodialer_core.Call.Events.{
  Answer, Handled, Packet, establish_handler, rtp_recv_handler, find_campaign_action, link,
}

-- Two sessions that pass their packets on to one another.
abbrev pub Linked : Rtp → ℕ → ℕ → Type 0
Linked p i j = ((p.sessions i).remote ≡ some j) × ((p.sessions j).remote ≡ some i)

-- When the call to the PBX is first answered with a format that can be used, its session `i` and
-- the session `j` of the destination's call pass their packets on to one another, packets for the
-- PBX go to the address of its answer, nothing is written, and no other session changes.
pub establish_handler-Linked :
    (id now : ℕ) (a : Answer) (scode pt i j : ℕ) (l : Leg) (p : Rtp)
    → l.ispbxcall ≡ true
    → is_established l.call_status ≡ false
    → l.rtp_sess ≡ some i
    → i ≢ j
    → a.sdp_decode ≡ 0
    → a.rformat ≡ some pt
    → pt ≢ 101
    → (h : Handled) × (establish_handler id now (some j) a scode l p ≡ some h)
      × Linked h.rtp i j
      × ((h.rtp.sessions i).remote_ip ≡ a.raddr)
      × (h.leg.call_status ≡ established)
      × (h.leg.pt ≡ u8 pt)
      × (h.stmts ≡ [])
      × ((k : ℕ) → k ≢ i → k ≢ j → h.rtp.sessions k ≡ p.sessions k)
unfolding establish_handler
establish_handler-Linked id now a scode pt i j l p b s e d h f t = (
  record {
    leg = record l {
      resp_code = u16 scode;
      establish_tm = now;
      call_status = established;
      pt = u8 pt;
      rtp_dest = a.raddr;
    };
    rtp = link i j (set_session p i (record (p.sessions i) { remote_ip = a.raddr }));
    stmts = [];
  },
  ground arith,
  (ground arith, ground arith),
  ground arith,
  refl,
  refl,
  refl,
  λ k x y. ground arith,
)

-- A first answer that cannot be decoded, or has no format but telephone events, ends the call,
-- gives up the SIP session and changes no RTP session.
establish_handler_refuses :
    (id now : ℕ) (parent : Option ℕ) (a : Answer) (scode : ℕ) (l : Leg) (p : Rtp)
    → is_established l.call_status ≡ false
    → (a.sdp_decode ≢ 0) ⊎ (a.rformat ≡ none) ⊎ (a.rformat ≡ some 101)
    → (h : Handled) × (establish_handler id now parent a scode l p ≡ some h)
      × (h.leg.ended ≡ true)
      × (h.leg.sess ≡ false)
      × (h.leg.resp_code ≡ u16 scode)
      × (h.rtp ≡ p)
      × (h.stmts ≡ [])
unfolding establish_handler
establish_handler_refuses id now parent a scode l p s h = (
  record {
    leg = record l {
      resp_code = u16 scode;
      establish_tm = now;
      call_status = established;
      ended = true;
      sess = false;
    };
    rtp = p;
    stmts = [];
  },
  ground arith,
  refl,
  refl,
  refl,
  refl,
  refl,
)

-- The digit of a packet's telephone event.
abbrev pub digit : Packet → ℕ
digit m = elim m.telev [ none ↦ 0 | some (event, end) ↦ event ]

-- A packet changes a call only if it had noted no digit before, the session listens for digits,
-- the packet is a finished telephone event, and the campaign has an action for the digit. Then that
-- action is noted, the call ends if the action has a type, and the packet goes nowhere.
pub rtp_recv_handler-digit :
    (actions : List CampaignAction) (m : Packet) (i : ℕ) (l l' : Leg) (p : Rtp)
    (out : List (ℕ × Sa))
    → rtp_recv_handler actions m i l p ≡ (l', out)
    → l' ≢ l
    → (l.event_received ≡ false)
      × ((p.sessions i).telev_recv ≡ true)
      × (m.pt ≡ 101)
      × (m.telev ≡ some (digit m, true))
      × (find_campaign_action actions (digit m) ≡ l'.action)
      × (is_some l'.action ≡ true)
      × (l'.event_received ≡ true)
      × (0 < l'.action_type → l'.ended ≡ true)
      × (l'.action_type ≡ 0 → l'.ended ≡ l.ended)
      × (out ≡ [])
unfolding rtp_recv_handler
rtp_recv_handler-digit actions m i l l' p out e c = ground arith

-- Once a call has noted a digit, every packet of at least a header goes on to the linked session as
-- it came, digits included, and the call stays as it is.
rtp_recv_handler_passes :
    (actions : List CampaignAction) (m : Packet) (i j : ℕ) (l : Leg) (p : Rtp)
    → l.event_received ≡ true
    → 12 ≤ m.left
    → (p.sessions i).remote ≡ some j
    → rtp_recv_handler actions m i l p ≡ (l, (j, (p.sessions j).remote_ip) ∷ [])
unfolding rtp_recv_handler
rtp_recv_handler_passes actions m i j l p e h r = ground arith
