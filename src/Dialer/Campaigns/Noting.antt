-- ===== src/Dialer/Campaigns/Noting.antt =====
-- How the events of a call in src/call.c note the action of a digit.
use mathlib.Core.Path.{subst}
use autodialer_core.Base.{
  ℕ, ◌<◌, ◌≡◌, refl, sym, ap, ◌∙◌, ◌⊎◌, inl, inr, true, false, Bool-cases, Option, Option-cases,
  some, is_some, List, [], ◌∷◌, All, Text, ◌==◌, of_some, arith,
}
use autodialer_core.Rtp.{Rtp}
use autodialer_core.Structs.{CampaignAction, Leg}
use autodialer_core.Call.Events.{
  Answer, Handled, Packet, close_handler, progress_handler, establish_handler, find_campaign_action,
  rtp_recv_handler,
}
use autodialer_core.Call.Events.Media.{digit}
use autodialer_core.Dialer.Dial.{Setup}
use autodialer_core.Dialer.Supervise.Routes.{leads, action_leads, IsRouted}
use autodialer_core.Dialer.Campaigns.History.{
  LegEvent, closes, progresses, establishes, receives, plays,
}

-- An action leads to a gateway, or ends the call, of a campaign that plays a file.
abbrev pub Goes : Setup → Option Text → CampaignAction → Type 0
Goes s file a = (leads s a.gateway ≡ true) ⊎ ((0 < a.action_type) × (is_some file ≡ true))

find_campaign_action-All :
    (P : CampaignAction → Type 0) (actions : List CampaignAction) (event : ℕ) (a : CampaignAction)
    → find_campaign_action actions event ≡ some a
    → All P actions
    → P a
unfolding find_campaign_action
find_campaign_action-All P [] event a e h = cc e
find_campaign_action-All P (x ∷ actions) event a e h = elim (Bool-cases (x.action_key == event)) [
  | inl hit ↦ subst P (of_some (rw hit at e)) h.0
  | inr miss ↦ find_campaign_action-All P actions event a (rw miss at e) h.1
]

-- What an event does to a leg.
abbrev pub Notes : List CampaignAction → Leg → Leg → Type 0
Notes actions l l' =
    (l'.join_pbx ≡ l.join_pbx)
    × (l.ended ≡ true → l'.ended ≡ true)
    × (l.event_received ≡ true → (l'.event_received ≡ true) × (l'.action ≡ l.action))
    × (l.event_received ≡ false
        → l'.event_received ≡ true
        → (event : ℕ) × (a : CampaignAction) × (find_campaign_action actions event ≡ some a)
          × (l'.action ≡ some a)
          × (0 < a.action_type → l'.ended ≡ true))

-- An event that notes nothing.
calm_Notes :
    (actions : List CampaignAction) (l l' : Leg)
    → l'.join_pbx ≡ l.join_pbx
    → (l.ended ≡ true → l'.ended ≡ true)
    → l'.event_received ≡ l.event_received
    → l'.action ≡ l.action
    → Notes actions l l'
calm_Notes actions l l' join over ev act = (join, over, (λ h. (ev ∙ h, act)), λ h k. cc (h, k, ev))

received_found :
    (actions : List CampaignAction) (m : Packet) (i : ℕ) (l : Leg) (p : Rtp)
    → let l' = (rtp_recv_handler actions m i l p).0 in
      l.event_received ≡ false
      → l'.event_received ≡ true
      → (find_campaign_action actions (digit m) ≡ l'.action)
        × (is_some l'.action ≡ true)
        × (0 < l'.action_type → l'.ended ≡ true)
unfolding rtp_recv_handler
received_found actions m i l p h k = ground arith

received_type :
    (actions : List CampaignAction) (m : Packet) (i : ℕ) (l : Leg) (p : Rtp) (a : CampaignAction)
    → let l' = (rtp_recv_handler actions m i l p).0 in
      l.event_received ≡ false
      → l'.event_received ≡ true
      → l'.action ≡ some a
      → l'.action_type ≡ a.action_type
unfolding rtp_recv_handler
received_type actions m i l p a h k e = ground arith

received_rest :
    (actions : List CampaignAction) (m : Packet) (i : ℕ) (l : Leg) (p : Rtp)
    → let l' = (rtp_recv_handler actions m i l p).0 in
      (l'.join_pbx ≡ l.join_pbx)
      × (l.ended ≡ true → l'.ended ≡ true)
      × (l.event_received ≡ true → (l'.event_received ≡ true) × (l'.action ≡ l.action))
unfolding rtp_recv_handler
received_rest actions m i l p = ground arith

receives-Notes :
    (actions : List CampaignAction) (m : Packet) (i : ℕ) (l : Leg) (p : Rtp)
    → Notes actions l (rtp_recv_handler actions m i l p).0
receives-Notes actions m i l p =
    let l' = (rtp_recv_handler actions m i l p).0 in
    let (join, over, kept) = received_rest actions m i l p in
    (
      join,
      over,
      kept,
      λ h k.
          let (found, there, typed) = received_found actions m i l p h k in
          elim (Option-cases l'.action) [
            | inl lost ↦ cc (there, ap is_some lost)
            | inr (a, at) ↦
                let same = received_type actions m i l p a h k at in
                (digit m, a, found ∙ at, at, λ w. typed (subst (λ n. 0 < n) (sym same) w))
          ],
    )

establishes_calm :
    (id now : ℕ) (parent : Option ℕ) (a : Answer) (scode : ℕ) (l : Leg) (p : Rtp) (h : Handled)
    → establish_handler id now parent a scode l p ≡ some h
    → (h.leg.join_pbx ≡ l.join_pbx)
      × (l.ended ≡ true → h.leg.ended ≡ true)
      × (h.leg.event_received ≡ l.event_received)
      × (h.leg.action ≡ l.action)
unfolding establish_handler
establishes_calm id now parent a scode l p h e = ground arith

pub LegEvent-Notes :
    (id : ℕ) (parent : Option ℕ) (actions : List CampaignAction) (l : Leg) (p : Rtp) (h : Handled)
    → LegEvent id parent actions l p h
    → Notes actions l h.leg
unfolding close_handler progress_handler
LegEvent-Notes id parent actions l p h (closes err scode e) =
    subst (λ x. Notes actions l x.leg) (sym e)
      (calm_Notes actions l (close_handler err scode l) refl (λ w. refl) refl refl)
LegEvent-Notes id parent actions l p h (progresses scode e) =
    subst (λ x. Notes actions l x.leg) (sym e)
      (calm_Notes actions l (progress_handler id scode l).0 refl (λ w. w) refl refl)
LegEvent-Notes id parent actions l p h (establishes now scode a e) =
    let (join, over, ev, act) = establishes_calm id now parent a scode l p h e in
    calm_Notes actions l h.leg join over ev act
LegEvent-Notes id parent actions l p h (receives m i on e) =
    subst (λ x. Notes actions l x.leg) (sym e) (receives-Notes actions m i l p)
LegEvent-Notes id parent actions l p h (plays o c max_play fuel k t t' run same e) =
    subst (λ x. Notes actions l x.leg) (sym e)
      (calm_Notes actions l (record l { ts = t'.ts; num_play = t'.num_play }) refl (λ w. w) refl
        refl)

-- A call whose leg saw an event goes on to find its gateways.
pub Notes-IsRouted :
    (s : Setup) (pbx : Option ℕ) (file : Option Text) (actions : List CampaignAction) (l l' : Leg)
    (o : Option Leg)
    → All (Goes s file) actions
    → Notes actions l l'
    → IsRouted s pbx file (record { leg = l; pbx_call = o })
    → IsRouted s pbx file (record { leg = l'; pbx_call = o })
Notes-IsRouted s pbx file actions l l' o goes (join, over, kept, new) v = record {
  noted = λ h. elim (Bool-cases l.event_received) [
    | inl was ↦ elim (v.noted was) [
      | inl good ↦ inl (ap (action_leads s) (kept was).1 ∙ good)
      | inr (ended, alone) ↦ inr (over ended, alone)
    ]
    | inr fresh ↦
        let (event, a, found, at, typed) = new fresh h in
        elim (find_campaign_action-All (Goes s file) actions event a found goes) [
          | inl good ↦ inl (ap (action_leads s) at ∙ good)
          | inr (kind, plays_file) ↦ elim (Bool-cases (is_some o)) [
            | inr alone ↦ inr (typed kind, alone)
            | inl forwarded ↦ elim (v.linked forwarded) [
              | inl was ↦ cc (was, fresh)
              | inr joined ↦ cc ((v.joins joined).1, plays_file)
            ]
          ]
        ]
  ];
  joins = λ h. v.joins (sym join ∙ h);
  linked = λ h. elim (v.linked h) [ inl was ↦ inl (kept was).0 | inr joined ↦ inr (join ∙ joined) ];
}
