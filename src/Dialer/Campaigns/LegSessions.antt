-- ===== src/Dialer/Campaigns/LegSessions.antt =====
-- An event of a call of src/main.c links sessions of that call's destination only.
use mathlib.Core.Path.{subst}
use autodialer_core.Base.{
  ℕ, ◌≡◌, refl, sym, ◌∙◌, Option, none, some, List, ◌++◌, All-append_right, arith,
}
use autodialer_core.Rtp.{Rtp}
use autodialer_core.Rtp.Pool.{IsPool}
use autodialer_core.Rtp.Ownership.{In, IsHeld, Clean, Moves, Moves-refl}
use autodialer_core.Structs.{CampaignAction, Leg, Call}
use autodialer_core.Call.Release.{pbx_session}
use autodialer_core.Call.Release.Sessions.{to_list}
use autodialer_core.Call.Events.{Handled, close_handler, progress_handler}
use autodialer_core.Call.Events.Links.{
  Keeps, establish_handler-Keeps, rtp_recv_handler-rest, establish_handler-forwarded,
}
use autodialer_core.Call.Ownership.{held}
use autodialer_core.Dialer.Groups.{Sane}
use autodialer_core.Dialer.Campaigns.History.{
  LegEvent, closes, progresses, establishes, receives, plays,
}

close_handler-rest :
    (err scode : ℕ) (l : Leg)
    → ((close_handler err scode l).rtp_sess ≡ l.rtp_sess)
      × ((close_handler err scode l).forwarded ≡ l.forwarded)
unfolding close_handler
close_handler-rest err scode l = (ground arith, ground arith)

progress_handler-rest :
    (id scode : ℕ) (l : Leg)
    → ((progress_handler id scode l).0.rtp_sess ≡ l.rtp_sess)
      × ((progress_handler id scode l).0.forwarded ≡ l.forwarded)
unfolding progress_handler
progress_handler-rest id scode l = (ground arith, ground arith)

module _ (id : ℕ) (parent : Option ℕ) (actions : List CampaignAction) (l : Leg) (p : Rtp)
    (h : Handled) where
  LegEvent-Keeps :
      (g : List ℕ)
      → LegEvent id parent actions l p h
      → ((i : ℕ) → l.rtp_sess ≡ some i → In i g)
      → ((j : ℕ) → parent ≡ some j → In j g)
      → IsPool p
      → Clean p
      → IsHeld p g
      → Keeps p g l h
  LegEvent-Keeps g (closes err scode e) mine ours v c u =
      subst (Keeps p g l) (sym e) (Moves-refl v c u, (close_handler-rest err scode l).0)
  LegEvent-Keeps g (progresses scode e) mine ours v c u =
      subst (Keeps p g l) (sym e) (Moves-refl v c u, (progress_handler-rest id scode l).0)
  LegEvent-Keeps g (establishes now scode a e) mine ours v c u =
      establish_handler-Keeps id now parent a scode l p g h v c u mine ours e
  LegEvent-Keeps g (receives m i at e) mine ours v c u =
      subst (Keeps p g l) (sym e) (Moves-refl v c u, (rtp_recv_handler-rest actions m i l p).0)
  LegEvent-Keeps g (plays o d max_play fuel k t t' ran same e) mine ours v c u =
      subst (Keeps p g l) (sym e) (Moves-refl v c u, refl)

  LegEvent-forwarded : LegEvent id parent actions l p h → h.leg.forwarded ≡ l.forwarded
  LegEvent-forwarded (closes err scode e) =
      subst (λ x. x.leg.forwarded ≡ l.forwarded) (sym e) (close_handler-rest err scode l).1
  LegEvent-forwarded (progresses scode e) =
      subst (λ x. x.leg.forwarded ≡ l.forwarded) (sym e) (progress_handler-rest id scode l).1
  LegEvent-forwarded (establishes now scode a e) =
      establish_handler-forwarded id now parent a scode l p h e
  LegEvent-forwarded (receives m i at e) =
      subst (λ x. x.leg.forwarded ≡ l.forwarded) (sym e) (rtp_recv_handler-rest actions m i l p).1
  LegEvent-forwarded (plays o d max_play fuel k t t' ran same e) =
      subst (λ x. x.leg.forwarded ≡ l.forwarded) (sym e) refl

own_In : (c : Call) (i : ℕ) → c.rtp_sess ≡ some i → In i (held c)
own_In c i e =
    subst (λ o. In i (to_list o ++ to_list (pbx_session c.pbx_call))) (sym e) (λ n. n.0 refl)

pbx_In : (c : Call) (b : Leg) (i : ℕ) → c.pbx_call ≡ some b → b.rtp_sess ≡ some i → In i (held c)
pbx_In c b i has at = λ n.
    let there = All-append_right _ (to_list c.rtp_sess) (to_list (pbx_session c.pbx_call)) n in
    let at' : pbx_session c.pbx_call ≡ some i = rw has at in (rw at' at there).0 refl

-- What a destination's own call goes through keeps its group.
pub call_event-Moves :
    (id : ℕ) (actions : List CampaignAction) (c : Call) (p : Rtp) (h : Handled)
    → LegEvent id none actions c.leg p h
    → IsPool p
    → Clean p
    → IsHeld p (held c)
    → Moves p h.rtp (held c) (held (record c { leg = h.leg }))
call_event-Moves id actions c p h ev v k u =
    let (m, same) =
      LegEvent-Keeps id none actions c.leg p h (held c) ev (own_In c) (λ j e. cc) v k u in
    subst (λ o. Moves p h.rtp (held c) (to_list o ++ to_list (pbx_session c.pbx_call))) (sym same) m

pub call_event-Sane :
    (id : ℕ) (actions : List CampaignAction) (c : Call) (p : Rtp) (h : Handled)
    → LegEvent id none actions c.leg p h
    → Sane (some c)
    → Sane (some (record c { leg = h.leg }))
call_event-Sane id actions c p h ev w =
    λ f. w (sym (LegEvent-forwarded id none actions c.leg p h ev) ∙ f)

pub pbx_event-Moves :
    (id : ℕ) (actions : List CampaignAction) (c : Call) (b : Leg) (p : Rtp) (h : Handled)
    → c.pbx_call ≡ some b
    → LegEvent id c.rtp_sess actions b p h
    → IsPool p
    → Clean p
    → IsHeld p (held c)
    → Moves p h.rtp (held c) (held (record c { pbx_call = some h.leg }))
pbx_event-Moves id actions c b p h has ev v k u =
    let (m, same) =
      LegEvent-Keeps id c.rtp_sess actions b p h (held c) ev (λ i. pbx_In c b i has) (own_In c) v k
        u in
    let now : pbx_session c.pbx_call ≡ h.leg.rtp_sess = rw has (sym same) in
    subst (λ o. Moves p h.rtp (held c) (to_list c.rtp_sess ++ to_list o)) now m
