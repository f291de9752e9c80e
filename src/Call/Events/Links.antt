-- ===== src/Call/Events/Links.antt =====
-- An answer of the network to a call of src/call.c links sessions of its group only.
use mathlib.Core.Path.{subst}
use autodialer_core.Base.{
  ℕ, ◌≡◌, refl, inl, inr, Bool, true, false, Bool-cases, Option, Option-cases, some, List, ◌==◌,
  >>=-eq-some, of_some, arith, u8, u16,
}
use autodialer_core.Rtp.{Rtp, set_session}
use autodialer_core.Rtp.Pool.{IsPool}
use autodialer_core.Rtp.Ownership.{
  In, IsHeld, Clean, Moves, Moves-refl, Moves-trans, set_session-Moves,
}
use autodialer_core.Structs.{CampaignAction, Leg, established, is_established}
use autodialer_core.Call.Events.{
  Answer, Handled, Packet, take_action, on_digit, rtp_recv_handler, link, start_media,
  media_started, media_agreed, establish_handler,
}

-- The handler keeps the group and the session of the leg.
abbrev pub Keeps : Rtp → List ℕ → Leg → Handled → Type 0
Keeps p h l d = Moves p d.rtp h h × (d.leg.rtp_sess ≡ l.rtp_sess)

module _ (p : Rtp) (h : List ℕ) (v : IsPool p) (c : Clean p) (g : IsHeld p h) where
  link-Moves : (i j : ℕ) → In i h → In j h → Moves p (link i j p) h h
  unfolding link
  link-Moves i j mi mj =
      let r = record (p.sessions j) { remote = some i } in
      let m = set_session-Moves p j r h v c g mj refl (inr (i, refl, mi)) in
      let q = set_session p j r in
      Moves-trans m (
        set_session-Moves q i (record (q.sessions i) { remote = some j }) h m.pool m.clean m.held mi
          refl (inr (j, refl, mj)))

  start_media-Moves :
      (now : ℕ) (started : Bool) (i : ℕ) (l : Leg)
      → In i h
      → Moves p (start_media now started i l p).1 h h
        × ((start_media now started i l p).0.rtp_sess ≡ l.rtp_sess)
  unfolding start_media
  start_media-Moves now started i l m = (
    set_session-Moves p i (record (p.sessions i) { telev = true; telev_recv = true }) h v c g m refl
        (inl refl),
    ground arith,
  )

media_started-Keeps :
    (id now : ℕ) (parent : Option ℕ) (a : Answer) (i : ℕ) (l : Leg) (p : Rtp)
    (ispbxcall join_pbx : Bool) (h : List ℕ) (d : Handled)
    → IsPool p
    → Clean p
    → IsHeld p h
    → In i h
    → ((j : ℕ) → parent ≡ some j → In j h)
    → media_started id now parent a i l p ispbxcall join_pbx ≡ some d
    → Keeps p h l d
unfolding media_started
media_started-Keeps id now parent a i l p true join_pbx h d v c g inside ours e =
    let (j, up, e1) = >>=-eq-some parent _ e in
    subst (Keeps p h l) (of_some e1) (link-Moves p h v c g i j inside (ours j up), refl)
media_started-Keeps id now parent a i l p false true h d v c g inside ours e =
    subst (Keeps p h l) (of_some e) (Moves-refl v c g, refl)
media_started-Keeps id now parent a i l p false false h d v c g inside ours e =
    subst (Keeps p h l) (of_some e) (start_media-Moves p h v c g now a.thrd_create i l inside)

media_agreed-Keeps :
    (id now : ℕ) (parent : Option ℕ) (a : Answer) (pt : ℕ) (l : Leg) (p : Rtp) (h : List ℕ)
    (d : Handled)
    → IsPool p
    → Clean p
    → IsHeld p h
    → ((i : ℕ) → l.rtp_sess ≡ some i → In i h)
    → ((j : ℕ) → parent ≡ some j → In j h)
    → media_agreed id now parent a pt l p ≡ some d
    → Keeps p h l d
unfolding media_agreed
media_agreed-Keeps id now parent a pt l p h d v c g mine ours e =
    let (i, at, e1) = >>=-eq-some l.rtp_sess _ e in
    let l' : Leg = record l { pt = u8 pt; rtp_dest = a.raddr } in
    let q = set_session p i (record (p.sessions i) { remote_ip = a.raddr }) in
    let m = set_session-Moves p i _ h v c g (mine i at) refl (inl refl) in
    let (n, same) =
      media_started-Keeps id now parent a i l' q l.ispbxcall l.join_pbx h d m.pool m.clean m.held
        (mine i at) ours e1 in
    (Moves-trans m n, same)

pub establish_handler-Keeps :
    (id now : ℕ) (parent : Option ℕ) (a : Answer) (scode : ℕ) (l : Leg) (p : Rtp) (h : List ℕ)
    (d : Handled)
    → IsPool p
    → Clean p
    → IsHeld p h
    → ((i : ℕ) → l.rtp_sess ≡ some i → In i h)
    → ((j : ℕ) → parent ≡ some j → In j h)
    → establish_handler id now parent a scode l p ≡ some d
    → Keeps p h l d
unfolding establish_handler
establish_handler-Keeps id now parent a scode l p h d v c g mine ours e =
    let l2 : Leg = record l {
      resp_code = u16 scode;
      establish_tm = now;
      call_status = established;
    } in
    elim (Bool-cases (is_established l.call_status)) [
      | inl again ↦
          subst (Keeps p h l) (of_some (rw (again, establish_handler) at e))
            (Moves-refl v c g, refl)
      | inr first ↦ elim (Bool-cases (a.sdp_decode == 0)) [
        | inr bad ↦
            subst (Keeps p h l) (of_some (rw (first, bad, establish_handler) at e))
              (Moves-refl v c g, refl)
        | inl good ↦ elim (Option-cases a.rformat) [
          | inl no_format ↦
              subst (Keeps p h l) (of_some (rw (first, good, no_format, establish_handler) at e))
                (Moves-refl v c g, refl)
          | inr (pt, has) ↦ elim (Bool-cases (pt == 101)) [
            | inl events ↦
                subst (Keeps p h l)
                  (of_some (rw (first, good, has, events, establish_handler) at e))
                  (Moves-refl v c g, refl)
            | inr media ↦
                media_agreed-Keeps id now parent a pt l2 p h d v c g mine ours
                  (rw (first, good, has, media, establish_handler) at e)
          ]
        ]
      ]
    ]

on_digit-rest :
    (actions : List CampaignAction) (m : Packet) (l l' : Leg)
    → on_digit actions m l ≡ some l'
    → (l'.rtp_sess ≡ l.rtp_sess) × (l'.forwarded ≡ l.forwarded)
unfolding on_digit take_action
on_digit-rest actions m l l' e = (ground arith, ground arith)

pub rtp_recv_handler-rest :
    (actions : List CampaignAction) (m : Packet) (i : ℕ) (l : Leg) (p : Rtp)
    → ((rtp_recv_handler actions m i l p).0.rtp_sess ≡ l.rtp_sess)
      × ((rtp_recv_handler actions m i l p).0.forwarded ≡ l.forwarded)
unfolding rtp_recv_handler
rtp_recv_handler-rest actions m i l p = elim (Option-cases (on_digit actions m l)) [
  | inl none_taken ↦ rw none_taken (ground arith, ground arith)
  | inr (l', taken) ↦
      let (a, b) = on_digit-rest actions m l l' taken in rw taken (ground arith, ground arith)
]

pub establish_handler-forwarded :
    (id now : ℕ) (parent : Option ℕ) (a : Answer) (scode : ℕ) (l : Leg) (p : Rtp) (h : Handled)
    → establish_handler id now parent a scode l p ≡ some h
    → h.leg.forwarded ≡ l.forwarded
unfolding establish_handler media_agreed media_started start_media
establish_handler-forwarded id now parent a scode l p h e = ground arith
