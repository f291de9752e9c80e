-- ===== src/Dialer/Supervise/Routes.antt =====
-- Where on_call_end of src/main.c finds the gateways that it reads through.
pub mod Verdict
use mathlib.Core.Path.{subst}
use autodialer_core.Base.{
  ℕ, ◌≡◌, refl, sym, ap, ◌∙◌, ◌⊎◌, inl, inr, Bool, true, false, not, ◌&&◌, ◌||◌, Bool-cases, Option,
  Option-cases, none, some, is_some, ◌>>=◌, >>=-eq-some, of_some, is_empty, leb, Text, ℤ,
  if◌then◌else◌, List, arith,
}
use autodialer_core.Rtp.{Rtp}
use autodialer_core.Structs.{
  Gateway, gateway_at, CampaignAction, is_established, Leg, Call, Destination, Campaign, Stmt,
}
use autodialer_core.Call.Alloc.{Answers, call_alloc}
use autodialer_core.Call.Alloc.Totality.{call_alloc_total}
use autodialer_core.Dialer.Dial.{Setup}
use autodialer_core.Dialer.Supervise.{
  target, printed, forward, joined, supervise, forwarding_row, rows, Ticked, settle, on_call_end,
}

-- A pointer to a gateway of the list.
abbrev pub leads : Setup → Option ℕ → Bool
leads s o = is_some (o >>= λ id. gateway_at id s.gateways)

-- And the one of the action that a call noted.
abbrev pub action_leads : Setup → Option CampaignAction → Bool
action_leads s none = false
action_leads s (some a) = leads s a.gateway

-- A call of a campaign with this gateway for its PBX and this file: the action that it noted leads
-- to a gateway, or the call is over and was never forwarded; a call that joins the PBX finds its
-- gateway, and plays no file; and only such calls are forwarded.
pub record IsRouted (s : Setup) (pbx : Option ℕ) (file : Option Text) (c : Call) : Type 0 where
  pub noted :
      c.event_received ≡ true
      → (action_leads s c.action ≡ true) ⊎ ((c.ended ≡ true) × (is_some c.pbx_call ≡ false))
  pub joins : c.join_pbx ≡ true → (leads s pbx ≡ true) × (is_some file ≡ false)
  pub linked : is_some c.pbx_call ≡ true → (c.event_received ≡ true) ⊎ (c.join_pbx ≡ true)

impossible : false ≡ true → ⊥
impossible e = cc e

pub given_by {ℓ} : {A : Type ℓ} (o : Option A) → is_some o ≡ true → (a : A) × (o ≡ some a)
given_by none h = absurd (impossible h)
given_by (some a) h = (a, refl)

pub bind_some {ℓ κ} :
    {A : Type ℓ} {B : Type κ} (o : Option A) (f : A → Option B) {a : A} {b : B}
    → o ≡ some a
    → f a ≡ some b
    → (o >>= f) ≡ some b
bind_some o f {b = b} e h = subst (λ x. (x >>= f) ≡ some b) (sym e) h

call_to_total :
    (s : Setup) (a : Answers) (now : ℕ) (c : Call) (p : Rtp) (number : Option Text) (to : Option ℕ)
    → leads s to ≡ true
    → a.sdp_session_alloc ≡ 0
    → is_some (
        to >>= λ id. gateway_at id s.gateways >>= λ gw.
        call_alloc s.lib a s.laddr (printed number) gw.sip_uri (some c.pt) now p)
      ≡ true
call_to_total s a now c p number none h k = absurd (impossible h)
call_to_total s a now c p number (some id) h k = elim (Option-cases (gateway_at id s.gateways)) [
  | inl lost ↦ absurd (impossible (rw lost at h))
  | inr (gw, found) ↦
      rw found (call_alloc_total s.lib a s.laddr (printed number) gw.sip_uri (some c.pt) now p k)
]

forward_total :
    (s : Setup) (cp : Campaign) (a : Answers) (now : ℕ) (c : Call) (p : Rtp)
    → IsRouted s cp.pbx_gateway cp.file_name c
    → c.ended ≡ false
    → (c.event_received || c.join_pbx) ≡ true
    → a.sdp_session_alloc ≡ 0
    → is_some (forward s cp a now c p) ≡ true
unfolding forward target
forward_total s cp a now c p v going way k = elim (Bool-cases c.event_received) [
  | inr none_noted ↦
      let join : c.join_pbx ≡ true = ground (arith, way, none_noted) in
      ground (
        arith,
        none_noted,
        call_to_total s a now c p cp.pbx_number cp.pbx_gateway (v.joins join).0 k,
      )
  | inl noted ↦ elim (v.noted noted) [
    | inr (over, _) ↦ absurd (cc (over, going))
    | inl good ↦ elim (Option-cases c.action) [
      | inl lost ↦ absurd (impossible (rw lost at good))
      | inr (act, found) ↦
          ground (
            arith,
            noted,
            found,
            call_to_total s a now c p act.dest act.gateway (rw found at good) k,
          )
    ]
  ]
]

supervise_total :
    (s : Setup) (cp : Campaign) (a : Answers) (now : ℕ) (c : Call) (p : Rtp)
    → IsRouted s cp.pbx_gateway cp.file_name c
    → a.sdp_session_alloc ≡ 0
    → is_some (supervise s cp a now c p) ≡ true
unfolding supervise joined
supervise_total s cp a now c p v k = elim (Bool-cases c.ended) [
  | inl over ↦ ground (arith, over)
  | inr going ↦ elim (Bool-cases (c.event_received || c.join_pbx)) [
    | inr stays ↦ ground (arith, going, stays)
    | inl way ↦ ground (arith, going, way, forward_total s cp a now c p v going way k)
  ]
]

supervise_keeps :
    (s : Setup) (cp : Campaign) (a : Answers) (now : ℕ) (c : Call) (p : Rtp) (c' : Call) (p' : Rtp)
    → supervise s cp a now c p ≡ some (c', p')
    → (c'.event_received ≡ c.event_received)
      × (c'.action ≡ c.action)
      × (c'.join_pbx ≡ c.join_pbx)
      × (c.ended ≡ true → c'.ended ≡ true)
unfolding supervise
supervise_keeps s cp a now c p c' p' e = ground arith

supervise_links :
    (s : Setup) (cp : Campaign) (a : Answers) (now : ℕ) (c : Call) (p : Rtp) (c' : Call) (p' : Rtp)
    → supervise s cp a now c p ≡ some (c', p')
    → is_some c'.pbx_call ≡ true
    → is_some c.pbx_call ≡ false
    → (c.ended ≡ false) × ((c.event_received || c.join_pbx) ≡ true)
unfolding supervise
supervise_links s cp a now c p c' p' e h k = ground arith

supervise_unlinks :
    (s : Setup) (cp : Campaign) (a : Answers) (now : ℕ) (c : Call) (p : Rtp) (c' : Call) (p' : Rtp)
    → supervise s cp a now c p ≡ some (c', p')
    → c.ended ≡ true
    → c'.pbx_call ≡ c.pbx_call
unfolding supervise
supervise_unlinks s cp a now c p c' p' e h = ground arith

either : (a b : Bool) → (a || b) ≡ true → (a ≡ true) ⊎ (b ≡ true)
either true b h = inl refl
either false b h = inr h

pub supervise-IsRouted :
    (s : Setup) (cp : Campaign) (a : Answers) (now : ℕ) (c : Call) (p : Rtp) (c' : Call) (p' : Rtp)
    → supervise s cp a now c p ≡ some (c', p')
    → IsRouted s cp.pbx_gateway cp.file_name c
    → IsRouted s cp.pbx_gateway cp.file_name c'
supervise-IsRouted s cp a now c p c' p' e v =
    let (ev, act, join, over) = supervise_keeps s cp a now c p c' p' e in
    record {
      noted = λ h. elim (v.noted (sym ev ∙ h)) [
        | inl good ↦ inl (ap (action_leads s) act ∙ good)
        | inr (ended, alone) ↦
            inr (over ended, ap is_some (supervise_unlinks s cp a now c p c' p' e ended) ∙ alone)
      ];
      joins = λ h. v.joins (sym join ∙ h);
      linked = λ h.
          let way : (c.event_received ≡ true) ⊎ (c.join_pbx ≡ true) =
            elim (Bool-cases (is_some c.pbx_call)) [
              | inl was ↦ v.linked was
              | inr new ↦
                  either c.event_received c.join_pbx
                    (supervise_links s cp a now c p c' p' e h new).1
            ] in
          elim way [ inl noted ↦ inl (ev ∙ noted) | inr joins ↦ inr (join ∙ joins) ];
    }

-- The rows of a call that ended.
rows_total :
    (s : Setup) (cp : Campaign) (now : ℕ) (d : Destination) (c : Call)
    → IsRouted s cp.pbx_gateway cp.file_name c
    → leads s cp.gateway ≡ true
    → is_some (rows s cp now d c) ≡ true
unfolding rows forwarding_row
rows_total s cp now d c v own = elim (Option-cases c.pbx_call) [
  | inl alone ↦ ground (arith, alone)
  | inr (b, forwarded) ↦ elim (Bool-cases c.event_received) [
    | inr none_noted ↦ ground (arith, forwarded, none_noted, own)
    | inl noted ↦ elim (v.noted noted) [
      | inr (over, alone) ↦ absurd (impossible (sym alone ∙ ap is_some forwarded))
      | inl good ↦ elim (Option-cases c.action) [
        | inl lost ↦ absurd (impossible (rw lost at good))
        | inr (act, found) ↦
            let leading : leads s act.gateway ≡ true = rw found at good in
            ground (arith, forwarded, noted, found, leading)
      ]
    ]
  ]
]

settle_total :
    (s : Setup) (cp : Campaign) (now : ℕ) (d : Destination) (c : Call) (p : Rtp)
    → IsRouted s cp.pbx_gateway cp.file_name c
    → leads s cp.gateway ≡ true
    → is_some (settle s cp now d c p) ≡ true
unfolding settle
settle_total s cp now d c p v own = ground (arith, rows_total s cp now d c v own)

-- A call, if there is one.
abbrev pub Routed : Setup → Option ℕ → Option Text → Option Call → Type 0
Routed s pbx file none = Unit
Routed s pbx file (some c) = IsRouted s pbx file c

pub on_call_end_total :
    (s : Setup) (cp : Campaign) (a : Answers) (now : ℕ) (d : Destination) (p : Rtp)
    → is_some d.call ≡ true
    → Routed s cp.pbx_gateway cp.file_name d.call
    → leads s cp.gateway ≡ true
    → a.sdp_session_alloc ≡ 0
    → (t : Ticked) × (on_call_end s cp a now d p ≡ some t)
unfolding on_call_end
on_call_end_total s cp a now d p has v own k = elim (Option-cases d.call) [
  | inl alone ↦ absurd (impossible (rw alone at has))
  | inr (c, held) ↦
      let w = subst (Routed s cp.pbx_gateway cp.file_name) held v in
      let ((c', p'), e) =
        given_by (supervise s cp a now c p) (supervise_total s cp a now c p w k) in
      let w' = supervise-IsRouted s cp a now c p c' p' e w in
      let (t, f) = given_by (settle s cp now d c' p') (settle_total s cp now d c' p' w' own) in
      (t, bind_some d.call _ held (bind_some (supervise s cp a now c p) _ e f))
]
