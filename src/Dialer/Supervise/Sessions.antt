-- ===== src/Dialer/Supervise/Sessions.antt =====
-- on_call_end of src/main.c takes a session for a call to the PBX, and gives back those of a call
-- that has ended.
use mathlib.Core.Path.{subst}
use mathlib.Core.List.{append-nil}
use autodialer_core.Base.{
  ℕ, ◌≡◌, refl, ap, ◌∙◌, sym, ◌⊎◌, inl, inr, Bool, true, false, Bool-cases, Option, none, some,
  List, [], ◌∷◌, ◌++◌, >>=-eq-some, of_some, arith, ltb, leb, ◌&&◌, is_positive, if◌then◌else◌,
}
use autodialer_core.Rtp.{Rtp}
use autodialer_core.Rtp.Pool.{IsPool}
use autodialer_core.Rtp.Ownership.{IsHeld, Clean, Moves, Moves-refl, Moves-trans}
use autodialer_core.Structs.{Call, Destination, Campaign, gateway_at}
use autodialer_core.Call.Release.{pbx_session, call_destructor}
use autodialer_core.Call.Release.Sessions.{to_list}
use autodialer_core.Call.Alloc.{Answers, call_alloc}
use autodialer_core.Call.Ownership.{held, Gains, call_alloc-Gains}
use autodialer_core.Call.Ownership.Ending.{call_destructor-Moves}
use autodialer_core.Dialer.Groups.{held_by, group, Sane}
use autodialer_core.Dialer.Dial.{Setup}
use autodialer_core.Dialer.Supervise.{
  Verdict, stay, gone, requeue, Ticked, target, printed, joined_by, forward, supervise, rows,
  settle, on_call_end,
}

abbrev Same : Call → Call → Type 0
Same c c' = (c'.rtp_sess ≡ c.rtp_sess) × (c'.pbx_call ≡ c.pbx_call) × (c'.forwarded ≡ c.forwarded)

-- A tick forwards the call, or leaves its sessions alone.
supervise_cases :
    (s : Setup) (cp : Campaign) (a : Answers) (now : ℕ) (c : Call) (p : Rtp) (c' : Call) (p' : Rtp)
    → supervise s cp a now c p ≡ some (c', p')
    → ((p' ≡ p) × Same c c') ⊎ ((c.forwarded ≡ false) × (forward s cp a now c p ≡ some (c', p')))
unfolding supervise
supervise_cases s cp a now c p c' p' e = ground arith

Same-Moves :
    (c c' : Call) (p : Rtp)
    → IsPool p
    → Clean p
    → IsHeld p (held c)
    → Same c c'
    → Moves p p (held c) (held c')
Same-Moves c c' p v k g e =
    subst (λ o. Moves p p (held c) (to_list o ++ to_list (pbx_session c'.pbx_call))) (sym e.0)
      (subst (λ o. Moves p p (held c) (to_list c.rtp_sess ++ to_list (pbx_session o))) (sym e.1)
        (Moves-refl v k g))

joined_by-Moves :
    (c : Call) (p q : Rtp) (o : Option Call)
    → c.pbx_call ≡ none
    → Gains p (held c) q o
    → Moves p (joined_by c q o).1 (held c) (held (joined_by c q o).0)
joined_by-Moves c p q none e m = m
joined_by-Moves c p q (some b) e (i, at, _, m) =
    let plain : held c ≡ to_list c.rtp_sess =
      ap (λ o. to_list c.rtp_sess ++ to_list (pbx_session o)) e ∙ append-nil (to_list c.rtp_sess) in
    subst (λ o. Moves p q (held c) (to_list c.rtp_sess ++ to_list o)) (sym at)
      (subst (λ h. Moves p q (held c) (h ++ i ∷ [])) plain m)

forward-Moves :
    (s : Setup) (cp : Campaign) (a : Answers) (now : ℕ) (c : Call) (p : Rtp) (c' : Call) (p' : Rtp)
    → IsPool p
    → Clean p
    → IsHeld p (held c)
    → c.pbx_call ≡ none
    → forward s cp a now c p ≡ some (c', p')
    → Moves p p' (held c) (held c')
unfolding forward
forward-Moves s cp a now c p c' p' v k g alone e =
    let ((number, to), _, e1) = >>=-eq-some (target cp c) _ e in
    let (id, _, e2) = >>=-eq-some to _ e1 in
    let (gw, _, e3) = >>=-eq-some (gateway_at id s.gateways) _ e2 in
    let (r, e4, e5) =
      >>=-eq-some (call_alloc s.lib a s.laddr (printed number) gw.sip_uri (some c.pt) now p) _ e3 in
    let gains =
      call_alloc-Gains s.lib a s.laddr (printed number) gw.sip_uri (some c.pt) now p (held c) r v k
        g e4 in
    subst (λ x. Moves p x.1 (held c) (held x.0)) (of_some e5)
      (joined_by-Moves c p r.rtp r.call alone gains)

supervise-Moves :
    (s : Setup) (cp : Campaign) (a : Answers) (now : ℕ) (c : Call) (p : Rtp) (c' : Call) (p' : Rtp)
    → IsPool p
    → Clean p
    → IsHeld p (held c)
    → Sane (some c)
    → supervise s cp a now c p ≡ some (c', p')
    → Moves p p' (held c) (held c')
supervise-Moves s cp a now c p c' p' v k g w e = elim (supervise_cases s cp a now c p c' p' e) [
  | inl (same, kept) ↦
      subst (λ q. Moves p q (held c) (held c')) (sym same) (Same-Moves c c' p v k g kept)
  | inr (fresh, sent) ↦ forward-Moves s cp a now c p c' p' v k g (w fresh) sent
]

-- What is left of the sessions after a verdict.
abbrev pub left : Verdict → List ℕ
left (stay d) = group d
left gone = []
left (requeue d) = group d

left_over :
    (a b : Bool) (d : Destination)
    → left (if a then gone else if b then gone else requeue (record d { call = none; tmr = false }))
      ≡ []
left_over true b d = refl
left_over false true d = refl
left_over false false d = refl

settle-Moves :
    (s : Setup) (cp : Campaign) (now : ℕ) (d : Destination) (c : Call) (p : Rtp) (t : Ticked)
    → IsPool p
    → Clean p
    → IsHeld p (held c)
    → settle s cp now d c p ≡ some t
    → Moves p t.rtp (held c) (left t.verdict)
unfolding settle call_destructor
settle-Moves s cp now d c p t v k g e = elim (Bool-cases c.ended) [
  | inr running ↦
      subst (λ x. Moves p x.rtp (held c) (left x.verdict)) (of_some (rw (running, settle) at e))
        (Moves-refl v k g)
  | inl over ↦
      let ((stmts, duration), _, e1) = >>=-eq-some (rows s cp now d c) _ (rw (over, settle) at e) in
      subst (λ x. Moves p x.rtp (held c) (left x.verdict)) (of_some e1)
        (subst (Moves p (call_destructor c p).rtp (held c))
          (sym
            (left_over (ltb 0 cp.max_try && leb cp.max_try d.try_count) (is_positive duration) d))
          (call_destructor-Moves c p v k g))
]

pub on_call_end-Moves :
    (s : Setup) (cp : Campaign) (a : Answers) (now : ℕ) (d : Destination) (p : Rtp) (t : Ticked)
    → IsPool p
    → Clean p
    → IsHeld p (group d)
    → Sane d.call
    → on_call_end s cp a now d p ≡ some t
    → Moves p t.rtp (group d) (left t.verdict)
unfolding on_call_end
on_call_end-Moves s cp a now d p t v k g w e =
    let (c, at, e1) = >>=-eq-some d.call _ e in
    let ((c', p'), e2, e3) = >>=-eq-some (supervise s cp a now c p) _ e1 in
    let m =
      supervise-Moves s cp a now c p c' p' v k (subst (λ o. IsHeld p (held_by o)) at g)
        (subst Sane at w) e2 in
    subst (λ o. Moves p t.rtp (held_by o) (left t.verdict)) (sym at)
      (Moves-trans m (settle-Moves s cp now d c' p' t m.pool m.clean m.held e3))

-- The destination that goes on, or goes back, is sane.
abbrev pub StaysSane : Verdict → Type 0
StaysSane (stay d) = Sane d.call
StaysSane gone = Unit
StaysSane (requeue d) = d.call ≡ none

supervise-Sane :
    (s : Setup) (cp : Campaign) (a : Answers) (now : ℕ) (c : Call) (p : Rtp) (c' : Call) (p' : Rtp)
    → Sane (some c)
    → supervise s cp a now c p ≡ some (c', p')
    → Sane (some c')
unfolding supervise
supervise-Sane s cp a now c p c' p' w e = ground (arith, w)

decided_Sane :
    (a b : Bool) (d : Destination)
    → StaysSane
        (if a then gone else if b then gone else requeue (record d { call = none; tmr = false }))
decided_Sane true b d = tt
decided_Sane false true d = tt
decided_Sane false false d = refl

settle-StaysSane :
    (s : Setup) (cp : Campaign) (now : ℕ) (d : Destination) (c : Call) (p : Rtp) (t : Ticked)
    → Sane (some c)
    → settle s cp now d c p ≡ some t
    → StaysSane t.verdict
unfolding settle
settle-StaysSane s cp now d c p t w e = elim (Bool-cases c.ended) [
  | inr running ↦ subst (λ x. StaysSane x.verdict) (of_some (rw (running, settle) at e)) w
  | inl over ↦
      let ((stmts, duration), _, e1) = >>=-eq-some (rows s cp now d c) _ (rw (over, settle) at e) in
      subst (λ x. StaysSane x.verdict) (of_some e1)
        (decided_Sane (ltb 0 cp.max_try && leb cp.max_try d.try_count) (is_positive duration) d)
]

pub on_call_end-StaysSane :
    (s : Setup) (cp : Campaign) (a : Answers) (now : ℕ) (d : Destination) (p : Rtp) (t : Ticked)
    → Sane d.call
    → on_call_end s cp a now d p ≡ some t
    → StaysSane t.verdict
unfolding on_call_end
on_call_end-StaysSane s cp a now d p t w e =
    let (c, at, e1) = >>=-eq-some d.call _ e in
    let ((c', p'), e2, e3) = >>=-eq-some (supervise s cp a now c p) _ e1 in
    settle-StaysSane s cp now d c' p' t (supervise-Sane s cp a now c p c' p' (subst Sane at w) e2)
      e3
