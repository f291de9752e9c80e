-- ===== src/Dialer/Supervise/Routes/Verdict.antt =====
-- The call that a destination of src/main.c has after on_call_end.
use mathlib.Core.Path.{subst}
use autodialer_core.Base.{
  ℕ, ◌≡◌, refl, sym, ◌∙◌, [], arith, Bool, true, false, inl, inr, Bool-cases, Option, some, none,
  ◌&&◌, if◌then◌else◌, >>=-eq-some, of_some, ltb, leb, is_positive, Text,
}
use autodialer_core.Rtp.{Rtp}
use autodialer_core.Structs.{Call, Destination, Campaign}
use autodialer_core.Call.Alloc.{Answers}
use autodialer_core.Dialer.Dial.{Setup}
use autodialer_core.Dialer.Supervise.{
  Verdict, stay, gone, requeue, Ticked, supervise, rows, settle, on_call_end,
}
use autodialer_core.Dialer.Supervise.Routes.{IsRouted, Routed, supervise-IsRouted}

abbrev pub StaysRouted : Setup → Option ℕ → Option Text → Verdict → Type 0
StaysRouted s pbx file (stay d) = Routed s pbx file d.call
StaysRouted s pbx file gone = Unit
StaysRouted s pbx file (requeue d) = d.call ≡ none

decided_Routed :
    (s : Setup) (pbx : Option ℕ) (file : Option Text) (a b : Bool) (d : Destination)
    → StaysRouted s pbx file
        (if a then gone else if b then gone else requeue (record d { call = none; tmr = false }))
decided_Routed s pbx file true b d = tt
decided_Routed s pbx file false true d = tt
decided_Routed s pbx file false false d = refl

settle_running :
    (s : Setup) (cp : Campaign) (now : ℕ) (d : Destination) (c : Call) (p : Rtp)
    → c.ended ≡ false
    → settle s cp now d c p
      ≡ some
          (record { verdict = stay (record d { call = some c; tmr = true }); rtp = p; stmts = [] })
unfolding settle
settle_running s cp now d c p h = ground (arith, h)

settle-StaysRouted :
    (s : Setup) (cp : Campaign) (now : ℕ) (d : Destination) (c : Call) (p : Rtp) (t : Ticked)
    → IsRouted s cp.pbx_gateway cp.file_name c
    → settle s cp now d c p ≡ some t
    → StaysRouted s cp.pbx_gateway cp.file_name t.verdict
unfolding settle
settle-StaysRouted s cp now d c p t v e = elim (Bool-cases c.ended) [
  | inr running ↦
      subst (λ x. StaysRouted s cp.pbx_gateway cp.file_name x.verdict)
        (of_some (sym (settle_running s cp now d c p running) ∙ e)) v
  | inl over ↦
      let ((stmts, duration), _, e1) = >>=-eq-some (rows s cp now d c) _ (rw (over, settle) at e) in
      subst (λ x. StaysRouted s cp.pbx_gateway cp.file_name x.verdict) (of_some e1)
        (decided_Routed s cp.pbx_gateway cp.file_name
          (ltb 0 cp.max_try && leb cp.max_try d.try_count) (is_positive duration) d)
]

pub on_call_end-StaysRouted :
    (s : Setup) (cp : Campaign) (a : Answers) (now : ℕ) (d : Destination) (p : Rtp) (t : Ticked)
    → Routed s cp.pbx_gateway cp.file_name d.call
    → on_call_end s cp a now d p ≡ some t
    → StaysRouted s cp.pbx_gateway cp.file_name t.verdict
unfolding on_call_end
on_call_end-StaysRouted s cp a now d p t v e =
    let (c, at, e1) = >>=-eq-some d.call _ e in
    let ((c', p'), e2, e3) = >>=-eq-some (supervise s cp a now c p) _ e1 in
    let w = subst (Routed s cp.pbx_gateway cp.file_name) at v in
    settle-StaysRouted s cp now d c' p' t (supervise-IsRouted s cp a now c p c' p' e2 w) e3
