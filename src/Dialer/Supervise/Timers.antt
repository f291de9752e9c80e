-- ===== src/Dialer/Supervise/Timers.antt =====
-- The timer of a destination of src/main.c after on_call_end.
use mathlib.Core.Path.{subst}
use autodialer_core.Base.{
  ℕ, ◌≡◌, refl, Bool, true, false, inl, inr, Bool-cases, some, none, is_some, ◌&&◌, if◌then◌else◌,
  >>=-eq-some, of_some, ltb, leb, is_positive,
}
use autodialer_core.Rtp.{Rtp}
use autodialer_core.Structs.{Call, Destination, Campaign}
use autodialer_core.Call.Alloc.{Answers}
use autodialer_core.Dialer.Dial.{Setup}
use autodialer_core.Dialer.Supervise.{
  Verdict, stay, gone, requeue, Ticked, supervise, rows, settle, on_call_end,
}

-- A destination's timer runs exactly while it has a call.
abbrev pub Clocked : Destination → Type 0
Clocked d = d.tmr ≡ is_some d.call

abbrev pub StaysClocked : Verdict → Type 0
StaysClocked (stay d) = Clocked d
StaysClocked gone = Unit
StaysClocked (requeue d) = Clocked d

decided_Clocked :
    (a b : Bool) (d : Destination)
    → StaysClocked
        (if a then gone else if b then gone else requeue (record d { call = none; tmr = false }))
decided_Clocked true b d = tt
decided_Clocked false true d = tt
decided_Clocked false false d = refl

settle-StaysClocked :
    (s : Setup) (cp : Campaign) (now : ℕ) (d : Destination) (c : Call) (p : Rtp) (t : Ticked)
    → settle s cp now d c p ≡ some t
    → StaysClocked t.verdict
unfolding settle
settle-StaysClocked s cp now d c p t e = elim (Bool-cases c.ended) [
  | inr running ↦ subst (λ x. StaysClocked x.verdict) (of_some (rw (running, settle) at e)) refl
  | inl over ↦
      let ((stmts, duration), _, e1) = >>=-eq-some (rows s cp now d c) _ (rw (over, settle) at e) in
      subst (λ x. StaysClocked x.verdict) (of_some e1)
        (decided_Clocked (ltb 0 cp.max_try && leb cp.max_try d.try_count) (is_positive duration) d)
]

pub on_call_end-StaysClocked :
    (s : Setup) (cp : Campaign) (a : Answers) (now : ℕ) (d : Destination) (p : Rtp) (t : Ticked)
    → on_call_end s cp a now d p ≡ some t
    → StaysClocked t.verdict
unfolding on_call_end
on_call_end-StaysClocked s cp a now d p t e =
    let (c, at, e1) = >>=-eq-some d.call _ e in
    let ((c', p'), e2, e3) = >>=-eq-some (supervise s cp a now c p) _ e1 in
    settle-StaysClocked s cp now d c' p' t e3
