-- ===== src/Dialer/Supervise/Verdicts.antt =====
-- What on_call_end of src/main.c decides on a destination.
use mathlib.Core.Path.{subst}
use autodialer_core.Base.{
  ℕ, ◌≤◌, ◌<◌, ◌≡◌, ◌≢◌, ◌∙◌, ◌⊎◌, inl, inr, Bool-cases, Bool, true, false, none, some, ◌>>=◌,
  >>=-eq-some, is_positive, arith,
}
use autodialer_core.Rtp.{Rtp}
use autodialer_core.Structs.{Leg, Call, Destination, Campaign, is_established}
use autodialer_core.Call.Alloc.{Answers}
use autodialer_core.Dialer.Dial.{Setup}
use autodialer_core.Dialer.Supervise.{
  Verdict, stay, gone, requeue, Ticked, supervise, settle, talk_time, on_call_end,
}

-- What each verdict means for the destination, given the time that counts as its talk.
abbrev pub Decides : Campaign → Destination → Bool → Verdict → Type 0
Decides cp d talked (stay d') =
    (d'.dest_id ≡ d.dest_id)
    × (d'.try_count ≡ d.try_count)
    × (d'.last_try ≡ d.last_try)
    × (d'.call ≢ none)
Decides cp d talked gone = ((0 < cp.max_try) × (cp.max_try ≤ d.try_count)) ⊎ (talked ≡ true)
Decides cp d talked (requeue d') =
    (d' ≡ record d { call = none; tmr = false })
    × ((cp.max_try ≡ 0) ⊎ (d.try_count < cp.max_try))
    × (talked ≡ false)

-- Whether somebody talked: in the call to the PBX if there is one, else in the call itself.
abbrev pub talked : ℕ → Call → Bool
talked now c =
    is_positive (elim c.pbx_call [ none ↦ talk_time now c.leg | some b ↦ talk_time now b ])

module _ (s : Setup) (cp : Campaign) (a : Answers) (now : ℕ) where
  settle-Decides :
      (d : Destination) (c : Call) (p : Rtp) (t : Ticked)
      → settle s cp now d c p ≡ some t
      → Decides cp d (talked now c) t.verdict
  unfolding settle
  settle-Decides d c p t e = ground arith

  supervise-talked :
      (c : Call) (p : Rtp) (c' : Call) (p' : Rtp)
      → supervise s cp a now c p ≡ some (c', p')
      → c'.ended ≡ true
      → talked now c' ≡ talked now c
  unfolding supervise
  supervise-talked c p c' p' e h = ground arith

  settle_running :
      (d : Destination) (c : Call) (p : Rtp) (t : Ticked) (b : Bool)
      → c.ended ≡ false
      → settle s cp now d c p ≡ some t
      → Decides cp d b t.verdict
  unfolding settle
  settle_running d c p t b h e = ground arith

  -- What `on_call_end` decides: a destination that stays keeps its number, its tries and a call;
  -- one is destroyed only if its tries are used up or somebody talked; one is put back, without
  -- its call, only if tries are left (or unlimited) and nobody talked. Once a call is forwarded,
  -- the talk that counts is that with the PBX.
  pub on_call_end-Decides :
      (d : Destination) (c : Call) (p : Rtp) (t : Ticked)
      → d.call ≡ some c
      → on_call_end s cp a now d p ≡ some t
      → Decides cp d (talked now c) t.verdict
  unfolding on_call_end
  on_call_end-Decides d c p t h e =
      let e' : (supervise s cp a now c p >>= λ (c', p'). settle s cp now d c' p') ≡ some t =
        rw h at e in
      let ((c', p'), e1, e2) = >>=-eq-some (supervise s cp a now c p) _ e' in
      elim (Bool-cases c'.ended) [
        | inl over ↦
            subst (λ b. Decides cp d b t.verdict) (supervise-talked c p c' p' e1 over)
              (settle-Decides d c' p' t e2)
        | inr running ↦ settle_running d c' p' t (talked now c) running e2
      ]

  supervise_ended :
      (c : Call) (p : Rtp) (c' : Call) (p' : Rtp)
      → c.ended ≡ true
      → supervise s cp a now c p ≡ some (c', p')
      → (c'.ended ≡ true) × (c'.pbx_call ≡ c.pbx_call)
  unfolding supervise
  supervise_ended c p c' p' h e = ground arith

  settle_unanswered :
      (d : Destination) (c : Call) (b : Leg) (p : Rtp) (t : Ticked)
      → c.ended ≡ true
      → c.pbx_call ≡ some b
      → is_established b.call_status ≡ false
      → (cp.max_try ≡ 0) ⊎ (d.try_count < cp.max_try)
      → settle s cp now d c p ≡ some t
      → t.verdict ≡ requeue (record d { call = none; tmr = false })
  unfolding settle
  settle_unanswered d c b p t h k u m e = ground arith

  -- A destination that answered is called again if its call ended while the call to the PBX was
  -- not established and tries are left, however long it talked itself: `duration` is overwritten by
  -- that of the call to the PBX.
  pub on_call_end_unanswered :
      (d : Destination) (c : Call) (b : Leg) (p : Rtp) (t : Ticked)
      → d.call ≡ some c
      → c.ended ≡ true
      → c.pbx_call ≡ some b
      → is_established b.call_status ≡ false
      → (cp.max_try ≡ 0) ⊎ (d.try_count < cp.max_try)
      → on_call_end s cp a now d p ≡ some t
      → t.verdict ≡ requeue (record d { call = none; tmr = false })
  unfolding on_call_end
  on_call_end_unanswered d c b p t h o k u m e =
      let e' : (supervise s cp a now c p >>= λ (c', p'). settle s cp now d c' p') ≡ some t =
        rw h at e in
      let ((c', p'), e1, e2) = >>=-eq-some (supervise s cp a now c p) _ e' in
      let (o', k') = supervise_ended c p c' p' o e1 in
      settle_unanswered d c' b p' t o' (k' ∙ k) u m e2

  -- It is only for a destination with a call.
  pub on_call_end_held :
      (d : Destination) (p : Rtp) (t : Ticked)
      → on_call_end s cp a now d p ≡ some t
      → (c : Call) × (d.call ≡ some c)
  unfolding on_call_end
  on_call_end_held d p t e = let (c, held, _) = >>=-eq-some d.call _ e in (c, held)
