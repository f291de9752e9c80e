-- ===== src/Dialer/Supervise/Limits.antt =====
-- How long on_call_end of src/main.c lets a call run.
use autodialer_core.Base.{
  ℕ, ◌+◌, ◌≤◌, ◌<◌, ◌≡◌, true, false, ◌⊎◌, Option, none, some, is_empty, arith, ◌>>=◌, >>=-eq-some,
}
use autodialer_core.Rtp.{Rtp}
use autodialer_core.Structs.{Leg, Call, Destination, Campaign, status_code, is_established}
use autodialer_core.Call.Alloc.{Answers}
use autodialer_core.Dialer.Dial.{Setup}
use autodialer_core.Dialer.Supervise.{Ticked, stay, supervise, settle, on_call_end}

abbrev pub PbxRunning : Option Leg → Type 0
PbxRunning none = Unit
PbxRunning (some b) = b.ended ≡ false

-- The limits that a call `c` keeps which goes on as `c'` after the tick at `now`.
pub record WithinLimits (cp : Campaign) (now : ℕ) (c c' : Call) : Type 0 where
  pub running : c'.ended ≡ false
  pub answered_soon : status_code c'.call_status < 3 → now ≤ c'.connect_tm + 40
  pub played :
      is_established c'.call_status ≡ true → is_empty cp.actions ≡ true → c'.num_play < cp.max_play
  pub short :
      is_established c'.call_status ≡ true
      → c'.forwarded ≡ false
      → 0 < cp.max_call_duration
      → (c'.event_received ≡ true)
        ⊎ (c'.join_pbx ≡ true)
        ⊎ (now ≤ c'.establish_tm + cp.max_call_duration)
  pub half_hour :
      is_established c'.call_status ≡ true
      → c.forwarded ≡ true
      → (c'.event_received ≡ true) ⊎ (c'.join_pbx ≡ true)
      → now ≤ c'.establish_tm + 1800
  pub pbx_alive :
      is_established c'.call_status ≡ true
      → c.forwarded ≡ true
      → (c'.event_received ≡ true) ⊎ (c'.join_pbx ≡ true)
      → PbxRunning c'.pbx_call

module _ (s : Setup) (cp : Campaign) (a : Answers) (now : ℕ) where
  supervise-WithinLimits :
      (c : Call) (p : Rtp) (c' : Call) (p' : Rtp)
      → supervise s cp a now c p ≡ some (c', p')
      → c'.ended ≡ false
      → WithinLimits cp now c c'
  unfolding supervise
  supervise-WithinLimits c p c' p' e h = ground arith

  settle-stay :
      (d : Destination) (c : Call) (p : Rtp) (t : Ticked) (d' : Destination)
      → settle s cp now d c p ≡ some t
      → t.verdict ≡ stay d'
      → (c.ended ≡ false) × (d'.call ≡ some c) × (d'.tmr ≡ true)
  unfolding settle
  settle-stay d c p t d' e h = ground arith

  -- A call that `on_call_end` lets go on has not ended and keeps the limits: 40 seconds to be
  -- answered; without actions, fewer rounds of the audio than the campaign plays; unless it is
  -- forwarded or to be, the campaign's duration; once forwarded, half an hour, and no longer than
  -- the call to the PBX. Its timer runs again.
  pub on_call_end-WithinLimits :
      (d : Destination) (c : Call) (p : Rtp) (t : Ticked) (d' : Destination)
      → d.call ≡ some c
      → on_call_end s cp a now d p ≡ some t
      → t.verdict ≡ stay d'
      → (c' : Call) × (d'.call ≡ some c') × (d'.tmr ≡ true) × WithinLimits cp now c c'
  unfolding on_call_end
  on_call_end-WithinLimits d c p t d' h e v =
      let e' : (supervise s cp a now c p >>= λ (c', p'). settle s cp now d c' p') ≡ some t =
        rw h at e in
      let ((c', p'), e1, e2) = >>=-eq-some (supervise s cp a now c p) _ e' in
      let (running, held, timer) = settle-stay d c' p' t d' e2 v in
      (c', held, timer, supervise-WithinLimits c p c' p' e1 running)
