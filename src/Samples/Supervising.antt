-- ===== src/Samples/Supervising.antt =====
-- on_call_end and the timer of a destination on small inputs.
use autodialer_core.Base.{ℕ, ◌≡◌, refl, true, false, inr, none, some, [], ◌∷◌, arith}
use autodialer_core.Structs.{established, Call, Destination}
use autodialer_core.Dialer.Supervise.{gone, requeue, Ticked, on_call_end}
use autodialer_core.Dialer.Supervise.Limits.{WithinLimits, on_call_end-WithinLimits}
use autodialer_core.Dialer.Supervise.Rows.{RowsOf, on_call_end-RowsOf}
use autodialer_core.Dialer.Supervise.Verdicts.{
  Decides, talked, on_call_end-Decides, on_call_end_unanswered,
}
use autodialer_core.Dialer.Campaigns.{Dialer, call_timer}
use autodialer_core.Dialer.Campaigns.Tries.{KeepsTries}
use autodialer_core.Samples.{
  program, half_used, fine, setup, campaign, idle_destination, fresh_leg, dialler,
}

abbrev with : Call → Destination
with c = record (idle_destination 3) { call = some c; try_count = 1; last_try = 100; tmr = true }

abbrev on_end : ℕ → Destination → Ticked
on_end now d = elim (on_call_end setup campaign fine now d half_used) [
  | none ↦ record { verdict = gone; rtp = half_used; stmts = [] }
  | some t ↦ t
]

-- A call that rings since 100.
abbrev ringing_call : Call
ringing_call = record { leg = fresh_leg; pbx_call = none }

on_call_end-WithinLimits_example :
    (c' : Call) × ((with ringing_call).call ≡ some c')
    × ((with ringing_call).tmr ≡ true)
    × WithinLimits campaign 120 ringing_call c'
unfolding program
on_call_end-WithinLimits_example =
    on_call_end-WithinLimits setup campaign fine 120 (with ringing_call) ringing_call half_used
      (on_end 120 (with ringing_call)) (with ringing_call) refl refl refl

-- At 150 it has rung for too long.
on_call_end-RowsOf_example :
    let t = on_end 150 (with ringing_call) in RowsOf 150 (with ringing_call) t.verdict t.stmts
unfolding program
on_call_end-RowsOf_example =
    on_call_end-RowsOf setup campaign fine 150 (with ringing_call) half_used
      (on_end 150 (with ringing_call)) refl

-- A call that was answered at 110 and has ended.
abbrev answered_call : Call
answered_call = record {
  leg = record fresh_leg { call_status = established; establish_tm = 110; ended = true };
  pbx_call = none;
}

on_call_end-Decides_example :
    Decides campaign
      (with answered_call)
      (talked 150 answered_call)
      (on_end 150 (with answered_call)).verdict
unfolding program
on_call_end-Decides_example =
    on_call_end-Decides setup campaign fine 150 (with answered_call) answered_call half_used
      (on_end 150 (with answered_call)) refl refl

-- It was passed on to a PBX that did not answer.
abbrev passed_call : Call
passed_call = record answered_call {
  pbx_call = some (record fresh_leg { rtp_sess = some 1; ispbxcall = true });
}

on_call_end_unanswered_example :
    (on_end 150 (with passed_call)).verdict
    ≡ requeue (record (with passed_call) { call = none; tmr = false })
unfolding program
on_call_end_unanswered_example =
    on_call_end_unanswered setup campaign fine 150 (with passed_call) passed_call
      (record fresh_leg { rtp_sess = some 1; ispbxcall = true }) half_used
      (on_end 150 (with passed_call)) refl refl refl refl (inr (omega arith)) refl

abbrev calling : Dialer
calling = record dialler {
  cp = record campaign {
    destinations = idle_destination 1 ∷ [];
    processl = with answered_call ∷ [];
  };
}

calling-KeepsTries : KeepsTries calling.cp
calling-KeepsTries = record {
  limited = omega arith;
  narrow = omega arith;
  waiting = ((refl, omega arith), tt);
  processed = (((λ e. omega arith), omega arith), tt);
}

-- After the tick at 150.
abbrev ticked : Dialer
ticked = elim (call_timer setup fine 150 [] (with answered_call) [] calling) [
  | none ↦ calling
  | some st ↦ st
]
