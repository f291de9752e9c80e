-- ===== src/Dialer/Campaigns/Budget/Histories.antt =====
-- The calls that stay in the process list of a campaign of src/main.c use up its tries. A call that
-- is dropped in the run that set it up uses up none: it is made again in the next run.
use mathlib.Core.Path.{subst}
use autodialer_core.Base.{ℕ, ◌+◌, ◌≤◌, sym, Bool, some, List, arith}
use autodialer_core.Structs.{Destination}
use autodialer_core.Dialer.Fill.Selection.{IsSort}
use autodialer_core.Dialer.Dial.{Setup}
use autodialer_core.Dialer.Campaigns.{Dialer}
use autodialer_core.Dialer.Campaigns.Tries.{KeepsTries}
use autodialer_core.Dialer.Campaigns.History.{
  again, campaign_service_handler-starts, fired, Step, wakes, serves, ticks, call_event, pbx_event,
  Reach, here, next, IsSound, Reach-IsSound,
}
use autodialer_core.Dialer.Campaigns.Budget.{
  budget, calls_kept, filled, wakes-budget, ticks-budget, with_call-budget,
}

module _ (list_sort : (Destination → Destination → Bool) → List Destination → List Destination)
    (s : Setup) where
  -- The calls that a step leaves to destinations which had none, and those of a history.
  unfoldable pub kept : {st st' : Dialer} → Step list_sort s st st' → ℕ
  kept {st} {st'} (wakes answers now on e) = calls_kept (filled list_sort now st.cp) st'.cp.processl
  kept {st} {st'} (serves answers now e) = calls_kept (filled list_sort now st.cp) st'.cp.processl
  kept (ticks a now before d after at on e) = 0
  kept (call_event before d after c h at held ev e) = 0
  kept (pbx_event before d after c b h at held has ev e) = 0

  unfoldable pub all_kept : {st st' : Dialer} → Reach list_sort s st st' → ℕ
  unfolding kept
  all_kept here = 0
  all_kept (next r step) = all_kept r + kept step

  Step-budget :
      {st st' : Dialer}
      → IsSort list_sort
      → (step : Step list_sort s st st') → IsSound list_sort s st
      → kept step + budget st'.cp ≤ budget st.cp
  unfolding kept
  Step-budget {st} {st'} law (wakes answers now on e) v =
      let (same, _) =
        wakes-budget list_sort s answers now (fired st) st' law
          (record {
            limited = v.tries.limited;
            narrow = v.tries.narrow;
            waiting = v.tries.waiting;
            processed = v.tries.processed;
          })
          e in
      omega (arith, same)
  Step-budget {st} {st'} law (serves answers now e) v =
      let tries : KeepsTries (again st).cp = record {
        limited = v.tries.limited;
        narrow = v.tries.narrow;
        waiting = v.tries.waiting;
        processed = v.tries.processed;
      } in
      let (same, _) =
        wakes-budget list_sort s answers now (again st) st' law tries
          (campaign_service_handler-starts list_sort s answers now st st' e) in
      omega (arith, same)
  Step-budget {st} {st'} law (ticks a now before d after at on e) v =
      omega (arith, ticks-budget s a now before d after st st' at e)
  Step-budget {st} {st'} law (call_event before d after c h at held ev e) v =
      subst (λ x. 0 + budget x.cp ≤ budget st.cp) (sym e)
        (omega (arith, with_call-budget st before d after (record c { leg = h.leg }) h at))
  Step-budget {st} {st'} law (pbx_event before d after c b h at held has ev e) v =
      subst (λ x. 0 + budget x.cp ≤ budget st.cp) (sym e)
        (omega
          (arith, with_call-budget st before d after (record c { pbx_call = some h.leg }) h at))

  -- In whatever order the timers and the events of the calls come, and whatever the network
  -- answers: if the campaign starts with every destination within its tries and the process list
  -- within the call limit, and `max_try` lies between 1 and 255, the calls that runs of
  -- `start_fake_calling` leave standing in a history and the tries that are left after it are
  -- together at most the tries that were left before. Calls that the run which set them up drops
  -- again, because the audio file is missing or no PBX is set, are not counted, and nothing here
  -- bounds their number. `list_sort` is taken to sort.
  pub Reach-budget :
      {st st' : Dialer}
      → IsSort list_sort
      → IsSound list_sort s st
      → (r : Reach list_sort s st st') → all_kept r + budget st'.cp ≤ budget st.cp
  unfolding all_kept
  Reach-budget law v here = omega arith
  Reach-budget {st} {st'} law v (next r step) =
      omega (arith, Reach-budget law v r, Step-budget law step (Reach-IsSound list_sort s law v r))
