-- ===== src/Dialer/Campaigns/History.antt =====
-- Histories of a campaign of src/main.c: its timers and the events of its calls in any order.
use mathlib.Core.Path.{subst}
use autodialer_core.Base.{
  Bool-cases, inl, inr, ℕ, ◌≤◌, ◌≡◌, sym, ap, Bool, true, false, Option, none, some, List, [], ◌∷◌,
  ◌++◌, length, length-append, All, All-append, All-append_left, All-append_right, arith,
}
use autodialer_core.Rtp.{Rtp}
use autodialer_core.Structs.{CampaignAction, Leg, Call, Destination}
use autodialer_core.Call.Alloc.{Answers}
use autodialer_core.Call.Events.{
  Answer, Handled, Packet, close_handler, progress_handler, establish_handler, rtp_recv_handler,
}
use autodialer_core.Dialer.Fill.Selection.{IsSort}
use autodialer_core.Dialer.Dial.{Setup}
use autodialer_core.Media.{Codec, Thread, Outside, rtp_thread}
use autodialer_core.Dialer.Campaigns.{
  Dialer, start_fake_calling, campaign_service_handler, call_timer,
}
use autodialer_core.Dialer.Campaigns.Tries.{
  KeepsTries, HasTries, start_fake_calling-KeepsTries, call_timer-KeepsTries,
}
use autodialer_core.Dialer.Campaigns.Conservation.{start_fake_calling_conserves, call_timer-Drops}

-- An event of one leg of a call: what it makes of the leg and the sessions, and what it writes.
-- `id` is the row of the destination, and `parent` the session of its own call.
pub data LegEvent (id : ℕ) (parent : Option ℕ) (actions : List CampaignAction) (l : Leg) (p : Rtp)
    (h : Handled) : Type 0 where
  closes :
      (err scode : ℕ)
      → h ≡ record { leg = close_handler err scode l; rtp = p; stmts = [] }
      → LegEvent id parent actions l p h
  progresses :
      (scode : ℕ)
      → h ≡ record {
        leg = (progress_handler id scode l).0;
        rtp = p;
        stmts = (progress_handler id scode l).1;
      }
      → LegEvent id parent actions l p h
  establishes :
      (now scode : ℕ) (a : Answer)
      → establish_handler id now parent a scode l p ≡ some h
      → LegEvent id parent actions l p h
  receives :
      (m : Packet) (i : ℕ)
      → l.rtp_sess ≡ some i
      → h ≡ record { leg = (rtp_recv_handler actions m i l p).0; rtp = p; stmts = [] }
      → LegEvent id parent actions l p h
  plays :
      (o : Outside) (c : Codec) (max_play fuel k : ℕ) (t t' : Thread)
      → rtp_thread o c max_play fuel k t ≡ some t'
      → (t.ts ≡ l.ts) × (t.num_play ≡ l.num_play)
      → h ≡ record { leg = record l { ts = t'.ts; num_play = t'.num_play }; rtp = p; stmts = [] }
      → LegEvent id parent actions l p h

-- The state with another call at one destination.
abbrev pub with_call :
    Dialer → List Destination → Destination → Call → List Destination → Handled → Dialer
with_call st before d c after h = record {
  cp = record st.cp { processl = before ++ record d { call = some c } ∷ after };
  rtp = h.rtp;
  sqllist = st.sqllist ++ h.stmts;
}

-- libre takes a timer off its list before it calls the handler.
abbrev pub fired : Dialer → Dialer
fired st = record st { cp = record st.cp { tmr = false } }

-- The campaign of a message, as `campaign_service_handler` starts it.
abbrev pub again : Dialer → Dialer
again st = record st { cp = record st.cp { is_running = true; tmr = false } }

pub campaign_service_handler-starts :
    (list_sort : (Destination → Destination → Bool) → List Destination → List Destination)
    (s : Setup) (answers : ℕ → Answers) (now : ℕ) (st st' : Dialer)
    → campaign_service_handler list_sort s answers now st ≡ some st'
    → start_fake_calling list_sort s answers now (again st) ≡ some st'
unfolding campaign_service_handler
campaign_service_handler-starts list_sort s answers now st st' e = elim (Bool-cases st.cp.tmr) [
  | inl on ↦ absurd (cc (rw (on, campaign_service_handler) at e))
  | inr off ↦ rw (off, campaign_service_handler) at e
]

module _ (list_sort : (Destination → Destination → Bool) → List Destination → List Destination)
    (s : Setup) where
  -- One step: the campaign's timer or its message from the database thread, the timer of a
  -- destination, or an event of its call or of the call to the PBX.
  pub data Step (st st' : Dialer) : Type 0 where
    wakes :
        (answers : ℕ → Answers) (now : ℕ)
        → st.cp.tmr ≡ true
        → start_fake_calling list_sort s answers now (fired st) ≡ some st'
        → Step st st'
    serves :
        (answers : ℕ → Answers) (now : ℕ)
        → campaign_service_handler list_sort s answers now st ≡ some st'
        → Step st st'
    ticks :
        (a : Answers) (now : ℕ) (before : List Destination) (d : Destination)
        (after : List Destination)
        → st.cp.processl ≡ before ++ d ∷ after
        → d.tmr ≡ true
        → call_timer s a now before d after st ≡ some st'
        → Step st st'
    call_event :
        (before : List Destination) (d : Destination) (after : List Destination) (c : Call)
        (h : Handled)
        → st.cp.processl ≡ before ++ d ∷ after
        → d.call ≡ some c
        → LegEvent d.dest_id none st.cp.actions c.leg st.rtp h
        → st' ≡ with_call st before d (record c { leg = h.leg }) after h
        → Step st st'
    pbx_event :
        (before : List Destination) (d : Destination) (after : List Destination) (c : Call)
        (b : Leg) (h : Handled)
        → st.cp.processl ≡ before ++ d ∷ after
        → d.call ≡ some c
        → c.pbx_call ≡ some b
        → LegEvent d.dest_id c.rtp_sess st.cp.actions b st.rtp h
        → st' ≡ with_call st before d (record c { pbx_call = some h.leg }) after h
        → Step st st'

  -- Anything but the message.
  abbrev pub IsOwn : {st st' : Dialer} → Step st st' → Type 0
  IsOwn (wakes answers now on e) = Unit
  IsOwn (serves answers now e) = ⊥
  IsOwn (ticks a now before d after at on e) = Unit
  IsOwn (call_event before d after c h at held ev e) = Unit
  IsOwn (pbx_event before d after c b h at held has ev e) = Unit

  pub data Reach (st : Dialer) : Dialer → Type 0 where
    here : Reach st st
    next : {t u : Dialer} → Reach st t → Step t u → Reach st u

  -- No destination was tried more often than the campaign allows, and the process list keeps the
  -- call limit.
  pub record IsSound (st : Dialer) : Type 0 where
    pub tries : KeepsTries st.cp
    pub limit : length st.cp.processl ≤ st.cp.call_limit

  with_call-IsSound :
      (st : Dialer) (before : List Destination) (d : Destination) (after : List Destination)
      (c : Call) (h : Handled)
      → st.cp.processl ≡ before ++ d ∷ after
      → IsSound st
      → IsSound (with_call st before d c after h)
  with_call-IsSound st before d after c h at v =
      let m = st.cp.max_try in
      let all = subst (All (HasTries m)) at v.tries.processed in
      let rest = All-append_right (HasTries m) before (d ∷ after) all in
      let d' : Destination = record d { call = some c } in
      record {
        tries = record {
          limited = v.tries.limited;
          narrow = v.tries.narrow;
          waiting = v.tries.waiting;
          processed =
              All-append (HasTries m) before (d' ∷ after)
                (All-append_left (HasTries m) before (d ∷ after) all)
                (((λ idle. cc), rest.0.1), rest.1);
        };
        limit = omega (
          arith,
          v.limit,
          ap length at,
          length-append before (d ∷ after),
          length-append before (d' ∷ after),
        );
      }

  start_fake_calling-limit :
      (answers : ℕ → Answers) (now : ℕ) (st st' : Dialer)
      → start_fake_calling list_sort s answers now st ≡ some st'
      → st'.cp.call_limit ≡ st.cp.call_limit
  unfolding start_fake_calling
  start_fake_calling-limit answers now st st' e = ground arith

  call_timer-limit :
      (a : Answers) (now : ℕ) (before : List Destination) (d : Destination)
      (after : List Destination) (st st' : Dialer)
      → call_timer s a now before d after st ≡ some st'
      → st'.cp.call_limit ≡ st.cp.call_limit
  unfolding call_timer
  call_timer-limit a now before d after st st' e = ground arith

  wakes-IsSound :
      {st st' : Dialer}
      → IsSort list_sort
      → (answers : ℕ → Answers) (now : ℕ) → start_fake_calling list_sort s answers now st ≡ some st'
      → IsSound st
      → IsSound st'
  wakes-IsSound {st} {st'} law answers now e v = record {
    tries = start_fake_calling-KeepsTries list_sort s answers now st st' law v.tries e;
    limit = omega (
      arith,
      v.limit,
      (start_fake_calling_conserves list_sort s answers now st st' law e).1,
      start_fake_calling-limit answers now st st' e,
    );
  }

  Step-IsSound : {st st' : Dialer} → IsSort list_sort → Step st st' → IsSound st → IsSound st'
  Step-IsSound {st} law (wakes answers now on e) v =
      let tries : KeepsTries (fired st).cp = record {
        limited = v.tries.limited;
        narrow = v.tries.narrow;
        waiting = v.tries.waiting;
        processed = v.tries.processed;
      } in
      wakes-IsSound {st = fired st} law answers now e (record { tries = tries; limit = v.limit })
  Step-IsSound {st} {st'} law (serves answers now e) v =
      let tries : KeepsTries (again st).cp = record {
        limited = v.tries.limited;
        narrow = v.tries.narrow;
        waiting = v.tries.waiting;
        processed = v.tries.processed;
      } in
      wakes-IsSound {st = again st} law answers now
        (campaign_service_handler-starts list_sort s answers now st st' e)
        (record { tries = tries; limit = v.limit })
  Step-IsSound {st} {st'} law (ticks a now before d after at on e) v = record {
    tries = call_timer-KeepsTries s a now before d after st st' at v.tries e;
    limit =
        let (t, _, kept) = call_timer-Drops s a now before d after st st' at e in
        omega (arith, v.limit, kept.1, call_timer-limit a now before d after st st' e);
  }
  Step-IsSound {st} law (call_event before d after c h at held ev e) v =
      subst IsSound (sym e) (with_call-IsSound st before d after (record c { leg = h.leg }) h at v)
  Step-IsSound {st} law (pbx_event before d after c b h at held has ev e) v =
      subst IsSound (sym e)
        (with_call-IsSound st before d after (record c { pbx_call = some h.leg }) h at v)

  -- Whatever order the timers and the events of the calls come in, and whatever the network
  -- answers: if a campaign starts with every destination within its tries and the process list
  -- within the call limit, and `max_try` lies between 1 and 255, that holds ever after. `list_sort`
  -- is taken to sort.
  pub Reach-IsSound : {st st' : Dialer} → IsSort list_sort → IsSound st → Reach st st' → IsSound st'
  Reach-IsSound law v here = v
  Reach-IsSound law v (next r step) = Step-IsSound law step (Reach-IsSound law v r)
