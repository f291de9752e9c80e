-- ===== src/Dialer/Campaigns/Supply.antt =====
-- start_fake_calling of src/main.c comes to its end if there are sessions enough.
use autodialer_core.Base.{
  ℕ, ◌+◌, ◌≤◌, ◌≡◌, refl, Bool, false, some, is_some, List, [], ◌∷◌, All, length, total,
  total-append, total-perm, if◌then◌else◌, arith,
}
use autodialer_core.Rtp.Pool.{IsPool}
use autodialer_core.Structs.{Destination, Campaign}
use autodialer_core.Call.Alloc.{Answers}
use autodialer_core.Call.Alloc.Supply.{IsFine}
use autodialer_core.Dialer.Fill.{fill_processl}
use autodialer_core.Dialer.Fill.Selection.{IsSort}
use autodialer_core.Dialer.Dial.{Setup}
use autodialer_core.Dialer.Dial.Supply.{Named, wanting, dial_supplies}
use autodialer_core.Dialer.Supervise.Routes.{given_by}
use autodialer_core.Dialer.Campaigns.{Dialer, start_fake_calling}
use autodialer_core.Dialer.Campaigns.Calls.{Idle}
use autodialer_core.Dialer.Campaigns.Conservation.{fill_processl-perm}
use autodialer_core.Dialer.Campaigns.History.{fired, Reach, IsSound, Reach-IsSound}
use autodialer_core.Dialer.Campaigns.Timers.{IsClocked}
use autodialer_core.Dialer.Campaigns.Wiring.{IsWired, rewired, fill_processl-Finds}
use autodialer_core.Dialer.Campaigns.Routes.{Reach-IsWired}

-- A destination that has a call counts one.
abbrev pub talks : Destination → ℕ
talks d = if is_some d.call then 1 else 0

wanting_rest : (ds : List Destination) → wanting ds + total talks ds ≡ length ds
unfolding wanting
wanting_rest [] = refl
wanting_rest (d ∷ ds) = ground (arith, wanting_rest ds)

total-Idle : (ds : List Destination) → All Idle ds → total talks ds ≡ 0
total-Idle [] h = refl
total-Idle (d ∷ ds) h = ground (arith, h.0, total-Idle ds h.1)

-- Filling the process list adds no call.
filled_talks :
    (list_sort : (Destination → Destination → Bool) → List Destination → List Destination)
    (s : Setup) (cp : Campaign) (now : ℕ)
    → IsSort list_sort
    → IsWired s cp
    → let r =
        fill_processl list_sort now cp.retry_delay cp.call_limit cp.destinations cp.processl in
      total talks r.1 ≡ total talks cp.processl
filled_talks list_sort s cp now law v =
    let (ds, pl) =
      fill_processl list_sort now cp.retry_delay cp.call_limit cp.destinations cp.processl in
    let (same, _) =
      fill_processl-perm list_sort now cp.retry_delay cp.call_limit cp.destinations cp.processl
        law in
    let (idle, _) =
      fill_processl-Finds list_sort s cp now cp.retry_delay cp.call_limit cp.destinations
        cp.processl law v.waiting v.calls in
    omega (
      arith,
      total-perm talks same,
      total-append talks ds pl,
      total-append talks cp.destinations cp.processl,
      total-Idle ds idle,
      total-Idle cp.destinations v.waiting,
    )

start_fake_calling_supplies :
    (list_sort : (Destination → Destination → Bool) → List Destination → List Destination)
    (s : Setup) (answers : ℕ → Answers) (now : ℕ) (st : Dialer)
    → IsSort list_sort
    → IsWired s st.cp
    → Named st.cp.file_name
    → ((j : ℕ) → IsFine (answers j))
    → IsPool st.rtp
    → length st.cp.processl ≤ st.cp.call_limit
    → st.cp.call_limit ≤ length st.rtp.rtp_sessions + total talks st.cp.processl
    → (u : Dialer) × (start_fake_calling list_sort s answers now st ≡ some u)
unfolding start_fake_calling
start_fake_calling_supplies list_sort s answers now st law v n f pool fits room =
    let cp = st.cp in
    let (ds, pl) =
      fill_processl list_sort now cp.retry_delay cp.call_limit cp.destinations cp.processl in
    let (_, bound) =
      fill_processl-perm list_sort now cp.retry_delay cp.call_limit cp.destinations cp.processl
        law in
    let few : wanting pl ≤ length st.rtp.rtp_sessions =
      omega (arith, bound, fits, room, wanting_rest pl, filled_talks list_sort s cp now law v) in
    let (r, e) = dial_supplies s cp answers now 0 pl st.rtp n v.own f pool few in
    given_by (start_fake_calling list_sort s answers now st) (ground (arith, e))

module _ (list_sort : (Destination → Destination → Bool) → List Destination → List Destination)
    (s : Setup) where
  -- In whatever order the timers and the events of the calls came: the campaign's timer handler
  -- comes to its end, if no step of setting up a call fails, the audio file, if there is one, has a
  -- '.' in its name, and the pool is sound and has a free session for each place of the process
  -- list that no call takes. The campaign starts as `IsWired`, `IsClocked` and `IsSound` say, and
  -- `list_sort` is taken to sort.
  pub Reach-calls :
      {st st' : Dialer} (answers : ℕ → Answers) (now : ℕ)
      → IsSort list_sort
      → IsWired s st.cp
      → IsClocked st.cp
      → IsSound list_sort s st
      → Reach list_sort s st st'
      → Named st'.cp.file_name
      → ((j : ℕ) → IsFine (answers j))
      → IsPool st'.rtp
      → st'.cp.call_limit ≤ length st'.rtp.rtp_sessions + total talks st'.cp.processl
      → (u : Dialer) × (start_fake_calling list_sort s answers now (fired st') ≡ some u)
  Reach-calls {st' = st'} answers now law v w k r n f pool room =
      let (wired, _) = Reach-IsWired list_sort s law v w r in
      start_fake_calling_supplies list_sort s answers now (fired st') law
        (rewired s st'.cp st'.cp.destinations st'.cp.processl false st'.cp.is_running wired
          wired.waiting wired.calls)
        n f pool (Reach-IsSound list_sort s law k r).limit room
