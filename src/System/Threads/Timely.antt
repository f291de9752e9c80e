-- ===== src/System/Threads/Timely.antt =====
-- The main thread of src/main.c finds the campaigns that mqueue_push sent, if the rounds are far
-- enough apart.
use mathlib.Core.Path.{subst}
use autodialer_core.Base.{
  ℕ, ◌≡◌, ◌≢◌, sym, ◌∙◌, Bool, false, List, [], ◌∷◌, ◌++◌, All, All-append_left, All-append_right,
  All-imp,
}
use autodialer_core.Structs.{Destination}
use autodialer_core.Rows.{Parsers}
use autodialer_core.Rtp.Pool.{Distinct}
use autodialer_core.Rtp.Ownership.{In, NotIn}
use autodialer_core.Config.{load_campaign}
use autodialer_core.Config.Preparing.{prepare_settings}
use autodialer_core.Dialer.Fill.Selection.{IsSort}
use autodialer_core.Dialer.Dial.{Setup}
use autodialer_core.System.{services_of}
use autodialer_core.System.Threads.{
  asleep, preparing, Threads, numbers, with_loaded, Step, syncs, asks, loads_gateway, asks_again,
  loads_campaign, looks, prepares, sleeps, main, Reach, here, next,
}
use autodialer_core.System.Threads.Numbers.{Found, In-Found}
use autodialer_core.System.Threads.Safety.{IsSafe, Reach-IsSafe}
use autodialer_core.Dialer.Campaigns.Timers.{IsClocked}
use autodialer_core.System.Threads.Timers.{Reach-Clocked}
use autodialer_core.System.Threads.Waiting.{Rests, Waiting, Step-Waiting}
use autodialer_core.System.Threads.Messages.{
  left_of, Heard, Heard-first, Heard-second, Heard-loaded, Heard-looks, Heard-pushes, main-Heard,
}

module _ (list_sort : (Destination → Destination → Bool) → List Destination → List Destination)
    (s : Setup) (t : Parsers) where
  -- The database thread asks for the gateways when no message is pending.
  abbrev pub Waits : {x y : Threads} → Step list_sort s t x y → Type 0
  Waits (syncs at e) = Unit
  Waits {x} (asks answer at e) = x.system.messages ≡ []
  Waits (loads_gateway r rows at e) = Unit
  Waits (asks_again answer at e) = Unit
  Waits (loads_campaign r rows at e) = Unit
  Waits (looks at e) = Unit
  Waits (prepares q id left before cp after c pushed at has same done e) = Unit
  Waits (sleeps at e) = Unit
  Waits (main st step mine e) = Unit

  pub data Timely (x : Threads) : Threads → Type 0 where
    at_once : Timely x x
    later : {y z : Threads} → Timely x y → (step : Step list_sort s t y z) → Waits step → Timely x z

  pub Timely-Reach : {x y : Threads} → Timely x y → Reach list_sort s t x y
  Timely-Reach at_once = here
  Timely-Reach (later r step w) = next (Timely-Reach r) step

  Step-Heard :
      {x y : Threads} (step : Step list_sort s t x y)
      → Waits step
      → IsSafe x.system
      → Heard x.system x.phase
      → Heard y.system y.phase
  Step-Heard {x} (syncs at e) w safe v =
      let here = subst (Heard x.system) at v in
      subst (λ z. Heard z.system z.phase) (sym e)
        (record { named = here.named; once = here.once; quiet = tt })
  Step-Heard {x} (asks answer at e) w safe v =
      subst (λ z. Heard z.system z.phase) (sym e)
        (Heard-first x.system answer w (subst (Heard x.system) at v))
  Step-Heard {x} (loads_gateway r rows at e) w safe v =
      let here = subst (Heard x.system) at v in
      subst (λ z. Heard z.system z.phase) (sym e)
        (record { named = here.named; once = here.once; quiet = here.quiet })
  Step-Heard {x} (asks_again answer at e) w safe v =
      subst (λ z. Heard z.system z.phase) (sym e)
        (Heard-second x.system answer (subst (Heard x.system) at v))
  Step-Heard {x} (loads_campaign r rows at e) w safe v =
      let here = subst (Heard x.system) at v in
      subst (λ z. Heard z.system z.phase) (sym e)
        (Heard-loaded (with_loaded x.system (load_campaign t r (services_of x.system))) rows
          here.quiet)
  Step-Heard {x} (looks at e) w safe v =
      let here = subst (Heard x.system) at v in
      subst (λ z. Heard z.system z.phase) (sym e) (Heard-looks x.system safe here.quiet)
  Step-Heard {x} (prepares q id left before cp after c pushed at has same done e) w safe v =
      let here =
        subst (λ i. Heard x.system (preparing (i ∷ left))) (sym same)
          (subst (Heard x.system) at v) in
      let kept = (prepare_settings t q x.system.gateways cp c pushed done).0 in
      subst (λ z. Heard z.system z.phase) (sym e)
        (Heard-pushes x.system before cp c after pushed left has kept here)
  Step-Heard {x} (sleeps at e) w safe v =
      let here = subst (Heard x.system) at v in
      subst (λ z. Heard z.system z.phase) (sym e)
        (record { named = here.named; once = here.once; quiet = tt })
  Step-Heard {x} (main st step mine e) w safe v =
      subst (λ z. Heard z.system z.phase) (sym e) (main-Heard list_sort s x.phase step mine v)

  Timely-Heard :
      {x y : Threads}
      → IsSort list_sort
      → IsSafe x.system
      → Heard x.system x.phase
      → Timely x y
      → Heard y.system y.phase
  Timely-Heard law safe v at_once = v
  Timely-Heard law safe v (later r step w) =
      Step-Heard step w (Reach-IsSafe list_sort s t law safe (Timely-Reach r))
        (Timely-Heard law safe v r)

  Timely-Waiting :
      {x y : Threads}
      → IsSort list_sort
      → IsSafe x.system
      → All IsClocked x.system.services
      → Heard x.system x.phase
      → Waiting x.system
      → Timely x y
      → Waiting y.system
  Timely-Waiting law safe clocked heard v at_once = v
  Timely-Waiting law safe clocked heard v (later r step w) =
      let history = Timely-Reach r in
      Step-Waiting list_sort s t step (Reach-IsSafe list_sort s t law safe (next history step))
        (Reach-Clocked list_sort s t law clocked history) (Timely-Heard law safe heard r)
        (Timely-Waiting law safe clocked heard v r)

  -- Nothing is pending while the database thread sleeps.
  asleep-Heard : (x : Threads) → x.phase ≡ asleep → x.system.messages ≡ [] → Heard x.system x.phase
  asleep-Heard x start none_left = subst (Heard x.system) (sym start) (record {
    named = subst (λ l. All (λ i. In i (numbers x.system.services)) (l ++ [])) (sym none_left) tt;
    once = subst (λ l. Distinct (l ++ [])) (sym none_left) tt;
    quiet = tt;
  })

  -- From a state in which the database thread sleeps and no message is pending, in a history in
  -- which each round asks for the gateways only when no message is pending: the message that the
  -- main thread takes next names a campaign that is in the list and whose timer does not run, and
  -- no message behind it names the same one. `list_sort` is taken to sort, and in the first state
  -- the calls hold sessions of the pool apart, no gateway and no campaign stands twice, the
  -- settings are in their bounds, every campaign's timer runs exactly while the campaign runs, and
  -- every destination's exactly while it has a call.
  pub Timely-Found :
      {x y : Threads} (id : ℕ) (rest : List ℕ)
      → IsSort list_sort
      → IsSafe x.system
      → All IsClocked x.system.services
      → x.phase ≡ asleep
      → x.system.messages ≡ []
      → Timely x y
      → y.system.messages ≡ id ∷ rest
      → (f : Found id y.system.services) × (f.cp.tmr ≡ false) × NotIn id rest
  Timely-Found {x} {y} id rest law safe clocked start none_left r sent =
      let first = asleep-Heard x start none_left in
      let none_wait = subst (All (λ i. Rests i x.system.services)) (sym none_left) tt in
      let v = Timely-Heard law safe first r in
      let waiting =
        subst (All (λ i. Rests i y.system.services)) sent
          (Timely-Waiting law safe clocked first none_wait r) in
      let named =
        subst (λ l. All (λ i. In i (numbers y.system.services)) (l ++ left_of y.phase)) sent
          v.named in
      let once = subst (λ l. Distinct (l ++ left_of y.phase)) sent v.once in
      let f = In-Found id y.system.services named.0 in
      let clocks =
        subst (All IsClocked) f.placed (Reach-Clocked list_sort s t law clocked (Timely-Reach r)) in
      let clock = (All-append_right IsClocked f.before (f.cp ∷ f.after) clocks).0 in
      let resting =
        (All-append_right _ f.before (f.cp ∷ f.after) (subst (Rests id) f.placed waiting.0)).0 in
      (
        f,
        clock.campaign ∙ resting f.named,
        All-imp rest (λ j n e. n (sym e))
            (All-append_left (λ j. id ≢ j) rest (left_of y.phase) once.0),
      )
