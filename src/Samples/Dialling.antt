-- ===== src/Samples/Dialling.antt =====
-- The process list and the dialling loop on small inputs.
use mathlib.Core.List.{Perm}
use mathlib.Core.List.Perm
use autodialer_core.Base.{
  ℕ, ◌+◌, ◌≡◌, refl, Bool, false, Bool-cases, inl, inr, none, some, List, [], ◌∷◌, ◌++◌, arith, ◌≤◌,
  length, All, All-imp, All-perm, if◌then◌else◌,
}
use autodialer_core.Structs.{Destination}
use autodialer_core.Call.Alloc.{Answers}
use autodialer_core.Dialer.Fill.{destination_sort_handler, too_early, fill_processl}
use autodialer_core.Dialer.Fill.Selection.{Filled, Pairs, IsOrder, IsSort, fill_processl-Filled}
use autodialer_core.Dialer.Dial.{Round, dial}
use autodialer_core.Dialer.Dial.Attempts.{Attempt, Each, dial-Attempt}
use autodialer_core.Dialer.Campaigns.{Dialer, start_fake_calling, call_timer}
use autodialer_core.Dialer.Campaigns.Tries.{KeepsTries}
use autodialer_core.Dialer.Campaigns.Conservation.{all_ids, start_fake_calling_conserves}
use autodialer_core.Dialer.Campaigns.Budget.{budget}
use autodialer_core.Dialer.Campaigns.Budget.Histories.{kept, all_kept, Reach-budget}
use autodialer_core.Dialer.Campaigns.History.{fired, here, next, wakes, IsSound, Reach-IsSound}
use autodialer_core.Dialer.Campaigns.Routes.{Reach-ticks}
use autodialer_core.Dialer.Campaigns.Wiring.{IsWired}
use autodialer_core.Dialer.Campaigns.Supply.{Reach-calls}
use autodialer_core.Dialer.Dial.{base_name}
use autodialer_core.Rtp.Pool.{busy}
use autodialer_core.Samples.{program, half_used, fine, setup, campaign, idle_destination, dialler}

-- An insertion sort by a handler.
module _ (h : Destination → Destination → Bool) where
  unfoldable pub insert : Destination → List Destination → List Destination
  insert d [] = d ∷ []
  insert d (e ∷ es) = let rest = insert d es in if h d e then d ∷ e ∷ es else e ∷ rest

  unfoldable pub insertion_sort : List Destination → List Destination
  unfolding insert
  insertion_sort [] = []
  insertion_sort (d ∷ ds) = insert d (insertion_sort ds)

  insert-perm : (d : Destination) (es : List Destination) → Perm (insert d es) (d ∷ es)
  unfolding insert
  insert-perm d [] = Perm.rfl
  insert-perm d (e ∷ es) = elim (Bool-cases (h d e)) [
    | inl first ↦ rw first Perm.rfl
    | inr later ↦ rw later (Perm.trans (Perm.cons e (insert-perm d es)) (Perm.swap d e es))
  ]

  insertion_sort-perm : (ds : List Destination) → Perm (insertion_sort ds) ds
  unfolding insertion_sort
  insertion_sort-perm [] = Perm.rfl
  insertion_sort-perm (d ∷ ds) =
      Perm.trans (insert-perm d (insertion_sort ds)) (Perm.cons d (insertion_sort-perm ds))

  insert-Pairs :
      (d : Destination) (es : List Destination) → IsOrder h → Pairs h es → Pairs h (insert d es)
  unfolding insert
  insert-Pairs d [] o p = (tt, tt)
  insert-Pairs d (e ∷ es) o p = elim (Bool-cases (h d e)) [
    | inl first ↦ rw first ((first, All-imp es (λ f g. o.trans d e f first g) p.0), p)
    | inr later ↦ rw later (
      All-perm _ (λ f. hlevel) (Perm.symm (insert-perm d es)) (o.total d e later, p.0),
      insert-Pairs d es o p.1,
    )
  ]

  insertion_sort-Pairs : (ds : List Destination) → IsOrder h → Pairs h (insertion_sort ds)
  unfolding insertion_sort
  insertion_sort-Pairs [] o = tt
  insertion_sort-Pairs (d ∷ ds) o = insert-Pairs d (insertion_sort ds) o (insertion_sort-Pairs ds o)

pub insertion_sort-IsSort : IsSort insertion_sort
insertion_sort-IsSort = record {
  sort-perm = insertion_sort-perm;
  sort-Pairs = insertion_sort-Pairs;
}

-- Tried once before, at 90.
abbrev tried : Destination
tried = record (idle_destination 3) { try_count = 1; last_try = 90 }

fill_processl-Filled_example :
    let sorted = insertion_sort destination_sort_handler (tried ∷ campaign.destinations) in
    let r = fill_processl insertion_sort 100 60 1 (tried ∷ campaign.destinations) [] in
    (f : Filled 100 60 1 sorted [] r) × Perm (r.0 ++ f.moved) (tried ∷ campaign.destinations)
    × All (λ m. All (λ k. too_early 100 60 k ≡ false → m.try_count ≤ k.try_count) r.0) f.moved
fill_processl-Filled_example =
    fill_processl-Filled insertion_sort 100 60 1 (tried ∷ campaign.destinations) []
      insertion_sort-IsSort (omega arith)

abbrev pub calm : ℕ → Answers
calm k = fine

abbrev round : Round
round = elim (dial setup campaign calm 100 0 (tried ∷ []) half_used) [
  | none ↦ record { dests = []; rtp = half_used; stmts = [] }
  | some r ↦ r
]

dial-Attempt_example : Each (Attempt 100) (tried ∷ []) round.dests
unfolding program
dial-Attempt_example =
    dial-Attempt setup campaign calm 100 0 (tried ∷ []) half_used round (omega arith, tt) refl

campaign-KeepsTries : KeepsTries campaign
campaign-KeepsTries = record {
  limited = omega arith;
  narrow = omega arith;
  waiting = ((refl, omega arith), ((refl, omega arith), tt));
  processed = tt;
}

-- The campaign after a first round.
abbrev pub dialled : Dialer
dialled = elim (start_fake_calling insertion_sort setup calm 100 dialler) [
  | none ↦ dialler
  | some st ↦ st
]

start_fake_calling_conserves_example :
    Perm (all_ids dialled.cp) (all_ids campaign) × (length dialled.cp.processl ≤ 1)
unfolding program insertion_sort
start_fake_calling_conserves_example =
    start_fake_calling_conserves insertion_sort setup calm 100 dialler dialled insertion_sort-IsSort
      refl

Reach-IsSound_example : IsSound insertion_sort setup dialled
unfolding program insertion_sort
Reach-IsSound_example =
    Reach-IsSound insertion_sort setup {st = dialler} {st' = dialled} insertion_sort-IsSort
      (record { tries = campaign-KeepsTries; limit = omega arith })
      (next here (wakes calm 100 refl refl))

-- The history of that round, in which one call begins.
Reach-budget_example : 1 + budget dialled.cp ≤ budget campaign
unfolding program insertion_sort all_kept kept
Reach-budget_example =
    Reach-budget insertion_sort setup {st = dialler} {st' = dialled} insertion_sort-IsSort
      (record { tries = campaign-KeepsTries; limit = omega arith })
      (next here (wakes calm 100 refl refl))

campaign-IsWired : IsWired setup campaign
unfolding program
campaign-IsWired = record {
  own = refl;
  pbx = λ h. cc h;
  goes = (inl refl, tt);
  waiting = (refl, (refl, tt));
  calls = tt;
}

-- The destination that the round called.
abbrev called : Destination
called = elim dialled.cp.processl [ [] ↦ tried | ◌∷◌ d ds ↦ d ]

Reach-ticks_example : (u : Dialer) × (call_timer setup fine 101 [] called [] dialled ≡ some u)
unfolding program insertion_sort
Reach-ticks_example =
    Reach-ticks insertion_sort setup {st = dialler} {st' = dialled} fine 101 [] called []
      insertion_sort-IsSort campaign-IsWired
      (record { campaign = refl; waiting = (refl, (refl, tt)); processed = tt })
      (next here (wakes calm 100 refl refl)) refl refl refl

-- The next tick of the campaign's timer, with no session free and no place left.
Reach-calls_example :
    (u : Dialer) × (start_fake_calling insertion_sort setup calm 110 (fired dialled) ≡ some u)
unfolding program insertion_sort busy base_name
Reach-calls_example =
    Reach-calls insertion_sort setup {st = dialler} {st' = dialled} calm 110 insertion_sort-IsSort
      campaign-IsWired (record { campaign = refl; waiting = (refl, (refl, tt)); processed = tt })
      (record { tries = campaign-KeepsTries; limit = omega arith })
      (next here (wakes calm 100 refl refl)) refl
      (λ j. record {
        memory = refl;
        session = refl;
        media = refl;
        format = refl;
        event = refl;
        offer = refl;
        socket = refl;
      })
      (record { idle = tt; stored = tt; distinct = tt; counted = refl }) (omega arith)
