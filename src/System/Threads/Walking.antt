-- ===== src/System/Threads/Walking.antt =====
-- The third loop of pull_groups of src/main.c, while the main thread works on the campaigns too.
use mathlib.Core.Path.{subst}
use mathlib.Core.List.{append_assoc}
use autodialer_core.Base.{ℕ, ◌≡◌, refl, sym, ap, ◌∙◌, Bool, Option, none, some, List, [], ◌∷◌, ◌++◌}
use autodialer_core.Structs.{Destination, Campaign}
use autodialer_core.Rows.{Parsers}
use autodialer_core.Config.{Answered}
use autodialer_core.Config.Preparing.{IsAnswered, prepare_settings, prepare-Prepared}
use autodialer_core.Dialer.Dial.{Setup}
use autodialer_core.System.Threads.{
  Phase, asleep, synced, gateways, campaigns, preparing, Threads, first_loop, second_loop, numbers,
  Step, syncs, asks, loads_gateway, asks_again, loads_campaign, looks, prepares, sleeps, main,
  Reach, here, next,
}
use autodialer_core.System.Threads.Numbers.{numbers-placed, main_numbers}

-- What is left of the walk are the last campaigns of the list.
abbrev Walks : List ℕ → Phase → Type 0
Walks ids asleep = Unit
Walks ids synced = Unit
Walks ids (gateways rows) = Unit
Walks ids (campaigns rows) = Unit
Walks ids (preparing left) = (walked : List ℕ) × (ids ≡ walked ++ left)

Walks-first : (ids : List ℕ) (answer : Option _) → Walks ids (first_loop answer)
Walks-first ids none = tt
Walks-first ids (some rows) = tt

Walks-second : (ids : List ℕ) (answer : Option _) → Walks ids (second_loop answer)
Walks-second ids none = tt
Walks-second ids (some rows) = tt

-- The campaign where the walk stands, and what stands after it.
pub record Stands (id : ℕ) (left : List ℕ) (cps : List Campaign) : Type 0 where
  pub before : List Campaign
  pub cp : Campaign
  pub after : List Campaign
  pub placed : cps ≡ before ++ cp ∷ after
  pub named : cp.campaign_id ≡ id
  pub ahead : numbers after ≡ left

cons_inj : {i j : ℕ} {is js : List ℕ} → i ∷ is ≡ j ∷ js → (i ≡ j) × (is ≡ js)
cons_inj e = (cc e, cc e)

numbers-Stands :
    (id : ℕ) (left walked : List ℕ) (cps : List Campaign)
    → numbers cps ≡ walked ++ id ∷ left
    → Stands id left cps
numbers-Stands id left [] [] e = cc e
numbers-Stands id left (w ∷ walked) [] e = cc e
numbers-Stands id left [] (x ∷ cps) e =
    let (same, rest) = cons_inj e in
    record { before = []; cp = x; after = cps; placed = refl; named = same; ahead = rest }
numbers-Stands id left (w ∷ walked) (x ∷ cps) e =
    let f = numbers-Stands id left walked cps (cons_inj e).1 in
    record {
      before = x ∷ f.before;
      cp = f.cp;
      after = f.after;
      placed = ap (◌∷◌ x) f.placed;
      named = f.named;
      ahead = f.ahead;
    }

module _ (list_sort : (Destination → Destination → Bool) → List Destination → List Destination)
    (s : Setup) (t : Parsers) where
  Step-Walks :
      {x y : Threads}
      → Step list_sort s t x y
      → Walks (numbers x.system.services) x.phase
      → Walks (numbers y.system.services) y.phase
  Step-Walks (syncs at e) v = subst (λ z. Walks (numbers z.system.services) z.phase) (sym e) tt
  Step-Walks {x} (asks answer at e) v =
      subst (λ z. Walks (numbers z.system.services) z.phase) (sym e)
        (Walks-first (numbers x.system.services) answer)
  Step-Walks (loads_gateway r rows at e) v =
      subst (λ z. Walks (numbers z.system.services) z.phase) (sym e) tt
  Step-Walks {x} (asks_again answer at e) v =
      subst (λ z. Walks (numbers z.system.services) z.phase) (sym e)
        (Walks-second (numbers x.system.services) answer)
  Step-Walks (loads_campaign r rows at e) v =
      subst (λ z. Walks (numbers z.system.services) z.phase) (sym e) tt
  Step-Walks (looks at e) v =
      subst (λ z. Walks (numbers z.system.services) z.phase) (sym e) ([], refl)
  Step-Walks {x} (prepares q id left before cp after c pushed at has same done e) v =
      let (walked, w) = subst (Walks (numbers x.system.services)) at v in
      let kept = (prepare_settings t q x.system.gateways cp c pushed done).0 in
      subst (λ z. Walks (numbers z.system.services) z.phase) (sym e)
        (
          walked ++ id ∷ [],
          numbers-placed before cp c after kept
              ∙ (ap numbers (sym has) ∙ (w ∙ sym (append_assoc walked (id ∷ []) left))),
        )
  Step-Walks (sleeps at e) v = subst (λ z. Walks (numbers z.system.services) z.phase) (sym e) tt
  Step-Walks {x} (main st step mine e) v =
      subst (λ z. Walks (numbers z.system.services) z.phase) (sym e)
        (subst (λ ids. Walks ids x.phase) (sym (main_numbers list_sort s step mine)) v)

  Reach-Walks :
      {x y : Threads}
      → x.phase ≡ asleep
      → Reach list_sort s t x y
      → Walks (numbers y.system.services) y.phase
  Reach-Walks {x} start here = subst (Walks (numbers x.system.services)) (sym start) tt
  Reach-Walks start (next r step) = Step-Walks step (Reach-Walks start r)

  -- From a state in which the database thread sleeps, if the queries for destinations and actions
  -- are answered, and however the main thread works on the campaigns meanwhile: when the third loop
  -- comes to a campaign, that campaign is in the list, what is left of the loop stands after it in
  -- that order, and the loop can go on with it, to the next one.
  pub Reach-Stands :
      {x y : Threads} (q : Answered) (id : ℕ) (left : List ℕ)
      → x.phase ≡ asleep
      → IsAnswered q
      → Reach list_sort s t x y
      → y.phase ≡ preparing (id ∷ left)
      → Stands id left y.system.services
        × (z : Threads) × Step list_sort s t y z
        × (z.phase ≡ preparing left)
  Reach-Stands {y = y} q id left start answered r at =
      let (walked, w) = subst (Walks (numbers y.system.services)) at (Reach-Walks start r) in
      let f = numbers-Stands id left walked y.system.services w in
      let (c, pushed, done, kept, same, runs) =
        prepare-Prepared t q y.system.gateways f.cp answered in
      (f, _, prepares q id left f.before f.cp f.after c pushed at f.placed f.named done refl, refl)
