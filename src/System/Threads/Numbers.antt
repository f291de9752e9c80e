-- ===== src/System/Threads/Numbers.antt =====
-- The numbers of the campaigns in `services` of src/main.c, which the database thread walks along
-- and sends as messages.
use autodialer_core.Base.{
  ℕ, ◌≡◌, ◌≢◌, refl, sym, ap, ◌∙◌, inl, inr, Bool, Bool-cases, List, [], ◌∷◌, ◌++◌, All, ◌==◌,
  arith,
}
use autodialer_core.Structs.{Destination, Campaign}
use autodialer_core.Rtp.Pool.{Distinct}
use autodialer_core.Rtp.Ownership.{In}
use autodialer_core.Config.Keys.{Unique}
use autodialer_core.Config.Loading.{campaign_key}
use autodialer_core.Dialer.Dial.{Setup}
use autodialer_core.Dialer.Campaigns.History
use autodialer_core.Dialer.Campaigns.Settings.{Step-Kept}
use autodialer_core.System.{System, dialer_of, setup_of, Step, pulls, syncs, handles, works}
use autodialer_core.System.Threads.{numbers, IsMain}

pub numbers-placed :
    (before : List Campaign) (cp c : Campaign) (after : List Campaign)
    → c.campaign_id ≡ cp.campaign_id
    → numbers (before ++ c ∷ after) ≡ numbers (before ++ cp ∷ after)
numbers-placed [] cp c after e = ap (λ i. i ∷ numbers after) e
numbers-placed (x ∷ before) cp c after e =
    ap (◌∷◌ x.campaign_id) (numbers-placed before cp c after e)

-- A campaign of the list, with what stands before it and after it.
pub record Found (id : ℕ) (cps : List Campaign) : Type 0 where
  pub before : List Campaign
  pub cp : Campaign
  pub after : List Campaign
  pub placed : cps ≡ before ++ cp ∷ after
  pub named : cp.campaign_id ≡ id

pub In-Found : (id : ℕ) (cps : List Campaign) → In id (numbers cps) → Found id cps
In-Found id [] h = absurd (h tt)
In-Found id (x ∷ cps) h = elim (Bool-cases (x.campaign_id == id)) [
  | inl hit ↦ record { before = []; cp = x; after = cps; placed = refl; named = ground arith }
  | inr miss ↦
      let away : x.campaign_id ≢ id = ground arith in
      let f = In-Found id cps (λ n. h (away, n)) in
      record {
        before = x ∷ f.before;
        cp = f.cp;
        after = f.after;
        placed = ap (◌∷◌ x) f.placed;
        named = f.named;
      }
]

numbers-All :
    (x : Campaign) (cps : List Campaign)
    → All (λ y. campaign_key y ≢ campaign_key x) cps
    → All (λ j. x.campaign_id ≢ j) (numbers cps)
numbers-All x [] h = tt
numbers-All x (y ∷ cps) h = ((λ e. h.0 (sym e)), numbers-All x cps h.1)

pub Unique-Distinct : (cps : List Campaign) → Unique campaign_key cps → Distinct (numbers cps)
Unique-Distinct [] u = tt
Unique-Distinct (x ∷ cps) u = (numbers-All x cps u.0, Unique-Distinct cps u.1)

module _ (list_sort : (Destination → Destination → Bool) → List Destination → List Destination)
    (s : Setup) where
  -- The main thread's steps leave the numbers as they are.
  pub main_numbers :
      {st st' : System} (step : Step list_sort s st st')
      → IsMain list_sort s step
      → numbers st'.services ≡ numbers st.services
  main_numbers (pulls t q r e at) mine = absurd mine
  main_numbers (syncs at) mine = absurd mine
  main_numbers {st} (handles answers now id rest before cp after d sent at same e done) mine =
      let kept =
        Step-Kept list_sort (setup_of s st) (dialer_of st cp) d (History.serves answers now e) in
      ap (λ x. numbers x.services) done
      ∙ (numbers-placed before cp d.cp after (ap (λ c. c.campaign_id) kept) ∙ ap numbers (sym at))
  main_numbers {st} (works before cp after d at step own done) mine =
      let kept = Step-Kept list_sort (setup_of s st) (dialer_of st cp) d step in
      ap (λ x. numbers x.services) done
      ∙ (numbers-placed before cp d.cp after (ap (λ c. c.campaign_id) kept) ∙ ap numbers (sym at))
