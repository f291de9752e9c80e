-- ===== src/Config/Sparing/Rounds.antt =====
-- A round of pull_groups of src/main.c leaves the calls and their RTP sessions alone.
use mathlib.Core.Path.{subst}
use autodialer_core.Base.{
  ℕ, ◌≡◌, refl, sym, Bool, true, false, inl, inr, Option, Option-cases, if◌then◌else◌, ◌>>=◌, none,
  some, List, [], ◌∷◌, All, is_empty, >>=-eq-some, of_some,
}
use autodialer_core.Rtp.Ownership.Frame.{Evolves, Evolves-refl}
use autodialer_core.Structs.{Gateway, Campaign}
use autodialer_core.Rows.{Parsers, CallRow}
use autodialer_core.Config.{
  new_destination, Services, map_rows, Answered, prepare, prepare_all, load_gateways,
  load_campaigns, pull_groups, load_actions,
}
use autodialer_core.Dialer.Campaigns.Calls.{IsTidy, all_calls}
use autodialer_core.Config.Sparing.{Spares, load_campaigns-Spares, new_destinations-Idle}

load_actions-IsTidy :
    (t : Parsers) (q : Answered) (gs : List Gateway) (cp c : Campaign)
    → IsTidy cp
    → load_actions t q gs cp ≡ some c
    → (c.processl ≡ cp.processl) × IsTidy c
unfolding load_actions
load_actions-IsTidy t q gs cp c v e =
    let (rows, _, e1) = >>=-eq-some (q.actions cp.campaign_id) _ e in
    subst (λ x. (x.processl ≡ cp.processl) × IsTidy x) (of_some e1)
      (refl, record { idle = v.idle; sane = v.sane })

-- `prepare`, by what it tests.
abbrev branches :
    Parsers
    → Answered
    → List Gateway
    → Campaign
    → Bool
    → Bool
    → Option (List CallRow)
    → Option (Campaign × Bool)
branches t q gs cp runs empty rows =
    if runs
    then some (cp, false)
    else if empty
    then elim rows [
      | none ↦ some (cp, false)
      | some rs ↦
          load_actions t q gs (record cp { destinations = map_rows (new_destination t) rs })
          >>= λ x. some (x, true)
    ]
    else load_actions t q gs cp >>= λ x. some (x, true)

prepare_branches :
    (t : Parsers) (q : Answered) (gs : List Gateway) (cp c : Campaign) (pushed runs empty : Bool)
    (rows : Option (List CallRow))
    → IsTidy cp
    → branches t q gs cp runs empty rows ≡ some (c, pushed)
    → (c.processl ≡ cp.processl) × IsTidy c
prepare_branches t q gs cp c pushed true empty rows v e =
    subst (λ r. (r.0.processl ≡ cp.processl) × IsTidy r.0) (of_some e) (refl, v)
prepare_branches t q gs cp c pushed false true none v e =
    subst (λ r. (r.0.processl ≡ cp.processl) × IsTidy r.0) (of_some e) (refl, v)
prepare_branches t q gs cp c pushed false true (some rs) v e =
    let new : Campaign = record cp { destinations = map_rows (new_destination t) rs } in
    let (x, e1, e2) = >>=-eq-some (load_actions t q gs new) _ e in
    subst (λ r. (r.0.processl ≡ cp.processl) × IsTidy r.0) (of_some e2)
      (load_actions-IsTidy t q gs new x
        (record { idle = new_destinations-Idle t rs; sane = v.sane }) e1)
prepare_branches t q gs cp c pushed false false rows v e =
    let (x, e1, e2) = >>=-eq-some (load_actions t q gs cp) _ e in
    subst (λ r. (r.0.processl ≡ cp.processl) × IsTidy r.0) (of_some e2)
      (load_actions-IsTidy t q gs cp x v e1)

pub prepare-IsTidy :
    (t : Parsers) (q : Answered) (gs : List Gateway) (cp c : Campaign) (pushed : Bool)
    → IsTidy cp
    → prepare t q gs cp ≡ some (c, pushed)
    → (c.processl ≡ cp.processl) × IsTidy c
unfolding prepare
prepare-IsTidy t q gs cp c pushed v e =
    prepare_branches t q gs cp c pushed cp.is_running (is_empty cp.destinations)
      (q.calls cp.campaign_id) v e

prepare_all-IsTidy :
    (t : Parsers) (q : Answered) (gs : List Gateway) (cps cs : List Campaign) (pushed : List ℕ)
    → All IsTidy cps
    → prepare_all t q gs cps ≡ some (cs, pushed)
    → (all_calls cs ≡ all_calls cps) × All IsTidy cs
unfolding prepare_all
prepare_all-IsTidy t q gs [] cs pushed v e =
    subst (λ r. (all_calls r.0 ≡ []) × All IsTidy r.0) (of_some e) (refl, tt)
prepare_all-IsTidy t q gs (cp ∷ cps) cs pushed v e =
    let ((c, one), e1, f1) = >>=-eq-some (prepare t q gs cp) _ e in
    let ((rest, more), e2, f2) = >>=-eq-some (prepare_all t q gs cps) _ f1 in
    let (same, tidy) = prepare-IsTidy t q gs cp c one v.0 e1 in
    let (all_same, all_tidy) = prepare_all-IsTidy t q gs cps rest more v.1 e2 in
    subst (λ r. (all_calls r.0 ≡ all_calls (cp ∷ cps)) × All IsTidy r.0) (of_some f2)
      (rw (same, all_same) refl, (tidy, all_tidy))

-- A round of the database thread.
pub pull_groups-Spares :
    (t : Parsers) (q : Answered) (st : Services) (r : Services × List ℕ)
    → All IsTidy st.services
    → pull_groups t q st ≡ some r
    → Spares st r.0
unfolding pull_groups
pull_groups-Spares t q st r v e = elim (Option-cases q.gateway_rows) [
  | inl failed ↦
      subst (λ x. Spares st x.0) (of_some (rw (failed, pull_groups) at e)) (Evolves-refl, v)
  | inr (grows, some_gateways) ↦
      let st1 : Services = record st { gateways = load_gateways t grows st.gateways } in
      elim (Option-cases q.campaign_rows) [
        | inl failed ↦
            subst (λ x. Spares st x.0) (of_some (rw (some_gateways, failed, pull_groups) at e))
              (Evolves-refl, v)
        | inr (crows, some_campaigns) ↦
            let st2 = load_campaigns t crows st1 in
            let (f, w) = load_campaigns-Spares t crows st1 v in
            let ((cs, sent), e1, e2) =
              >>=-eq-some (prepare_all t q st2.gateways st2.services) _
                (rw (some_gateways, some_campaigns, pull_groups) at e) in
            let (same, tidy) = prepare_all-IsTidy t q st2.gateways st2.services cs sent w e1 in
            subst (λ x. Spares st x.0) (of_some e2)
              (subst (Evolves st.rtp st2.rtp (all_calls st.services)) (sym same) f, tidy)
      ]
]
