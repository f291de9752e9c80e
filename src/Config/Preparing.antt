-- ===== src/Config/Preparing.antt =====
-- How pull_groups of src/main.c prepares campaigns and hands them to the main thread.
use mathlib.Core.Path.{subst}
use autodialer_core.Base.{
  ℕ, ◌≡◌, ◌≢◌, refl, sym, ◌∙◌, Bool, true, false, inl, inr, Bool-cases, Option, Option-cases, none,
  some, is_some, List, [], ◌∷◌, All, >>=-eq-some, of_some, is_empty, arith, if◌then◌else◌,
}
use autodialer_core.Structs.{Gateway, Campaign}
use autodialer_core.Rows.{Parsers}
use autodialer_core.Config.{
  Answered, new_destination, load_action, map_rows, prepare, prepare_all, Services, load_gateways,
  load_campaigns, pull_groups,
}
use autodialer_core.Config.Keys.{Unique}
use autodialer_core.Config.Loading.{
  IsLoaded, IsConfigured, campaign_key, load_gateways-Unique, load_campaigns-Loaded,
}

-- The numbers of the campaigns that do not run.
abbrev pub waiting : List Campaign → List ℕ
waiting [] = []
waiting (cp ∷ cps) = if cp.is_running then waiting cps else cp.campaign_id ∷ waiting cps

abbrev rows_of {ℓ} : {A : Type ℓ} → Option (List A) → List A
rows_of none = []
rows_of (some rs) = rs

-- A campaign keeps everything but its destinations and actions, and all of it while it runs. Its
-- destinations are read anew if it has none left, and its actions each time.
abbrev pub Prepared : Parsers → Answered → List Gateway → Campaign → Campaign → Type 0
Prepared t q gs cp c =
    (c ≡ record cp { destinations = c.destinations; actions = c.actions })
    × (cp.is_running ≡ true → c ≡ cp)
    × (is_empty cp.destinations ≡ false → c.destinations ≡ cp.destinations)
    × (cp.is_running ≡ false
        → is_empty cp.destinations ≡ true
        → c.destinations ≡ map_rows (new_destination t) (rows_of (q.calls cp.campaign_id)))
    × (cp.is_running ≡ false
        → c.actions ≡ map_rows (load_action t gs) (rows_of (q.actions cp.campaign_id)))

abbrev pub AllPrepared : Parsers → Answered → List Gateway → List Campaign → List Campaign → Type 0
AllPrepared t q gs [] [] = Unit
AllPrepared t q gs [] (c ∷ cs) = ⊥
AllPrepared t q gs (cp ∷ cps) [] = ⊥
AllPrepared t q gs (cp ∷ cps) (c ∷ cs) = Prepared t q gs cp c × AllPrepared t q gs cps cs

-- Both queries for the campaigns are answered.
abbrev pub IsAnswered : Answered → Type 0
IsAnswered q = (id : ℕ) → (is_some (q.calls id) ≡ true) × (is_some (q.actions id) ≡ true)

some_of {ℓ} : {A : Type ℓ} (o : Option A) → is_some o ≡ true → (a : A) × (o ≡ some a)
some_of none h = cc
some_of (some a) h = (a, refl)

pub prepare-Prepared :
    (t : Parsers) (q : Answered) (gs : List Gateway) (cp : Campaign)
    → IsAnswered q
    → (c : Campaign) × (pushed : Bool) × (prepare t q gs cp ≡ some (c, pushed))
      × Prepared t q gs cp c
      × (c.campaign_id ≡ cp.campaign_id)
      × (cp.is_running ≡ (if pushed then false else true))
unfolding prepare
prepare-Prepared t q gs cp h =
    let (rows, e) = some_of (q.calls cp.campaign_id) (h cp.campaign_id).0 in
    let (acts, f) = some_of (q.actions cp.campaign_id) (h cp.campaign_id).1 in
    elim (Bool-cases cp.is_running) [
      | inl runs ↦ (
        cp,
        false,
        ground arith,
        (refl, (λ x. refl), (λ x. refl), (λ x. cc), (λ x. cc)),
        refl,
        runs,
      )
      | inr waits ↦ elim (Bool-cases (is_empty cp.destinations)) [
        | inl without ↦ (
          record cp {
            destinations = map_rows (new_destination t) rows;
            actions = map_rows (load_action t gs) acts;
          },
          true,
          ground arith,
          (refl, (λ x. cc), (λ x. cc), (λ x y. rw e refl), (λ x. rw f refl)),
          refl,
          waits,
        )
        | inr left ↦ (
          record cp { actions = map_rows (load_action t gs) acts },
          true,
          ground arith,
          (refl, (λ x. cc), (λ x. refl), (λ x y. cc), (λ x. rw f refl)),
          refl,
          waits,
        )
      ]
    ]

-- If the queries for destinations and actions are answered, the third loop of `pull_groups` meets
-- no fault. It sends the main thread exactly the campaigns that do not run, in order, leaves those
-- that run as they are, and of the others it reads the actions and, if none are left, the
-- destinations.
pub prepare_all-AllPrepared :
    (t : Parsers) (q : Answered) (gs : List Gateway) (cps : List Campaign)
    → IsAnswered q
    → (cs : List Campaign) × (prepare_all t q gs cps ≡ some (cs, waiting cps))
      × AllPrepared t q gs cps cs
unfolding prepare_all
prepare_all-AllPrepared t q gs [] h = ([], refl, tt)
prepare_all-AllPrepared t q gs (cp ∷ cps) h =
    let (c, pushed, e, p, same, runs) = prepare-Prepared t q gs cp h in
    let (cs, f, ps) = prepare_all-AllPrepared t q gs cps h in
    (c ∷ cs, ground (arith, e, f, same, runs), (p, ps))

pub prepare_settings :
    (t : Parsers) (q : Answered) (gs : List Gateway) (cp c : Campaign) (pushed : Bool)
    → prepare t q gs cp ≡ some (c, pushed)
    → (c.campaign_id ≡ cp.campaign_id) × (IsConfigured cp → IsConfigured c)
unfolding prepare
prepare_settings t q gs cp c pushed e = ground arith

prepare_all-IsConfigured :
    (t : Parsers) (q : Answered) (gs : List Gateway) (cps cs : List Campaign) (pushed : List ℕ)
    → prepare_all t q gs cps ≡ some (cs, pushed)
    → All IsConfigured cps
    → All IsConfigured cs
unfolding prepare_all
prepare_all-IsConfigured t q gs [] cs pushed e v = subst (λ r. All IsConfigured r.0) (of_some e) tt
prepare_all-IsConfigured t q gs (cp ∷ cps) cs pushed e v =
    let ((c, one), e1, f1) = >>=-eq-some (prepare t q gs cp) _ e in
    let ((rest, more), e2, f2) = >>=-eq-some (prepare_all t q gs cps) _ f1 in
    subst (λ r. All IsConfigured r.0) (of_some f2)
      (
        (prepare_settings t q gs cp c one e1).1 v.0,
        prepare_all-IsConfigured t q gs cps rest more e2 v.1,
      )

prepare_all-away :
    (t : Parsers) (q : Answered) (gs : List Gateway) (id : ℕ) (cps cs : List Campaign)
    (pushed : List ℕ)
    → prepare_all t q gs cps ≡ some (cs, pushed)
    → All (λ c. campaign_key c ≢ id) cps
    → All (λ c. campaign_key c ≢ id) cs
unfolding prepare_all
prepare_all-away t q gs id [] cs pushed e v =
    subst (λ r. All (λ c. campaign_key c ≢ id) r.0) (of_some e) tt
prepare_all-away t q gs id (cp ∷ cps) cs pushed e v =
    let ((c, one), e1, f1) = >>=-eq-some (prepare t q gs cp) _ e in
    let ((rest, more), e2, f2) = >>=-eq-some (prepare_all t q gs cps) _ f1 in
    let same = (prepare_settings t q gs cp c one e1).0 in
    subst (λ r. All (λ x. campaign_key x ≢ id) r.0) (of_some f2)
      ((λ k. v.0 (sym same ∙ k)), prepare_all-away t q gs id cps rest more e2 v.1)

prepare_all-Unique :
    (t : Parsers) (q : Answered) (gs : List Gateway) (cps cs : List Campaign) (pushed : List ℕ)
    → prepare_all t q gs cps ≡ some (cs, pushed)
    → Unique campaign_key cps
    → Unique campaign_key cs
unfolding prepare_all
prepare_all-Unique t q gs [] cs pushed e v = subst (λ r. Unique campaign_key r.0) (of_some e) tt
prepare_all-Unique t q gs (cp ∷ cps) cs pushed e v =
    let ((c, one), e1, f1) = >>=-eq-some (prepare t q gs cp) _ e in
    let ((rest, more), e2, f2) = >>=-eq-some (prepare_all t q gs cps) _ f1 in
    let same = (prepare_settings t q gs cp c one e1).0 in
    subst (λ r. Unique campaign_key r.0) (of_some f2)
      (
        subst (λ k. All (λ x. campaign_key x ≢ k) rest) (sym same)
            (prepare_all-away t q gs cp.campaign_id cps rest more e2 v.0),
        prepare_all-Unique t q gs cps rest more e2 v.1,
      )

-- Whatever the rows say: `pull_groups` keeps one gateway and one campaign per number, and every
-- campaign with a call limit above 0, at most ten minutes for a call, and between 1 and 255 plays.
pub pull_groups-IsLoaded :
    (t : Parsers) (q : Answered) (st st' : Services) (pushed : List ℕ)
    → IsLoaded st.gateways st.services
    → pull_groups t q st ≡ some (st', pushed)
    → IsLoaded st'.gateways st'.services
unfolding pull_groups
pull_groups-IsLoaded t q st st' pushed v e = elim (Option-cases q.gateway_rows) [
  | inl failed ↦
      subst (λ r. IsLoaded r.0.gateways r.0.services) (of_some (rw (failed, pull_groups) at e)) v
  | inr (grows, some_gateways) ↦
      let gs = load_gateways t grows st.gateways in
      let w : IsLoaded gs st.services = record {
        gateways_once = load_gateways-Unique t grows st.gateways v.gateways_once;
        campaigns_once = v.campaigns_once;
        configured = v.configured;
      } in
      elim (Option-cases q.campaign_rows) [
        | inl failed ↦
            subst (λ r. IsLoaded r.0.gateways r.0.services)
              (of_some (rw (some_gateways, failed, pull_groups) at e)) w
        | inr (crows, some_campaigns) ↦
            let st2 = load_campaigns t crows (record st { gateways = gs }) in
            let w2 = load_campaigns-Loaded t crows (record st { gateways = gs }) w in
            let ((cs, sent), e1, e2) =
              >>=-eq-some (prepare_all t q st2.gateways st2.services) _
                (rw (some_gateways, some_campaigns, pull_groups) at e) in
            subst (λ r. IsLoaded r.0.gateways r.0.services) (of_some e2)
              (record {
                gateways_once = w2.gateways_once;
                campaigns_once =
                    prepare_all-Unique t q st2.gateways st2.services cs sent e1 w2.campaigns_once;
                configured =
                    prepare_all-IsConfigured t q st2.gateways st2.services cs sent e1 w2.configured;
              })
      ]
]
