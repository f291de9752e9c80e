-- ===== src/System/Threads/Rounds.antt =====
-- A round of the database thread of src/main.c, as the sequence of its rows.
use mathlib.Core.Path.{subst}
use mathlib.Core.List.{append-nil, append_assoc}
use autodialer_core.Base.{
  ℕ, zero, suc, ◌≡◌, refl, sym, ap, ◌∙◌, inl, inr, Bool, true, false, Bool-cases, Option-cases,
  none, some, List, [], ◌∷◌, ◌++◌, if◌then◌else◌, of_some, >>=-eq-some, Text,
}
use autodialer_core.Structs.{Destination, Campaign, Stmt}
use autodialer_core.Rows.{Parsers, GatewayRow, CampaignRow}
use autodialer_core.Config.{
  Answered, Services, load_gateway, load_gateways, load_campaign, load_campaigns, prepare,
  prepare_all, pull_groups,
}
use autodialer_core.Dialer.Dial.{Setup}
use autodialer_core.Db.{DbCon, Ping}
use autodialer_core.System.{System, services_of, with_services, db_round, db_thread}
use autodialer_core.System.Rounds.{
  db_thread_stopped, db_thread_last, db_thread_again, db_thread_fault, db_round-pulls,
}
use autodialer_core.System.Threads.{
  Phase, asleep, synced, gateways, campaigns, preparing, Threads, numbers, with_loaded, pushes,
  syncs, asks, loads_gateway, asks_again, loads_campaign, looks, prepares, sleeps, Reach, here,
  next,
}

abbrev at : System → Phase → Threads
at st p = record { system = st; phase = p }

abbrev placed : System → List Campaign → List ℕ → System
placed st cs ids = record st { services = cs; messages = ids }

message_of :
    (c : Campaign) (pushed : Bool) (more : List ℕ)
    → (if pushed then c.campaign_id ∷ [] else []) ++ more
      ≡ (if pushed then c.campaign_id ∷ more else more)
message_of c true more = refl
message_of c false more = refl

module _ (list_sort : (Destination → Destination → Bool) → List Destination → List Destination)
    (s : Setup) (t : Parsers) where
  pub Reach-trans :
      {x y z : Threads}
      → Reach list_sort s t x y
      → Reach list_sort s t y z
      → Reach list_sort s t x z
  Reach-trans r here = r
  Reach-trans r (next q step) = next (Reach-trans r q) step

  load_gateways-Reach :
      (rows : List GatewayRow) (st : System)
      → Reach list_sort s t
          (at st (gateways rows))
          (at (record st { gateways = load_gateways t rows st.gateways }) (gateways []))
  unfolding load_gateways
  load_gateways-Reach [] st = here
  load_gateways-Reach (r ∷ rows) st =
      Reach-trans (next here (loads_gateway r rows refl refl))
        (load_gateways-Reach rows (record st { gateways = load_gateway t r st.gateways }))

  load_campaigns-Reach :
      (rows : List CampaignRow) (st : System)
      → Reach list_sort s t
          (at st (campaigns rows))
          (at (with_loaded st (load_campaigns t rows (services_of st))) (campaigns []))
  unfolding load_campaigns
  load_campaigns-Reach [] st = here
  load_campaigns-Reach (r ∷ rows) st =
      Reach-trans (next here (loads_campaign r rows refl refl))
        (load_campaigns-Reach rows (with_loaded st (load_campaign t r (services_of st))))

  -- The third loop leaves these campaigns and messages.
  abbrev Prepares : System → List Campaign → List Campaign → List ℕ → Type 0
  Prepares st left cs ids =
      Reach list_sort s t (at st (preparing (numbers left))) (at (placed st cs ids) (preparing []))

  prepare_all-Reach :
      (q : Answered) (left before cs : List Campaign) (ids : List ℕ) (st : System)
      → st.services ≡ before ++ left
      → prepare_all t q st.gateways left ≡ some (cs, ids)
      → Prepares st left (before ++ cs) (st.messages ++ ids)
  unfolding prepare_all
  prepare_all-Reach q [] before cs ids st h e =
      subst (λ r. Prepares st [] (before ++ r.0) (st.messages ++ r.1)) (of_some e)
        (subst (λ l. Prepares st [] l (st.messages ++ [])) h
          (subst (Prepares st [] st.services) (sym (append-nil st.messages)) here))
  prepare_all-Reach q (cp ∷ left) before cs ids st h e =
      let ((c, one), e1, f1) = >>=-eq-some (prepare t q st.gateways cp) _ e in
      let ((rest, more), e2, f2) = >>=-eq-some (prepare_all t q st.gateways left) _ f1 in
      let sent : List ℕ = if one then c.campaign_id ∷ [] else [] in
      let all : List ℕ = if one then c.campaign_id ∷ more else more in
      let first =
        next here
          (prepares q cp.campaign_id (numbers left) before cp left c one refl h refl e1 refl) in
      let others =
        prepare_all-Reach q left (before ++ c ∷ []) rest more (pushes st before c one left)
          (sym (append_assoc before (c ∷ []) left)) e2 in
      subst (λ r. Prepares st (cp ∷ left) (before ++ r.0) (st.messages ++ r.1)) (of_some f2)
        (subst (λ l. Prepares st (cp ∷ left) l (st.messages ++ all))
          (append_assoc before (c ∷ []) rest)
          (subst (Prepares st (cp ∷ left) ((before ++ c ∷ []) ++ rest))
            (append_assoc st.messages sent more ∙ ap (◌++◌ st.messages) (message_of c one more))
            (Reach-trans first others)))

  -- What the first query answers.
  second_half-Reach :
      (q : Answered) (rows : List GatewayRow) (st : System) (r : Services × List ℕ)
      → q.gateway_rows ≡ some rows
      → pull_groups t q (services_of st) ≡ some r
      → Reach list_sort s t
          (at (record st { gateways = load_gateways t rows st.gateways }) (gateways []))
          (at (with_services st r) asleep)
  unfolding pull_groups
  second_half-Reach q rows st r given e =
      let st1 : System = record st { gateways = load_gateways t rows st.gateways } in
      elim (Option-cases q.campaign_rows) [
        | inl failed ↦
            subst (λ x. Reach list_sort s t (at st1 (gateways [])) (at (with_services st x) asleep))
              (of_some (rw (given, failed, pull_groups) at e))
              (subst
                (λ l.
                  Reach list_sort s t (at st1 (gateways [])) (at (placed st1 st.services l) asleep))
                (sym (append-nil st.messages)) (next here (asks_again none refl refl)))
        | inr (crows, found) ↦
            let sv2 = load_campaigns t crows (services_of st1) in
            let st2 = with_loaded st1 sv2 in
            let ((cs, sent), e1, e2) =
              >>=-eq-some (prepare_all t q sv2.gateways sv2.services) _
                (rw (given, found, pull_groups) at e) in
            let loading =
              Reach-trans (next here (asks_again (some crows) refl refl))
                (load_campaigns-Reach crows st1) in
            let looking = Reach-trans loading (next here (looks refl refl)) in
            let prepared = prepare_all-Reach q sv2.services [] cs sent st2 refl e1 in
            subst (λ x. Reach list_sort s t (at st1 (gateways [])) (at (with_services st x) asleep))
              (of_some e2) (next (Reach-trans looking prepared) (sleeps refl refl))
      ]

  pull_groups-Reach :
      (q : Answered) (st : System) (r : Services × List ℕ)
      → pull_groups t q (services_of st) ≡ some r
      → Reach list_sort s t (at st synced) (at (with_services st r) asleep)
  unfolding pull_groups
  pull_groups-Reach q st r e = elim (Option-cases q.gateway_rows) [
    | inl failed ↦
        subst (λ x. Reach list_sort s t (at st synced) (at (with_services st x) asleep))
          (of_some (rw (failed, pull_groups) at e))
          (subst (λ l. Reach list_sort s t (at st synced) (at (placed st st.services l) asleep))
            (sym (append-nil st.messages)) (next here (asks none refl refl)))
    | inr (rows, found) ↦
        Reach-trans
          (Reach-trans (next here (asks (some rows) refl refl)) (load_gateways-Reach rows st))
          (second_half-Reach q rows st r found e)
  ]

  one_round-Reach :
      (q : Answered) (st : System) (r : Services × List ℕ)
      → pull_groups t q (services_of (record st { sqllist = [] })) ≡ some r
      → Reach list_sort s t
          (at st asleep)
          (at (with_services (record st { sqllist = [] }) r) asleep)
  one_round-Reach q st r e =
      Reach-trans (next here (syncs refl refl))
        (pull_groups-Reach q (record st { sqllist = [] }) r e)

  -- The loop of the database thread, when it ends without a fault, is a history of the two threads
  -- row by row, if what the main thread does while the other sleeps is one.
  pub db_thread-Reach :
      (sql_of : Stmt → Text) (running : ℕ → Bool) (pings : ℕ → Ping) (answers : ℕ → Answered)
      (others : ℕ → System → System) (fuel k : ℕ) (c : DbCon) (st st' : System)
      → ((j : ℕ) (u : System) → Reach list_sort s t (at u asleep) (at (others j u) asleep))
      → db_thread sql_of running pings (λ j. (t, answers j)) others fuel k c st ≡ some st'
      → Reach list_sort s t (at st asleep) (at st' asleep)
  unfolding db_thread
  db_thread-Reach sql_of running pings answers others zero k c st st' free e = cc e
  db_thread-Reach sql_of running pings answers others (suc fuel) k c st st' free e =
      let loads : ℕ → Parsers × Answered = λ j. (t, answers j) in
      let To : System → Type 0 = λ u. Reach list_sort s t (at st asleep) (at u asleep) in
      elim (Bool-cases (running k)) [
        | inr off ↦
            subst To
              (of_some
                (sym (db_thread_stopped sql_of running pings loads others fuel k c st off) ∙ e))
              here
        | inl on ↦ elim (Option-cases (db_round sql_of (pings k) (loads k) c st)) [
          | inl fault ↦
              absurd (db_thread_fault sql_of running pings loads others fuel k c st st' on fault e)
          | inr ((c', r), done) ↦
              let pulled = db_round-pulls sql_of (pings k) (loads k) c st c' r done in
              let round = one_round-Reach (answers k) st r pulled in
              let after = with_services (record st { sqllist = [] }) r in
              elim (Bool-cases (running (suc k))) [
                | inr off ↦
                    subst To
                      (of_some (
                        sym (
                          db_thread_last sql_of running pings loads others fuel k c st c' r on done
                            off)
                        ∙ e))
                      round
                | inl still ↦ Reach-trans (Reach-trans round (free k after)) (
                    db_thread-Reach sql_of running pings answers others fuel (suc (suc k)) c'
                      (others k after) st' free
                      (sym (
                          db_thread_again sql_of running pings loads others fuel k c st c' r on done
                            still)
                        ∙ e))
              ]
        ]
      ]
