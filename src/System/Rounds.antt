-- ===== src/System/Rounds.antt =====
-- The loop of the database thread of src/main.c.
use mathlib.Core.Path.{subst}
use autodialer_core.Base.{
  ℕ, zero, suc, ◌+◌, ◌≤◌, ◌≡◌, refl, sym, ap, ◌∙◌, inl, inr, Bool, true, false, Bool-cases, Option,
  Option-cases, none, some, List, [], arith, of_some, ◌>>=◌, >>=-eq-some, Text,
}
use autodialer_core.Structs.{Stmt}
use autodialer_core.Rows.{Parsers}
use autodialer_core.Config.{
  Answered, Services, load_gateways, load_campaigns, prepare_all, pull_groups, map_rows,
}
use autodialer_core.Config.Preparing.{IsAnswered, prepare_all-AllPrepared, waiting}
use autodialer_core.Db.{connected, DbCon, Ping, db_sync, with_handle}
use autodialer_core.Db.Queue.{Reaches, sync, sync-sends}
use autodialer_core.System.{System, services_of, with_services, db_round, db_thread}

not_none {ℓ κ} :
    {A : Type ℓ} {B : Type κ} (o : Option A) (f : A → Option B) (a : A)
    → o ≡ some a
    → ((x : A) → f x ≡ none → ⊥)
    → (o >>= f) ≡ none
    → ⊥
not_none none f a e h k = cc e
not_none (some x) f a e h k = h x k

pull_groups_total :
    (t : Parsers) (q : Answered) (st : Services)
    → IsAnswered q
    → (r : Services × List ℕ) × (pull_groups t q st ≡ some r)
unfolding pull_groups
pull_groups_total t q st h = elim (Option-cases (pull_groups t q st)) [
  | inr (r, e) ↦ (r, e)
  | inl bad ↦ absurd (elim (Option-cases q.gateway_rows) [
    | inl failed ↦ cc (rw (failed, pull_groups) at bad)
    | inr (grows, some_gateways) ↦
        let st1 : Services = record st { gateways = load_gateways t grows st.gateways } in
        elim (Option-cases q.campaign_rows) [
          | inl failed ↦ cc (rw (some_gateways, failed, pull_groups) at bad)
          | inr (crows, some_campaigns) ↦
              let st2 = load_campaigns t crows st1 in
              let (cs, e, _) = prepare_all-AllPrepared t q st2.gateways st2.services h in
              not_none (prepare_all t q st2.gateways st2.services) _ (cs, waiting st2.services) e
                (λ r. cc) (rw (some_gateways, some_campaigns, pull_groups) at bad)
        ]
  ])
]

opened {ℓ} : {A : Type ℓ} (c : DbCon) (a b : A) → with_handle c a ≡ some b → a ≡ b
opened c a b e = ground (arith, e)

-- A round that meets no fault is one of `pull_groups`.
pub db_round-pulls :
    (sql_of : Stmt → Text) (g : Ping) (q : Parsers × Answered) (c : DbCon) (st : System)
    (c' : DbCon) (r : Services × List ℕ)
    → db_round sql_of g q c st ≡ some (c', r)
    → pull_groups q.0 q.1 (services_of st) ≡ some r
unfolding db_round
db_round-pulls sql_of g q c st c' r e =
    let ((c1, sent), e1, f1) =
      >>=-eq-some (db_sync g (record c { sqllist = map_rows sql_of st.sqllist })) _ e in
    let (sv, e2, f2) = >>=-eq-some (with_handle c1 (services_of st)) _ f1 in
    let (r', e3, f3) = >>=-eq-some (pull_groups q.0 q.1 sv) _ f2 in
    subst (λ v. pull_groups q.0 q.1 v ≡ some r) (sym (opened c1 (services_of st) sv e2))
      (e3 ∙ ap some (ap (λ x. x.1) (of_some f3)))

db_round_total :
    (sql_of : Stmt → Text) (g : Ping) (q : Parsers × Answered) (c : DbCon) (st : System)
    → c.con ≡ connected
    → Reaches (sync g)
    → IsAnswered q.1
    → (c' : DbCon) × (r : Services × List ℕ) × (db_round sql_of g q c st ≡ some (c', r))
      × (c'.con ≡ connected)
unfolding db_round
db_round_total sql_of g q c st alive reaches answered =
    let c1 : DbCon = record c { sqllist = map_rows sql_of st.sqllist } in
    let sent = sync-sends g c1 alive reaches in
    let (r, e) = pull_groups_total q.0 q.1 (services_of st) answered in
    (record c { sqllist = [] }, r, rw (sent, alive, e) refl, alive)

module _ (sql_of : Stmt → Text) (running : ℕ → Bool) (pings : ℕ → Ping)
    (loads : ℕ → Parsers × Answered) (others : ℕ → System → System) where
  pub db_thread_stopped :
      (fuel k : ℕ) (c : DbCon) (st : System)
      → running k ≡ false
      → db_thread sql_of running pings loads others (suc fuel) k c st ≡ some st
  unfolding db_thread
  db_thread_stopped fuel k c st e = ground (arith, e)

  -- The flag is set before a round; after it the loop ends, or goes on.
  pub db_thread_last :
      (fuel k : ℕ) (c : DbCon) (st : System) (c' : DbCon) (r : Services × List ℕ)
      → running k ≡ true
      → db_round sql_of (pings k) (loads k) c st ≡ some (c', r)
      → running (suc k) ≡ false
      → db_thread sql_of running pings loads others (suc fuel) k c st
        ≡ some (with_services (record st { sqllist = [] }) r)
  unfolding db_thread
  db_thread_last fuel k c st c' r e f g = rw (e, f, g, db_thread) refl

  pub db_thread_again :
      (fuel k : ℕ) (c : DbCon) (st : System) (c' : DbCon) (r : Services × List ℕ)
      → running k ≡ true
      → db_round sql_of (pings k) (loads k) c st ≡ some (c', r)
      → running (suc k) ≡ true
      → db_thread sql_of running pings loads others (suc fuel) k c st
        ≡ db_thread sql_of running pings loads others fuel
            (suc (suc k))
            c'
            (others k (with_services (record st { sqllist = [] }) r))
  unfolding db_thread
  db_thread_again fuel k c st c' r e f g = rw (e, f, g, db_thread) refl

  pub db_thread_fault :
      (fuel k : ℕ) (c : DbCon) (st st' : System)
      → running k ≡ true
      → db_round sql_of (pings k) (loads k) c st ≡ none
      → db_thread sql_of running pings loads others (suc fuel) k c st ≡ some st'
      → ⊥
  unfolding db_thread
  db_thread_fault fuel k c st st' on f e = cc (rw (on, f, db_thread) at e)

  abbrev Ends : ℕ → ℕ → DbCon → System → Type 0
  Ends fuel k c st =
      (st' : System) × (db_thread sql_of running pings loads others fuel k c st ≡ some st')

  one_round_Ends :
      (fuel k : ℕ) (c : DbCon) (st : System)
      → c.con ≡ connected
      → Reaches (sync (pings k))
      → IsAnswered (loads k).1
      → ((d : DbCon) (u : System)
          → d.con ≡ connected
          → running (suc k) ≡ true
          → Ends fuel (suc (suc k)) d u)
      → Ends (suc fuel) k c st
  one_round_Ends fuel k c st alive reaches answered more =
      let (c', r, e, still_open) =
        db_round_total sql_of (pings k) (loads k) c st alive reaches answered in
      let after = with_services (record st { sqllist = [] }) r in
      elim (Bool-cases (running k)) [
        | inr off ↦ (st, db_thread_stopped fuel k c st off)
        | inl on ↦ elim (Bool-cases (running (suc k))) [
          | inr off ↦ (after, db_thread_last fuel k c st c' r on e off)
          | inl still ↦
              let (st', f) = more c' (others k after) still_open still in
              (st', db_thread_again fuel k c st c' r on e still ∙ f)
        ]
      ]

  -- If the connection is open, every synchronisation finds it alive or renews it, the flag is
  -- cleared from the `n`th time on that it is read, and every query for destinations and actions is
  -- answered, the database thread ends, whatever the main thread does meanwhile, and it makes at
  -- most one round for two times that it finds the flag set, and one more.
  pub db_thread_ends :
      (n fuel k : ℕ) (c : DbCon) (st : System)
      → c.con ≡ connected
      → ((j : ℕ) → Reaches (sync (pings j)))
      → ((j : ℕ) → n ≤ j → running j ≡ false)
      → ((j : ℕ) → IsAnswered (loads j).1)
      → n ≤ k + 1 + fuel + fuel
      → (st' : System) × (db_thread sql_of running pings loads others (suc fuel) k c st ≡ some st')
  db_thread_ends n zero k c st alive reaches stop answered h =
      one_round_Ends zero k c st alive (reaches k) (answered k)
        (λ d u o on. absurd (cc (on, stop (suc k) (omega arith))))
  db_thread_ends n (suc fuel) k c st alive reaches stop answered h =
      one_round_Ends (suc fuel) k c st alive (reaches k) (answered k)
        (λ d u o on. db_thread_ends n fuel (suc (suc k)) d u o reaches stop answered (omega arith))
