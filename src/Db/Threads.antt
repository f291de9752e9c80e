-- ===== src/Db/Threads.antt =====
-- The two threads of src/db.c in any order: db_exec on the main thread, and on the database thread
-- db_sync, which takes the queue over under the mutex, tests the connection, and then sends one
-- statement at a time.
pub mod Alone
use mathlib.Core.Path.{subst}
use mathlib.Core.List.{append-nil, append_assoc}
use autodialer_core.Base.{
  ◌≡◌, ◌≢◌, refl, arith, sym, ap, ◌∙◌, true, false, some, List, [], ◌∷◌, ◌++◌, Text, if◌then◌else◌,
}
use autodialer_core.Db.{Connection, connected, null, freed, DbCon, Server, db_reconnect, db_exec}

-- Where the database thread stands in `db_sync`: outside it, before the test, or in its loop.
pub data Stage : Type 0 where
  outside testing sending : Stage

-- `db` holds the queue, `batch` is what `db_sync` took over and still holds. `issued`, `sent` and
-- `lost` are the histories of `db_exec`, of MySQL, and of the failed reconnections.
pub record Shared : Type 0 where
  pub db : DbCon
  pub stage : Stage
  pub batch : List Text
  pub issued : List Text
  pub sent : List Text
  pub lost : List Text

-- One step of a thread. `db_exec` appends under the mutex, and `db_sync` empties the queue under
-- it. The test needs a handle that is open; on any other, libmysql is given a dead pointer, and
-- there is no step. If the connection cannot be renewed, `db_sync` returns without its batch.
pub data Step (t u : Shared) : Type 0 where
  exec :
      (sql : Text)
      → u ≡ record t { db = (db_exec (some sql) t.db).1; issued = t.issued ++ sql ∷ [] }
      → Step t u
  take_over :
      t.stage ≡ outside
      → u ≡ record t { db = record t.db { sqllist = [] }; stage = testing; batch = t.db.sqllist }
      → Step t u
  alive : t.stage ≡ testing → t.db.con ≡ connected → u ≡ record t { stage = sending } → Step t u
  renews :
      (v : Server)
      → t.stage ≡ testing
      → t.db.con ≡ connected
      → (db_reconnect v (record t.db { con = null })).0 ≡ true
      → u ≡ record t { db = (db_reconnect v (record t.db { con = null })).1; stage = sending }
      → Step t u
  gives_up :
      (v : Server)
      → t.stage ≡ testing
      → t.db.con ≡ connected
      → (db_reconnect v (record t.db { con = null })).0 ≡ false
      → u ≡ record t {
        db = (db_reconnect v (record t.db { con = null })).1;
        stage = outside;
        batch = [];
        lost = t.lost ++ t.batch;
      }
      → Step t u
  sends :
      (sql : Text) (rest : List Text)
      → t.stage ≡ sending
      → t.batch ≡ sql ∷ rest
      → u ≡ record t { batch = rest; sent = t.sent ++ sql ∷ [] }
      → Step t u
  returns : t.stage ≡ sending → t.batch ≡ [] → u ≡ record t { stage = outside } → Step t u

pub data Reach (t : Shared) : Shared → Type 0 where
  here : Reach t t
  next : {u v : Shared} → Reach t u → Step u v → Reach t v

-- Every statement is in one place, in the order in which it was issued; nothing was lost while the
-- connection is open, and it is open in the loop that sends. Outside `db_sync` there is no batch.
pub record IsOrdered (t : Shared) : Type 0 where
  pub in_order : t.sent ++ (t.lost ++ (t.batch ++ t.db.sqllist)) ≡ t.issued
  pub spared : t.db.con ≡ connected → t.lost ≡ []
  pub live : t.stage ≡ sending → t.db.con ≡ connected
  pub done : t.stage ≡ outside → t.batch ≡ []

-- A reconnection leaves the queue alone, and the handle open exactly if it succeeds.
db_reconnect_keeps :
    (v : Server) (c : DbCon)
    → ((db_reconnect v c).1.sqllist ≡ c.sqllist)
      × ((db_reconnect v c).0 ≡ true → (db_reconnect v c).1.con ≡ connected)
      × ((db_reconnect v c).0 ≡ false → (db_reconnect v c).1.con ≡ connected → ⊥)
unfolding db_reconnect
db_reconnect_keeps v c = (ground arith, ground arith, ground arith)

outside_ne_sending : outside ≢ sending
outside_ne_sending e = cc

testing_ne_outside : testing ≢ outside
testing_ne_outside e = cc

Step-IsOrdered : {t u : Shared} → Step t u → IsOrdered t → IsOrdered u
unfolding db_exec
Step-IsOrdered {t} (exec sql e) h = subst IsOrdered (sym e) (record {
  in_order =
      ap (λ l. t.sent ++ (t.lost ++ l)) (sym (append_assoc t.batch t.db.sqllist (sql ∷ [])))
      ∙ (ap (◌++◌ t.sent) (sym (append_assoc t.lost (t.batch ++ t.db.sqllist) (sql ∷ [])))
          ∙ (sym (append_assoc t.sent (t.lost ++ (t.batch ++ t.db.sqllist)) (sql ∷ []))
              ∙ ap (λ l. l ++ sql ∷ []) h.in_order));
  spared = h.spared;
  live = h.live;
  done = h.done;
})
Step-IsOrdered {t} (take_over at e) h = subst IsOrdered (sym e) (record {
  in_order =
      ap (λ l. t.sent ++ (t.lost ++ l)) (append-nil t.db.sqllist)
      ∙ subst (λ b. t.sent ++ (t.lost ++ (b ++ t.db.sqllist)) ≡ t.issued) (h.done at) h.in_order;
  spared = h.spared;
  live = λ s. cc;
  done = λ s. cc;
})
Step-IsOrdered {t} (alive at on e) h =
    subst IsOrdered (sym e)
      (record { in_order = h.in_order; spared = h.spared; live = λ s. on; done = λ s. cc })
Step-IsOrdered {t} (renews v at on won e) h =
    let (same, opens, _) = db_reconnect_keeps v (record t.db { con = null }) in
    subst IsOrdered (sym e) (record {
      in_order = ap (λ q. t.sent ++ (t.lost ++ (t.batch ++ q))) same ∙ h.in_order;
      spared = λ c. h.spared on;
      live = λ s. opens won;
      done = λ s. cc;
    })
Step-IsOrdered {t} (gives_up v at on failed e) h =
    let (same, _, shut) = db_reconnect_keeps v (record t.db { con = null }) in
    subst IsOrdered (sym e) (record {
      in_order =
          ap (λ q. t.sent ++ ((t.lost ++ t.batch) ++ q)) same
          ∙ (ap (◌++◌ t.sent) (append_assoc t.lost t.batch t.db.sqllist) ∙ h.in_order);
      spared = λ c. absurd (shut failed c);
      live = λ s. cc;
      done = λ s. refl;
    })
Step-IsOrdered {t} (sends sql rest at b e) h =
    let none_lost = h.spared (h.live at) in
    subst IsOrdered (sym e) (record {
      in_order =
          append_assoc t.sent (sql ∷ []) (t.lost ++ (rest ++ t.db.sqllist))
          ∙ subst (λ l. t.sent ++ (sql ∷ (l ++ (rest ++ t.db.sqllist))) ≡ t.issued) (sym none_lost)
              (subst (λ l. t.sent ++ (l ++ (sql ∷ rest ++ t.db.sqllist)) ≡ t.issued) none_lost
                (subst (λ l. t.sent ++ (t.lost ++ (l ++ t.db.sqllist)) ≡ t.issued) b h.in_order));
      spared = h.spared;
      live = h.live;
      done = λ s. cc;
    })
Step-IsOrdered {t} (returns at b e) h =
    subst IsOrdered (sym e)
      (record { in_order = h.in_order; spared = h.spared; live = λ s. cc; done = λ s. b })

-- However the two threads interleave: what MySQL was sent, then what a failed reconnection lost,
-- then the rest of the batch, then the queue, are the statements that were issued, each once and in
-- order; nothing is lost as long as the connection is open; statements are sent on an open
-- connection only; and outside `db_sync` nothing is held back.
pub Reach-IsOrdered : {t u : Shared} → IsOrdered t → Reach t u → IsOrdered u
Reach-IsOrdered h here = h
Reach-IsOrdered h (next r step) = Step-IsOrdered step (Reach-IsOrdered h r)
