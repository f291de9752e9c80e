-- ===== src/Db.antt =====
-- src/db.c: the connection to MySQL and the queue of statements between the main thread
-- (db_exec) and the database thread (db_sync). MySQL's answers are arguments.
pub mod Queue
pub mod Threads
use autodialer_core.Base.{
  ℕ, Bool, true, false, Option, none, some, List, [], ◌∷◌, ◌++◌, Text, if◌then◌else◌, ◌>>=◌,
  get_elem?,
}

pub record DbConfig : Type 0 where
  pub user : Text
  pub pass : Text
  pub host : Text
  pub db : Text

-- `con->con`: open, NULL, or closed by `mysql_close` and still set.
pub data Connection : Type 0 where
  connected null freed : Connection

-- A connection with the queue `sqllist`.
pub record DbCon : Type 0 where
  pub config : DbConfig
  pub con : Connection
  pub sqllist : List Text

-- Whether `mysql_init` gives a handle, and whether `mysql_real_connect` connects it.
pub record Server : Type 0 where
  pub init : Bool
  pub real_connect : Bool

-- A failed connection attempt leaves no `db_con`.
unfoldable pub db_connect : Server → DbConfig → Option DbCon
db_connect v config =
    if v.init
    then (if v.real_connect
        then some (record { config = config; con = connected; sqllist = [] })
        else none)
    else none

-- After a failed `mysql_real_connect` the handle is closed and its pointer stays.
unfoldable pub db_reconnect : Server → DbCon → Bool × DbCon
db_reconnect v c =
    if v.init
    then (if v.real_connect
        then (true, record c { con = connected })
        else (false, record c { con = freed }))
    else (false, record c { con = null })

-- The statement is formatted and queued; `none` if that fails. The result is the error code as a
-- truth value: false when the statement was queued.
unfoldable pub db_exec : Option Text → DbCon → Bool × DbCon
db_exec none c = (true, c)
db_exec (some sql) c = (false, record c { sqllist = c.sqllist ++ sql ∷ [] })

-- Queries run on an open handle only; otherwise libmysql is given a dead pointer.
abbrev pub with_handle {ℓ} : {A : Type ℓ} → DbCon → A → Option A
with_handle c a = elim c.con [ connected ↦ some a | null ↦ none | freed ↦ none ]

-- A row of a result, with NULL fields.
abbrev pub Row : Type 0
Row = List (Option Text)

-- `rows` is what MySQL answers to a query, none on an error.
unfoldable pub get_results : (Text → Option (List Row)) → DbCon → Text → Option (Option (List Row))
get_results rows c sql = with_handle c (rows sql)

unfoldable pub db_real_exec : (Text → Bool) → DbCon → Text → Option Bool
db_real_exec runs c sql = with_handle c (runs sql)

abbrev first_row : List Row → Option Row
first_row [] = none
first_row (r ∷ rs) = some r

-- The field of the first row, if there is a row; none of it on an error.
unfoldable pub get_field :
    (Text → Option (List Row)) → DbCon → ℕ → Text → Option (Bool × Option Text)
get_field rows c field sql = get_results rows c sql >>= λ answer. some (elim answer [
  | none ↦ (false, none)
  | some rs ↦ (true, first_row rs >>= λ r. get_elem? r field >>= λ f. f)
])

-- A synchronisation: whether "SELECT 1" runs, and the server if it does not.
pub record Ping : Type 0 where
  pub alive : Bool
  pub server : Server

-- The queue is taken over and the connection is tested. Then each statement is sent, in order, and
-- freed; a statement that fails is only reported. The second part is what was sent.
unfoldable pub db_sync : Ping → DbCon → Option (DbCon × List Text)
unfolding db_reconnect
db_sync g c =
    let batch = c.sqllist in
    let taken : DbCon = record c { sqllist = [] } in
    let again = db_reconnect g.server (record taken { con = null }) in
    with_handle c
      (if g.alive then (taken, batch) else if again.0 then (again.1, batch) else (again.1, []))
