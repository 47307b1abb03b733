-- ===== src/MailAccount/Conn.antt =====
-- A connection to the database: statements and transactions.
use shiroyagi.Base.{Bool, false, List, [], ◌∷◌, if◌then◌else◌}
use shiroyagi.Base.Result.{Result, ok, err}
use shiroyagi.Base.Exec.{Exec}
use shiroyagi.Text.{Bytes}
use shiroyagi.MailAccount.Schema.{Database, DbError, fault}

-- `faults` says of each later call whether it fails for a reason outside the tables; where the list
-- ends, none does.
pub record Conn : Type 0 where
  pub db : Database
  pub faults : List Bool

-- `wrapped` is `fmt.Errorf` with `%w`.
pub data Error : Type 0 where
  duplicate_account no_rows : Error
  wrapped : Bytes → DbError → Error

abbrev pub fails_now : List Bool → Bool
fails_now [] = false
fails_now (b ∷ bs) = b

abbrev pub later : List Bool → List Bool
later [] = []
later (b ∷ bs) = bs

abbrev pub advance : Conn → Conn
advance c = record c { faults = later c.faults }

abbrev pub finish : {A : Type 0} → Conn → Result DbError (A × Database) → Result DbError A × Conn
finish c (err e) = (err e, c)
finish c (ok (a, db)) = (ok a, record c { db = db })

-- One round trip to the server.
unfoldable pub statement :
    {A : Type 0} → (Database → Result DbError (A × Database)) → Exec Conn DbError A
statement f c = if fails_now c.faults then (err fault, advance c) else finish (advance c) (f c.db)

-- `tx.Commit()`, after which the deferred `Rollback` does nothing; on an error before or in it the
-- `Rollback` restores the database that `BeginTx` saw.
abbrev pub commit : {A : Type 0} → Bytes → Database → Result Error A × Conn → Result Error A × Conn
commit label before (err e, c) = (err e, record c { db = before })
commit label before (ok a, c) =
    if fails_now c.faults
    then (err (wrapped label fault), record (advance c) { db = before })
    else (ok a, advance c)

unfoldable pub transaction : {A : Type 0} → Bytes → Bytes → Exec Conn Error A → Exec Conn Error A
transaction begin_label commit_label body c =
    if fails_now c.faults
    then (err (wrapped begin_label fault), advance c)
    else commit commit_label c.db (body (advance c))
