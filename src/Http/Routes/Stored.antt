-- ===== src/Http/Routes/Stored.antt =====
-- What the tables of internal/mailaccount/store.go hold of the settings and the addresses that the
-- handlers of internal/http let in.
pub mod Methods
use shiroyagi.Base.{
  ℕ, ◌≤◌, ◌≡◌, ◌≢◌, refl, sym, ap, ◌∙◌, subst, ◌⊎◌, inl, inr, Bool, true, false, Bool-cases, Option,
  Option-cases, none, some, List, [], ◌∷◌, any, arith, if◌then◌else◌,
}
use shiroyagi.Base.Int.{ℤ, pos}
use shiroyagi.Base.Result
use shiroyagi.Base.Result.{Result, ok, err, ◌>>=◌, >>=-eq-ok, map_err-eq-ok}
use shiroyagi.Text.{Bytes, codes, ◌==◌}
use shiroyagi.Dict
use shiroyagi.Dict.{Dict, Among}
use shiroyagi.MailAccount.Schema.{
  MailAccountRow, SettingsRow, Settings, Database, Protocol, imap, smtp, table, set_table,
  touch_account, delete_row, delete_account, insert_account, upsert_row, new_row,
}
use shiroyagi.MailAccount.Conn.{Conn}
use shiroyagi.MailAccount.Store
use shiroyagi.MailAccount.Store.{Account, affected_or_no_rows}
use shiroyagi.MailAccount.Spec.{
  Op, insert, update, save_imap, save_smtp, delete_imap, delete_smtp, delete, run, spec, touched,
  inserted, upserted, either,
}
use shiroyagi.MailAccount.Isolation.{IsServed, touched-eq-ok}
use shiroyagi.MailAccount.Refine.{run-Refined}

abbrev pub securities : Protocol → List Bytes
securities imap = codes "imaps" ∷ codes "imap" ∷ []
securities smtp = codes "starttls" ∷ codes "smtps" ∷ codes "plain" ∷ []

-- A host, a TCP port, a security of the protocol and a username.
pub record Usable (p : Protocol) (s : Settings) : Type 0 where
  pub host : s.host ≢ []
  pub number : ℕ
  pub port : s.port ≡ pos number
  pub positive : 1 ≤ number
  pub small : number ≤ 65535
  pub security : Among s.security (securities p)
  pub username : s.username ≢ []

abbrev pub UsableRow : Protocol → SettingsRow → Type 0
UsableRow p row = Usable p row.settings

abbrev pub Addressed : MailAccountRow → Type 0
Addressed row = row.email_address ≢ []

-- Every value of a map has the property.
abbrev pub Each : {V : Type 0} → (V → Type 0) → Dict V → Type 0
Each {V} P m = (k : Bytes) (v : V) → Dict.lookup k m ≡ some v → P v

-- Every account has an address, and every row of settings is usable.
pub record Stored (db : Database) : Type 0 where
  pub accounts : Each Addressed db.mail_accounts
  pub imap_rows : Each (UsableRow imap) db.imap_accounts
  pub smtp_rows : Each (UsableRow smtp) db.smtp_accounts

-- What the server asks of the store: accounts with an address and without settings, and settings
-- that are usable. It does not call `Update`.
abbrev pub Served : Op → Type 0
Served (insert a) = (a.email_address ≢ []) × (a.has_imap ≡ false) × (a.has_smtp ≡ false)
Served (update a) = ⊥
Served (save_imap a) = Usable imap a.imap_settings
Served (save_smtp a) = Usable smtp a.smtp_settings
Served (delete_imap user_id id) = Unit {0}
Served (delete_smtp user_id id) = Unit {0}
Served (delete user_id id) = Unit {0}

pub Served-IsServed : (op : Op) → Served op → IsServed op
Served-IsServed (insert a) s = tt
Served-IsServed (update a) s = s
Served-IsServed (save_imap a) s = tt
Served-IsServed (save_smtp a) s = tt
Served-IsServed (delete_imap user_id id) s = tt
Served-IsServed (delete_smtp user_id id) s = tt
Served-IsServed (delete user_id id) s = tt

module _ {V : Type 0} (P : V → Type 0) where
  Each-insert : (k : Bytes) (v : V) (m : Dict V) → P v → Each P m → Each P (Dict.insert k v m)
  Each-insert k v m good all j w e = from (k == j) (sym (Dict.lookup-insert k j v m) ∙ e)
    where
      from : (b : Bool) → (if b then some v else Dict.lookup j m) ≡ some w → P w
      from true h = let same_value : v ≡ w = cc in subst P same_value good
      from false h = all j w h

  Each-remove : (k : Bytes) (m : Dict V) → Each P m → Each P (Dict.remove k m)
  Each-remove k m all j w e = from (k == j) (sym (Dict.lookup-remove k j m) ∙ e)
    where
      from : (b : Bool) → (if b then none else Dict.lookup j m) ≡ some w → P w
      from true h = absurd (cc)
      from false h = all j w h

-- A row of a table of settings is written.
set-Stored :
    (p : Protocol) (id : Bytes) (row : SettingsRow) (db : Database)
    → Usable p row.settings
    → Stored db
    → Stored (set_table p db (Dict.insert id row (table p db)))
set-Stored imap id row db u s = record {
  accounts = s.accounts;
  imap_rows = Each-insert (UsableRow imap) id row db.imap_accounts u s.imap_rows;
  smtp_rows = s.smtp_rows;
}
set-Stored smtp id row db u s = record {
  accounts = s.accounts;
  imap_rows = s.imap_rows;
  smtp_rows = Each-insert (UsableRow smtp) id row db.smtp_accounts u s.smtp_rows;
}

pub delete_row-Stored :
    (p : Protocol) (id : Bytes) (db : Database) → Stored db → Stored (delete_row p id db)
unfolding delete_row
delete_row-Stored imap id db s = record {
  accounts = s.accounts;
  imap_rows = Each-remove (UsableRow imap) id db.imap_accounts s.imap_rows;
  smtp_rows = s.smtp_rows;
}
delete_row-Stored smtp id db s = record {
  accounts = s.accounts;
  imap_rows = s.imap_rows;
  smtp_rows = Each-remove (UsableRow smtp) id db.smtp_accounts s.smtp_rows;
}

module _ (now : ℤ) where
  pub touch-Stored :
      (user_id id : Bytes) (db : Database) → Stored db → Stored (touch_account now user_id id db).1
  touch-Stored user_id id db s = elim (Option-cases (Dict.lookup id db.mail_accounts)) [
    | inl e ↦ unfold touch_account in rw (e, touch_account) s
    | inr (row, e) ↦ elim (Bool-cases (row.user_id == user_id)) [
      | inr foreign ↦ unfold touch_account in rw (e, foreign, touch_account) s
      | inl own ↦
          unfold touch_account in
          rw (e, own, touch_account)
            (record {
              accounts =
                  Each-insert Addressed id (record row { updated_at = now }) db.mail_accounts
                    (s.accounts id row e) s.accounts;
              imap_rows = s.imap_rows;
              smtp_rows = s.smtp_rows;
            })
    ]
  ]

  pub upsert-Stored :
      (p : Protocol) (id : Bytes) (x : Settings) (db d : Database)
      → Usable p x
      → Stored db
      → upsert_row p now id x db ≡ ok d
      → Stored d
  unfolding upsert_row
  upsert-Stored p id x db d u s h = elim (Option-cases (Dict.lookup id db.mail_accounts)) [
    | inl e ↦ absurd (ground arith)
    | inr (account, e) ↦ elim (Option-cases (Dict.lookup id (table p db))) [
      | inl n ↦
          let y : set_table p db (Dict.insert id (new_row now x) (table p db)) ≡ d = ground arith in
          rw (← y) (set-Stored p id (new_row now x) db u s)
      | inr (old, f) ↦
          let row : SettingsRow = record old { settings = x; updated_at = now } in
          let y : set_table p db (Dict.insert id row (table p db)) ≡ d = ground arith in
          rw (← y) (set-Stored p id row db u s)
    ]
  ]

  pub insert_account-Stored :
      (id user_id email_address : Bytes) (db d : Database)
      → email_address ≢ []
      → Stored db
      → insert_account now id user_id email_address db ≡ ok d
      → Stored d
  unfolding insert_account
  insert_account-Stored id user_id email_address db d filled s h =
      let row : MailAccountRow = record {
        user_id = user_id;
        email_address = email_address;
        created_at = now;
        updated_at = now;
      } in
      let made : record db { mail_accounts = Dict.insert id row db.mail_accounts } ≡ d =
        ground arith in
      rw (← made) (record {
        accounts = Each-insert Addressed id row db.mail_accounts filled s.accounts;
        imap_rows = s.imap_rows;
        smtp_rows = s.smtp_rows;
      })

pub delete_account-Stored :
    (user_id id : Bytes) (db : Database) → Stored db → Stored (delete_account user_id id db)
delete_account-Stored user_id id db s = elim (Option-cases (Dict.lookup id db.mail_accounts)) [
  | inl e ↦ unfold delete_account in rw (e, delete_account) s
  | inr (row, e) ↦ elim (Bool-cases (row.user_id == user_id)) [
    | inr foreign ↦ unfold delete_account in rw (e, foreign, delete_account) s
    | inl own ↦
        unfold delete_account in
        rw (e, own, delete_account)
          (record {
            accounts = Each-remove Addressed id db.mail_accounts s.accounts;
            imap_rows = Each-remove (UsableRow imap) id db.imap_accounts s.imap_rows;
            smtp_rows = Each-remove (UsableRow smtp) id db.smtp_accounts s.smtp_rows;
          })
  ]
]
