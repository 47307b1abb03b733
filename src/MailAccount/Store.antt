-- ===== src/MailAccount/Store.antt =====
-- The methods of `Store` in internal/mailaccount/store.go.
use shiroyagi.Base.{ℕ, Bool, true, false, Option, none, some, [], same, if◌then◌else◌}
use shiroyagi.Base.Int.{ℤ, pos}
use shiroyagi.Base.Result.{Result, ok, err}
use shiroyagi.Base.Exec.{Exec, pure, lift, map_err, ◌>>=◌, ◌>>◌}
use shiroyagi.Text.{Bytes, codes, ◌==◌}
use shiroyagi.Dict
use shiroyagi.Dict.{Dict}
use shiroyagi.MailAccount.Schema.{
  MailAccountRow, Settings, SettingsRow, Database, imap, smtp, has_address, DbError, fault,
  unique_violation, foreign_key_violation, uk_mail_accounts_user_id_email_address, insert_account,
  touch_account, delete_account, insert_row, upsert_row, delete_row,
}
use shiroyagi.MailAccount.Conn.{
  Conn, Error, duplicate_account, no_rows, wrapped, statement, transaction,
}

-- The fields of the two protocols are grouped.
pub record Account : Type 0 where
  pub id : Bytes
  pub user_id : Bytes
  pub email_address : Bytes
  pub has_imap : Bool
  pub imap_settings : Settings
  pub has_smtp : Bool
  pub smtp_settings : Settings

pub record Detail : Type 0 where
  pub id : Bytes
  pub email_address : Bytes
  pub has_imap : Bool
  pub imap_settings : Settings
  pub has_smtp : Bool
  pub smtp_settings : Settings

-- The zero value of the fields, which the scan of NULL columns leaves.
abbrev pub no_settings : Settings
no_settings = record {
  host = [];
  port = pos 0;
  security = [];
  username = [];
  encrypted_password = [];
  wrapped_dek = [];
  kek_version = 0;
}

abbrev pub joined : Option SettingsRow → Settings
joined none = no_settings
joined (some row) = row.settings

abbrev pub is_joined : Option SettingsRow → Bool
is_joined none = false
is_joined (some row) = true

abbrev pub detail : Bytes → MailAccountRow → Database → Detail
detail id row db = record {
  id = id;
  email_address = row.email_address;
  has_imap = is_joined (Dict.lookup id db.imap_accounts);
  imap_settings = joined (Dict.lookup id db.imap_accounts);
  has_smtp = is_joined (Dict.lookup id db.smtp_accounts);
  smtp_settings = joined (Dict.lookup id db.smtp_accounts);
}

-- SELECT … LEFT JOIN … WHERE ma.user_id = $1 AND ma.id = $2
unfoldable pub select_detail : Bytes → Bytes → Database → Option Detail
select_detail user_id id db = elim (Dict.lookup id db.mail_accounts) [
  | none ↦ none
  | some row ↦ if row.user_id == user_id then some (detail id row db) else none
]

-- `sql.ErrNoRows` is no error here: the result is none.
unfoldable pub get : Bytes → Bytes → Exec Conn Error (Option Detail)
unfolding select_detail statement
get user_id id =
    map_err (wrapped (codes "get mail account"))
      (statement (λ db. ok (select_detail user_id id db, db)))

unfoldable pub exists_by_user_and_email : Bytes → Bytes → Exec Conn Error Bool
unfolding statement
exists_by_user_and_email user_id email_address =
    map_err (wrapped (codes "check mail account existence"))
      (statement (λ db. ok (Dict.any (has_address user_id email_address) db.mail_accounts, db)))

-- A statement whose result is not used.
abbrev pub run : Result DbError Database → Result DbError (Unit {0} × Database)
run (err e) = err e
run (ok db) = ok (tt, db)

abbrev pub is_unique_violation : DbError → Bytes → Bool
is_unique_violation fault constraint = false
is_unique_violation foreign_key_violation constraint = false
is_unique_violation (unique_violation name) constraint = name == constraint

abbrev pub insert_error : DbError → Error
insert_error e =
    if is_unique_violation e uk_mail_accounts_user_id_email_address
    then duplicate_account
    else wrapped (codes "insert mail account") e

abbrev pub affected_or_no_rows : ℕ → Result Error (Unit {0})
affected_or_no_rows n = if same n 0 then err no_rows else ok tt

unfoldable pub delete_imap_row : Bytes → Exec Conn Error (Unit {0})
unfolding statement
delete_imap_row id =
    map_err (wrapped (codes "delete imap account"))
      (statement (λ db. ok (tt, delete_row imap id db)))

unfoldable pub delete_smtp_row : Bytes → Exec Conn Error (Unit {0})
unfolding statement
delete_smtp_row id =
    map_err (wrapped (codes "delete smtp account"))
      (statement (λ db. ok (tt, delete_row smtp id db)))

module _ (now : ℤ) where
  unfoldable pub touch_mail_account : Bytes → Bytes → Exec Conn Error (Unit {0})
  unfolding statement
  touch_mail_account user_id id = do
    affected ←
        map_err (wrapped (codes "touch mail account"))
          (statement (λ db. ok (touch_account now user_id id db)))
    lift (affected_or_no_rows affected)

  unfoldable pub insert_imap : Account → Exec Conn Error (Unit {0})
  unfolding statement
  insert_imap a =
      map_err (wrapped (codes "insert imap account"))
        (statement (λ db. run (insert_row imap now a.id a.imap_settings db)))

  unfoldable pub insert_smtp : Account → Exec Conn Error (Unit {0})
  unfolding statement
  insert_smtp a =
      map_err (wrapped (codes "insert smtp account"))
        (statement (λ db. run (insert_row smtp now a.id a.smtp_settings db)))

  unfoldable pub upsert_imap : Account → Exec Conn Error (Unit {0})
  unfolding statement
  upsert_imap a =
      map_err (wrapped (codes "upsert imap account"))
        (statement (λ db. run (upsert_row imap now a.id a.imap_settings db)))

  unfoldable pub upsert_smtp : Account → Exec Conn Error (Unit {0})
  unfolding statement
  upsert_smtp a =
      map_err (wrapped (codes "upsert smtp account"))
        (statement (λ db. run (upsert_row smtp now a.id a.smtp_settings db)))

  unfoldable pub insert : Account → Exec Conn Error (Unit {0})
  unfolding insert_imap insert_smtp statement transaction
  insert a = transaction (codes "begin mail account insert") (codes "commit mail account insert") do
    map_err insert_error
        (statement (λ db. run (insert_account now a.id a.user_id a.email_address db)))
    if a.has_imap then insert_imap a else pure tt
    if a.has_smtp then insert_smtp a else pure tt

  -- The rows that the UPDATE affects are not counted.
  unfoldable pub update : Account → Exec Conn Error (Unit {0})
  unfolding upsert_imap upsert_smtp delete_imap_row delete_smtp_row statement transaction
  update a = transaction (codes "begin mail account update") (codes "commit mail account update") do
    map_err (wrapped (codes "update mail account"))
        (statement (λ db. ok (touch_account now a.user_id a.id db)))
    if a.has_imap then upsert_imap a else delete_imap_row a.id
    if a.has_smtp then upsert_smtp a else delete_smtp_row a.id

  unfoldable pub save_imap : Account → Exec Conn Error (Unit {0})
  unfolding touch_mail_account upsert_imap transaction
  save_imap a =
      transaction (codes "begin imap account save") (codes "commit imap account save")
        do touch_mail_account a.user_id a.id; upsert_imap a

  unfoldable pub save_smtp : Account → Exec Conn Error (Unit {0})
  unfolding touch_mail_account upsert_smtp transaction
  save_smtp a =
      transaction (codes "begin smtp account save") (codes "commit smtp account save")
        do touch_mail_account a.user_id a.id; upsert_smtp a

  unfoldable pub delete_imap : Bytes → Bytes → Exec Conn Error (Unit {0})
  unfolding touch_mail_account delete_imap_row transaction
  delete_imap user_id id =
      transaction (codes "begin imap account delete") (codes "commit imap account delete")
        do touch_mail_account user_id id; delete_imap_row id

  unfoldable pub delete_smtp : Bytes → Bytes → Exec Conn Error (Unit {0})
  unfolding touch_mail_account delete_smtp_row transaction
  delete_smtp user_id id =
      transaction (codes "begin smtp account delete") (codes "commit smtp account delete")
        do touch_mail_account user_id id; delete_smtp_row id

unfoldable pub delete : Bytes → Bytes → Exec Conn Error (Unit {0})
unfolding statement
delete user_id id =
    map_err (wrapped (codes "delete mail account"))
      (statement (λ db. ok (tt, delete_account user_id id db)))
