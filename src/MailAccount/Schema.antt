-- ===== src/MailAccount/Schema.antt =====
-- The tables of internal/db/migrations/001_create_mail_accounts.sql, each keyed by its primary key,
-- and what the SQL statements of store.go do to them. Identifiers are UUIDs in their canonical
-- text; times are those of NOW().
use shiroyagi.Base.{ℕ, Bool, ◌&&◌, none, some, if◌then◌else◌}
use shiroyagi.Base.Int.{ℤ}
use shiroyagi.Base.Result.{Result, ok, err}
use shiroyagi.Text.{Bytes, codes, ◌==◌}
use shiroyagi.Dict
use shiroyagi.Dict.{Dict}

pub record MailAccountRow : Type 0 where
  pub user_id : Bytes
  pub email_address : Bytes
  pub created_at : ℤ
  pub updated_at : ℤ

-- The columns that the two tables of settings share.
pub record Settings : Type 0 where
  pub host : Bytes
  pub port : ℤ
  pub security : Bytes
  pub username : Bytes
  pub encrypted_password : Bytes
  pub wrapped_dek : Bytes
  pub kek_version : ℕ

pub record SettingsRow : Type 0 where
  pub settings : Settings
  pub created_at : ℤ
  pub updated_at : ℤ

pub record Database : Type 0 where
  pub mail_accounts : Dict MailAccountRow
  pub imap_accounts : Dict SettingsRow
  pub smtp_accounts : Dict SettingsRow

pub data Protocol : Type 0 where
  imap smtp : Protocol

abbrev pub table : Protocol → Database → Dict SettingsRow
table imap db = db.imap_accounts
table smtp db = db.smtp_accounts

abbrev pub set_table : Protocol → Database → Dict SettingsRow → Database
set_table imap db t = record db { imap_accounts = t }
set_table smtp db t = record db { smtp_accounts = t }

-- An error of the server. `fault` is any that the tables do not explain: a lost connection, a
-- cancelled context, an identifier that is no UUID.
pub data DbError : Type 0 where
  fault : DbError
  unique_violation : Bytes → DbError
  foreign_key_violation : DbError

abbrev pub uk_mail_accounts_user_id_email_address : Bytes
uk_mail_accounts_user_id_email_address = codes "uk_mail_accounts_user_id_email_address"

abbrev pub has_address : Bytes → Bytes → MailAccountRow → Bool
has_address user_id email_address row = row.user_id == user_id && row.email_address == email_address

-- INSERT INTO mail_accounts
unfoldable pub insert_account : ℤ → Bytes → Bytes → Bytes → Database → Result DbError Database
insert_account now id user_id email_address db = elim (Dict.lookup id db.mail_accounts) [
  | some row ↦ err (unique_violation (codes "mail_accounts_pkey"))
  | none ↦
      if Dict.any (has_address user_id email_address) db.mail_accounts
      then err (unique_violation uk_mail_accounts_user_id_email_address)
      else ok (record db {
        mail_accounts =
            Dict.insert id
              (record {
                user_id = user_id;
                email_address = email_address;
                created_at = now;
                updated_at = now;
              })
              db.mail_accounts;
      })
]

-- UPDATE mail_accounts SET updated_at = NOW() WHERE user_id = $1 AND id = $2, with the rows
-- affected.
unfoldable pub touch_account : ℤ → Bytes → Bytes → Database → ℕ × Database
touch_account now user_id id db = elim (Dict.lookup id db.mail_accounts) [
  | none ↦ (0, db)
  | some row ↦
      if row.user_id == user_id
      then (
        1,
        record db {
          mail_accounts = Dict.insert id (record row { updated_at = now }) db.mail_accounts;
        },
      )
      else (0, db)
]

-- DELETE FROM mail_accounts WHERE user_id = $1 AND id = $2, with ON DELETE CASCADE.
unfoldable pub delete_account : Bytes → Bytes → Database → Database
delete_account user_id id db = elim (Dict.lookup id db.mail_accounts) [
  | none ↦ db
  | some row ↦
      if row.user_id == user_id
      then record {
        mail_accounts = Dict.remove id db.mail_accounts;
        imap_accounts = Dict.remove id db.imap_accounts;
        smtp_accounts = Dict.remove id db.smtp_accounts;
      }
      else db
]

abbrev pub new_row : ℤ → Settings → SettingsRow
new_row now s = record { settings = s; created_at = now; updated_at = now }

-- INSERT INTO imap_accounts or smtp_accounts
unfoldable pub insert_row : Protocol → ℤ → Bytes → Settings → Database → Result DbError Database
insert_row p now id s db = elim (Dict.lookup id (table p db)) [
  | some row ↦ err (unique_violation (codes "accounts_pkey"))
  | none ↦ elim (Dict.lookup id db.mail_accounts) [
    | none ↦ err foreign_key_violation
    | some account ↦ ok (set_table p db (Dict.insert id (new_row now s) (table p db)))
  ]
]

-- INSERT INTO … ON CONFLICT (mail_account_id) DO UPDATE
unfoldable pub upsert_row : Protocol → ℤ → Bytes → Settings → Database → Result DbError Database
upsert_row p now id s db = elim (Dict.lookup id db.mail_accounts) [
  | none ↦ err foreign_key_violation
  | some account ↦ elim (Dict.lookup id (table p db)) [
    | none ↦ ok (set_table p db (Dict.insert id (new_row now s) (table p db)))
    | some row ↦ ok (
        set_table p db
          (Dict.insert id (record row { settings = s; updated_at = now }) (table p db)))
  ]
]

-- DELETE FROM imap_accounts or smtp_accounts WHERE mail_account_id = $1
unfoldable pub delete_row : Protocol → Bytes → Database → Database
delete_row p id db = set_table p db (Dict.remove id (table p db))
