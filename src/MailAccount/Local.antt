-- ===== src/MailAccount/Local.antt =====
-- A statement with the identifier of one account leaves every other account as it was.
use shiroyagi.Base.{◌≡◌, ◌≢◌, refl, ◌∙◌, inl, inr, Bool-cases, Option-cases, arith}
use shiroyagi.Base.Int.{ℤ}
use shiroyagi.Base.Result.{ok}
use shiroyagi.Text.{Bytes, ◌==◌, eq_iff}
use shiroyagi.Dict
use shiroyagi.Dict.{Dict}
use shiroyagi.MailAccount.Schema
use shiroyagi.MailAccount.Schema.{
  MailAccountRow, SettingsRow, Database, DbError, Protocol, table, set_table, fault, touch_account,
  delete_row, delete_account, insert_account, insert_row, upsert_row, imap, smtp, Settings,
}

-- The account `j` and its settings are the same in both databases.
pub record SameAt (j : Bytes) (db db' : Database) : Type 0 where
  pub account : Dict.lookup j db'.mail_accounts ≡ Dict.lookup j db.mail_accounts
  pub imap_settings : Dict.lookup j db'.imap_accounts ≡ Dict.lookup j db.imap_accounts
  pub smtp_settings : Dict.lookup j db'.smtp_accounts ≡ Dict.lookup j db.smtp_accounts

lookup-insert_ne :
    {V : Type 0} (k j : Bytes) (v : V) (m : Dict V)
    → j ≢ k
    → Dict.lookup j (Dict.insert k v m) ≡ Dict.lookup j m
lookup-insert_ne k j v m h = rw Dict.lookup-insert (ground (arith, eq_iff k j))

lookup-remove_ne :
    {V : Type 0} (k j : Bytes) (m : Dict V)
    → j ≢ k
    → Dict.lookup j (Dict.remove k m) ≡ Dict.lookup j m
lookup-remove_ne k j m h = rw Dict.lookup-remove (ground (arith, eq_iff k j))

pub SameAt-refl : (j : Bytes) (db : Database) → SameAt j db db
SameAt-refl j db = record { account = refl; imap_settings = refl; smtp_settings = refl }

pub SameAt-trans : {j : Bytes} {a b c : Database} → SameAt j a b → SameAt j b c → SameAt j a c
SameAt-trans h k = record {
  account = k.account ∙ h.account;
  imap_settings = k.imap_settings ∙ h.imap_settings;
  smtp_settings = k.smtp_settings ∙ h.smtp_settings;
}

module _ (now : ℤ) (id j : Bytes) (other : j ≢ id) where
  pub touch_local :
      (user_id : Bytes) (db : Database) → SameAt j db (touch_account now user_id id db).1
  touch_local user_id db = elim (Option-cases (Dict.lookup id db.mail_accounts)) [
    | inl e ↦ unfold touch_account in rw (e, touch_account) (SameAt-refl j db)
    | inr (row, e) ↦ elim (Bool-cases (row.user_id == user_id)) [
      | inl own ↦
          unfold touch_account in
          rw (e, own, touch_account)
            (record {
              account = lookup-insert_ne id j _ db.mail_accounts other;
              imap_settings = refl;
              smtp_settings = refl;
            })
      | inr foreign ↦ unfold touch_account in rw (e, foreign, touch_account) (SameAt-refl j db)
    ]
  ]

  set_local :
      (p : Protocol) (row : SettingsRow) (db : Database)
      → SameAt j db (set_table p db (Dict.insert id row (table p db)))
  set_local imap row db = record {
    account = refl;
    imap_settings = lookup-insert_ne id j row db.imap_accounts other;
    smtp_settings = refl;
  }
  set_local smtp row db = record {
    account = refl;
    imap_settings = refl;
    smtp_settings = lookup-insert_ne id j row db.smtp_accounts other;
  }

  pub delete_row_local : (p : Protocol) (db : Database) → SameAt j db (delete_row p id db)
  unfolding delete_row
  delete_row_local imap db = record {
    account = refl;
    imap_settings = lookup-remove_ne id j db.imap_accounts other;
    smtp_settings = refl;
  }
  delete_row_local smtp db = record {
    account = refl;
    imap_settings = refl;
    smtp_settings = lookup-remove_ne id j db.smtp_accounts other;
  }

  pub upsert_local :
      (p : Protocol) (s : Settings) (db db' : Database)
      → upsert_row p now id s db ≡ ok db'
      → SameAt j db db'
  unfolding upsert_row
  upsert_local p s db db' h = elim (Option-cases (Dict.lookup id db.mail_accounts)) [
    | inl e ↦ absurd (ground arith)
    | inr (account, e) ↦ elim (Option-cases (Dict.lookup id (table p db))) [
      | inl n ↦
          let row : SettingsRow = Schema.new_row now s in
          let x : set_table p db (Dict.insert id row (table p db)) ≡ db' = ground arith in
          rw (← x) (set_local p row db)
      | inr (old, f) ↦
          let row : SettingsRow = record old { settings = s; updated_at = now } in
          let x : set_table p db (Dict.insert id row (table p db)) ≡ db' = ground arith in
          rw (← x) (set_local p row db)
    ]
  ]

  pub insert_row_local :
      (p : Protocol) (s : Settings) (db db' : Database)
      → insert_row p now id s db ≡ ok db'
      → SameAt j db db'
  unfolding insert_row
  insert_row_local p s db db' h =
      let row : SettingsRow = Schema.new_row now s in
      let x : set_table p db (Dict.insert id row (table p db)) ≡ db' = ground arith in
      rw (← x) (set_local p row db)

  pub insert_account_local :
      (user_id email_address : Bytes) (db db' : Database)
      → insert_account now id user_id email_address db ≡ ok db'
      → SameAt j db db'
  unfolding insert_account
  insert_account_local user_id email_address db db' h =
      let row : MailAccountRow = record {
        user_id = user_id;
        email_address = email_address;
        created_at = now;
        updated_at = now;
      } in
      let x : record db { mail_accounts = Dict.insert id row db.mail_accounts } ≡ db' =
        ground arith in
      rw (← x) (record {
        account = lookup-insert_ne id j row db.mail_accounts other;
        imap_settings = refl;
        smtp_settings = refl;
      })

  pub delete_account_local :
      (user_id : Bytes) (db : Database) → SameAt j db (delete_account user_id id db)
  delete_account_local user_id db = elim (Option-cases (Dict.lookup id db.mail_accounts)) [
    | inl e ↦ unfold delete_account in rw (e, delete_account) (SameAt-refl j db)
    | inr (row, e) ↦ elim (Bool-cases (row.user_id == user_id)) [
      | inl own ↦
          unfold delete_account in
          rw (e, own, delete_account)
            (record {
              account = lookup-remove_ne id j db.mail_accounts other;
              imap_settings = lookup-remove_ne id j db.imap_accounts other;
              smtp_settings = lookup-remove_ne id j db.smtp_accounts other;
            })
      | inr foreign ↦ unfold delete_account in rw (e, foreign, delete_account) (SameAt-refl j db)
    ]
  ]
