-- ===== src/MailAccount/Refusals.antt =====
-- The errors that internal/mailaccount/store.go reports, and their causes in the tables.
use shiroyagi.Base.{
  ◌≡◌, ◌≢◌, refl, ap, ◌∙◌, ◌⊎◌, inl, inr, true, Bool-cases, none, some, Option-cases, [], arith,
}
use shiroyagi.Base.Int.{ℤ}
use shiroyagi.Base.Result.{ok, err, ◌>>=◌}
use shiroyagi.Text.{Bytes, ◌==◌, eq_iff}
use shiroyagi.Dict
use shiroyagi.MailAccount.Schema.{
  MailAccountRow, Database, Protocol, imap, smtp, unique_violation,
  uk_mail_accounts_user_id_email_address, delete_row, insert_account, touch_account, has_address,
}
use shiroyagi.MailAccount.Conn.{Conn, Error, no_rows, duplicate_account}
use shiroyagi.MailAccount.Store.{Account}
use shiroyagi.MailAccount.Spec.{
  Op, insert, update, save_imap, save_smtp, delete_imap, delete_smtp, delete, run, spec, touched,
}
use shiroyagi.MailAccount.Isolation.{target, caller}
use shiroyagi.MailAccount.Refine.{outcome, run-Refined, run-outcome}
use shiroyagi.MailAccount.Save.{run_of_spec, bumped, touched_own, save_reads_back}

-- An account is there and belongs to the user.
pub record Owned (user_id id : Bytes) (db : Database) : Type 0 where
  pub row : MailAccountRow
  pub there : Dict.lookup id db.mail_accounts ≡ some row
  pub own : row.user_id ≡ user_id

-- There is no such account, or it belongs to another user.
abbrev pub NotOwned : Bytes → Bytes → Database → Type 0
NotOwned user_id id db =
    (Dict.lookup id db.mail_accounts ≡ none)
    ⊎ ((row : MailAccountRow) × (Dict.lookup id db.mail_accounts ≡ some row)
        × (row.user_id ≢ user_id))

-- The methods that save or delete settings.
abbrev pub OfSettings : Op → Type 0
OfSettings (save_imap a) = Unit {0}
OfSettings (save_smtp a) = Unit {0}
OfSettings (delete_imap user_id id) = Unit {0}
OfSettings (delete_smtp user_id id) = Unit {0}
OfSettings op = ⊥

ownership : (user_id id : Bytes) (db : Database) → Owned user_id id db ⊎ NotOwned user_id id db
ownership user_id id db = elim (Option-cases (Dict.lookup id db.mail_accounts)) [
  | inl missing ↦ inr (inl missing)
  | inr (row, there) ↦ elim (Bool-cases (row.user_id == user_id)) [
    | inl own ↦ inl (record { row = row; there = there; own = (eq_iff row.user_id user_id).0 own })
    | inr foreign ↦ inr (inr (row, there, λ e. ground (arith, eq_iff row.user_id user_id)))
  ]
]

module _ (now : ℤ) where
  touched-NotOwned :
      (user_id id : Bytes) (db : Database)
      → NotOwned user_id id db
      → touched now user_id id db ≡ err no_rows
  unfolding touched touch_account
  touched-NotOwned user_id id db (inl missing) = ground arith
  touched-NotOwned user_id id db (inr (row, there, foreign)) =
      ground (arith, eq_iff row.user_id user_id)

  spec-NotOwned :
      (op : Op) (db : Database)
      → OfSettings op
      → NotOwned (caller op) (target op) db
      → spec now op db ≡ err no_rows
  unfolding spec
  spec-NotOwned (insert a) db o n = absurd o
  spec-NotOwned (update a) db o n = absurd o
  spec-NotOwned (delete user_id id) db o n = absurd o
  spec-NotOwned (save_imap a) db o n = rw (touched-NotOwned a.user_id a.id db n) refl
  spec-NotOwned (save_smtp a) db o n = rw (touched-NotOwned a.user_id a.id db n) refl
  spec-NotOwned (delete_imap user_id id) db o n = rw (touched-NotOwned user_id id db n) refl
  spec-NotOwned (delete_smtp user_id id) db o n = rw (touched-NotOwned user_id id db n) refl

  run_of_refusal :
      (op : Op) (c : Conn) (e : Error)
      → c.faults ≡ []
      → spec now op c.db ≡ err e
      → ((run now op c).0 ≡ err e) × ((run now op c).1.db ≡ c.db)
  run_of_refusal op c e clean h =
      let failed : (run now op c).0 ≡ err e = run-outcome now op c clean ∙ ap outcome h in
      elim (run-Refined now op c) [
        | inl (done, _) ↦ absurd (cc)
        | inr (x, _, kept) ↦ (failed, kept)
      ]

  spec-delete_Owned :
      (p : Protocol) (user_id id : Bytes) (db : Database) (w : Owned user_id id db)
      → (touched now user_id id db >>= λ d. ok (delete_row p id d))
        ≡ ok (delete_row p id (bumped now id w.row db))
  spec-delete_Owned p user_id id db w = rw (touched_own now user_id id db w.row w.there w.own) refl

  run-Owned :
      (op : Op) (c : Conn)
      → c.faults ≡ []
      → OfSettings op
      → Owned (caller op) (target op) c.db
      → (run now op c).0 ≡ ok tt
  unfolding spec
  run-Owned (insert a) c clean o w = absurd o
  run-Owned (update a) c clean o w = absurd o
  run-Owned (delete user_id id) c clean o w = absurd o
  run-Owned (save_imap a) c clean o w = (save_reads_back imap now a c w.row clean w.there w.own).0
  run-Owned (save_smtp a) c clean o w = (save_reads_back smtp now a c w.row clean w.there w.own).0
  run-Owned (delete_imap user_id id) c clean o w =
      (run_of_spec now (delete_imap user_id id) c clean
        (spec-delete_Owned imap user_id id c.db w)).0
  run-Owned (delete_smtp user_id id) c clean o w =
      (run_of_spec now (delete_smtp user_id id) c clean
        (spec-delete_Owned smtp user_id id c.db w)).0

  -- With no call failing for a reason outside the tables, a method that saves or deletes settings
  -- succeeds if the account is there and belongs to the calling user; if there is no such account or
  -- it belongs to another user, it reports `sql.ErrNoRows` and every table stays as it was.
  pub run-ownership :
      (op : Op) (c : Conn)
      → c.faults ≡ []
      → OfSettings op
      → (Owned (caller op) (target op) c.db × ((run now op c).0 ≡ ok tt))
        ⊎ (NotOwned (caller op) (target op) c.db
            × ((run now op c).0 ≡ err no_rows)
            × ((run now op c).1.db ≡ c.db))
  run-ownership op c clean o = elim (ownership (caller op) (target op) c.db) [
    | inl w ↦ inl (w, run-Owned op c clean o w)
    | inr n ↦
        let (failed, kept) = run_of_refusal op c no_rows clean (spec-NotOwned op c.db o n) in
        inr (n, failed, kept)
  ]

  has_address_of :
      (user_id email_address : Bytes) (row : MailAccountRow)
      → row.user_id ≡ user_id
      → row.email_address ≡ email_address
      → has_address user_id email_address row ≡ true
  has_address_of user_id email_address row own same =
      ground (arith, eq_iff row.user_id user_id, eq_iff row.email_address email_address)

  insert_account-taken :
      (a : Account) (db : Database) (j : Bytes) (row : MailAccountRow)
      → Dict.lookup a.id db.mail_accounts ≡ none
      → Dict.lookup j db.mail_accounts ≡ some row
      → has_address a.user_id a.email_address row ≡ true
      → insert_account now a.id a.user_id a.email_address db
        ≡ err (unique_violation uk_mail_accounts_user_id_email_address)
  unfolding insert_account
  insert_account-taken a db j row free there same =
      elim (Bool-cases (Dict.any (has_address a.user_id a.email_address) db.mail_accounts)) [
        | inl taken ↦ ground arith
        | inr new ↦
            let no =
              Dict.any-lookup (has_address a.user_id a.email_address) db.mail_accounts j row there
                new in
            absurd (cc)
      ]

  spec-insert_duplicate :
      (a : Account) (db : Database) (j : Bytes) (row : MailAccountRow)
      → Dict.lookup a.id db.mail_accounts ≡ none
      → Dict.lookup j db.mail_accounts ≡ some row
      → has_address a.user_id a.email_address row ≡ true
      → spec now (insert a) db ≡ err duplicate_account
  unfolding spec ◌==◌
  spec-insert_duplicate a db j row free there same =
      rw (insert_account-taken a db j row free there same) refl

  -- With no call failing for a reason outside the tables, `Insert` of an account whose identifier is
  -- not in use, for a user who has an account with that email address, reports
  -- `ErrDuplicateAccount` and leaves every table as it was.
  pub insert-duplicate :
      (a : Account) (c : Conn) (j : Bytes) (row : MailAccountRow)
      → c.faults ≡ []
      → Dict.lookup a.id c.db.mail_accounts ≡ none
      → Dict.lookup j c.db.mail_accounts ≡ some row
      → row.user_id ≡ a.user_id
      → row.email_address ≡ a.email_address
      → ((run now (insert a) c).0 ≡ err duplicate_account) × ((run now (insert a) c).1.db ≡ c.db)
  insert-duplicate a c j row clean free there own same =
      run_of_refusal (insert a) c duplicate_account clean (
        spec-insert_duplicate a c.db j row free there
          (has_address_of a.user_id a.email_address row own same))
