-- ===== src/MailAccount/Isolation.antt =====
-- Which accounts a method of the store can change.
use shiroyagi.Base.{
  ◌≡◌, ◌≢◌, sym, inl, inr, Bool, true, false, Bool-cases, some, Option-cases, arith,
}
use shiroyagi.Base.Int.{ℤ}
use shiroyagi.Base.Result
use shiroyagi.Base.Result.{Result, ok, err, ◌>>=◌, >>=-eq-ok, map_err-eq-ok}
use shiroyagi.MailAccount.Store
use shiroyagi.Text.{Bytes, ◌==◌, eq_iff}
use shiroyagi.Dict
use shiroyagi.MailAccount.Schema.{
  MailAccountRow, Database, touch_account, delete_row, delete_account, insert_account, imap, smtp,
  Protocol,
}
use shiroyagi.MailAccount.Conn.{Conn}
use shiroyagi.MailAccount.Store.{Account, affected_or_no_rows}
use shiroyagi.MailAccount.Spec.{
  Op, insert, update, save_imap, save_smtp, delete_imap, delete_smtp, delete, run, spec, touched,
  inserted, upserted, either,
}
use shiroyagi.MailAccount.Local.{
  SameAt, SameAt-refl, SameAt-trans, touch_local, delete_row_local, upsert_local, insert_row_local,
  insert_account_local, delete_account_local,
}
use shiroyagi.MailAccount.Refine.{run-Refined}

-- The account and the user that a call names.
abbrev pub target : Op → Bytes
target (insert a) = a.id
target (update a) = a.id
target (save_imap a) = a.id
target (save_smtp a) = a.id
target (delete_imap user_id id) = id
target (delete_smtp user_id id) = id
target (delete user_id id) = id

abbrev pub caller : Op → Bytes
caller (insert a) = a.user_id
caller (update a) = a.user_id
caller (save_imap a) = a.user_id
caller (save_smtp a) = a.user_id
caller (delete_imap user_id id) = user_id
caller (delete_smtp user_id id) = user_id
caller (delete user_id id) = user_id

-- The server calls every method but `Update`.
abbrev pub IsServed : Op → Type 0
IsServed (update a) = ⊥
IsServed op = Unit {0}

module _ (now : ℤ) (j : Bytes) where
  inserted_local :
      (p : Protocol) (a : Account) (db db' : Database)
      → j ≢ a.id
      → inserted now p a db ≡ ok db'
      → SameAt j db db'
  unfolding inserted
  inserted_local imap a db db' n h =
      insert_row_local now a.id j n imap a.imap_settings db db' (ground arith)
  inserted_local smtp a db db' n h =
      insert_row_local now a.id j n smtp a.smtp_settings db db' (ground arith)

  upserted_local :
      (p : Protocol) (a : Account) (db db' : Database)
      → j ≢ a.id
      → upserted now p a db ≡ ok db'
      → SameAt j db db'
  unfolding upserted
  upserted_local imap a db db' n h =
      upsert_local now a.id j n imap a.imap_settings db db' (ground arith)
  upserted_local smtp a db db' n h =
      upsert_local now a.id j n smtp a.smtp_settings db db' (ground arith)

  maybe_inserted_local :
      (b : Bool) (p : Protocol) (a : Account) (db : Database) {db' : Database}
      → either b (inserted now p a) ok db ≡ ok db'
      → j ≢ a.id
      → SameAt j db db'
  maybe_inserted_local true p a db {db'} h n = inserted_local p a db db' n h
  maybe_inserted_local false p a db {db'} h n = let x : db ≡ db' = cc in rw (← x) (SameAt-refl j db)

-- What a successful touch says: the account belongs to the user.
module _ (now : ℤ) (user_id id : Bytes) (db : Database) where
  pub touched-eq-ok :
      {d : Database}
      → touched now user_id id db ≡ ok d
      → (row : MailAccountRow) × (Dict.lookup id db.mail_accounts ≡ some row)
        × (row.user_id ≡ user_id)
        × (d ≡ (touch_account now user_id id db).1)
  unfolding touched touch_account
  touched-eq-ok h = elim (Option-cases (Dict.lookup id db.mail_accounts)) [
    | inl e ↦ absurd (ground arith)
    | inr (row, e) ↦ (row, e, ground (arith, eq_iff row.user_id user_id), ground arith)
  ]

-- A method that ends with the settings of `id`, after the account has been touched, leaves alone
-- what belongs to another user.
module _ (now : ℤ) (user_id id j : Bytes) (db : Database) {row : MailAccountRow} where
  touched_isolated :
      {d : Database}
      → touched now user_id id db ≡ ok d
      → Dict.lookup j db.mail_accounts ≡ some row
      → row.user_id ≢ user_id
      → (j ≢ id) × SameAt j db d
  touched_isolated h e foreign =
      let (own, found, is_own, d_eq) = touched-eq-ok now user_id id db h in
      let other : j ≢ id = λ p. ground arith in
      (other, rw d_eq (touch_local now id j other user_id db))

module _ (now : ℤ) (j : Bytes) {row : MailAccountRow} where
  saved_isolated :
      (p : Protocol) (a : Account) (db : Database) {db' : Database}
      → (touched now a.user_id a.id db >>= upserted now p a) ≡ ok db'
      → Dict.lookup j db.mail_accounts ≡ some row
      → row.user_id ≢ a.user_id
      → SameAt j db db'
  saved_isolated p a db {db'} h e foreign =
      let (d, t, u) = >>=-eq-ok (touched now a.user_id a.id db) (upserted now p a) h in
      let (other, kept) = touched_isolated now a.user_id a.id j db t e foreign in
      SameAt-trans kept (upserted_local now j p a d db' other u)

  removed_isolated :
      (p : Protocol) (user_id id : Bytes) (db : Database) {db' : Database}
      → (touched now user_id id db >>= λ d. ok (delete_row p id d)) ≡ ok db'
      → Dict.lookup j db.mail_accounts ≡ some row
      → row.user_id ≢ user_id
      → SameAt j db db'
  removed_isolated p user_id id db {db'} h e foreign =
      let (d, t, u) = >>=-eq-ok (touched now user_id id db) (λ d. ok (delete_row p id d)) h in
      let (other, kept) = touched_isolated now user_id id j db t e foreign in
      let x : delete_row p id d ≡ db' = cc in
      SameAt-trans kept (rw (← x) (delete_row_local now id j other p d))

  new_account_local :
      (a : Account) (db : Database) {db' : Database}
      → insert_account now a.id a.user_id a.email_address db ≡ ok db'
      → Dict.lookup j db.mail_accounts ≡ some row
      → j ≢ a.id
  unfolding insert_account
  new_account_local a db h e = λ p. ground arith

  deleted_isolated :
      (user_id id : Bytes) (db : Database)
      → Dict.lookup j db.mail_accounts ≡ some row
      → row.user_id ≢ user_id
      → SameAt j db (delete_account user_id id db)
  deleted_isolated user_id id db e foreign = elim (Bool-cases (j == id)) [
    | inr n ↦ delete_account_local now id j (λ p. ground (arith, eq_iff j id)) user_id db
    | inl p ↦
        let same_id : id ≡ j = sym ((eq_iff j id).0 p) in
        let kept : delete_account user_id id db ≡ db =
          unfold delete_account in ground (arith, eq_iff row.user_id user_id) in
        rw kept (SameAt-refl j db)
  ]

  spec_isolated :
      (op : Op) (db : Database) {db' : Database}
      → IsServed op
      → spec now op db ≡ ok db'
      → Dict.lookup j db.mail_accounts ≡ some row
      → row.user_id ≢ caller op
      → SameAt j db db'
  unfolding spec
  spec_isolated (insert a) db {db'} s h e foreign =
      let (d, t, u) =
        >>=-eq-ok
          (Result.map_err Store.insert_error (insert_account now a.id a.user_id a.email_address db))
          _ h in
      let made = map_err-eq-ok Store.insert_error _ t in
      let n = new_account_local a db made e in
      let (d', t', u') = >>=-eq-ok (either a.has_imap (inserted now imap a) ok d) _ u in
      SameAt-trans (insert_account_local now a.id j n a.user_id a.email_address db d made) (
        SameAt-trans (maybe_inserted_local now j a.has_imap imap a d t' n)
          (maybe_inserted_local now j a.has_smtp smtp a d' u' n))
  spec_isolated (update a) db s h e foreign = absurd s
  spec_isolated (save_imap a) db s h e foreign = saved_isolated imap a db h e foreign
  spec_isolated (save_smtp a) db s h e foreign = saved_isolated smtp a db h e foreign
  spec_isolated (delete_imap user_id id) db s h e foreign =
      removed_isolated imap user_id id db h e foreign
  spec_isolated (delete_smtp user_id id) db s h e foreign =
      removed_isolated smtp user_id id db h e foreign
  spec_isolated (delete user_id id) db {db'} s h e foreign =
      let x : delete_account user_id id db ≡ db' = cc in
      rw (← x) (deleted_isolated user_id id db e foreign)

-- No method of the store that the server calls changes an account of another user than the one
-- that it is called for, nor the IMAP or SMTP settings of such an account, whether it succeeds or
-- fails and whichever of its calls fail.
pub run_isolated :
    (now : ℤ) (op : Op) (c : Conn) (j : Bytes) (row : MailAccountRow)
    → IsServed op
    → Dict.lookup j c.db.mail_accounts ≡ some row
    → row.user_id ≢ caller op
    → SameAt j c.db (run now op c).1.db
run_isolated now op c j row served e foreign = elim (run-Refined now op c) [
  | inl (done, h) ↦ spec_isolated now j op c.db served h e foreign
  | inr (x, failed, kept) ↦ rw kept (SameAt-refl j c.db)
]
