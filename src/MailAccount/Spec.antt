-- ===== src/MailAccount/Spec.antt =====
-- The methods of the store as an abstract specification: what a method does to the tables when no
-- call fails for a reason outside them.
use shiroyagi.Base.{Bool, true, false}
use shiroyagi.Base.Int.{ℤ}
use shiroyagi.Base.Result.{Result, ok, map_err, ◌>>=◌, ◌>>◌}
use shiroyagi.Base.Exec.{Exec}
use shiroyagi.Text.{Bytes, codes}
use shiroyagi.MailAccount.Schema.{
  Database, Protocol, imap, smtp, insert_account, touch_account, delete_account, insert_row,
  upsert_row, delete_row,
}
use shiroyagi.MailAccount.Conn.{Conn, Error, wrapped}
use shiroyagi.MailAccount.Store
use shiroyagi.MailAccount.Store.{Account, insert_error, affected_or_no_rows}

-- A call of one of the methods that write.
pub data Op : Type 0 where
  insert update save_imap save_smtp : Account → Op
  delete_imap delete_smtp delete : (user_id id : Bytes) → Op

unfoldable pub run : ℤ → Op → Exec Conn Error (Unit {0})
run now (insert a) = Store.insert now a
run now (update a) = Store.update now a
run now (save_imap a) = Store.save_imap now a
run now (save_smtp a) = Store.save_smtp now a
run now (delete_imap user_id id) = Store.delete_imap now user_id id
run now (delete_smtp user_id id) = Store.delete_smtp now user_id id
run now (delete user_id id) = Store.delete user_id id

abbrev pub either :
    Bool
    → (Database → Result Error Database)
    → (Database → Result Error Database)
    → Database
    → Result Error Database
either true f g db = f db
either false f g db = g db

module _ (now : ℤ) where
  -- the account is touched, if it is there and belongs to the user
  unfoldable pub touched : Bytes → Bytes → Database → Result Error Database
  touched user_id id db =
      affected_or_no_rows (touch_account now user_id id db).0
      >> ok (touch_account now user_id id db).1

  unfoldable pub inserted : Protocol → Account → Database → Result Error Database
  inserted imap a db =
      map_err (wrapped (codes "insert imap account")) (insert_row imap now a.id a.imap_settings db)
  inserted smtp a db =
      map_err (wrapped (codes "insert smtp account")) (insert_row smtp now a.id a.smtp_settings db)

  unfoldable pub upserted : Protocol → Account → Database → Result Error Database
  upserted imap a db =
      map_err (wrapped (codes "upsert imap account")) (upsert_row imap now a.id a.imap_settings db)
  upserted smtp a db =
      map_err (wrapped (codes "upsert smtp account")) (upsert_row smtp now a.id a.smtp_settings db)

  unfoldable pub spec : Op → Database → Result Error Database
  unfolding touched inserted upserted
  spec (insert a) db =
      map_err insert_error (insert_account now a.id a.user_id a.email_address db) >>= λ d.
      either a.has_imap (inserted imap a) ok d >>= either a.has_smtp (inserted smtp a) ok
  spec (update a) db = ok (touch_account now a.user_id a.id db).1 >>= λ d.
      either a.has_imap (upserted imap a) (λ d'. ok (delete_row imap a.id d')) d
      >>= either a.has_smtp (upserted smtp a) (λ d. ok (delete_row smtp a.id d))
  spec (save_imap a) db = touched a.user_id a.id db >>= upserted imap a
  spec (save_smtp a) db = touched a.user_id a.id db >>= upserted smtp a
  spec (delete_imap user_id id) db = touched user_id id db >>= λ d. ok (delete_row imap id d)
  spec (delete_smtp user_id id) db = touched user_id id db >>= λ d. ok (delete_row smtp id d)
  spec (delete user_id id) db = ok (delete_account user_id id db)
