-- ===== src/Http/Routes/Stored/Methods.antt =====
-- The methods of internal/mailaccount/store.go that the handlers call keep the tables usable.
use shiroyagi.Base.{◌≡◌, ◌≢◌, inl, inr, Bool, true, false, []}
use shiroyagi.Base.Int.{ℤ}
use shiroyagi.Base.Result
use shiroyagi.Base.Result.{Result, ok, err, ◌>>=◌, >>=-eq-ok, map_err-eq-ok}
use shiroyagi.Text.{Bytes}
use shiroyagi.MailAccount.Schema.{
  Settings, Database, Protocol, imap, smtp, delete_row, delete_account, insert_account, upsert_row,
}
use shiroyagi.MailAccount.Conn.{Conn}
use shiroyagi.MailAccount.Store
use shiroyagi.MailAccount.Store.{Account, affected_or_no_rows}
use shiroyagi.MailAccount.Spec.{
  Op, insert, update, save_imap, save_smtp, delete_imap, delete_smtp, delete, run, spec, touched,
  inserted, upserted, either,
}
use shiroyagi.MailAccount.Isolation.{touched-eq-ok}
use shiroyagi.MailAccount.Refine.{run-Refined}
use shiroyagi.Http.Routes.Stored.{
  Usable, Stored, Served, touch-Stored, upsert-Stored, insert_account-Stored, delete_row-Stored,
  delete_account-Stored,
}

module _ (now : ℤ) where
  touched-Stored :
      (user_id id : Bytes) (db d : Database)
      → Stored db
      → touched now user_id id db ≡ ok d
      → Stored d
  touched-Stored user_id id db d s h =
      let (row, there, own, after) = touched-eq-ok now user_id id db h in
      rw after (touch-Stored now user_id id db s)

  saved-Stored :
      (p : Protocol) (a : Account) (x : Settings) (db d : Database)
      → Usable p x
      → ((y z : Database) → upserted now p a y ≡ ok z → upsert_row p now a.id x y ≡ ok z)
      → Stored db
      → (touched now a.user_id a.id db >>= upserted now p a) ≡ ok d
      → Stored d
  saved-Stored p a x db d u write s h =
      let (y, t, k) = >>=-eq-ok (touched now a.user_id a.id db) (upserted now p a) h in
      upsert-Stored now p a.id x y d u (touched-Stored a.user_id a.id db y s t) (write y d k)

  removed-Stored :
      (p : Protocol) (user_id id : Bytes) (db d : Database)
      → Stored db
      → (touched now user_id id db >>= λ y. ok (delete_row p id y)) ≡ ok d
      → Stored d
  removed-Stored p user_id id db d s h =
      let (y, t, k) = >>=-eq-ok (touched now user_id id db) (λ y. ok (delete_row p id y)) h in
      let after : delete_row p id y ≡ d = cc in
      rw (← after) (delete_row-Stored p id y (touched-Stored user_id id db y s t))

  inserted-Stored :
      (a : Account) (db d : Database)
      → a.email_address ≢ []
      → a.has_imap ≡ false
      → a.has_smtp ≡ false
      → Stored db
      → spec now (insert a) db ≡ ok d
      → Stored d
  unfolding spec
  inserted-Stored a db d filled no_imap no_smtp s h =
      let (y, t, k) =
        >>=-eq-ok
          (Result.map_err Store.insert_error (insert_account now a.id a.user_id a.email_address db))
          _ h in
      let made = map_err-eq-ok Store.insert_error _ t in
      let (z, t', k') = >>=-eq-ok (either a.has_imap (inserted now imap a) ok y) _ k in
      let kept : y ≡ z = without_settings a.has_imap imap a y z no_imap t' in
      let kept' : z ≡ d = without_settings a.has_smtp smtp a z d no_smtp k' in
      rw (← kept', ← kept)
        (insert_account-Stored now a.id a.user_id a.email_address db y filled s made)
    where
      without_settings :
          (b : Bool) (p : Protocol) (a : Account) (y z : Database)
          → b ≡ false
          → either b (inserted now p a) ok y ≡ ok z
          → y ≡ z
      without_settings true p a y z e h = absurd (cc)
      without_settings false p a y z e h = cc

  spec-Stored :
      (op : Op) (db d : Database) → Served op → Stored db → spec now op db ≡ ok d → Stored d
  unfolding spec
  spec-Stored (insert a) db d (filled, no_imap, no_smtp) s h =
      inserted-Stored a db d filled no_imap no_smtp s (unfold spec in h)
  spec-Stored (update a) db d served s h = absurd served
  spec-Stored (save_imap a) db d u s h =
      saved-Stored imap a a.imap_settings db d u (λ y z k. map_err-eq-ok _ _ (unfold upserted in k))
        s h
  spec-Stored (save_smtp a) db d u s h =
      saved-Stored smtp a a.smtp_settings db d u (λ y z k. map_err-eq-ok _ _ (unfold upserted in k))
        s h
  spec-Stored (delete_imap user_id id) db d served s h = removed-Stored imap user_id id db d s h
  spec-Stored (delete_smtp user_id id) db d served s h = removed-Stored smtp user_id id db d s h
  spec-Stored (delete user_id id) db d served s h =
      let after : delete_account user_id id db ≡ d = cc in
      rw (← after) (delete_account-Stored user_id id db s)

-- A call that the server makes keeps every address and every row of settings usable.
pub run-Stored :
    (now : ℤ) (op : Op) (c : Conn) → Served op → Stored c.db → Stored (run now op c).1.db
run-Stored now op c served s = elim (run-Refined now op c) [
  | inl (done, h) ↦ spec-Stored now op c.db (run now op c).1.db served s h
  | inr (x, failed, kept) ↦ rw kept s
]
