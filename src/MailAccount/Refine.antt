-- ===== src/MailAccount/Refine.antt =====
-- The store's methods implement the specification.
mod Simulation
use Simulation.{
  Did, Simulates, Simulates-bind, Simulates-statement, Simulates-if, Simulates-pure,
  transaction_did, transaction_clean,
}
pub use Simulation.{outcome}
use shiroyagi.Base.{
  ◌≡◌, refl, ◌⊎◌, inl, inr, Bool, true, false, List, [], ◌∷◌, arith, Bool-cases, if◌then◌else◌,
}
use shiroyagi.Base.Int.{ℤ}
use shiroyagi.Base.Result
use shiroyagi.Base.Result.{Result, ok, err}
use shiroyagi.Base.Exec.{Exec, pure, map_err, ◌>>=◌, ◌>>◌}
use shiroyagi.Text.{Bytes, codes}
use shiroyagi.MailAccount.Schema.{
  Database, fault, touch_account, delete_row, delete_account, insert_account, insert_row,
  upsert_row, imap, smtp,
}
use shiroyagi.MailAccount.Conn.{Conn, Error, wrapped, fails_now, later, statement}
use shiroyagi.MailAccount.Store
use shiroyagi.MailAccount.Store.{Account, insert_error}
use shiroyagi.MailAccount.Spec.{
  Op, insert, update, save_imap, save_smtp, delete_imap, delete_smtp, delete, run, spec, touched,
  inserted, upserted, either,
}

module _ (now : ℤ) where
  touch-Simulates :
      (user_id id : Bytes)
      → Simulates (Store.touch_mail_account now user_id id) (touched now user_id id)
  unfolding Store.touch_mail_account touched
  touch-Simulates user_id id = record { did = λ c. ground arith; clean = λ c p. ground arith }

  -- the number of rows that the statement affects is not used
  bump-Simulates :
      (user_id id : Bytes) {k : Exec Conn Error (Unit {0})} {g : Database → Result Error Database}
      → Simulates k g
      → Simulates
          (map_err
              (wrapped (codes "update mail account"))
              (statement (λ db. ok (touch_account now user_id id db)))
            >> k)
          (λ db. g (touch_account now user_id id db).1)
  unfolding statement
  bump-Simulates user_id id {k} {g} hk = record {
    did = λ c. elim (Bool-cases (fails_now c.faults)) [
      | inl f ↦ inr (wrapped (codes "update mail account") fault, rw f)
      | inr f ↦
          rw f (
            hk.did (record { db = (touch_account now user_id id c.db).1; faults = later c.faults }))
    ];
    clean = λ c p.
        rw p (hk.clean (record { db = (touch_account now user_id id c.db).1; faults = [] }) refl);
  }

  insert_imap-Simulates : (a : Account) → Simulates (Store.insert_imap now a) (inserted now imap a)
  unfolding Store.insert_imap inserted
  insert_imap-Simulates a =
      Simulates-statement (wrapped (codes "insert imap account"))
        (insert_row imap now a.id a.imap_settings)

  insert_smtp-Simulates : (a : Account) → Simulates (Store.insert_smtp now a) (inserted now smtp a)
  unfolding Store.insert_smtp inserted
  insert_smtp-Simulates a =
      Simulates-statement (wrapped (codes "insert smtp account"))
        (insert_row smtp now a.id a.smtp_settings)

  upsert_imap-Simulates : (a : Account) → Simulates (Store.upsert_imap now a) (upserted now imap a)
  unfolding Store.upsert_imap upserted
  upsert_imap-Simulates a =
      Simulates-statement (wrapped (codes "upsert imap account"))
        (upsert_row imap now a.id a.imap_settings)

  upsert_smtp-Simulates : (a : Account) → Simulates (Store.upsert_smtp now a) (upserted now smtp a)
  unfolding Store.upsert_smtp upserted
  upsert_smtp-Simulates a =
      Simulates-statement (wrapped (codes "upsert smtp account"))
        (upsert_row smtp now a.id a.smtp_settings)

delete_imap-Simulates :
    (id : Bytes) → Simulates (Store.delete_imap_row id) (λ db. ok (delete_row imap id db))
unfolding Store.delete_imap_row
delete_imap-Simulates id =
    Simulates-statement (wrapped (codes "delete imap account")) (λ db. ok (delete_row imap id db))

delete_smtp-Simulates :
    (id : Bytes) → Simulates (Store.delete_smtp_row id) (λ db. ok (delete_row smtp id db))
unfolding Store.delete_smtp_row
delete_smtp-Simulates id =
    Simulates-statement (wrapped (codes "delete smtp account")) (λ db. ok (delete_row smtp id db))

-- A method that writes succeeded and did what is specified, or failed and left the tables as they
-- were.
abbrev pub Refined : Result Error (Unit {0}) × Conn → Result Error Database → Database → Type 0
Refined x y db = ((x.0 ≡ ok tt) × (y ≡ ok x.1.db)) ⊎ ((e : Error) × (x.0 ≡ err e) × (x.1.db ≡ db))

module _ (now : ℤ) where
  delete_did :
      (user_id id : Bytes) (c : Conn)
      → Refined (Store.delete user_id id c) (spec now (delete user_id id) c.db) c.db
  unfolding Store.delete spec
  delete_did user_id id c = ground arith

  delete_clean :
      (user_id id : Bytes) (c : Conn)
      → c.faults ≡ []
      → (Store.delete user_id id c).0 ≡ outcome (spec now (delete user_id id) c.db)
  unfolding Store.delete spec
  delete_clean user_id id c p = ground arith

  abbrev insert_body : Account → Exec Conn Error (Unit {0})
  insert_body a = do
    map_err insert_error
        (statement (λ db. Store.run (insert_account now a.id a.user_id a.email_address db)))
    if a.has_imap then Store.insert_imap now a else pure tt
    if a.has_smtp then Store.insert_smtp now a else pure tt

  insert-Simulates : (a : Account) → Simulates (insert_body a) (spec now (insert a))
  unfolding spec
  insert-Simulates a =
      Simulates-bind
        (Simulates-statement insert_error (insert_account now a.id a.user_id a.email_address))
        (Simulates-bind (Simulates-if a.has_imap (insert_imap-Simulates now a) Simulates-pure)
          (Simulates-if a.has_smtp (insert_smtp-Simulates now a) Simulates-pure))

  abbrev update_body : Account → Exec Conn Error (Unit {0})
  update_body a = do
    map_err (wrapped (codes "update mail account"))
        (statement (λ db. ok (touch_account now a.user_id a.id db)))
    if a.has_imap then Store.upsert_imap now a else Store.delete_imap_row a.id
    if a.has_smtp then Store.upsert_smtp now a else Store.delete_smtp_row a.id

  update-Simulates : (a : Account) → Simulates (update_body a) (spec now (update a))
  unfolding spec
  update-Simulates a = bump-Simulates now a.user_id a.id (
      Simulates-bind
        (Simulates-if a.has_imap (upsert_imap-Simulates now a) (delete_imap-Simulates a.id))
        (Simulates-if a.has_smtp (upsert_smtp-Simulates now a) (delete_smtp-Simulates a.id)))

  save_imap-Simulates :
      (a : Account)
      → Simulates
          (Store.touch_mail_account now a.user_id a.id >> Store.upsert_imap now a)
          (spec now (save_imap a))
  unfolding spec
  save_imap-Simulates a =
      Simulates-bind (touch-Simulates now a.user_id a.id) (upsert_imap-Simulates now a)

  save_smtp-Simulates :
      (a : Account)
      → Simulates
          (Store.touch_mail_account now a.user_id a.id >> Store.upsert_smtp now a)
          (spec now (save_smtp a))
  unfolding spec
  save_smtp-Simulates a =
      Simulates-bind (touch-Simulates now a.user_id a.id) (upsert_smtp-Simulates now a)

  -- Each method of the store that writes succeeds and did what is specified, or fails and leaves
  -- every table as it was, whichever of its calls fail for a reason outside the tables.
  pub run-Refined : (op : Op) (c : Conn) → Refined (run now op c) (spec now op c.db) c.db
  unfolding run spec Store.insert Store.update Store.save_imap Store.save_smtp Store.delete_imap
      Store.delete_smtp
  run-Refined (insert a) c = transaction_did (insert-Simulates a) _ _ c
  run-Refined (update a) c = transaction_did (update-Simulates a) _ _ c
  run-Refined (save_imap a) c = transaction_did (save_imap-Simulates a) _ _ c
  run-Refined (save_smtp a) c = transaction_did (save_smtp-Simulates a) _ _ c
  run-Refined (delete_imap user_id id) c =
      transaction_did (Simulates-bind (touch-Simulates now user_id id) (delete_imap-Simulates id)) _
        _ c
  run-Refined (delete_smtp user_id id) c =
      transaction_did (Simulates-bind (touch-Simulates now user_id id) (delete_smtp-Simulates id)) _
        _ c
  run-Refined (delete user_id id) c = delete_did user_id id c

  -- Where no call fails for a reason outside the tables, each method of the store that writes
  -- succeeds or reports the error that is specified.
  pub run-outcome :
      (op : Op) (c : Conn) → c.faults ≡ [] → (run now op c).0 ≡ outcome (spec now op c.db)
  unfolding run spec Store.insert Store.update Store.save_imap Store.save_smtp Store.delete_imap
      Store.delete_smtp
  run-outcome (insert a) c p = transaction_clean (insert-Simulates a) _ _ c p
  run-outcome (update a) c p = transaction_clean (update-Simulates a) _ _ c p
  run-outcome (save_imap a) c p = transaction_clean (save_imap-Simulates a) _ _ c p
  run-outcome (save_smtp a) c p = transaction_clean (save_smtp-Simulates a) _ _ c p
  run-outcome (delete_imap user_id id) c p =
      transaction_clean (Simulates-bind (touch-Simulates now user_id id) (delete_imap-Simulates id))
        _ _ c p
  run-outcome (delete_smtp user_id id) c p =
      transaction_clean (Simulates-bind (touch-Simulates now user_id id) (delete_smtp-Simulates id))
        _ _ c p
  run-outcome (delete user_id id) c p = delete_clean user_id id c p
