-- ===== src/Http/Routes/AccountWrites.antt =====
-- What the handlers that create and delete accounts do to the database: mail_account.go of
-- internal/http.
use shiroyagi.Base.{◌≡◌, ◌≢◌, [], ◌∷◌, refl, inl, inr, Bool, false, not, Bool-cases}
use shiroyagi.Base.Int.{ℤ}
use shiroyagi.Base.Result.{Result, ok, err}
use shiroyagi.Text.{Bytes, codes, is_empty}
use shiroyagi.Auth.Session.{UserSession}
use shiroyagi.MailAccount.Conn.{Conn, statement, fails_now}
use shiroyagi.MailAccount.Conn
use shiroyagi.MailAccount.Store.{exists_by_user_and_email}
use shiroyagi.MailAccount.Identifier
use shiroyagi.MailAccount.Identifier.{new_id}
use shiroyagi.MailAccount.Spec.{insert, delete, run}
use shiroyagi.Http.Message.{Request}
use shiroyagi.Http.Server.{Env, State}
use shiroyagi.Http.Accounts.{
  new_account, insert_identified, create_unless_found, handle_create_mail_account,
  handle_delete_mail_account,
}
use shiroyagi.Http.Routes.Writes.{Effect, answered-db, if-Effect}

module _ (env : Env) where
  insert_identified-Effect :
      (user_id email_address : Bytes) (s t : State) (made : Result Identifier.Error Bytes × Bytes)
      → email_address ≢ []
      → s.conn.db ≡ t.conn.db
      → Effect env.now user_id t (insert_identified env user_id email_address s made).1
  unfolding insert_identified run
  insert_identified-Effect user_id email_address s t (err e, rest) filled h = inl h
  insert_identified-Effect user_id email_address s t (ok id, rest) filled h = inr (
    insert (new_account user_id id email_address),
    s.conn,
    refl,
    (filled, refl, refl),
    h,
    answered-db (record s { random = rest }) _ _,
  )

  create_unless_found-Effect :
      (user_id email_address : Bytes) (s : State) (found : Result Conn.Error Bool × Conn)
      → email_address ≢ []
      → found.1.db ≡ s.conn.db
      → Effect env.now user_id s (create_unless_found env user_id email_address s found).1
  unfolding create_unless_found
  create_unless_found-Effect user_id email_address s (err e, c) filled h = inl h
  create_unless_found-Effect user_id email_address s (ok found, c) filled h =
      if-Effect found env.now user_id s _ _ (inl h) (
        insert_identified-Effect user_id email_address (record s { conn = c }) s (new_id s.random)
          filled h)

  pub exists-db :
      (user_id email_address : Bytes) (c : Conn)
      → (exists_by_user_and_email user_id email_address c).1.db ≡ c.db
  unfolding exists_by_user_and_email statement
  exists-db user_id email_address c = elim (Bool-cases (fails_now c.faults)) [
    | inl failed ↦ rw failed refl
    | inr fine ↦ rw fine refl
  ]

  pub handle_create_mail_account-Effect :
      (session : UserSession) (r : Request) (s : State)
      → Effect env.now session.subject s (handle_create_mail_account env session r s).1
  unfolding handle_create_mail_account
  handle_create_mail_account-Effect session r s =
      if-Effect (not r.form_ok) env.now session.subject s _ _ (inl refl)
        (elim (Bool-cases (is_empty (r.form (codes "email_address")))) [
          | inl empty ↦ rw empty (inl refl)
          | inr given ↦ rw given (
              create_unless_found-Effect session.subject (r.form (codes "email_address")) s _
                (filled (r.form (codes "email_address")) given)
                (exists-db session.subject (r.form (codes "email_address")) s.conn))
        ])
    where
      filled : (t : Bytes) → is_empty t ≡ false → t ≢ []
      filled [] h = absurd (cc)
      filled (b ∷ t) h = λ e. cc

pub handle_delete_mail_account-Effect :
    (now : ℤ) (session : UserSession) (r : Request) (s : State)
    → Effect now session.subject s (handle_delete_mail_account session r s).1
unfolding handle_delete_mail_account run
handle_delete_mail_account-Effect now session r s =
    inr (
      delete session.subject (r.path_value (codes "id")),
      s.conn,
      refl,
      tt,
      refl,
      answered-db s _ _,
    )
