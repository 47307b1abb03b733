-- ===== src/Http/Routes/Writes.antt =====
-- What the handlers that save and delete settings do to the database: imap_account.go and
-- smtp_account.go of internal/http.
use shiroyagi.Base.{
  ◌≡◌, List, [], ◌∷◌, refl, sym, ◌∙◌, ◌⊎◌, inl, inr, Bool, true, false, not, ◌&&◌, Bool-cases,
  Option, none, some, if◌then◌else◌,
}
use shiroyagi.Base.Int.{ℤ}
use shiroyagi.Base.Result.{Result, ok, err}
use shiroyagi.Dict.{Among}
use shiroyagi.Text.{Bytes, codes, is_empty, ◌==◌, eq_iff}
use shiroyagi.Auth.Session.{UserSession}
use shiroyagi.MailAccount.Schema.{Protocol, imap, smtp, Settings}
use shiroyagi.MailAccount.Conn.{Conn, statement, fails_now}
use shiroyagi.MailAccount.Conn
use shiroyagi.MailAccount.Store
use shiroyagi.MailAccount.Store.{Detail, exists_by_user_and_email}
use shiroyagi.MailAccount.Spec.{Op, save_imap, save_smtp, delete_imap, delete_smtp, run}
use shiroyagi.MailAccount.Isolation.{caller}
use shiroyagi.Http.Settings.Valid.{Valid, posted_imap, posted_smtp, parse_settings_form-Valid}
use shiroyagi.Http.Routes.Stored.{Usable, securities, Served}
use shiroyagi.Http.Message.{Request}
use shiroyagi.Http.Password
use shiroyagi.Http.Password.{Secret, seal_password}
use shiroyagi.Http.Server.{Env, State, bad_request, secret_of}
use shiroyagi.Http.Send.{Handled}
use shiroyagi.Http.Settings.Form.{SettingsForm, one_of, parse_imap_form, parse_smtp_form}
use shiroyagi.Http.Settings.{
  settings_from, has_settings, detail_settings, field_of, answered, account_to_save, store_save,
  store_delete, save_sealed, save_form, save_parsed, handle_save_imap_account,
  handle_save_smtp_account, handle_delete_imap_account, handle_delete_smtp_account,
}
use shiroyagi.Http.Routes.Steps.{Untouched, get-db, with_account-keeps}

-- The tables are as they were, or one call of the store in the name of the user was made.
abbrev pub Effect : ℤ → Bytes → State → State → Type 0
Effect now user s s' =
    (s'.conn.db ≡ s.conn.db)
    ⊎ ((op : Op) × (c : Conn) × (caller op ≡ user)
        × Served op
        × (c.db ≡ s.conn.db)
        × (s'.conn.db ≡ (run now op c).1.db))

pub stay : (now : ℤ) (user : Bytes) (a b : State) → Untouched a b → Effect now user a b
stay now user a b h = inl h.db

pub pass :
    (now : ℤ) (user : Bytes) (a b c : State)
    → Untouched a b
    → Effect now user b c
    → Effect now user a c
pass now user a b c h (inl e) = inl (e ∙ h.db)
pass now user a b c h (inr (op, conn, own, served, start, e)) =
    inr (op, conn, own, served, start ∙ h.db, e)

pub answered-db :
    (s : State) (url : Bytes) (result : Result Conn.Error (Unit {0}) × Conn)
    → (answered s url result).1.conn.db ≡ result.1.db
answered-db s url (err e, c) = refl
answered-db s url (ok t, c) = refl

pub if-Effect :
    (b : Bool) (now : ℤ) (user : Bytes) (s : State) (h k : Handled)
    → Effect now user s h.1
    → Effect now user s k.1
    → Effect now user s (if b then h else k).1
if-Effect true now user s h k p q = p
if-Effect false now user s h k p q = q

store_save-Effect :
    (p : Protocol) (now : ℤ) (user_id id url : Bytes) (settings : Settings) (s t : State)
    → Usable p settings
    → s.conn.db ≡ t.conn.db
    → Effect now user_id t
        (answered s url (store_save p now (account_to_save p user_id id settings) s.conn)).1
unfolding store_save run
store_save-Effect imap now user_id id url settings s t usable e = inr (
  save_imap (account_to_save imap user_id id settings),
  s.conn,
  refl,
  usable,
  e,
  answered-db s url _,
)
store_save-Effect smtp now user_id id url settings s t usable e = inr (
  save_smtp (account_to_save smtp user_id id settings),
  s.conn,
  refl,
  usable,
  e,
  answered-db s url _,
)

store_delete-Effect :
    (p : Protocol) (now : ℤ) (user_id id url : Bytes) (s : State)
    → Effect now user_id s (answered s url (store_delete p now user_id id s.conn)).1
unfolding store_delete run
store_delete-Effect imap now user_id id url s =
    inr (delete_imap user_id id, s.conn, refl, tt, refl, answered-db s url _)
store_delete-Effect smtp now user_id id url s =
    inr (delete_smtp user_id id, s.conn, refl, tt, refl, answered-db s url _)

-- Whatever secret a form is saved with, the settings are usable.
abbrev pub Saves : Protocol → SettingsForm → Type 0
Saves p form = (secret : Secret) → Usable p (settings_from form secret)

one_of-Among : (l : List Bytes) (x : Bytes) → one_of l x ≡ true → Among x l
one_of-Among [] x h = absurd (cc)
one_of-Among (v ∷ l) x h = elim (Bool-cases (x == v)) [
  | inl here ↦ inl (sym ((eq_iff x v).0 here))
  | inr other ↦ inr (one_of-Among l x (rw other at h))
]

Valid-Saves :
    (p : Protocol) (posted f : SettingsForm) (port : Option ℤ)
    → Valid (securities p) posted port f
    → Saves p f
Valid-Saves p posted f port v secret = rw v.form (record {
  host = v.host;
  number = v.number;
  port = refl;
  positive = v.positive;
  small = v.small;
  security = one_of-Among (securities p) posted.security v.security;
  username = v.username;
})

module _ (env : Env) where
  save_sealed-Effect :
      (p : Protocol) (user_id url : Bytes) (account : Detail) (form : SettingsForm) (s : State)
      (sealed : Result Password.Error Secret × Bytes)
      → Saves p form
      → Effect env.now user_id s (save_sealed env p user_id url account form s sealed).1
  unfolding save_sealed
  save_sealed-Effect p user_id url account form s (err e, rest) saves = inl refl
  save_sealed-Effect p user_id url account form s (ok secret, rest) saves =
      store_save-Effect p env.now user_id account.id url _ (record s { random = rest }) s
        (saves secret) refl

  save_form-Effect :
      (p : Protocol) (user_id url : Bytes) (form : SettingsForm) (account : Detail) (s : State)
      → Saves p form
      → Effect env.now user_id s (save_form env p user_id url form account s).1
  unfolding save_form
  save_form-Effect p user_id url form account s saves =
      let sealed =
        seal_password env.gcm env.kek_version user_id account.id (field_of p) env.kek_file
          (has_settings p account) (secret_of (detail_settings p account)) form.password s.random in
      if-Effect (not (has_settings p account) && is_empty form.password) env.now user_id s
        (bad_request, s) (save_sealed env p user_id url account form s sealed) (inl refl)
        (save_sealed-Effect p user_id url account form s sealed saves)

  save_parsed-Effect :
      (p : Protocol) (session : UserSession) (id : Bytes) (s : State) (o : Option SettingsForm)
      → ((form : SettingsForm) → o ≡ some form → Saves p form)
      → Effect env.now session.subject s (save_parsed env p session id s o).1
  unfolding save_parsed
  save_parsed-Effect p session id s none accepted = inl refl
  save_parsed-Effect p session id s (some form) accepted =
      with_account-keeps (Effect env.now session.subject) (pass env.now session.subject)
        (stay env.now session.subject) s (Store.get session.subject id s.conn) _
        (get-db session.subject id s.conn)
        (λ a s'. save_form-Effect p session.subject _ form a s' (accepted form refl))

  pub handle_save_imap_account-Effect :
      (session : UserSession) (r : Request) (s : State)
      → Effect env.now session.subject s (handle_save_imap_account env session r s).1
  unfolding handle_save_imap_account
  handle_save_imap_account-Effect session r s =
      if-Effect (not r.form_ok) env.now session.subject s _ _ (inl refl) (
        save_parsed-Effect imap session (r.path_value (codes "id")) s (parse_imap_form r) (λ form e.
          Valid-Saves imap (posted_imap r) form _ ((parse_settings_form-Valid r form).0.0 e)))

  pub handle_save_smtp_account-Effect :
      (session : UserSession) (r : Request) (s : State)
      → Effect env.now session.subject s (handle_save_smtp_account env session r s).1
  unfolding handle_save_smtp_account
  handle_save_smtp_account-Effect session r s =
      if-Effect (not r.form_ok) env.now session.subject s _ _ (inl refl) (
        save_parsed-Effect smtp session (r.path_value (codes "id")) s (parse_smtp_form r) (λ form e.
          Valid-Saves smtp (posted_smtp r) form _ ((parse_settings_form-Valid r form).1.0 e)))

  pub handle_delete_imap_account-Effect :
      (session : UserSession) (r : Request) (s : State)
      → Effect env.now session.subject s (handle_delete_imap_account env session r s).1
  unfolding handle_delete_imap_account
  handle_delete_imap_account-Effect session r s =
      store_delete-Effect imap env.now session.subject (r.path_value (codes "id")) _ s

  pub handle_delete_smtp_account-Effect :
      (session : UserSession) (r : Request) (s : State)
      → Effect env.now session.subject s (handle_delete_smtp_account env session r s).1
  unfolding handle_delete_smtp_account
  handle_delete_smtp_account-Effect session r s =
      store_delete-Effect smtp env.now session.subject (r.path_value (codes "id")) _ s
