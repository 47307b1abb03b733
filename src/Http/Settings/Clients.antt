-- ===== src/Http/Settings/Clients.antt =====
-- What the clients get from settings that a form saved: internal/http/imap_account.go,
-- smtp_account.go, mailbox.go and smtp_send.go together.
use shiroyagi.Base.{◌≡◌, ◌≢◌, refl, true, some, []}
use shiroyagi.Base.Result.{ok}
use shiroyagi.Text.{codes}
use shiroyagi.Auth.Session.{UserSession}
use shiroyagi.Crypto.Gcm.{GcmLaws}
use shiroyagi.MailAccount.Schema.{imap, smtp}
use shiroyagi.MailAccount.Store.{Detail, select_detail}
use shiroyagi.Smtp.Send
use shiroyagi.Imap.Client
use shiroyagi.Http.Message.{Request, redirect}
use shiroyagi.Http.Server.{Env, State, imap_reader_account, smtp_sender_account}
use shiroyagi.Http.Send.{Handled}
use shiroyagi.Http.Settings.Form.{SettingsForm, parse_imap_form, parse_smtp_form}
use shiroyagi.Http.Settings.{edit_path, handle_save_imap_account, handle_save_smtp_account}
use shiroyagi.Http.Settings.Saved.{Ready, Stored, save_parsed-Stored}

-- The account of the IMAP client that a form describes.
abbrev pub imap_account_of : Env → SettingsForm → Client.Account
imap_account_of env form = record {
  host = form.host;
  port = form.port;
  security = form.security;
  username = form.username;
  password = form.password;
  allow_insecure_auth = env.imap_allow_insecure_auth;
}

-- The account of the SMTP client that a form describes.
abbrev pub smtp_account_of : Env → SettingsForm → Send.Account
smtp_account_of env form = record {
  host = form.host;
  port = form.port;
  security = form.security;
  username = form.username;
  password = form.password;
  allow_insecure_auth = env.smtp_allow_insecure_auth;
}

module _ (env : Env) (laws : GcmLaws env.gcm) (session : UserSession) (r : Request)
    (form : SettingsForm) (s : State) where
  -- A well-formed form of IMAP settings with a password, for an account of the session's user, with
  -- no failing statement, a KEK of 32 bytes, 56 random bytes, and an envelope that opens where IMAP
  -- settings exist: the answer is the redirect to the account's IMAP page, and the account that
  -- the store then has gives the IMAP client the form's host, port, security, username and password.
  pub handle_save_imap_account-imap_reader_account :
      r.form_ok ≡ true
      → parse_imap_form r ≡ some form
      → form.password ≢ []
      → Ready env laws imap session.subject (r.path_value (codes "id")) s
      → ((handle_save_imap_account env session r s).0
          ≡ redirect (edit_path imap (r.path_value (codes "id"))) 303)
        × ((account : Detail) × (select_detail session.subject
                (r.path_value (codes "id"))
                (handle_save_imap_account env session r s).1.conn.db
              ≡ some account)
            × (imap_reader_account env session.subject account ≡ ok (imap_account_of env form)))
  unfolding handle_save_imap_account imap_reader_account
  handle_save_imap_account-imap_reader_account sent parsed named ready =
      let stored =
        save_parsed-Stored env laws imap session (r.path_value (codes "id")) form s ready named in
      rw sent (rw parsed (stored.answer, (stored.account, stored.selected, reads stored)))
    where
      reads :
          {h : Handled}
          (stored : Stored env imap session.subject
            (r.path_value (codes "id"))
            (edit_path imap (r.path_value (codes "id")))
            form
            h)
          → imap_reader_account env session.subject stored.account ≡ ok (imap_account_of env form)
      reads stored =
          rw (stored.password, stored.host, stored.port, stored.security, stored.username) refl

  -- A well-formed form of SMTP settings with a password, for an account of the session's user, with
  -- no failing statement, a KEK of 32 bytes, 56 random bytes, and an envelope that opens where SMTP
  -- settings exist: the answer is the redirect to the account's SMTP page, and the account that
  -- the store then has gives the SMTP client the form's host, port, security, username and password.
  pub handle_save_smtp_account-smtp_sender_account :
      r.form_ok ≡ true
      → parse_smtp_form r ≡ some form
      → form.password ≢ []
      → Ready env laws smtp session.subject (r.path_value (codes "id")) s
      → ((handle_save_smtp_account env session r s).0
          ≡ redirect (edit_path smtp (r.path_value (codes "id"))) 303)
        × ((account : Detail) × (select_detail session.subject
                (r.path_value (codes "id"))
                (handle_save_smtp_account env session r s).1.conn.db
              ≡ some account)
            × (smtp_sender_account env session.subject account ≡ ok (smtp_account_of env form)))
  unfolding handle_save_smtp_account smtp_sender_account
  handle_save_smtp_account-smtp_sender_account sent parsed named ready =
      let stored =
        save_parsed-Stored env laws smtp session (r.path_value (codes "id")) form s ready named in
      rw sent (rw parsed (stored.answer, (stored.account, stored.selected, reads stored)))
    where
      reads :
          {h : Handled}
          (stored : Stored env smtp session.subject
            (r.path_value (codes "id"))
            (edit_path smtp (r.path_value (codes "id")))
            form
            h)
          → smtp_sender_account env session.subject stored.account ≡ ok (smtp_account_of env form)
      reads stored =
          rw (stored.password, stored.host, stored.port, stored.security, stored.username) refl
