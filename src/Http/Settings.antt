-- ===== src/Http/Settings.antt =====
-- The handlers of internal/http/imap_account.go and smtp_account.go, which differ in the names of the
-- protocol only: `Save*`, `Delete*` and `Edit*`.
pub mod Form
pub mod Edit
pub mod Saved
pub mod Valid
pub mod Clients
use shiroyagi.Base.{
  ℕ, Bool, true, false, not, ◌&&◌, Option, none, some, [], ◌∷◌, ◌++◌, List, if◌then◌else◌,
}
use shiroyagi.Base.Int.{ℤ, pos}
use shiroyagi.Base.Result.{Result, ok, err}
use shiroyagi.Base.Exec.{Exec}
use shiroyagi.Text.{Bytes, codes, ◌==◌, is_empty, itoa}
use shiroyagi.Auth.Session.{UserSession}
use shiroyagi.MailAccount.Schema.{Protocol, imap, smtp, Settings}
use shiroyagi.MailAccount.Conn.{Conn}
use shiroyagi.MailAccount.Conn
use shiroyagi.MailAccount.Store
use shiroyagi.MailAccount.Store.{Detail, no_settings}
use shiroyagi.Http.Message.{Request, Response, redirect}
use shiroyagi.Http.Html.{Piece, markup, value, segment, number, verbatim}
use shiroyagi.Http.Password
use shiroyagi.Http.Password.{Secret, seal_password, imap_password, smtp_password}
use shiroyagi.Http.Server.{Env, State, html_page, internal_error, bad_request, secret_of}
use shiroyagi.Http.Send.{Handled, with_account}
use shiroyagi.Http.Settings.Form.{SettingsForm, parse_imap_form, parse_smtp_form}

abbrev pub has_settings : Protocol → Detail → Bool
has_settings imap a = a.has_imap
has_settings smtp a = a.has_smtp

abbrev pub detail_settings : Protocol → Detail → Settings
detail_settings imap a = a.imap_settings
detail_settings smtp a = a.smtp_settings

abbrev pub field_of : Protocol → Bytes
field_of imap = imap_password
field_of smtp = smtp_password

-- The path of the protocol's pages.
abbrev pub edit_path : Protocol → Bytes → Bytes
edit_path imap id = codes "/mail-accounts/" ++ (id ++ codes "/imap/edit")
edit_path smtp id = codes "/mail-accounts/" ++ (id ++ codes "/smtp/edit")

abbrev pub settings_from : SettingsForm → Secret → Settings
settings_from form secret = record {
  host = form.host;
  port = form.port;
  security = form.security;
  username = form.username;
  encrypted_password = secret.encrypted_password;
  wrapped_dek = secret.envelope.wrapped_dek;
  kek_version = secret.envelope.kek_version;
}

-- The account that `SaveIMAP` or `SaveSMTP` is given.
abbrev pub account_to_save : Protocol → Bytes → Bytes → Settings → Store.Account
account_to_save imap user_id id settings = record {
  id = id;
  user_id = user_id;
  email_address = [];
  has_imap = true;
  imap_settings = settings;
  has_smtp = false;
  smtp_settings = no_settings;
}
account_to_save smtp user_id id settings = record {
  id = id;
  user_id = user_id;
  email_address = [];
  has_imap = false;
  imap_settings = no_settings;
  has_smtp = true;
  smtp_settings = settings;
}

unfoldable pub store_save : Protocol → ℤ → Store.Account → Exec Conn Conn.Error (Unit {0})
unfolding Store.save_imap Store.save_smtp
store_save imap now a = Store.save_imap now a
store_save smtp now a = Store.save_smtp now a

unfoldable pub store_delete : Protocol → ℤ → Bytes → Bytes → Exec Conn Conn.Error (Unit {0})
unfolding Store.delete_imap Store.delete_smtp
store_delete imap now user_id id = Store.delete_imap now user_id id
store_delete smtp now user_id id = Store.delete_smtp now user_id id

-- The answer to a write of the store.
abbrev pub answered : State → Bytes → Result Conn.Error (Unit {0}) × Conn → Handled
answered s url (err e, c) = (internal_error, record s { conn = c })
answered s url (ok _, c) = (redirect url 303, record s { conn = c })

module _ (env : Env) (p : Protocol) where
  unfoldable pub save_sealed :
      Bytes → Bytes → Detail → SettingsForm → State → Result Password.Error Secret × Bytes → Handled
  unfolding store_save
  save_sealed user_id url account form s (err e, rest) =
      (internal_error, record s { random = rest })
  save_sealed user_id url account form s (ok secret, rest) =
      answered (record s { random = rest }) url
        (store_save p env.now (account_to_save p user_id account.id (settings_from form secret))
          s.conn)

  unfoldable pub save_form : Bytes → Bytes → SettingsForm → Detail → State → Handled
  unfolding save_sealed seal_password
  save_form user_id url form account s =
      if not (has_settings p account) && is_empty form.password
      then (bad_request, s)
      else save_sealed user_id url account form s (
          seal_password env.gcm env.kek_version user_id account.id (field_of p) env.kek_file
            (has_settings p account) (secret_of (detail_settings p account)) form.password s.random)

  unfoldable pub save_parsed : UserSession → Bytes → State → Option SettingsForm → Handled
  unfolding save_form Store.get
  save_parsed session id s none = (bad_request, s)
  save_parsed session id s (some form) =
      with_account s (Store.get session.subject id s.conn)
        (save_form session.subject (edit_path p id) form)

  abbrev pub handle_delete : UserSession → Request → State → Handled
  handle_delete session r s =
      answered s (edit_path p (r.path_value (codes "id")))
        (store_delete p env.now session.subject (r.path_value (codes "id")) s.conn)

module _ (env : Env) where
  unfoldable pub handle_save_imap_account : UserSession → Request → State → Handled
  unfolding save_parsed parse_imap_form
  handle_save_imap_account session r s =
      if not r.form_ok
      then (bad_request, s)
      else save_parsed env imap session (r.path_value (codes "id")) s (parse_imap_form r)

  unfoldable pub handle_save_smtp_account : UserSession → Request → State → Handled
  unfolding save_parsed parse_smtp_form
  handle_save_smtp_account session r s =
      if not r.form_ok
      then (bad_request, s)
      else save_parsed env smtp session (r.path_value (codes "id")) s (parse_smtp_form r)

  unfoldable pub handle_delete_imap_account : UserSession → Request → State → Handled
  unfolding store_delete
  handle_delete_imap_account session r s = handle_delete env imap session r s

  unfoldable pub handle_delete_smtp_account : UserSession → Request → State → Handled
  unfolding store_delete
  handle_delete_smtp_account session r s = handle_delete env smtp session r s
