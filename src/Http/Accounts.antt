-- ===== src/Http/Accounts.antt =====
-- The handlers of internal/http/mail_account.go, and `handleIndex` and `handleSignIn` of server.go.
pub mod Created
mod Tests
use shiroyagi.Base.{Bool, false, not, Option, none, some, List, [], ◌∷◌, ◌++◌, if◌then◌else◌}
use shiroyagi.Base.Result.{Result, ok, err}
use shiroyagi.Text.{Bytes, codes, is_empty}
use shiroyagi.Auth.Session.{UserSession, SessionStore}
use shiroyagi.MailAccount.Conn
use shiroyagi.MailAccount.Conn.{Conn}
use shiroyagi.MailAccount.Store
use shiroyagi.MailAccount.Store.{no_settings, exists_by_user_and_email}
use shiroyagi.MailAccount.Identifier
use shiroyagi.MailAccount.Identifier.{new_id}
use shiroyagi.MailAccount.Summaries.{Summary, list_summaries}
use shiroyagi.Http.Message.{Request, Response, http_error, redirect}
use shiroyagi.Http.Html.{Piece, markup, value, segment}
use shiroyagi.Http.Auth.{current_session}
use shiroyagi.Http.Server.{Env, State, html_page, internal_error, bad_request}
use shiroyagi.Http.Send.{Handled}
use shiroyagi.Http.Settings.{answered}
use shiroyagi.Http.Mailbox.{default_mailbox}

abbrev pub account_item : Summary → List Piece
account_item account =
    markup "\n    <li>\n      "
    ∷ value account.email_address
    ∷ markup "\n      <a href=\"/mail-accounts/"
    ∷ value account.id
    ∷ markup "/mailboxes/"
    ∷ segment default_mailbox
    ∷ markup "\">Inbox</a>\n      <a href=\"/mail-accounts/"
    ∷ value account.id
    ∷ markup "/send\">Send</a>\n      <a href=\"/mail-accounts/"
    ∷ value account.id
    ∷ markup "/imap/edit\">IMAP</a>\n      <a href=\"/mail-accounts/"
    ∷ value account.id
    ∷ markup "/smtp/edit\">SMTP</a>\n"
    ∷ markup "      <form method=\"post\" action=\"/mail-accounts/"
    ∷ value account.id
    ∷ markup "/delete\">\n        <button type=\"submit\">Delete</button>\n"
    ∷ markup "      </form>\n    </li>"
    ∷ []

abbrev pub account_items : List Summary → List Piece
account_items [] = []
account_items (account ∷ accounts) = account_item account ++ account_items accounts

abbrev pub account_list : List Summary → List Piece
account_list [] = markup "\n  <p>No mail accounts.</p>" ∷ []
account_list (account ∷ accounts) =
    (markup "\n  <ul>" ∷ []) ++ (account_items (account ∷ accounts) ++ (markup "\n  </ul>" ∷ []))

abbrev pub accounts_page : List Summary → List Piece
accounts_page accounts =
    (markup "<!doctype html>\n<html>\n"
      ∷ markup "<head><title>Mail accounts - Shiroyagi</title></head>\n<body>\n"
      ∷ markup "  <h1>Mail accounts</h1>\n"
      ∷ markup "  <p><a href=\"/mail-accounts/new\">New mail account</a></p>"
      ∷ [])
    ++ (account_list accounts
        ++ (markup "\n  <p><a href=\"/\">Back</a></p>\n</body>\n</html>" ∷ []))

abbrev pub listed : State → Result Conn.Error (List Summary) × Conn → Handled
listed s (err e, c) = (internal_error, record s { conn = c })
listed s (ok accounts, c) = (html_page 200 (accounts_page accounts), record s { conn = c })

unfoldable pub handle_list_mail_accounts : Env → UserSession → Request → State → Handled
unfolding list_summaries
handle_list_mail_accounts env session r s =
    listed s (list_summaries env.collates session.subject s.conn)

abbrev pub new_account_page : List Piece
new_account_page =
    markup "<!doctype html>\n<html>\n"
    ∷ markup "<head><title>Add mail account - Shiroyagi</title></head>\n<body>\n"
    ∷ markup "  <h1>Add mail account</h1>\n\n"
    ∷ markup "  <form method=\"post\" action=\"/mail-accounts/create\">\n    <p>\n"
    ∷ markup "      <label>Email address<br>\n"
    ∷ markup "        <input type=\"email\" name=\"email_address\" required>\n"
    ∷ markup "      </label>\n    </p>\n    <button type=\"submit\">Save</button>\n"
    ∷ markup "  </form>\n\n  <p><a href=\"/mail-accounts\">Back</a></p>\n</body>\n"
    ∷ markup "</html>"
    ∷ []

unfoldable pub handle_new_mail_account : UserSession → Request → State → Handled
handle_new_mail_account session r s = (html_page 200 new_account_page, s)

-- The account that `insertMailAccount` inserts.
abbrev pub new_account : Bytes → Bytes → Bytes → Store.Account
new_account user_id id email_address = record {
  id = id;
  user_id = user_id;
  email_address = email_address;
  has_imap = false;
  imap_settings = no_settings;
  has_smtp = false;
  smtp_settings = no_settings;
}

abbrev pub mail_accounts_path : Bytes
mail_accounts_path = codes "/mail-accounts"

module _ (env : Env) where
  -- `insertMailAccount`, and the answer to its result.
  unfoldable pub insert_identified :
      Bytes → Bytes → State → Result Identifier.Error Bytes × Bytes → Handled
  unfolding Store.insert
  insert_identified user_id email_address s (err e, rest) =
      (internal_error, record s { random = rest })
  insert_identified user_id email_address s (ok id, rest) =
      answered (record s { random = rest }) mail_accounts_path
        (Store.insert env.now (new_account user_id id email_address) s.conn)

  unfoldable pub create_unless_found :
      Bytes → Bytes → State → Result Conn.Error Bool × Conn → Handled
  unfolding insert_identified new_id
  create_unless_found user_id email_address s (err e, c) = (internal_error, record s { conn = c })
  create_unless_found user_id email_address s (ok found, c) =
      if found
      then (http_error (codes "mail account already exists") 409, record s { conn = c })
      else insert_identified user_id email_address (record s { conn = c }) (new_id s.random)

  unfoldable pub handle_create_mail_account : UserSession → Request → State → Handled
  unfolding create_unless_found exists_by_user_and_email
  handle_create_mail_account session r s =
      if not r.form_ok
      then (bad_request, s)
      else if is_empty (r.form (codes "email_address"))
      then (bad_request, s)
      else create_unless_found session.subject (r.form (codes "email_address")) s
          (exists_by_user_and_email session.subject (r.form (codes "email_address")) s.conn)

unfoldable pub handle_delete_mail_account : UserSession → Request → State → Handled
unfolding Store.delete
handle_delete_mail_account session r s =
    answered s mail_accounts_path (Store.delete session.subject (r.path_value (codes "id")) s.conn)

abbrev pub or_filled : Bytes → Bytes → Bytes
or_filled name other = if is_empty name then other else name

-- `handleIndex`
abbrev pub display_name : UserSession → Bytes
display_name session =
    or_filled (or_filled (or_filled session.name session.preferred_username) session.email)
      session.subject

abbrev pub index_page : UserSession → List Piece
index_page session =
    markup "<!doctype html>\n<html lang=\"ja\">\n"
    ∷ markup "<head><meta charset=\"utf-8\"><title>Shiroyagi</title></head>\n"
    ∷ markup "<body>\n  <h1>Shiroyagi</h1>\n  <p>Signed in as "
    ∷ value (display_name session)
    ∷ markup "</p>\n  <p><a href=\"/mail-accounts\">Mail accounts</a></p>\n"
    ∷ markup "  <p><a href=\"/auth/logout\">Sign out</a></p>\n</body>\n</html>"
    ∷ []

unfoldable pub handle_index : UserSession → Request → State → Handled
handle_index session r s = (html_page 200 (index_page session), s)

abbrev pub sign_in_page : List Piece
sign_in_page =
    markup "<!doctype html>\n<html lang=\"ja\">\n"
    ∷ markup "<head><meta charset=\"utf-8\"><title>Sign in - Shiroyagi</title></head>\n"
    ∷ markup "<body>\n  <h1>Shiroyagi</h1>\n"
    ∷ markup "  <p><a href=\"/auth/login\">Sign in with Keycloak</a></p>\n</body>\n"
    ∷ markup "</html>"
    ∷ []

abbrev pub signed_in : Option UserSession → Response
signed_in none = html_page 200 sign_in_page
signed_in (some session) = redirect (codes "/") 302

unfoldable pub handle_sign_in : SessionStore → Request → Response
unfolding current_session
handle_sign_in s r = signed_in (current_session s r)
