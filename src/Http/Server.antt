-- ===== src/Http/Server.antt =====
-- What the handlers of internal/http share: the server's configuration and the world around it, the
-- state that a request changes, the accounts for the IMAP and SMTP clients, and the error pages.
use shiroyagi.Base.{ℕ, Bool, Option, List, [], ◌∷◌}
use shiroyagi.Base.Int.{ℤ}
use shiroyagi.Base.Result.{Result, ok, ◌>>=◌}
use shiroyagi.Text.{Bytes, codes}
use shiroyagi.Crypto.Gcm.{Gcm}
use shiroyagi.MailAccount.Schema.{Settings}
use shiroyagi.MailAccount.Conn.{Conn}
use shiroyagi.MailAccount.Store.{Detail}
use shiroyagi.Smtp.Message.{AddressParser}
use shiroyagi.Smtp.Send
use shiroyagi.Imap.Client
use shiroyagi.Imap.Mime.{Mime}
use shiroyagi.Imap.Listing.{Mailboxes}
use shiroyagi.Imap.Reading.{Reader, GetError}
use shiroyagi.Imap.Listing.{ListError}
use shiroyagi.Http.Message.{Response, text, page}
use shiroyagi.Http.Html.{Piece, markup, value, render}
use shiroyagi.Http.Password
use shiroyagi.Http.Password.{Secret, decrypt_password, imap_password, smtp_password}

-- The configuration, and what answers the server: files, libraries, the IMAP servers (which may
-- answer each connection in its own way, so they read the log of the connections before it) and the
-- SMTP servers. `done` says that the request's context is cancelled; the `*_text` are
-- `err.Error()`, and `collates` is the database's order of texts.
pub record Env : Type 0 where
  pub gcm : Gcm
  pub kek_file : Option Bytes
  pub kek_version : ℕ
  pub imap_allow_insecure_auth : Bool
  pub smtp_allow_insecure_auth : Bool
  pub done : Bool
  pub is_loopback : Bytes → Bool
  pub mime : Mime
  pub mail : AddressParser
  pub imap_server : List Client.Event → Client.Server
  pub imap_mailboxes : List Client.Event → Mailboxes
  pub imap_reader : List Client.Event → Reader
  pub smtp_accepts : Send.Log → Send.Event → Bool
  pub local_time : ℤ → Bytes
  pub get_error_text : GetError → Bytes
  pub list_error_text : ListError → Bytes
  pub send_error_text : Send.SendError → Bytes
  pub now : ℤ
  pub collates : Bytes → Bytes → Bool

-- The database, the random source, and what the IMAP and SMTP servers have been asked so far.
pub record State : Type 0 where
  pub conn : Conn
  pub random : Bytes
  pub imap : List Client.Event
  pub smtp : Send.Log

abbrev pub html_page : ℕ → List Piece → Response
html_page status pieces = record { cookies = []; status = status; body = page (render pieces) }

abbrev pub internal_error : Response
internal_error = record { cookies = []; status = 500; body = text (codes "internal server error") }

abbrev pub bad_request : Response
bad_request = record { cookies = []; status = 400; body = text (codes "bad request") }

-- The columns of the settings that hold the password.
abbrev pub secret_of : Settings → Secret
secret_of s = record {
  encrypted_password = s.encrypted_password;
  envelope = record { wrapped_dek = s.wrapped_dek; kek_version = s.kek_version };
}

module _ (env : Env) where
  unfoldable pub imap_reader_account : Bytes → Detail → Result Password.Error Client.Account
  unfolding decrypt_password
  imap_reader_account user_id account =
      decrypt_password env.gcm user_id account.id imap_password env.kek_file
        (secret_of account.imap_settings)
      >>= λ password. ok (record {
        host = account.imap_settings.host;
        port = account.imap_settings.port;
        security = account.imap_settings.security;
        username = account.imap_settings.username;
        password = password;
        allow_insecure_auth = env.imap_allow_insecure_auth;
      })

  unfoldable pub smtp_sender_account : Bytes → Detail → Result Password.Error Send.Account
  unfolding decrypt_password
  smtp_sender_account user_id account =
      decrypt_password env.gcm user_id account.id smtp_password env.kek_file
        (secret_of account.smtp_settings)
      >>= λ password. ok (record {
        host = account.smtp_settings.host;
        port = account.smtp_settings.port;
        security = account.smtp_settings.security;
        username = account.smtp_settings.username;
        password = password;
        allow_insecure_auth = env.smtp_allow_insecure_auth;
      })

abbrev pub smtp_error_page : Detail → Bytes → List Piece
smtp_error_page account message =
    markup "<!doctype html>\n<html>\n"
    ∷ markup "<head><title>SMTP error - Shiroyagi</title></head>\n<body>\n"
    ∷ markup "  <h1>SMTP error</h1>\n  <p><strong>"
    ∷ value account.email_address
    ∷ markup "</strong></p>\n  <p>"
    ∷ value message
    ∷ markup "</p>\n  <p><a href=\"/mail-accounts/"
    ∷ value account.id
    ∷ markup "/smtp/edit\">Edit SMTP</a></p>\n"
    ∷ markup "  <p><a href=\"/mail-accounts\">Back</a></p>\n</body>\n</html>"
    ∷ []

abbrev pub imap_error_page : Detail → Bytes → List Piece
imap_error_page account message =
    markup "<!doctype html>\n<html>\n"
    ∷ markup "<head><title>IMAP error - Shiroyagi</title></head>\n<body>\n"
    ∷ markup "  <h1>IMAP error</h1>\n  <p><strong>"
    ∷ value account.email_address
    ∷ markup "</strong></p>\n  <p>"
    ∷ value message
    ∷ markup "</p>\n  <p><a href=\"/mail-accounts/"
    ∷ value account.id
    ∷ markup "/imap/edit\">Edit IMAP</a></p>\n"
    ∷ markup "  <p><a href=\"/mail-accounts\">Back</a></p>\n</body>\n</html>"
    ∷ []

unfoldable pub render_smtp_error : Detail → Bytes → Response
render_smtp_error account message = html_page 502 (smtp_error_page account message)

unfoldable pub render_imap_error : Detail → Bytes → Response
render_imap_error account message = html_page 502 (imap_error_page account message)
