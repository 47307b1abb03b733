-- ===== src/Http/Settings/Edit.antt =====
-- The pages that edit settings: `handleEditIMAPAccount` and `handleEditSMTPAccount` of
-- internal/http/imap_account.go and smtp_account.go, over form.go.
use shiroyagi.Base.{Bool, not, [], ◌∷◌, List, if◌then◌else◌}
use shiroyagi.Base.Int.{ℤ}
use shiroyagi.Text.{Bytes, codes, ◌==◌, is_empty, itoa}
use shiroyagi.Auth.Session.{UserSession}
use shiroyagi.MailAccount.Store
use shiroyagi.MailAccount.Store.{Detail, no_settings}
use shiroyagi.Http.Message.{Request}
use shiroyagi.Http.Html.{Piece, markup, value, verbatim}
use shiroyagi.Http.Server.{State, html_page}
use shiroyagi.Http.Send.{Handled, with_account}

abbrev pub selected : Bool → Bytes
selected b = if b then codes " selected" else []

abbrev pub plain_if_empty : Bytes → Bytes
plain_if_empty current = if is_empty current then codes "plain" else current

abbrev pub smtp_security_selected : Bytes → Bytes → Bytes
smtp_security_selected current choice = selected (plain_if_empty current == choice)

unfoldable pub port_value : Bool → ℤ → Bytes
port_value b port = if not b then [] else itoa port

abbrev pub edit_imap_page : Detail → List Piece
edit_imap_page account =
    markup "<!doctype html>\n<html>\n"
    ∷ markup "<head><title>Edit IMAP account - Shiroyagi</title></head>\n<body>\n"
    ∷ markup "  <h1>Edit IMAP account</h1>\n\n  <p>\n"
    ∷ markup "    <strong>Email address</strong><br>\n    "
    ∷ value account.email_address
    ∷ markup "\n  </p>\n\n  <form method=\"post\" action=\"/mail-accounts/"
    ∷ value account.id
    ∷ markup "/imap/save\">\n    <p>\n      <label>IMAP Host<br>\n"
    ∷ markup "        <input name=\"imap_host\" value=\""
    ∷ value account.imap_settings.host
    ∷ markup "\">\n      </label>\n    </p>\n    <p>\n      <label>IMAP Port<br>\n"
    ∷ markup "        <input name=\"imap_port\" value=\""
    ∷ verbatim (port_value account.has_imap account.imap_settings.port)
    ∷ markup "\">\n      </label>\n    </p>\n    <p>\n      <label>IMAP protocol<br>\n"
    ∷ markup "        <select name=\"imap_security\">\n"
    ∷ markup "          <option value=\"imaps\""
    ∷ verbatim (selected (account.imap_settings.security == codes "imaps"))
    ∷ markup ">IMAPS</option>\n          <option value=\"imap\""
    ∷ verbatim (selected (account.imap_settings.security == codes "imap"))
    ∷ markup ">IMAP</option>\n        </select>\n      </label>\n    </p>\n    <p>\n"
    ∷ markup "      <label>IMAP username<br>\n"
    ∷ markup "        <input name=\"imap_username\" value=\""
    ∷ value account.imap_settings.username
    ∷ markup "\">\n      </label>\n    </p>\n    <p>\n      <label>New password<br>\n"
    ∷ markup "        <input type=\"password\" name=\"imap_password\">\n"
    ∷ markup "      </label>\n    </p>\n"
    ∷ markup "    <button type=\"submit\">Save IMAP</button>\n  </form>\n"
    ∷ markup "  <form method=\"post\" action=\"/mail-accounts/"
    ∷ value account.id
    ∷ markup "/imap/delete\">\n    <button type=\"submit\">Remove IMAP</button>\n"
    ∷ markup "  </form>\n\n  <p><a href=\"/mail-accounts\">Back</a></p>\n</body>\n"
    ∷ markup "</html>"
    ∷ []

abbrev pub edit_smtp_page : Detail → List Piece
edit_smtp_page account =
    markup "<!doctype html>\n<html>\n"
    ∷ markup "<head><title>Edit SMTP account - Shiroyagi</title></head>\n<body>\n"
    ∷ markup "  <h1>Edit SMTP account</h1>\n\n  <p>\n"
    ∷ markup "    <strong>Email address</strong><br>\n    "
    ∷ value account.email_address
    ∷ markup "\n  </p>\n\n  <form method=\"post\" action=\"/mail-accounts/"
    ∷ value account.id
    ∷ markup "/smtp/save\">\n    <p>\n      <label>SMTP Host<br>\n"
    ∷ markup "        <input name=\"smtp_host\" value=\""
    ∷ value account.smtp_settings.host
    ∷ markup "\">\n      </label>\n    </p>\n    <p>\n      <label>SMTP Port<br>\n"
    ∷ markup "        <input name=\"smtp_port\" value=\""
    ∷ verbatim (port_value account.has_smtp account.smtp_settings.port)
    ∷ markup "\">\n      </label>\n    </p>\n    <p>\n      <label>SMTP protocol<br>\n"
    ∷ markup "        <select name=\"smtp_security\">\n"
    ∷ markup "          <option value=\"starttls\""
    ∷ verbatim (smtp_security_selected account.smtp_settings.security (codes "starttls"))
    ∷ markup ">STARTTLS</option>\n          <option value=\"smtps\""
    ∷ verbatim (smtp_security_selected account.smtp_settings.security (codes "smtps"))
    ∷ markup ">SMTPS</option>\n          <option value=\"plain\""
    ∷ verbatim (smtp_security_selected account.smtp_settings.security (codes "plain"))
    ∷ markup ">Plain</option>\n        </select>\n      </label>\n    </p>\n    <p>\n"
    ∷ markup "      <label>SMTP username<br>\n"
    ∷ markup "        <input name=\"smtp_username\" value=\""
    ∷ value account.smtp_settings.username
    ∷ markup "\">\n      </label>\n    </p>\n    <p>\n"
    ∷ markup "      <label>New SMTP password<br>\n"
    ∷ markup "        <input type=\"password\" name=\"smtp_password\">\n"
    ∷ markup "      </label>\n    </p>\n"
    ∷ markup "    <button type=\"submit\">Save SMTP</button>\n  </form>\n"
    ∷ markup "  <form method=\"post\" action=\"/mail-accounts/"
    ∷ value account.id
    ∷ markup "/smtp/delete\">\n    <button type=\"submit\">Remove SMTP</button>\n"
    ∷ markup "  </form>\n\n  <p><a href=\"/mail-accounts\">Back</a></p>\n</body>\n"
    ∷ markup "</html>"
    ∷ []

unfoldable pub handle_edit_imap_account : UserSession → Request → State → Handled
unfolding Store.get
handle_edit_imap_account session r s =
    with_account s (Store.get session.subject (r.path_value (codes "id")) s.conn)
      λ account s'. (html_page 200 (edit_imap_page account), s')

unfoldable pub handle_edit_smtp_account : UserSession → Request → State → Handled
unfolding Store.get
handle_edit_smtp_account session r s =
    with_account s (Store.get session.subject (r.path_value (codes "id")) s.conn)
      λ account s'. (html_page 200 (edit_smtp_page account), s')
