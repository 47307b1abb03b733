-- ===== src/Http/Mailbox.antt =====
-- The pages of a mailbox and of a message: `handleMailbox` and `handleMessage` of
-- internal/http/mailbox.go.
use shiroyagi.Base.{
  ℕ, Bool, true, false, not, ◌||◌, Option, none, some, List, [], ◌∷◌, ◌++◌, same, if◌then◌else◌,
}
use shiroyagi.Base.Int.{ℤ, pos}
use shiroyagi.Base.Result.{Result, ok, err}
use shiroyagi.Text.{Bytes, codes, is_empty, join, parse_uint}
use shiroyagi.Text.Unicode.{Unicode}
use shiroyagi.Auth.Session.{UserSession}
use shiroyagi.MailAccount.Store
use shiroyagi.MailAccount.Store.{Detail}
use shiroyagi.Imap.Client
use shiroyagi.Imap.Listing.{ListError, MessageSummary, list_session}
use shiroyagi.Imap.Reading
use shiroyagi.Imap.Reading.{GetError, message_not_found}
use shiroyagi.Http.Message.{Request, not_found}
use shiroyagi.Http.Html.{Piece, markup, value, segment, number}
use shiroyagi.Http.Compose.{message_header_value, subject_or_untitled, format_imap_time}
use shiroyagi.Http.Password
use shiroyagi.Http.Server.{
  Env, State, html_page, internal_error, imap_reader_account, render_imap_error,
}
use shiroyagi.Http.Send.{Handled, with_account, load}

abbrev pub default_mailbox : Bytes
default_mailbox = codes "INBOX"

abbrev pub mailbox_message_limit : ℕ
mailbox_message_limit = 100

abbrev pub statuses : Bool → Bool → List Bytes
statuses answered forwarded =
    (if answered then codes "Replied" ∷ [] else [])
    ++ (if forwarded then codes "Forwarded" ∷ [] else [])

unfoldable pub message_status : MessageSummary → Bytes
unfolding join
message_status message = join (statuses message.answered message.forwarded) (codes ", ")

unfoldable pub message_detail_status : Reading.Message → Bytes
unfolding join
message_detail_status message =
    if not (message.answered || message.forwarded)
    then codes "(none)"
    else join (statuses message.answered message.forwarded) (codes ", ")

module _ (local_time : ℤ → Bytes) where
  unfoldable pub message_row : Detail → Bytes → MessageSummary → List Piece
  unfolding message_status subject_or_untitled
  message_row account mailbox message =
      markup "\n      <tr>\n        <td>"
      ∷ value (message_status message)
      ∷ markup "</td>\n        <td>"
      ∷ value (format_imap_time local_time message.date)
      ∷ markup "</td>\n        <td>"
      ∷ value message.from
      ∷ markup "</td>\n        <td><a href=\"/mail-accounts/"
      ∷ value account.id
      ∷ markup "/mailboxes/"
      ∷ segment mailbox
      ∷ markup "/messages/"
      ∷ number (pos message.uid)
      ∷ markup "\">"
      ∷ value (subject_or_untitled message.subject)
      ∷ markup "</a></td>\n        <td>"
      ∷ number (pos message.size)
      ∷ markup "</td>\n      </tr>"
      ∷ []

  unfoldable pub message_rows : Detail → Bytes → List MessageSummary → List Piece
  unfolding message_row
  message_rows account mailbox [] = []
  message_rows account mailbox (message ∷ messages) =
      message_row account mailbox message ++ message_rows account mailbox messages

  unfoldable pub mailbox_table : Detail → Bytes → List MessageSummary → List Piece
  unfolding message_rows
  mailbox_table account mailbox [] = markup "\n  <p>No messages.</p>" ∷ []
  mailbox_table account mailbox (message ∷ messages) =
      (markup "\n  <table>\n    <thead>\n"
        ∷ markup
            "      <tr><th>Status</th><th>Date</th><th>From</th><th>Subject</th><th>Size</th></tr>\n"
        ∷ markup "    </thead>\n    <tbody>"
        ∷ [])
      ++ (message_rows account mailbox (message ∷ messages)
          ++ (markup "\n    </tbody>\n  </table>" ∷ []))

  unfoldable pub mailbox_page : Detail → Bytes → List MessageSummary → List Piece
  unfolding mailbox_table
  mailbox_page account mailbox messages =
      (markup "<!doctype html>\n<html>\n<head><title>"
        ∷ value mailbox
        ∷ markup " - Shiroyagi</title></head>\n<body>\n  <h1>"
        ∷ value mailbox
        ∷ markup "</h1>\n  <p><strong>"
        ∷ value account.email_address
        ∷ markup "</strong></p>"
        ∷ [])
      ++ (mailbox_table account mailbox messages
          ++ (markup "\n  <p><a href=\"/mail-accounts\">Back</a></p>\n</body>\n</html>" ∷ []))

  unfoldable pub message_page : Detail → Bytes → Reading.Message → List Piece
  unfolding message_detail_status subject_or_untitled message_header_value
  message_page account mailbox message =
      markup "<!doctype html>\n<html>\n<head><title>"
      ∷ value (subject_or_untitled message.subject)
      ∷ markup " - Shiroyagi</title></head>\n<body>\n  <p><a href=\"/mail-accounts/"
      ∷ value account.id
      ∷ markup "/mailboxes/"
      ∷ segment mailbox
      ∷ markup "\">Back to "
      ∷ value mailbox
      ∷ markup "</a></p>\n  <h1>"
      ∷ value (subject_or_untitled message.subject)
      ∷ markup "</h1>\n  <dl>\n    <dt>Status</dt><dd>"
      ∷ value (message_detail_status message)
      ∷ markup "</dd>\n    <dt>From</dt><dd>"
      ∷ value message.from
      ∷ markup "</dd>\n    <dt>To</dt><dd>"
      ∷ value (message_header_value message.to)
      ∷ markup "</dd>\n    <dt>Cc</dt><dd>"
      ∷ value (message_header_value message.cc)
      ∷ markup "</dd>\n    <dt>Reply-To</dt><dd>"
      ∷ value (message_header_value message.reply_to)
      ∷ markup "</dd>\n    <dt>Date</dt><dd>"
      ∷ value (format_imap_time local_time message.date)
      ∷ markup "</dd>\n    <dt>Message-ID</dt><dd>"
      ∷ value (message_header_value message.message_id)
      ∷ markup "</dd>\n    <dt>In-Reply-To</dt><dd>"
      ∷ value (message_header_value message.in_reply_to)
      ∷ markup "</dd>\n    <dt>References</dt><dd>"
      ∷ value (message_header_value message.references)
      ∷ markup "</dd>\n  </dl>\n  <p>\n    <a href=\"/mail-accounts/"
      ∷ value account.id
      ∷ markup "/mailboxes/"
      ∷ segment mailbox
      ∷ markup "/messages/"
      ∷ number (pos message.uid)
      ∷ markup "/reply\">Reply</a>\n    <a href=\"/mail-accounts/"
      ∷ value account.id
      ∷ markup "/mailboxes/"
      ∷ segment mailbox
      ∷ markup "/messages/"
      ∷ number (pos message.uid)
      ∷ markup "/reply-all\">Reply all</a>\n    <a href=\"/mail-accounts/"
      ∷ value account.id
      ∷ markup "/mailboxes/"
      ∷ segment mailbox
      ∷ markup "/messages/"
      ∷ number (pos message.uid)
      ∷ markup "/forward\">Forward</a>\n  </p>\n  <pre>"
      ∷ value message.body
      ∷ markup "</pre>\n</body>\n</html>"
      ∷ []

-- The UID of a path; none is answered by "not found".
abbrev pub positive : Option ℕ → Option ℕ
positive none = none
positive (some uid) = if same uid 0 then none else some uid

unfoldable pub path_uid : Request → Option ℕ
unfolding parse_uint
path_uid r = positive (parse_uint (r.path_value (codes "uid")) 32)

module _ (env : Env) ⦃u : Unicode⦄ where
  unfoldable pub listed_page :
      Detail → Bytes → State → Result ListError (List MessageSummary) × List Client.Event → Handled
  unfolding mailbox_page render_imap_error
  listed_page account mailbox s (err e, events) = (
    render_imap_error account (codes "Could not load mailbox: " ++ env.list_error_text e),
    record s { imap = s.imap ++ events },
  )
  listed_page account mailbox s (ok messages, events) = (
    html_page 200 (mailbox_page env.local_time account mailbox messages),
    record s { imap = s.imap ++ events },
  )

  unfoldable pub list_from : Detail → Bytes → State → Result Password.Error Client.Account → Handled
  unfolding list_session
  list_from account mailbox s (err e) = (internal_error, s)
  list_from account mailbox s (ok imap_account) = listed_page account mailbox s (
      list_session (Client.connect env.is_loopback (env.imap_server s.imap) env.done imap_account)
        (env.imap_mailboxes s.imap) mailbox mailbox_message_limit)

  unfoldable pub handle_mailbox : UserSession → Request → State → Handled
  unfolding Store.get imap_reader_account render_imap_error Client.connect list_from
  handle_mailbox session r s =
      if is_empty (r.path_value (codes "mailbox"))
      then (not_found, s)
      else with_account s (Store.get session.subject (r.path_value (codes "id")) s.conn)
          λ account s'.
            if not account.has_imap
            then (render_imap_error account (codes "IMAP account is not configured."), s')
            else list_from account (r.path_value (codes "mailbox")) s'
                (imap_reader_account env session.subject account)

  abbrev pub is_missing : GetError → Bool
  is_missing message_not_found = true
  is_missing _ = false

  unfoldable pub shown_message : Detail → Bytes → Result GetError Reading.Message × State → Handled
  unfolding message_page render_imap_error
  shown_message account mailbox (err e, s) =
      if is_missing e
      then (not_found, s)
      else (render_imap_error account (codes "Could not load message: " ++ env.get_error_text e), s)
  shown_message account mailbox (ok message, s) =
      (html_page 200 (message_page env.local_time account mailbox message), s)

  unfoldable pub message_from :
      Detail → Bytes → ℕ → State → Result Password.Error Client.Account → Handled
  unfolding load shown_message
  message_from account mailbox uid s (err e) = (internal_error, s)
  message_from account mailbox uid s (ok imap_account) =
      shown_message account mailbox (load env s imap_account mailbox uid)

  unfoldable pub message_at : UserSession → Request → State → Option ℕ → Handled
  unfolding Store.get imap_reader_account render_imap_error message_from
  message_at session r s none = (not_found, s)
  message_at session r s (some uid) =
      with_account s (Store.get session.subject (r.path_value (codes "id")) s.conn) λ account s'.
        if not account.has_imap
        then (render_imap_error account (codes "IMAP account is not configured."), s')
        else message_from account (r.path_value (codes "mailbox")) uid s'
            (imap_reader_account env session.subject account)

  unfoldable pub handle_message : UserSession → Request → State → Handled
  unfolding message_at path_uid
  handle_message session r s =
      if is_empty (r.path_value (codes "mailbox"))
      then (not_found, s)
      else message_at session r s (path_uid r)
