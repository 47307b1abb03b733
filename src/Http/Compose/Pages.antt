-- ===== src/Http/Compose/Pages.antt =====
-- The pages of internal/http/smtp_send.go: `renderComposeSent` and `renderMessageForm`.
use shiroyagi.Base.{List, [], ◌∷◌, ◌++◌, if◌then◌else◌}
use shiroyagi.Base.Int.{pos}
use shiroyagi.Text.{Bytes, is_empty}
use shiroyagi.MailAccount.Store.{Detail}
use shiroyagi.Imap.Reading
use shiroyagi.Imap.Reading.{GetError, get_message, mark_answered, mark_forwarded}
use shiroyagi.Http.Message.{Response}
use shiroyagi.Http.Html.{Piece, markup, value, segment, number}
use shiroyagi.Http.Compose.Form.{ComposeForm, requires_original, sent_title}
use shiroyagi.Http.Server.{html_page}

unfoldable pub compose_sent_page : Detail → Reading.Message → ComposeForm → Bytes → List Piece
unfolding sent_title
compose_sent_page account original form warning =
    (markup "<!doctype html>\n<html>\n<head><title>"
      ∷ value (sent_title form.mode)
      ∷ markup " - Shiroyagi</title></head>\n<body>\n  <h1>"
      ∷ value (sent_title form.mode)
      ∷ markup "</h1>\n  <p><strong>"
      ∷ value account.email_address
      ∷ markup "</strong> to <strong>"
      ∷ value form.to
      ∷ markup "</strong></p>"
      ∷ [])
    ++ ((if is_empty form.cc
          then []
          else (markup "\n  <p><strong>Cc</strong> " ∷ value form.cc ∷ markup "</p>" ∷ []))
        ++ ((if is_empty warning
              then []
              else (markup "\n  <p>" ∷ value warning ∷ markup "</p>" ∷ []))
            ++ ((if requires_original form.mode
                  then (markup "\n  <p><a href=\"/mail-accounts/"
                      ∷ value account.id
                      ∷ markup "/mailboxes/"
                      ∷ segment form.mailbox
                      ∷ markup "/messages/"
                      ∷ number (pos original.uid)
                      ∷ markup "\">Back to message</a></p>\n  <p><a href=\"/mail-accounts/"
                      ∷ value account.id
                      ∷ markup "/mailboxes/"
                      ∷ segment form.mailbox
                      ∷ markup "\">Back to "
                      ∷ value form.mailbox
                      ∷ markup "</a></p>"
                      ∷ [])
                  else (markup "\n  <p><a href=\"/mail-accounts/"
                      ∷ value account.id
                      ∷ markup "/send\">Send another message</a></p>\n"
                      ∷ markup "  <p><a href=\"/mail-accounts\">Back</a></p>"
                      ∷ []))
                ++ (markup "\n</body>\n</html>" ∷ []))))

unfoldable pub render_compose_sent : Detail → Reading.Message → ComposeForm → Bytes → Response
unfolding compose_sent_page
render_compose_sent account original form warning =
    html_page 200 (compose_sent_page account original form warning)

abbrev pub message_form_page : Detail → ComposeForm → List Piece
message_form_page account form =
    markup "<!doctype html>\n<html>\n"
    ∷ markup "<head><title>Compose message - Shiroyagi</title></head>\n<body>\n"
    ∷ markup "  <h1>Compose message</h1>\n\n  <p>\n    <strong>From</strong><br>\n"
    ∷ markup "    "
    ∷ value account.email_address
    ∷ markup "\n  </p>\n\n  <form method=\"post\" action=\"/mail-accounts/"
    ∷ value account.id
    ∷ markup "/send\">\n    <input type=\"hidden\" name=\"mode\" value=\"new\">\n    <p>\n"
    ∷ markup "      <label>To<br>\n        <input type=\"email\" name=\"to\" value=\""
    ∷ value form.to
    ∷ markup "\" required>\n      </label>\n    </p>\n    <p>\n"
    ∷ markup "      <label>Subject<br>\n        <input name=\"subject\" value=\""
    ∷ value form.subject
    ∷ markup "\" required>\n      </label>\n    </p>\n    <p>\n      <label>Body<br>\n"
    ∷ markup "        <textarea name=\"body\" rows=\"12\" cols=\"72\" required>"
    ∷ value form.body
    ∷ markup "</textarea>\n      </label>\n    </p>\n"
    ∷ markup "    <button type=\"submit\">Send</button>\n  </form>\n\n"
    ∷ markup "  <p><a href=\"/mail-accounts\">Back</a></p>\n</body>\n</html>"
    ∷ []

unfoldable pub render_message_form : Detail → ComposeForm → Response
render_message_form account form = html_page 200 (message_form_page account form)
