-- ===== src/Http/Reply.antt =====
-- The forms for a reply and a forward: `handleNewReply` of internal/http/smtp_reply.go and
-- `handleNewForwardMessage` of smtp_forward.go.
use shiroyagi.Base.{ℕ, not, Option, none, some, List, [], ◌∷◌, if◌then◌else◌}
use shiroyagi.Base.Int.{ℤ, pos}
use shiroyagi.Text.{Bytes, codes, is_empty}
use shiroyagi.Text.Unicode.{Unicode}
use shiroyagi.Auth.Session.{UserSession}
use shiroyagi.MailAccount.Store
use shiroyagi.MailAccount.Store.{Detail}
use shiroyagi.Imap.Reading
use shiroyagi.Http.Message.{Request, not_found}
use shiroyagi.Http.Html.{Piece, markup, value, segment, number}
use shiroyagi.Http.Compose.{
  message_header_value, format_imap_time, reply_subject, forward_subject, quoted_reply_body,
  forwarded_body,
}
use shiroyagi.Http.Compose.Recipients.{reply_recipient, reply_all_recipients}
use shiroyagi.Http.Compose.Form.{
  ComposeForm, compose_mode_reply, compose_mode_reply_all, compose_mode_forward,
}
use shiroyagi.Http.Server.{
  Env, State, html_page, imap_reader_account, render_imap_error, render_smtp_error,
}
use shiroyagi.Http.Send.{Handled, with_account, load_from}
use shiroyagi.Http.Mailbox.{path_uid}

pub data ReplyMode : Type 0 where
  reply_mode_reply reply_mode_reply_all : ReplyMode

-- `string(mode)`, which is what `composeMode(mode)` converts.
abbrev pub compose_mode : ReplyMode → Bytes
compose_mode reply_mode_reply = compose_mode_reply
compose_mode reply_mode_reply_all = compose_mode_reply_all

abbrev pub reply_title : ReplyMode → Bytes
reply_title reply_mode_reply = codes "Reply message"
reply_title reply_mode_reply_all = codes "Reply all"

abbrev pub reply_action : ReplyMode → Bytes
reply_action reply_mode_reply = codes "reply"
reply_action reply_mode_reply_all = codes "reply-all"

abbrev pub submit_label : ReplyMode → Bytes
submit_label reply_mode_reply = codes "Send reply"
submit_label reply_mode_reply_all = codes "Send reply all"

module _ (local_time : ℤ → Bytes) where
  unfoldable pub reply_form_page :
      Detail → Bytes → Reading.Message → ReplyMode → ComposeForm → List Piece
  unfolding message_header_value
  reply_form_page account mailbox original mode form =
      markup "<!doctype html>\n<html>\n<head><title>"
      ∷ value (reply_title mode)
      ∷ markup " - Shiroyagi</title></head>\n<body>\n  <p><a href=\"/mail-accounts/"
      ∷ value account.id
      ∷ markup "/mailboxes/"
      ∷ segment mailbox
      ∷ markup "/messages/"
      ∷ number (pos original.uid)
      ∷ markup "\">Back to message</a></p>\n  <h1>"
      ∷ value (reply_title mode)
      ∷ markup "</h1>\n\n  <p>\n    <strong>From</strong><br>\n    "
      ∷ value account.email_address
      ∷ markup "\n  </p>\n  <h2>Original message</h2>\n  <dl>\n    <dt>From</dt><dd>"
      ∷ value (message_header_value original.from)
      ∷ markup "</dd>\n    <dt>To</dt><dd>"
      ∷ value (message_header_value original.to)
      ∷ markup "</dd>\n    <dt>Cc</dt><dd>"
      ∷ value (message_header_value original.cc)
      ∷ markup "</dd>\n    <dt>Reply-To</dt><dd>"
      ∷ value (message_header_value original.reply_to)
      ∷ markup "</dd>\n    <dt>Date</dt><dd>"
      ∷ value (format_imap_time local_time original.date)
      ∷ markup "</dd>\n    <dt>Message-ID</dt><dd>"
      ∷ value (message_header_value original.message_id)
      ∷ markup "</dd>\n    <dt>In-Reply-To</dt><dd>"
      ∷ value (message_header_value original.in_reply_to)
      ∷ markup "</dd>\n    <dt>References</dt><dd>"
      ∷ value (message_header_value original.references)
      ∷ markup "</dd>\n  </dl>\n\n  <form method=\"post\" action=\"/mail-accounts/"
      ∷ value account.id
      ∷ markup "/send\">\n    <input type=\"hidden\" name=\"mode\" value=\""
      ∷ value (reply_action mode)
      ∷ markup "\">\n    <input type=\"hidden\" name=\"mailbox\" value=\""
      ∷ value mailbox
      ∷ markup "\">\n    <input type=\"hidden\" name=\"uid\" value=\""
      ∷ number (pos original.uid)
      ∷ markup "\">\n    <p>\n      <label>To<br>\n        <input name=\"to\" value=\""
      ∷ value form.to
      ∷ markup "\" required>\n      </label>\n    </p>\n    <p>\n      <label>Cc<br>\n"
      ∷ markup "        <input name=\"cc\" value=\""
      ∷ value form.cc
      ∷ markup "\">\n      </label>\n    </p>\n    <p>\n      <label>Subject<br>\n"
      ∷ markup "        <input name=\"subject\" value=\""
      ∷ value form.subject
      ∷ markup "\" required>\n      </label>\n    </p>\n    <p>\n      <label>Body<br>\n"
      ∷ markup "        <textarea name=\"body\" rows=\"16\" cols=\"72\" required>"
      ∷ value form.body
      ∷ markup "</textarea>\n      </label>\n    </p>\n    <button type=\"submit\">"
      ∷ value (submit_label mode)
      ∷ markup "</button>\n  </form>\n</body>\n</html>"
      ∷ []

  unfoldable pub forward_form_page : Detail → Bytes → Reading.Message → ComposeForm → List Piece
  unfolding message_header_value
  forward_form_page account mailbox original form =
      markup "<!doctype html>\n<html>\n"
      ∷ markup "<head><title>Forward message - Shiroyagi</title></head>\n<body>\n"
      ∷ markup "  <p><a href=\"/mail-accounts/"
      ∷ value account.id
      ∷ markup "/mailboxes/"
      ∷ segment mailbox
      ∷ markup "/messages/"
      ∷ number (pos original.uid)
      ∷ markup "\">Back to message</a></p>\n  <h1>Forward message</h1>\n\n  <p>\n"
      ∷ markup "    <strong>From</strong><br>\n    "
      ∷ value account.email_address
      ∷ markup "\n  </p>\n  <h2>Original message</h2>\n  <dl>\n    <dt>From</dt><dd>"
      ∷ value (message_header_value original.from)
      ∷ markup "</dd>\n    <dt>To</dt><dd>"
      ∷ value (message_header_value original.to)
      ∷ markup "</dd>\n    <dt>Cc</dt><dd>"
      ∷ value (message_header_value original.cc)
      ∷ markup "</dd>\n    <dt>Reply-To</dt><dd>"
      ∷ value (message_header_value original.reply_to)
      ∷ markup "</dd>\n    <dt>Date</dt><dd>"
      ∷ value (format_imap_time local_time original.date)
      ∷ markup "</dd>\n    <dt>Message-ID</dt><dd>"
      ∷ value (message_header_value original.message_id)
      ∷ markup "</dd>\n    <dt>In-Reply-To</dt><dd>"
      ∷ value (message_header_value original.in_reply_to)
      ∷ markup "</dd>\n    <dt>References</dt><dd>"
      ∷ value (message_header_value original.references)
      ∷ markup "</dd>\n  </dl>\n\n  <form method=\"post\" action=\"/mail-accounts/"
      ∷ value account.id
      ∷ markup "/send\">\n    <input type=\"hidden\" name=\"mode\" value=\"forward\">\n"
      ∷ markup "    <input type=\"hidden\" name=\"mailbox\" value=\""
      ∷ value mailbox
      ∷ markup "\">\n    <input type=\"hidden\" name=\"uid\" value=\""
      ∷ number (pos original.uid)
      ∷ markup "\">\n    <p>\n      <label>To<br>\n        <input name=\"to\" value=\""
      ∷ value form.to
      ∷ markup "\" required>\n      </label>\n    </p>\n    <p>\n      <label>Cc<br>\n"
      ∷ markup "        <input name=\"cc\" value=\""
      ∷ value form.cc
      ∷ markup "\">\n      </label>\n    </p>\n    <p>\n      <label>Subject<br>\n"
      ∷ markup "        <input name=\"subject\" value=\""
      ∷ value form.subject
      ∷ markup "\" required>\n      </label>\n    </p>\n    <p>\n      <label>Body<br>\n"
      ∷ markup "        <textarea name=\"body\" rows=\"18\" cols=\"72\" required>"
      ∷ value form.body
      ∷ markup "</textarea>\n      </label>\n    </p>\n"
      ∷ markup "    <button type=\"submit\">Send forward</button>\n  </form>\n</body>\n"
      ∷ markup "</html>"
      ∷ []

module _ (env : Env) ⦃u : Unicode⦄ where
  -- `loadReplyContext` and `loadForwardContext`, which are the same but for what they log: the
  -- account, the mailbox and the original for the rest of the handler.
  unfoldable pub original_at :
      UserSession
      → Request
      → State
      → (Detail → Reading.Message → State → Handled)
      → Option ℕ
      → Handled
  unfolding Store.get imap_reader_account render_imap_error render_smtp_error
  original_at session r s next none = (not_found, s)
  original_at session r s next (some uid) =
      with_account s (Store.get session.subject (r.path_value (codes "id")) s.conn) λ account s'.
        if not account.has_imap
        then (render_imap_error account (codes "IMAP account is not configured."), s')
        else if not account.has_smtp
        then (render_smtp_error account (codes "SMTP account is not configured."), s')
        else load_from env account (r.path_value (codes "mailbox")) uid (next account) s'
            (imap_reader_account env session.subject account)

  unfoldable pub load_context :
      UserSession → Request → State → (Detail → Reading.Message → State → Handled) → Handled
  unfolding original_at path_uid
  load_context session r s next =
      if is_empty (r.path_value (codes "mailbox"))
      then (not_found, s)
      else original_at session r s next (path_uid r)

  unfoldable pub recipients_of : Detail → Reading.Message → ReplyMode → Bytes × Bytes
  unfolding reply_recipient reply_all_recipients
  recipients_of account original reply_mode_reply =
      (reply_recipient env.mail original.reply_to original.from, [])
  recipients_of account original reply_mode_reply_all =
      reply_all_recipients env.mail original.reply_to original.from original.to original.cc
        account.email_address

  unfoldable pub reply_form : Detail → Bytes → Reading.Message → ReplyMode → ComposeForm
  unfolding recipients_of reply_subject quoted_reply_body
  reply_form account mailbox original mode = record {
    mode = compose_mode mode;
    mailbox = mailbox;
    uid = original.uid;
    to = (recipients_of account original mode).0;
    cc = (recipients_of account original mode).1;
    subject = reply_subject original.subject;
    body = quoted_reply_body env.local_time original;
  }

  unfoldable pub forward_form : Bytes → Reading.Message → ComposeForm
  unfolding forward_subject forwarded_body
  forward_form mailbox original = record {
    mode = compose_mode_forward;
    mailbox = mailbox;
    uid = original.uid;
    to = [];
    cc = [];
    subject = forward_subject original.subject;
    body = forwarded_body env.local_time original;
  }

  unfoldable pub handle_new_reply : ReplyMode → UserSession → Request → State → Handled
  unfolding load_context reply_form reply_form_page
  handle_new_reply mode session r s = load_context session r s λ account original s'. (
    html_page 200 (
        reply_form_page env.local_time account (r.path_value (codes "mailbox")) original mode
          (reply_form account (r.path_value (codes "mailbox")) original mode)),
    s',
  )

  unfoldable pub handle_new_forward_message : UserSession → Request → State → Handled
  unfolding load_context forward_form forward_form_page
  handle_new_forward_message session r s = load_context session r s λ account original s'. (
    html_page 200 (
        forward_form_page env.local_time account (r.path_value (codes "mailbox")) original
          (forward_form (r.path_value (codes "mailbox")) original)),
    s',
  )
