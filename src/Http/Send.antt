-- ===== src/Http/Send.antt =====
-- `handleNewMessage` and `handleSendMessage` of internal/http/smtp_send.go. The session is that of
-- the guard around the handler.
pub mod Steps
pub mod Outcome
mod Tests
use shiroyagi.Base.{
  ℕ, Bool, true, false, not, ◌&&◌, ◌||◌, Option, none, some, List, [], ◌∷◌, ◌++◌, if◌then◌else◌,
}
use shiroyagi.Base.Int.{ℤ, pos}
use shiroyagi.Base.Result.{Result, ok, err}
use shiroyagi.Text.{Bytes, codes, ◌==◌, is_empty}
use shiroyagi.Text.Unicode.{Unicode}
use shiroyagi.Auth.Session.{UserSession}
use shiroyagi.MailAccount.Conn.{Conn}
use shiroyagi.MailAccount.Conn
use shiroyagi.MailAccount.Store
use shiroyagi.MailAccount.Store.{Detail}
use shiroyagi.Smtp.Message
use shiroyagi.Smtp.Send
use shiroyagi.Imap.Client
use shiroyagi.Imap.Reading
use shiroyagi.Imap.Reading.{GetError, get_message, mark_answered, mark_forwarded}
use shiroyagi.Http.Message.{Request, Response, not_found}
use shiroyagi.Http.Html.{Piece, markup, value, segment, number, verbatim}
use shiroyagi.Http.Compose.{reply_references}
use shiroyagi.Http.Compose.Pages.{compose_sent_page, render_compose_sent, render_message_form}
use shiroyagi.Http.Compose.Form.{
  ComposeForm, is_reply, requires_original, compose_mode_new, compose_mode_forward,
  parse_compose_message_form, sent_title, sent_noun, flag_warning,
}
use shiroyagi.Http.Password
use shiroyagi.Http.Server.{
  Env, State, html_page, internal_error, bad_request, imap_reader_account, smtp_sender_account,
  render_smtp_error, render_imap_error,
}

abbrev pub Handled : Type 0
Handled = Response × State

abbrev pub no_message : Reading.Message
no_message = record {
  uid = 0;
  subject = [];
  from = [];
  reply_to = [];
  to = [];
  cc = [];
  date = none;
  body = [];
  message_id = [];
  in_reply_to = [];
  references = [];
  answered = false;
  forwarded = false;
}

-- `Get` of the store, and what the handlers do with its three results.
abbrev pub with_account :
    State → Result Conn.Error (Option Detail) × Conn → (Detail → State → Handled) → Handled
with_account s (err e, c) next = (internal_error, record s { conn = c })
with_account s (ok none, c) next = (not_found, record s { conn = c })
with_account s (ok (some account), c) next = next account (record s { conn = c })

module _ (env : Env) ⦃u : Unicode⦄ where
  -- `GetMessage` on a new connection.
  unfoldable pub load : State → Client.Account → Bytes → ℕ → Result GetError Reading.Message × State
  unfolding get_message
  load s account mailbox uid =
      let got =
        get_message env.is_loopback (env.imap_server s.imap) env.mime (env.imap_reader s.imap)
          env.done account mailbox uid in
      (got.0, record s { imap = s.imap ++ got.1 })

  -- What is done with the original, or the response that ends the request.
  abbrev pub loaded :
      Detail
      → (Reading.Message → State → Handled)
      → Result GetError Reading.Message × State
      → Handled
  loaded account next (err e, s) = (
    render_imap_error account (codes "Could not load original message: " ++ env.get_error_text e),
    s,
  )
  loaded account next (ok original, s) = next original s

  abbrev pub load_from :
      Detail
      → Bytes
      → ℕ
      → (Reading.Message → State → Handled)
      → State
      → Result Password.Error Client.Account
      → Handled
  load_from account mailbox uid next s (err e) = (internal_error, s)
  load_from account mailbox uid next s (ok imap_account) =
      loaded account next (load s imap_account mailbox uid)

  unfoldable pub load_compose_original :
      Bytes → Detail → ComposeForm → State → (Reading.Message → State → Handled) → Handled
  unfolding imap_reader_account load render_imap_error
  load_compose_original user_id account form s next =
      if not (requires_original form.mode)
      then next no_message s
      else if not account.has_imap
      then (render_imap_error account (codes "IMAP account is not configured."), s)
      else load_from account form.mailbox form.uid next s (imap_reader_account env user_id account)

  -- The result of a mark, and the calls that were made.
  unfoldable pub warn :
      ComposeForm → State → Result GetError (Unit {0}) × List Client.Event → Bytes × State
  unfolding flag_warning
  warn form s (ok _, events) = ([], record s { imap = s.imap ++ events })
  warn form s (err e, events) = (flag_warning form.mode, record s { imap = s.imap ++ events })

  unfoldable pub mark : ComposeForm → State → Result Password.Error Client.Account → Bytes × State
  unfolding mark_answered mark_forwarded warn flag_warning
  mark form s (err e) = (flag_warning form.mode, s)
  mark form s (ok account) =
      if is_reply form.mode
      then warn form s (
          mark_answered env.is_loopback (env.imap_server s.imap) env.done account form.mailbox
            form.uid)
      else warn form s (
          mark_forwarded env.is_loopback (env.imap_server s.imap) env.done account form.mailbox
            form.uid)

  unfoldable pub apply_compose_side_effect : Bytes → Detail → ComposeForm → State → Bytes × State
  unfolding mark imap_reader_account
  apply_compose_side_effect user_id account form s =
      if not (requires_original form.mode)
      then ([], s)
      else mark form s (imap_reader_account env user_id account)

  -- The message without the headers of a reply.
  abbrev pub new_message : Detail → ComposeForm → Message.Message
  new_message account form = record {
    from = account.email_address;
    to = form.to;
    cc = form.cc;
    subject = form.subject;
    body = form.body;
    in_reply_to = [];
    references = [];
  }

  unfoldable pub message_for : Detail → ComposeForm → Reading.Message → Message.Message
  unfolding reply_references
  message_for account form original =
      if is_reply form.mode
      then record (new_message account form) {
        in_reply_to = original.message_id;
        references = reply_references original;
      }
      else new_message account form

  unfoldable pub after_send :
      Bytes
      → Detail
      → ComposeForm
      → Reading.Message
      → State
      → Result Send.SendError (Unit {0}) × Send.Log
      → Handled
  unfolding render_smtp_error apply_compose_side_effect render_compose_sent sent_noun
  after_send user_id account form original s (err e, log) = (
    render_smtp_error account
        (codes "Could not send " ++ (sent_noun form.mode ++ (codes ": " ++ env.send_error_text e))),
    record s { smtp = log },
  )
  after_send user_id account form original s (ok _, log) =
      let marked = apply_compose_side_effect user_id account form (record s { smtp = log }) in
      (render_compose_sent account original form marked.0, marked.1)

  unfoldable pub send_from :
      Bytes
      → Detail
      → ComposeForm
      → Reading.Message
      → State
      → Result Password.Error Send.Account
      → Handled
  unfolding Send.send after_send render_imap_error message_for ◌==◌
  send_from user_id account form original s (err e) = (internal_error, s)
  send_from user_id account form original s (ok smtp_account) =
      if is_reply form.mode && is_empty original.message_id
      then (
        render_imap_error account
            (codes "Could not prepare reply: original message has no Message-ID."),
        s,
      )
      else after_send user_id account form original s (
          Send.send env.smtp_accepts env.mail env.done smtp_account
            (message_for account form original) s.smtp)

  unfoldable pub send_form : Bytes → ComposeForm → Detail → State → Handled
  unfolding load_compose_original send_from smtp_sender_account render_smtp_error
  send_form user_id form account s =
      if not account.has_smtp
      then (render_smtp_error account (codes "SMTP account is not configured."), s)
      else load_compose_original user_id account form s λ original s'.
        send_from user_id account form original s' (smtp_sender_account env user_id account)

  unfoldable pub send_parsed : UserSession → Bytes → State → Option ComposeForm → Handled
  unfolding send_form Store.get
  send_parsed session id s none = (bad_request, s)
  send_parsed session id s (some form) =
      with_account s (Store.get session.subject id s.conn) (send_form session.subject form)

  unfoldable pub handle_send_message : UserSession → Request → State → Handled
  unfolding send_parsed parse_compose_message_form
  handle_send_message session r s =
      if not r.form_ok
      then (bad_request, s)
      else send_parsed session (r.path_value (codes "id")) s (parse_compose_message_form r)

abbrev pub new_message_form : ComposeForm
new_message_form = record {
  mode = compose_mode_new;
  mailbox = [];
  uid = 0;
  to = [];
  cc = [];
  subject = [];
  body = [];
}

unfoldable pub handle_new_message : UserSession → Request → State → Handled
unfolding Store.get render_smtp_error render_message_form
handle_new_message session r s =
    with_account s (Store.get session.subject (r.path_value (codes "id")) s.conn) λ account s'.
      if not account.has_smtp
      then (render_smtp_error account (codes "SMTP account is not configured."), s')
      else (render_message_form account new_message_form, s')
