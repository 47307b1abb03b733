-- ===== src/Http/Routes.antt =====
-- `Routes` of internal/http/server.go: which handler answers which pattern. The patterns of the
-- signing in and out, whose handlers work on the sessions, and of the health check are not here.
pub mod Steps
pub mod Pages
pub mod Writes
pub mod AccountWrites
pub mod Sends
pub mod Serve
pub mod Stored
mod Tests
use shiroyagi.Base.{ℕ, Bool, true, false, Option, none, some, List, [], ◌∷◌}
use shiroyagi.Text.{Bytes, codes}
use shiroyagi.Text.Unicode.{Unicode}
use shiroyagi.Auth.Session.{UserSession}
use shiroyagi.Http.Message.{Request, redirect}
use shiroyagi.Http.Auth.{guarded}
use shiroyagi.Http.Server.{Env, State}
use shiroyagi.Http.Send.{Handled, handle_new_message, handle_send_message}
use shiroyagi.Http.Mailbox.{handle_mailbox, handle_message}
use shiroyagi.Http.Reply.{
  handle_new_reply, reply_mode_reply, reply_mode_reply_all, handle_new_forward_message,
}
use shiroyagi.Http.Accounts.{
  handle_index, handle_list_mail_accounts, handle_new_mail_account, handle_create_mail_account,
  handle_delete_mail_account,
}
use shiroyagi.Http.Settings.{
  handle_save_imap_account, handle_delete_imap_account, handle_save_smtp_account,
  handle_delete_smtp_account,
}
use shiroyagi.Http.Settings.Edit.{handle_edit_imap_account, handle_edit_smtp_account}

pub data Route : Type 0 where
  index list_mail_accounts new_mail_account new_message mailbox message reply reply_all forward
        edit_imap edit_smtp :
      Route
  create_mail_account delete_mail_account send_message save_imap delete_imap save_smtp delete_smtp :
      Route

-- The patterns that begin with GET; the others begin with POST.
abbrev pub is_get : Route → Bool
is_get create_mail_account = false
is_get delete_mail_account = false
is_get send_message = false
is_get save_imap = false
is_get delete_imap = false
is_get save_smtp = false
is_get delete_smtp = false
is_get _ = true

module _ (env : Env) ⦃u : Unicode⦄ where
  unfoldable pub handler : Route → UserSession → Request → State → Handled
  unfolding handle_index handle_list_mail_accounts handle_new_mail_account
      handle_create_mail_account handle_delete_mail_account handle_new_message handle_send_message
      handle_mailbox handle_message handle_new_reply handle_new_forward_message
      handle_edit_imap_account handle_save_imap_account handle_delete_imap_account
      handle_edit_smtp_account handle_save_smtp_account handle_delete_smtp_account
  handler index = handle_index
  handler list_mail_accounts = handle_list_mail_accounts env
  handler new_mail_account = handle_new_mail_account
  handler create_mail_account = handle_create_mail_account env
  handler delete_mail_account = handle_delete_mail_account
  handler new_message = handle_new_message
  handler send_message = handle_send_message env
  handler mailbox = handle_mailbox env
  handler message = handle_message env
  handler reply = handle_new_reply env reply_mode_reply
  handler reply_all = handle_new_reply env reply_mode_reply_all
  handler forward = handle_new_forward_message env
  handler edit_imap = handle_edit_imap_account
  handler save_imap = handle_save_imap_account env
  handler delete_imap = handle_delete_imap_account env
  handler edit_smtp = handle_edit_smtp_account
  handler save_smtp = handle_save_smtp_account env
  handler delete_smtp = handle_delete_smtp_account env

  -- `requireSession` around each handler, with the session that the request has.
  unfoldable pub serve : Route → Option UserSession → Request → State → Handled
  unfolding handler
  serve route session r s =
      guarded (redirect (codes "/signin") 302, s) (λ session'. handler route session' r s) session
