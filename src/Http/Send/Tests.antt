-- ===== src/Http/Send/Tests.antt =====
-- The theorems on composing and sending at concrete inputs.
use shiroyagi.Base.{[], if◌then◌else◌}
use shiroyagi.Text.{Bytes, codes, ◌==◌}
use shiroyagi.Http.Message.{Request}
use shiroyagi.Http.World.{env, session, state, request, at_account}
use shiroyagi.Http.Server.{State}
use shiroyagi.Http.Compose.Form.{ComposeForm}
use shiroyagi.Http.Settings.{handle_save_imap_account, handle_save_smtp_account}

abbrev message_field : Bytes → Bytes
message_field name =
    if name == codes "mode"
    then codes "reply"
    else if name == codes "mailbox"
    then codes "INBOX"
    else if name == codes "uid"
    then codes "7"
    else if name == codes "to"
    then codes "b@example.test"
    else if name == codes "cc"
    then []
    else codes "text"

abbrev send_request : Request
send_request = request at_account message_field

abbrev reply_form : ComposeForm
reply_form = record {
  mode = codes "reply";
  mailbox = codes "INBOX";
  uid = 7;
  to = codes "b@example.test";
  cc = [];
  subject = codes "text";
  body = codes "text";
}

-- The account with the settings of both protocols.
abbrev settings_field : Bytes → Bytes
settings_field name =
    if name == codes "imap_port"
    then codes "993"
    else if name == codes "smtp_port"
    then codes "587"
    else if name == codes "imap_security"
    then codes "imaps"
    else if name == codes "smtp_security"
    then codes "starttls"
    else codes "ada"

abbrev configured : State
configured =
    (handle_save_smtp_account env session (request at_account settings_field)
      (handle_save_imap_account env session (request at_account settings_field) state).1).1
