-- ===== src/Http/Compose/Form.antt =====
-- The form of a message to send: `composeMode`, `composeMessageForm` and `parseComposeMessageForm`
-- of internal/http/smtp_send.go.
use shiroyagi.Base.{ℕ, Bool, not, ◌||◌, Option, none, some, same, [], if◌then◌else◌}
use shiroyagi.Text.{Bytes, codes, ◌==◌, is_empty, parse_uint}
use shiroyagi.Http.Message.{Request}

abbrev pub compose_mode_new : Bytes
compose_mode_new = codes "new"

abbrev pub compose_mode_reply : Bytes
compose_mode_reply = codes "reply"

abbrev pub compose_mode_reply_all : Bytes
compose_mode_reply_all = codes "reply-all"

abbrev pub compose_mode_forward : Bytes
compose_mode_forward = codes "forward"

pub record ComposeForm : Type 0 where
  pub mode : Bytes
  pub mailbox : Bytes
  pub uid : ℕ
  pub to : Bytes
  pub cc : Bytes
  pub subject : Bytes
  pub body : Bytes

abbrev pub is_reply : Bytes → Bool
is_reply mode = mode == compose_mode_reply || mode == compose_mode_reply_all

abbrev pub requires_original : Bytes → Bool
requires_original mode = is_reply mode || mode == compose_mode_forward

unfoldable pub valid_mode : Bytes → Bool
valid_mode mode = mode == compose_mode_new || requires_original mode

abbrev pub mode_or_new : Bytes → Bytes
mode_or_new mode = if is_empty mode then compose_mode_new else mode

-- The fields as they are posted, without the UID.
abbrev pub posted_form : Request → ComposeForm
posted_form r = record {
  mode = mode_or_new (r.form (codes "mode"));
  mailbox = r.form (codes "mailbox");
  uid = 0;
  to = r.form (codes "to");
  cc = r.form (codes "cc");
  subject = r.form (codes "subject");
  body = r.form (codes "body");
}

abbrev pub with_uid : ComposeForm → Option ℕ → Option ComposeForm
with_uid f none = none
with_uid f (some uid) =
    if same uid 0 || is_empty f.mailbox then none else some (record f { uid = uid })

unfoldable pub with_required_uid : Bytes → ComposeForm → Option ComposeForm
unfolding parse_uint
with_required_uid uid f =
    if requires_original f.mode then with_uid f (parse_uint uid 32) else some f

abbrev pub complete : Option ComposeForm → Option ComposeForm
complete none = none
complete (some f) =
    if is_empty f.to || (is_empty f.subject || is_empty f.body) then none else some f

unfoldable pub parse_compose_message_form : Request → Option ComposeForm
unfolding valid_mode with_required_uid ◌==◌
parse_compose_message_form r =
    if not (valid_mode (posted_form r).mode)
    then none
    else complete (with_required_uid (r.form (codes "uid")) (posted_form r))

unfoldable pub sent_title : Bytes → Bytes
sent_title mode =
    if is_reply mode
    then codes "Reply sent"
    else if mode == compose_mode_forward
    then codes "Forward sent"
    else codes "Message sent"

unfoldable pub sent_noun : Bytes → Bytes
sent_noun mode =
    if is_reply mode
    then codes "reply"
    else if mode == compose_mode_forward
    then codes "forward"
    else codes "message"

unfoldable pub flag_warning : Bytes → Bytes
flag_warning mode =
    if is_reply mode
    then codes "Reply sent, but the original message could not be marked as answered."
    else if mode == compose_mode_forward
    then codes "Forward sent, but the original message could not be marked as forwarded."
    else []
