-- ===== src/Http/Compose/Valid.antt =====
-- Which forms of a message are accepted: `parseComposeMessageForm` of internal/http/smtp_send.go.
use shiroyagi.Base.{◌<◌, ◌^◌, ◌≡◌, ◌≢◌, true, []}
use shiroyagi.Http.Compose.Form.{ComposeForm, requires_original, valid_mode}

-- A form that can be sent: it has a known mode, a recipient, a subject and a body, and for a mode
-- that needs the original message a mailbox and an identifier that IMAP allows.
pub record Sendable (f : ComposeForm) : Type 0 where
  pub mode : valid_mode f.mode ≡ true
  pub to : f.to ≢ []
  pub subject : f.subject ≢ []
  pub body : f.body ≢ []
  pub mailbox : requires_original f.mode ≡ true → f.mailbox ≢ []
  pub positive : requires_original f.mode ≡ true → f.uid ≢ 0
  pub small : f.uid < 2 ^ 32

-- what the UID of a form is, with its mode
abbrev Identified : ComposeForm → Type 0
Identified f = (requires_original f.mode ≡ true → (f.mailbox ≢ []) × (f.uid ≢ 0)) × (f.uid < 2 ^ 32)
