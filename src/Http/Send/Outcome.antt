-- ===== src/Http/Send/Outcome.antt =====
-- What a request to send a message does: `handleSendMessage` of internal/http/smtp_send.go.
use shiroyagi.Base.{◌≡◌, false, ◌&&◌, some, List, [], ◌∷◌, ◌++◌}
use shiroyagi.Base.Result.{Result, ok}
use shiroyagi.Text.{Bytes, is_empty}
use shiroyagi.Text.Unicode.{Unicode}
use shiroyagi.MailAccount.Store
use shiroyagi.MailAccount.Store.{Detail, select_detail}
use shiroyagi.Smtp.Message.{message_recipients}
use shiroyagi.Smtp.Send
use shiroyagi.Smtp.Delivery.{opening, dialogue}
use shiroyagi.Imap.Client
use shiroyagi.Imap.Reading
use shiroyagi.Http.Message.{Request}
use shiroyagi.Http.Password
use shiroyagi.Http.Compose.Form.{ComposeForm, is_reply, parse_compose_message_form}
use shiroyagi.Http.Server.{Env, State, smtp_sender_account}
use shiroyagi.Http.Compose.Pages.{render_compose_sent}
use shiroyagi.Http.Send.{Handled, message_for}

-- The form was accepted, the account is the user's, the message of the form was handed over to its
-- recipients, and the answer is the page that says so. A reply answers a message with an identifier.
pub record Sent ⦃u : Unicode⦄ (env : Env) (user_id id : Bytes) (r : Request) (s : State)
    (h : Handled) : Type 0 where
  pub form : ComposeForm
  pub account : Detail
  pub original : Reading.Message
  pub smtp_account : Send.Account
  pub recipients : List Bytes
  pub warning : Bytes
  pub parsed : parse_compose_message_form r ≡ some form
  pub own : select_detail user_id id s.conn.db ≡ some account
  pub password : smtp_sender_account env user_id account ≡ ok smtp_account
  pub answers : (is_reply form.mode && is_empty original.message_id) ≡ false
  pub known : message_recipients env.mail (message_for env account form original) ≡ ok recipients
  pub delivered :
      h.1.smtp
      ≡ s.smtp
        ++ (opening smtp_account
            ++ (dialogue smtp_account (message_for env account form original) recipients
                ++ Send.close ∷ []))
  pub shown : h.0 ≡ render_compose_sent account original form warning

module _ (env : Env) ⦃u : Unicode⦄ where
  -- The calls of `Send` and what follows them.
  Delivers :
      Bytes
      → Detail
      → ComposeForm
      → Reading.Message
      → State
      → Result Password.Error Send.Account
      → Handled
      → Type 0
  Delivers user_id account form original s r h =
      (a : Send.Account) × (recipients : List Bytes) × (warning : Bytes) × (r ≡ ok a)
      × ((is_reply form.mode && is_empty original.message_id) ≡ false)
      × (message_recipients env.mail (message_for env account form original) ≡ ok recipients)
      × (h.1.smtp
          ≡ s.smtp
            ++ (opening a
                ++ (dialogue a (message_for env account form original) recipients
                    ++ Send.close ∷ [])))
      × (h.0 ≡ render_compose_sent account original form warning)
