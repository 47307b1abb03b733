-- ===== src/Http/Routes/Sends.antt =====
-- Sending a message changes no table: internal/http/smtp_send.go.
use shiroyagi.Base.{
  ◌≡◌, refl, ◌∙◌, inl, inr, Bool, true, false, not, ◌&&◌, Bool-cases, Option, none, some, List,
  if◌then◌else◌,
}
use shiroyagi.Base.Result.{Result, ok, err}
use shiroyagi.Text.{Bytes, codes, is_empty}
use shiroyagi.Text.Unicode.{Unicode}
use shiroyagi.Auth.Session.{UserSession}
use shiroyagi.MailAccount.Store
use shiroyagi.MailAccount.Store.{Detail}
use shiroyagi.Smtp.Send
use shiroyagi.Imap.Client
use shiroyagi.Imap.Reading
use shiroyagi.Imap.Reading.{GetError}
use shiroyagi.Http.Message.{Request}
use shiroyagi.Http.Password
use shiroyagi.Http.Compose.Form.{
  ComposeForm, is_reply, requires_original, parse_compose_message_form,
}
use shiroyagi.Http.Server.{
  Env, State, smtp_sender_account, imap_reader_account, bad_request, render_smtp_error,
}
use shiroyagi.Http.Send.{
  Handled, load_compose_original, warn, mark, apply_compose_side_effect, after_send, send_from,
  send_form, send_parsed, handle_send_message,
}
use shiroyagi.Http.Routes.Steps.{Untouched, get-db, with_account-keeps, load_from-keeps}

abbrev SameDb : State → State → Type 0
SameDb s s' = s'.conn.db ≡ s.conn.db

pass : (a b c : State) → Untouched a b → SameDb b c → SameDb a c
pass a b c h e = e ∙ h.db

stay : (a b : State) → Untouched a b → SameDb a b
stay a b h = h.db

if-SameDb :
    (b : Bool) (s : State) (h k : Handled)
    → SameDb s h.1
    → SameDb s k.1
    → SameDb s (if b then h else k).1
if-SameDb true s h k p q = p
if-SameDb false s h k p q = q

module _ (env : Env) ⦃u : Unicode⦄ where
  warn-SameDb :
      (form : ComposeForm) (s : State) (marked : Result GetError (Unit {0}) × List Client.Event)
      → SameDb s (warn env form s marked).1
  unfolding warn
  warn-SameDb form s (ok t, events) = refl
  warn-SameDb form s (err e, events) = refl

  mark-SameDb :
      (form : ComposeForm) (s : State) (a : Result Password.Error Client.Account)
      → SameDb s (mark env form s a).1
  unfolding mark
  mark-SameDb form s (err e) = refl
  mark-SameDb form s (ok a) = elim (Bool-cases (is_reply form.mode)) [
    | inl reply ↦ rw reply (warn-SameDb form s _)
    | inr forward ↦ rw forward (warn-SameDb form s _)
  ]

  apply_compose_side_effect-SameDb :
      (user_id : Bytes) (account : Detail) (form : ComposeForm) (s : State)
      → SameDb s (apply_compose_side_effect env user_id account form s).1
  unfolding apply_compose_side_effect
  apply_compose_side_effect-SameDb user_id account form s =
      elim (Bool-cases (requires_original form.mode)) [
        | inl needed ↦ rw needed (mark-SameDb form s _)
        | inr new ↦ rw new refl
      ]

  after_send-SameDb :
      (user_id : Bytes) (account : Detail) (form : ComposeForm) (original : Reading.Message)
      (s : State) (sent : Result Send.SendError (Unit {0}) × Send.Log)
      → SameDb s (after_send env user_id account form original s sent).1
  unfolding after_send
  after_send-SameDb user_id account form original s (err e, log) = refl
  after_send-SameDb user_id account form original s (ok t, log) =
      apply_compose_side_effect-SameDb user_id account form (record s { smtp = log })

  send_from-SameDb :
      (user_id : Bytes) (account : Detail) (form : ComposeForm) (original : Reading.Message)
      (s : State) (a : Result Password.Error Send.Account)
      → SameDb s (send_from env user_id account form original s a).1
  unfolding send_from
  send_from-SameDb user_id account form original s (err e) = refl
  send_from-SameDb user_id account form original s (ok a) =
      elim (Bool-cases (is_reply form.mode && is_empty original.message_id)) [
        | inl missing ↦ rw missing refl
        | inr there ↦ rw there (after_send-SameDb user_id account form original s _)
      ]

  load_compose_original-SameDb :
      (user_id : Bytes) (account : Detail) (form : ComposeForm) (s : State)
      (next : Reading.Message → State → Handled)
      → ((o : Reading.Message) (s' : State) → SameDb s' (next o s').1)
      → SameDb s (load_compose_original env user_id account form s next).1
  unfolding load_compose_original
  load_compose_original-SameDb user_id account form s next k =
      elim (Bool-cases (requires_original form.mode)) [
        | inr new ↦ rw new (k _ s)
        | inl needed ↦ elim (Bool-cases account.has_imap) [
          | inr missing ↦ rw (needed, missing) refl
          | inl has ↦
              rw (needed, has)
                (load_from-keeps SameDb pass stay env account form.mailbox form.uid next s
                  (imap_reader_account env user_id account) k)
        ]
      ]

  send_form-SameDb :
      (user_id : Bytes) (form : ComposeForm) (account : Detail) (s : State)
      → SameDb s (send_form env user_id form account s).1
  unfolding send_form
  send_form-SameDb user_id form account s =
      if-SameDb (not account.has_smtp) s
        (render_smtp_error account (codes "SMTP account is not configured."), s)
        (load_compose_original env user_id account form s next) refl
        (load_compose_original-SameDb user_id account form s next (λ o s'.
          send_from-SameDb user_id account form o s' (smtp_sender_account env user_id account)))
    where
      next : Reading.Message → State → Handled
      next original s' =
          send_from env user_id account form original s' (smtp_sender_account env user_id account)

  send_parsed-SameDb :
      (session : UserSession) (id : Bytes) (s : State) (o : Option ComposeForm)
      → SameDb s (send_parsed env session id s o).1
  unfolding send_parsed
  send_parsed-SameDb session id s none = refl
  send_parsed-SameDb session id s (some form) =
      with_account-keeps SameDb pass stay s (Store.get session.subject id s.conn)
        (send_form env session.subject form) (get-db session.subject id s.conn)
        (λ a s'. send_form-SameDb session.subject form a s')

  pub handle_send_message-SameDb :
      (session : UserSession) (r : Request) (s : State)
      → (handle_send_message env session r s).1.conn.db ≡ s.conn.db
  unfolding handle_send_message
  handle_send_message-SameDb session r s =
      if-SameDb (not r.form_ok) s (bad_request, s) _ refl
        (send_parsed-SameDb session (r.path_value (codes "id")) s (parse_compose_message_form r))
