-- ===== src/Http/Routes/Serve.antt =====
-- What requests can do to what the server keeps: internal/http/server.go and session.go over the
-- handlers and the store.
use shiroyagi.Base.{
  ◌≡◌, ◌≢◌, refl, sym, ap, ◌∙◌, subst, inl, inr, true, Option, none, some, List, [], ◌∷◌,
}
use shiroyagi.Text.{Bytes}
use shiroyagi.Text.Unicode.{Unicode}
use shiroyagi.Dict
use shiroyagi.Auth.Session.{UserSession}
use shiroyagi.MailAccount.Schema.{MailAccountRow}
use shiroyagi.MailAccount.Isolation.{run_isolated}
use shiroyagi.MailAccount.Local.{SameAt, SameAt-refl}
use shiroyagi.Http.Message.{Request}
use shiroyagi.Http.Server.{Env, State}
use shiroyagi.Http.Reply.{reply_mode_reply, reply_mode_reply_all}
use shiroyagi.Http.Routes.{
  Route, index, list_mail_accounts, new_mail_account, new_message, mailbox, message, reply,
  reply_all, forward, edit_imap, edit_smtp, create_mail_account, delete_mail_account, send_message,
  save_imap, delete_imap, save_smtp, delete_smtp, is_get, handler, serve,
}
use shiroyagi.Http.Routes.Stored.{Stored, Served-IsServed}
use shiroyagi.Http.Routes.Stored.Methods.{run-Stored}
use shiroyagi.Http.Routes.Steps.{Untouched, Untouched-refl}
use shiroyagi.Http.Routes.Pages.{
  handle_mailbox-Untouched, handle_message-Untouched, handle_new_reply-Untouched,
  handle_new_forward_message-Untouched, handle_list_mail_accounts-Untouched,
  handle_new_message-Untouched, handle_edit_imap_account-Untouched,
  handle_edit_smtp_account-Untouched,
}
use shiroyagi.Http.Routes.Sends.{handle_send_message-SameDb}
use shiroyagi.Http.Routes.Writes.{
  Effect, stay, handle_save_imap_account-Effect, handle_save_smtp_account-Effect,
  handle_delete_imap_account-Effect, handle_delete_smtp_account-Effect,
}
use shiroyagi.Http.Routes.AccountWrites.{
  handle_create_mail_account-Effect, handle_delete_mail_account-Effect,
}

module _ (env : Env) ⦃u : Unicode⦄ where
  handler-Untouched :
      (route : Route) (session : UserSession) (r : Request) (s : State)
      → is_get route ≡ true
      → Untouched s (handler env route session r s).1
  unfolding handler
  handler-Untouched index session r s h = Untouched-refl s
  handler-Untouched list_mail_accounts session r s h =
      handle_list_mail_accounts-Untouched env session r s
  handler-Untouched new_mail_account session r s h = Untouched-refl s
  handler-Untouched new_message session r s h = handle_new_message-Untouched session r s
  handler-Untouched mailbox session r s h = handle_mailbox-Untouched env session r s
  handler-Untouched message session r s h = handle_message-Untouched env session r s
  handler-Untouched reply session r s h =
      handle_new_reply-Untouched env reply_mode_reply session r s
  handler-Untouched reply_all session r s h =
      handle_new_reply-Untouched env reply_mode_reply_all session r s
  handler-Untouched forward session r s h = handle_new_forward_message-Untouched env session r s
  handler-Untouched edit_imap session r s h = handle_edit_imap_account-Untouched session r s
  handler-Untouched edit_smtp session r s h = handle_edit_smtp_account-Untouched session r s
  handler-Untouched create_mail_account session r s h = absurd (cc)
  handler-Untouched delete_mail_account session r s h = absurd (cc)
  handler-Untouched send_message session r s h = absurd (cc)
  handler-Untouched save_imap session r s h = absurd (cc)
  handler-Untouched delete_imap session r s h = absurd (cc)
  handler-Untouched save_smtp session r s h = absurd (cc)
  handler-Untouched delete_smtp session r s h = absurd (cc)

  page :
      (route : Route) (session : UserSession) (r : Request) (s : State)
      → is_get route ≡ true
      → Effect env.now session.subject s (handler env route session r s).1
  page route session r s h =
      stay env.now session.subject s (handler env route session r s).1
        (handler-Untouched route session r s h)

  handler-Effect :
      (route : Route) (session : UserSession) (r : Request) (s : State)
      → Effect env.now session.subject s (handler env route session r s).1
  unfolding handler
  handler-Effect create_mail_account session r s = handle_create_mail_account-Effect env session r s
  handler-Effect delete_mail_account session r s =
      handle_delete_mail_account-Effect env.now session r s
  handler-Effect send_message session r s = inl (handle_send_message-SameDb env session r s)
  handler-Effect save_imap session r s = handle_save_imap_account-Effect env session r s
  handler-Effect delete_imap session r s = handle_delete_imap_account-Effect env session r s
  handler-Effect save_smtp session r s = handle_save_smtp_account-Effect env session r s
  handler-Effect delete_smtp session r s = handle_delete_smtp_account-Effect env session r s
  handler-Effect index session r s = page index session r s refl
  handler-Effect list_mail_accounts session r s = page list_mail_accounts session r s refl
  handler-Effect new_mail_account session r s = page new_mail_account session r s refl
  handler-Effect new_message session r s = page new_message session r s refl
  handler-Effect mailbox session r s = page mailbox session r s refl
  handler-Effect message session r s = page message session r s refl
  handler-Effect reply session r s = page reply session r s refl
  handler-Effect reply_all session r s = page reply_all session r s refl
  handler-Effect forward session r s = page forward session r s refl
  handler-Effect edit_imap session r s = page edit_imap session r s refl
  handler-Effect edit_smtp session r s = page edit_smtp session r s refl

  -- A GET request for one of the pages that the session guard protects, with or without a session,
  -- changes no table, draws no random bytes and sends nothing by SMTP, and among the IMAP calls that
  -- it makes there is none that opens a mailbox for writing or stores a flag.
  pub serve-Untouched :
      (route : Route) (session : Option UserSession) (r : Request) (s : State)
      → is_get route ≡ true
      → Untouched s (serve env route session r s).1
  unfolding serve
  serve-Untouched route none r s h = Untouched-refl s
  serve-Untouched route (some session) r s h = handler-Untouched route session r s h

  Effect-isolated :
      (user j : Bytes) (row : MailAccountRow) (s s' : State)
      → Dict.lookup j s.conn.db.mail_accounts ≡ some row
      → row.user_id ≢ user
      → Effect env.now user s s'
      → SameAt j s.conn.db s'.conn.db
  Effect-isolated user j row s s' e foreign (inl same) =
      subst (SameAt j s.conn.db) (sym same) (SameAt-refl j s.conn.db)
  Effect-isolated user j row s s' e foreign (inr (op, c, own, served, start, after)) =
      let isolated =
        run_isolated env.now op c j row (Served-IsServed op served)
          (ap (λ d. Dict.lookup j d.mail_accounts) start ∙ e) (λ same. foreign (same ∙ own)) in
      subst (λ d. SameAt j d s'.conn.db) start (subst (SameAt j c.db) (sym after) isolated)

  -- No request in the session of one user, whatever it asks for, changes an account of another user
  -- or the settings of that account.
  pub serve_isolated :
      (route : Route) (session : UserSession) (r : Request) (s : State) (j : Bytes)
      (row : MailAccountRow)
      → Dict.lookup j s.conn.db.mail_accounts ≡ some row
      → row.user_id ≢ session.subject
      → SameAt j s.conn.db (serve env route (some session) r s).1.conn.db
  unfolding serve
  serve_isolated route session r s j row e foreign =
      Effect-isolated session.subject j row s (handler env route session r s).1 e foreign
        (handler-Effect route session r s)

  Effect-Stored :
      (user : Bytes) (s s' : State)
      → Stored s.conn.db
      → Effect env.now user s s'
      → Stored s'.conn.db
  Effect-Stored user s s' w (inl same) = subst Stored (sym same) w
  Effect-Stored user s s' w (inr (op, c, own, served, start, after)) =
      subst Stored (sym after) (run-Stored env.now op c served (subst Stored (sym start) w))

  serve-Stored :
      (route : Route) (session : Option UserSession) (r : Request) (s : State)
      → Stored s.conn.db
      → Stored (serve env route session r s).1.conn.db
  unfolding serve
  serve-Stored route none r s w = w
  serve-Stored route (some session) r s w =
      Effect-Stored session.subject s (handler env route session r s).1 w
        (handler-Effect route session r s)

-- A request, with the session that it is in, and the world that answers it.
pub record Arrival : Type 0 where
  pub env : Env
  pub route : Route
  pub session : Option UserSession
  pub request : Request

module _ ⦃u : Unicode⦄ where
  -- The state after requests that are served one after the other.
  unfoldable pub serve_all : List Arrival → State → State
  unfolding serve
  serve_all [] s = s
  serve_all (a ∷ arrivals) s = serve_all arrivals (serve a.env a.route a.session a.request s).1

  -- However many requests are served, in whatever sessions and worlds, every account keeps an email
  -- address that is not empty, and every stored row of IMAP or SMTP settings a host and a username
  -- that are not empty, a port from 1 to 65535 and a security of its protocol, if the tables that the
  -- first request finds are so.
  pub serve_all-Stored :
      (arrivals : List Arrival) (s : State)
      → Stored s.conn.db
      → Stored (serve_all arrivals s).conn.db
  unfolding serve_all
  serve_all-Stored [] s w = w
  serve_all-Stored (a ∷ arrivals) s w =
      serve_all-Stored arrivals (serve a.env a.route a.session a.request s).1
        (serve-Stored a.env a.route a.session a.request s w)
