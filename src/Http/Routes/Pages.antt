-- ===== src/Http/Routes/Pages.antt =====
-- The handlers that show a page change nothing: mailbox.go, smtp_reply.go, smtp_forward.go,
-- smtp_send.go, mail_account.go, imap_account.go and smtp_account.go of internal/http.
use shiroyagi.Base.{
  ℕ, ◌≡◌, refl, inl, inr, Bool, true, false, not, Bool-cases, Option, none, some, List, [], ◌∷◌,
  ◌++◌, any, same, arith, if◌then◌else◌,
}
use shiroyagi.Base.Result.{Result, ok, err}
use shiroyagi.Text.{Bytes, codes, is_empty}
use shiroyagi.Text.Unicode.{Unicode}
use shiroyagi.Auth.Session.{UserSession}
use shiroyagi.MailAccount.Conn.{Conn, statement, later, fails_now}
use shiroyagi.MailAccount.Conn
use shiroyagi.MailAccount.Store
use shiroyagi.MailAccount.Store.{Detail}
use shiroyagi.MailAccount.Summaries.{Summary, list_summaries}
use shiroyagi.Imap.Client
use shiroyagi.Imap.Client.{Event, select, fetch, logout, close, ConnectError}
use shiroyagi.Imap.Listing.{Mailboxes, MessageSummary, ListError, list_session, list_calls}
use shiroyagi.Imap.Reading
use shiroyagi.Imap.Reading.{GetError}
use shiroyagi.Imap.Reading.Effects.{is_write, any-append, connect-quiet}
use shiroyagi.Http.Message.{Request}
use shiroyagi.Http.Password
use shiroyagi.Http.Server.{Env, State}
use shiroyagi.Http.Send.{Handled, with_account, load, handle_new_message}
use shiroyagi.Http.Mailbox.{
  listed_page, list_from, handle_mailbox, mailbox_message_limit, shown_message, message_from,
  message_at, handle_message, path_uid, is_missing,
}
use shiroyagi.Http.Reply.{
  ReplyMode, original_at, load_context, handle_new_reply, handle_new_forward_message,
}
use shiroyagi.Http.Accounts.{listed, handle_list_mail_accounts}
use shiroyagi.Http.Settings.Edit.{handle_edit_imap_account, handle_edit_smtp_account}
use shiroyagi.Http.Routes.Steps.{
  Untouched, Untouched-refl, Untouched-trans, conn-Untouched, imap-Untouched, get-db,
  with_account-keeps, load-Untouched, load_from-keeps,
}

with_account-Untouched :
    (user_id id : Bytes) (s : State) (next : Detail → State → Handled)
    → ((a : Detail) (s' : State) → Untouched s' (next a s').1)
    → Untouched s (with_account s (Store.get user_id id s.conn) next).1
with_account-Untouched user_id id s next k =
    with_account-keeps Untouched (λ a b c h k. Untouched-trans h k) (λ a b h. h) s
      (Store.get user_id id s.conn) next (get-db user_id id s.conn) k

-- The two answers to an account, one of which shows it as it is.
if-Untouched :
    (b : Bool) (s : State) (h k : Handled)
    → Untouched s h.1
    → Untouched s k.1
    → Untouched s (if b then h else k).1
if-Untouched true s h k p q = p
if-Untouched false s h k p q = q

list_summaries-db :
    (before : Bytes → Bytes → Bool) (user_id : Bytes) (c : Conn)
    → (list_summaries before user_id c).1.db ≡ c.db
unfolding list_summaries statement
list_summaries-db before user_id c = elim (Bool-cases (fails_now c.faults)) [
  | inl failed ↦ rw failed refl
  | inr fine ↦ rw fine refl
]

listed-Untouched :
    (s : State) (got : Result Conn.Error (List Summary) × Conn)
    → got.1.db ≡ s.conn.db
    → Untouched s (listed s got).1
listed-Untouched s (err e, c) h = conn-Untouched s c h
listed-Untouched s (ok accounts, c) h = conn-Untouched s c h

module _ (env : Env) ⦃u : Unicode⦄ where
  list_calls-quiet :
      (server : Mailboxes) (mailbox : Bytes) (limit : ℕ) (o : Option ℕ)
      → any is_write (list_calls server mailbox limit o) ≡ false
  unfolding list_calls
  list_calls-quiet server mailbox limit none = refl
  list_calls-quiet server mailbox limit (some n) = elim (Bool-cases (same n 0)) [
    | inl empty ↦ rw empty refl
    | inr more ↦ rw more refl
  ]

  list_session-quiet :
      (connected : Result ConnectError (Unit {0}) × List Event) (server : Mailboxes)
      (mailbox : Bytes) (limit : ℕ)
      → any is_write connected.1 ≡ false
      → any is_write (list_session connected server mailbox limit).1 ≡ false
  unfolding list_session
  list_session-quiet (err e, log) server mailbox limit h = h
  list_session-quiet (ok t, log) server mailbox limit h = ground (
    arith,
    any-append is_write log
        (list_calls server mailbox limit (server.select mailbox) ++ (logout ∷ close ∷ [])),
    any-append is_write (list_calls server mailbox limit (server.select mailbox))
        (logout ∷ close ∷ []),
    list_calls-quiet server mailbox limit (server.select mailbox),
  )

  listed_page-Untouched :
      (account : Detail) (mailbox : Bytes) (s : State)
      (got : Result ListError (List MessageSummary) × List Event)
      → any is_write got.1 ≡ false
      → Untouched s (listed_page env account mailbox s got).1
  unfolding listed_page
  listed_page-Untouched account mailbox s (err e, events) h = imap-Untouched s events h
  listed_page-Untouched account mailbox s (ok messages, events) h = imap-Untouched s events h

  list_from-Untouched :
      (account : Detail) (mailbox : Bytes) (s : State) (a : Result Password.Error Client.Account)
      → Untouched s (list_from env account mailbox s a).1
  unfolding list_from
  list_from-Untouched account mailbox s (err e) = Untouched-refl s
  list_from-Untouched account mailbox s (ok a) = listed_page-Untouched account mailbox s _ (
      list_session-quiet (Client.connect env.is_loopback (env.imap_server s.imap) env.done a)
        (env.imap_mailboxes s.imap) mailbox mailbox_message_limit
        (connect-quiet env.is_loopback (env.imap_server s.imap) env.done a))

  pub handle_mailbox-Untouched :
      (session : UserSession) (r : Request) (s : State)
      → Untouched s (handle_mailbox env session r s).1
  unfolding handle_mailbox
  handle_mailbox-Untouched session r s =
      if-Untouched (is_empty (r.path_value (codes "mailbox"))) s _ _ (Untouched-refl s) (
        with_account-Untouched session.subject (r.path_value (codes "id")) s _ (λ a s'.
          if-Untouched (not a.has_imap) s' _ _ (Untouched-refl s') (list_from-Untouched a _ s' _)))

  shown_message-Untouched :
      (account : Detail) (mailbox : Bytes) (s : State)
      (got : Result GetError Reading.Message × State)
      → Untouched s got.1
      → Untouched s (shown_message env account mailbox got).1
  unfolding shown_message
  shown_message-Untouched account mailbox s (err e, s') h =
      if-Untouched (is_missing env e) s _ _ h h
  shown_message-Untouched account mailbox s (ok message, s') h = h

  message_from-Untouched :
      (account : Detail) (mailbox : Bytes) (uid : ℕ) (s : State)
      (a : Result Password.Error Client.Account)
      → Untouched s (message_from env account mailbox uid s a).1
  unfolding message_from
  message_from-Untouched account mailbox uid s (err e) = Untouched-refl s
  message_from-Untouched account mailbox uid s (ok a) =
      shown_message-Untouched account mailbox s (load env s a mailbox uid)
        (load-Untouched env s a mailbox uid)

  message_at-Untouched :
      (session : UserSession) (r : Request) (s : State) (uid : Option ℕ)
      → Untouched s (message_at env session r s uid).1
  unfolding message_at
  message_at-Untouched session r s none = Untouched-refl s
  message_at-Untouched session r s (some uid) =
      with_account-Untouched session.subject (r.path_value (codes "id")) s _ (λ a s'.
        if-Untouched (not a.has_imap) s' _ _ (Untouched-refl s')
          (message_from-Untouched a _ uid s' _))

  pub handle_message-Untouched :
      (session : UserSession) (r : Request) (s : State)
      → Untouched s (handle_message env session r s).1
  unfolding handle_message
  handle_message-Untouched session r s =
      if-Untouched (is_empty (r.path_value (codes "mailbox"))) s _ _ (Untouched-refl s)
        (message_at-Untouched session r s (path_uid r))

  original_at-Untouched :
      (session : UserSession) (r : Request) (s : State)
      (next : Detail → Reading.Message → State → Handled) (uid : Option ℕ)
      → ((a : Detail) (o : Reading.Message) (s' : State) → Untouched s' (next a o s').1)
      → Untouched s (original_at env session r s next uid).1
  unfolding original_at
  original_at-Untouched session r s next none k = Untouched-refl s
  original_at-Untouched session r s next (some uid) k =
      with_account-Untouched session.subject (r.path_value (codes "id")) s _ (λ a s'.
        if-Untouched (not a.has_imap) s' _ _ (Untouched-refl s') (
          if-Untouched (not a.has_smtp) s' _ _ (Untouched-refl s') (
            load_from-keeps Untouched (λ a b c h k. Untouched-trans h k) (λ a b h. h) env a _ uid
              (next a) s' _ (k a))))

  load_context-Untouched :
      (session : UserSession) (r : Request) (s : State)
      (next : Detail → Reading.Message → State → Handled)
      → ((a : Detail) (o : Reading.Message) (s' : State) → Untouched s' (next a o s').1)
      → Untouched s (load_context env session r s next).1
  unfolding load_context
  load_context-Untouched session r s next k =
      if-Untouched (is_empty (r.path_value (codes "mailbox"))) s _ _ (Untouched-refl s)
        (original_at-Untouched session r s next (path_uid r) k)

  pub handle_new_reply-Untouched :
      (mode : ReplyMode) (session : UserSession) (r : Request) (s : State)
      → Untouched s (handle_new_reply env mode session r s).1
  unfolding handle_new_reply
  handle_new_reply-Untouched mode session r s =
      load_context-Untouched session r s _ (λ a o s'. Untouched-refl s')

  pub handle_new_forward_message-Untouched :
      (session : UserSession) (r : Request) (s : State)
      → Untouched s (handle_new_forward_message env session r s).1
  unfolding handle_new_forward_message
  handle_new_forward_message-Untouched session r s =
      load_context-Untouched session r s _ (λ a o s'. Untouched-refl s')

  pub handle_list_mail_accounts-Untouched :
      (session : UserSession) (r : Request) (s : State)
      → Untouched s (handle_list_mail_accounts env session r s).1
  unfolding handle_list_mail_accounts
  handle_list_mail_accounts-Untouched session r s =
      listed-Untouched s _ (list_summaries-db env.collates session.subject s.conn)

pub handle_new_message-Untouched :
    (session : UserSession) (r : Request) (s : State)
    → Untouched s (handle_new_message session r s).1
unfolding handle_new_message
handle_new_message-Untouched session r s =
    with_account-Untouched session.subject (r.path_value (codes "id")) s _
      (λ a s'. if-Untouched (not a.has_smtp) s' _ _ (Untouched-refl s') (Untouched-refl s'))

pub handle_edit_imap_account-Untouched :
    (session : UserSession) (r : Request) (s : State)
    → Untouched s (handle_edit_imap_account session r s).1
unfolding handle_edit_imap_account
handle_edit_imap_account-Untouched session r s =
    with_account-Untouched session.subject (r.path_value (codes "id")) s _
      (λ a s'. Untouched-refl s')

pub handle_edit_smtp_account-Untouched :
    (session : UserSession) (r : Request) (s : State)
    → Untouched s (handle_edit_smtp_account session r s).1
unfolding handle_edit_smtp_account
handle_edit_smtp_account-Untouched session r s =
    with_account-Untouched session.subject (r.path_value (codes "id")) s _
      (λ a s'. Untouched-refl s')
