-- ===== src/Http/Send/Steps.antt =====
-- The steps of a request to send a message that change nothing: internal/http/smtp_send.go.
use shiroyagi.Base.{
  ℕ, ◌≡◌, ◌≢◌, refl, ap, ◌∙◌, ◌⊎◌, inl, inr, Bool, true, false, ◌||◌, Bool-cases, Option, none,
  some, any, arith,
}
use shiroyagi.Base.Result.{Result, ok, err}
use shiroyagi.Text.{Bytes}
use shiroyagi.Text.Unicode.{Unicode}
use shiroyagi.MailAccount.Conn.{Conn, statement, later, fails_now}
use shiroyagi.MailAccount.Conn
use shiroyagi.MailAccount.Store
use shiroyagi.MailAccount.Store.{Detail, select_detail}
use shiroyagi.Imap.Client
use shiroyagi.Imap.Reading
use shiroyagi.Imap.Reading.{GetError}
use shiroyagi.Imap.Reading.Effects.{is_write, any-append, get_message-quiet}
use shiroyagi.Http.Password
use shiroyagi.Http.Compose.Form.{ComposeForm, requires_original}
use shiroyagi.Http.Server.{Env, State, imap_reader_account}
use shiroyagi.Http.Send.{Handled, with_account, load, loaded, load_from, load_compose_original}

-- The answer is no success, and no flag was stored.
abbrev pub Quiet : State → Handled → Type 0
Quiet s h = (h.0.status ≢ 200) × (any is_write h.1.imap ≡ any is_write s.imap)

-- What was there before the request is there still, but for calls that change nothing.
abbrev pub Kept : State → State → Type 0
Kept s s' = (s'.smtp ≡ s.smtp) × (any is_write s'.imap ≡ any is_write s.imap)

-- A step of the handler ends the request quietly, or goes on.
abbrev pub Step : {A : Type 0} → State → Handled → (A → State → Handled) → (A → Type 0) → Type 0
Step {A} s h next P = Quiet s h ⊎ ((a : A) × (s' : State) × P a × (h ≡ next a s') × Kept s s')

pub get-reads :
    (user_id id : Bytes) (c : Conn) (o : Option Detail)
    → (Store.get user_id id c).0 ≡ ok o
    → select_detail user_id id c.db ≡ o
unfolding Store.get statement
get-reads user_id id c o h = elim (Bool-cases (fails_now c.faults)) [
  | inl failed ↦ absurd (ground arith)
  | inr fine ↦ ground arith
]

pub account_step :
    (s : State) (user_id id : Bytes) (got : Result Conn.Error (Option Detail) × Conn)
    (next : Detail → State → Handled)
    → ((o : Option Detail) → got.0 ≡ ok o → select_detail user_id id s.conn.db ≡ o)
    → Step s (with_account s got next) next (λ a. select_detail user_id id s.conn.db ≡ some a)
account_step s user_id id (err e, c) next h = inl (λ e. omega arith, refl)
account_step s user_id id (ok none, c) next h = inl (λ e. omega arith, refl)
account_step s user_id id (ok (some account), c) next h =
    inr (account, record s { conn = c }, h (some account) refl, refl, (refl, refl))

module _ (env : Env) ⦃u : Unicode⦄ where
  pub load-quiet :
      (s : State) (account : Client.Account) (mailbox : Bytes) (uid : ℕ)
      → any is_write (load env s account mailbox uid).1.imap ≡ any is_write s.imap
  unfolding load
  load-quiet s account mailbox uid =
      any-append is_write s.imap _
      ∙ ap (λ b. any is_write s.imap || b)
          (get_message-quiet env.is_loopback (env.imap_server s.imap) env.mime
            (env.imap_reader s.imap) env.done account mailbox uid)
      ∙ or_false _
    where
      or_false : (b : Bool) → (b || false) ≡ b
      or_false true = refl
      or_false false = refl

  pub original_step :
      (user_id : Bytes) (account : Detail) (form : ComposeForm) (s : State)
      (next : Reading.Message → State → Handled)
      → Step s (load_compose_original env user_id account form s next) next (λ o. Unit {0})
  unfolding load_compose_original load
  original_step user_id account form s next = elim (Bool-cases (requires_original form.mode)) [
    | inr new ↦ rw new (inr (_, s, tt, refl, (refl, refl)))
    | inl needed ↦ elim (Bool-cases account.has_imap) [
      | inr missing ↦ rw (needed, missing) (inl (λ x. omega arith, refl))
      | inl has ↦ rw (needed, has) (from_account (imap_reader_account env user_id account))
    ]
  ]
    where
      after_load :
          (got : Result GetError Reading.Message × State)
          → any is_write got.1.imap ≡ any is_write s.imap
          → got.1.smtp ≡ s.smtp
          → Step s (loaded env account next got) next (λ o. Unit {0})
      after_load (err e, s') q k = inl (λ x. omega arith, q)
      after_load (ok original, s') q k = inr (original, s', tt, refl, (k, q))

      from_account :
          (a : Result Password.Error Client.Account)
          → Step s (load_from env account form.mailbox form.uid next s a) next (λ o. Unit {0})
      from_account (err e) = inl (λ e. omega arith, refl)
      from_account (ok a) =
          after_load (load env s a form.mailbox form.uid) (load-quiet s a form.mailbox form.uid)
            refl
