-- ===== src/Http/Routes/Steps.antt =====
-- What the steps that the handlers share change: `with_account` and `load_from`.
use shiroyagi.Base.{
  ℕ, ◌≡◌, refl, sym, ap, ◌∙◌, inl, inr, false, Bool-cases, Option, none, some, List, [], ◌++◌, any,
  arith, append-nil, append_assoc,
}
use shiroyagi.Base.Result.{Result, ok, err}
use shiroyagi.Text.{Bytes}
use shiroyagi.Text.Unicode.{Unicode}
use shiroyagi.MailAccount.Conn.{Conn, statement, later, fails_now}
use shiroyagi.MailAccount.Conn
use shiroyagi.MailAccount.Store
use shiroyagi.MailAccount.Store.{Detail}
use shiroyagi.Imap.Client
use shiroyagi.Imap.Client.{Event}
use shiroyagi.Imap.Reading
use shiroyagi.Imap.Reading.{GetError}
use shiroyagi.Imap.Reading.Effects.{is_write, any-append, get_message-quiet}
use shiroyagi.Http.Password
use shiroyagi.Http.Server.{Env, State}
use shiroyagi.Http.Send.{Handled, with_account, load, loaded, load_from}

-- The database, the random source and the SMTP servers are as they were, and the calls of IMAP that
-- were made opened no mailbox for writing and stored no flag.
pub record Untouched (s s' : State) : Type 0 where
  pub db : s'.conn.db ≡ s.conn.db
  pub random : s'.random ≡ s.random
  pub smtp : s'.smtp ≡ s.smtp
  pub calls : List Event
  pub imap : s'.imap ≡ s.imap ++ calls
  pub quiet : any is_write calls ≡ false

pub Untouched-refl : (s : State) → Untouched s s
Untouched-refl s = record {
  db = refl;
  random = refl;
  smtp = refl;
  calls = [];
  imap = sym (append-nil s.imap);
  quiet = refl;
}

pub Untouched-trans : {a b c : State} → Untouched a b → Untouched b c → Untouched a c
Untouched-trans {a} h k = record {
  db = k.db ∙ h.db;
  random = k.random ∙ h.random;
  smtp = k.smtp ∙ h.smtp;
  calls = h.calls ++ k.calls;
  imap = k.imap ∙ ap (λ l. l ++ k.calls) h.imap ∙ append_assoc a.imap h.calls k.calls;
  quiet = ground (arith, any-append is_write h.calls k.calls, h.quiet, k.quiet);
}

pub conn-Untouched : (s : State) (c : Conn) → c.db ≡ s.conn.db → Untouched s (record s { conn = c })
conn-Untouched s c h = record {
  db = h;
  random = refl;
  smtp = refl;
  calls = [];
  imap = sym (append-nil s.imap);
  quiet = refl;
}

pub imap-Untouched :
    (s : State) (events : List Event)
    → any is_write events ≡ false
    → Untouched s (record s { imap = s.imap ++ events })
imap-Untouched s events h = record {
  db = refl;
  random = refl;
  smtp = refl;
  calls = events;
  imap = refl;
  quiet = h;
}

pub get-db : (user_id id : Bytes) (c : Conn) → (Store.get user_id id c).1.db ≡ c.db
unfolding Store.get statement
get-db user_id id c = elim (Bool-cases (fails_now c.faults)) [
  | inl failed ↦ rw failed refl
  | inr fine ↦ rw fine refl
]

module _ (env : Env) ⦃u : Unicode⦄ where
  pub load-Untouched :
      (s : State) (account : Client.Account) (mailbox : Bytes) (uid : ℕ)
      → Untouched s (load env s account mailbox uid).1
  unfolding load
  load-Untouched s account mailbox uid = imap-Untouched s _ (
      get_message-quiet env.is_loopback (env.imap_server s.imap) env.mime (env.imap_reader s.imap)
        env.done account mailbox uid)

-- A handler that goes on after steps that change nothing has the property that the rest of it has.
-- `P` holds of the states before and after.
module _ (P : State → State → Type 0) (pass : (a b c : State) → Untouched a b → P b c → P a c)
    (stay : (a b : State) → Untouched a b → P a b) where
  pub with_account-keeps :
      (s : State) (got : Result Conn.Error (Option Detail) × Conn) (next : Detail → State → Handled)
      → got.1.db ≡ s.conn.db
      → ((a : Detail) (s' : State) → P s' (next a s').1)
      → P s (with_account s got next).1
  with_account-keeps s (err e, c) next h k = stay _ _ (conn-Untouched s c h)
  with_account-keeps s (ok none, c) next h k = stay _ _ (conn-Untouched s c h)
  with_account-keeps s (ok (some a), c) next h k =
      pass _ _ _ (conn-Untouched s c h) (k a (record s { conn = c }))

  module _ (env : Env) ⦃u : Unicode⦄ where
    loaded-keeps :
        (s : State) (account : Detail) (next : Reading.Message → State → Handled)
        (got : Result GetError Reading.Message × State)
        → Untouched s got.1
        → ((o : Reading.Message) (s' : State) → P s' (next o s').1)
        → P s (loaded env account next got).1
    loaded-keeps s account next (err e, s') h k = stay _ _ h
    loaded-keeps s account next (ok o, s') h k = pass _ _ _ h (k o s')

    pub load_from-keeps :
        (account : Detail) (mailbox : Bytes) (uid : ℕ) (next : Reading.Message → State → Handled)
        (s : State) (a : Result Password.Error Client.Account)
        → ((o : Reading.Message) (s' : State) → P s' (next o s').1)
        → P s (load_from env account mailbox uid next s a).1
    load_from-keeps account mailbox uid next s (err e) k = stay _ _ (Untouched-refl s)
    load_from-keeps account mailbox uid next s (ok a) k =
        loaded-keeps s account next (load env s a mailbox uid) (load-Untouched env s a mailbox uid)
          k
