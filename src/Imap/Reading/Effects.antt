-- ===== src/Imap/Reading/Effects.antt =====
-- What the calls of internal/imap/client.go change on the server.
use shiroyagi.Base.{
  ℕ, ◌≡◌, refl, Bool, true, false, not, ◌||◌, Bool-cases, inl, inr, List, [], ◌∷◌, ◌++◌, any, arith,
}
use shiroyagi.Base.Result.{Result, ok, err}
use shiroyagi.Text.{Bytes}
use shiroyagi.Text.Unicode.{Unicode}
use shiroyagi.Imap.Client.{
  Account, Event, select, uid_store, logout, close, Server, ConnectError, connect, connect_tls,
  connect_plain,
}
use shiroyagi.Imap.Mime.{Mime}
use shiroyagi.Imap.Reading.{Reader, GetError, get_message, fetch_calls, in_session}

-- A call that may change a message: a mailbox is opened for writing, or a flag is stored.
abbrev pub is_write : Event → Bool
is_write (select mailbox read_only) = not read_only
is_write (uid_store uid flag) = true
is_write _ = false

pub any-append {ℓ} :
    {A : Type ℓ} (p : A → Bool) (xs ys : List A) → any p (xs ++ ys) ≡ any p xs || any p ys
any-append p [] ys = refl
any-append p (x ∷ xs) ys = ground (arith, any-append p xs ys)

in_session-quiet :
    {A : Type 0} (c : Result ConnectError (Unit {0}) × List Event)
    (calls : Result GetError A × List Event)
    → any is_write c.1 ≡ false
    → any is_write calls.1 ≡ false
    → any is_write (in_session c calls).1 ≡ false
in_session-quiet (err e, log) calls h k = h
in_session-quiet (ok t, log) (r, events) h k = ground (
  arith,
  any-append is_write log (events ++ (logout ∷ close ∷ [])),
  any-append is_write events (logout ∷ close ∷ []),
)

module _ ⦃u : Unicode⦄ (is_loopback : Bytes → Bool) (server : Server) where
  connect_tls-quiet : any is_write (connect_tls is_loopback server).1 ≡ false
  connect_tls-quiet = ground arith

  connect_plain-quiet : any is_write (connect_plain is_loopback server).1 ≡ false
  connect_plain-quiet = ground arith

  pub connect-quiet :
      (done : Bool) (a : Account) → any is_write (connect is_loopback server done a).1 ≡ false
  unfolding connect
  connect-quiet true a = refl
  connect-quiet false a = ground (arith, connect_tls-quiet, connect_plain-quiet)

  fetch_calls-quiet :
      (mime : Mime) (reader : Reader) (mailbox : Bytes) (uid : ℕ)
      → any is_write (fetch_calls is_loopback server mime reader mailbox uid).1 ≡ false
  unfolding fetch_calls
  fetch_calls-quiet mime reader mailbox uid =
      elim (Bool-cases (server.accepts (select mailbox true))) [
        | inl opened ↦ rw opened refl
        | inr refused ↦ rw refused refl
      ]

  -- Reading a message changes nothing on the IMAP server: the mailbox is never opened for writing,
  -- and no flag is stored, whatever fails.
  pub get_message-quiet :
      (mime : Mime) (reader : Reader) (done : Bool) (a : Account) (mailbox : Bytes) (uid : ℕ)
      → any is_write (get_message is_loopback server mime reader done a mailbox uid).1 ≡ false
  unfolding get_message
  get_message-quiet mime reader done a mailbox uid =
      in_session-quiet (connect is_loopback server done a) _ (connect-quiet done a)
        (fetch_calls-quiet mime reader mailbox uid)
