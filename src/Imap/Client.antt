-- ===== src/Imap/Client.antt =====
-- The account, the messages and the address formatting of internal/imap/client.go, and the checks
-- of `connect`. `Ip` stands for net.ParseIP with IsLoopback.
use shiroyagi.Base.{
  ℕ, Bool, not, ◌&&◌, ◌||◌, Option, none, some, List, [], ◌∷◌, ◌++◌, any, if◌then◌else◌,
}
use shiroyagi.Base.Int.{ℤ}
use shiroyagi.Base.Result.{Result, ok, err}
use shiroyagi.Text.{
  Bytes, codes, ◌==◌, is_empty, equal_fold, to_lower, trim_space, trim_suffix, join,
}
use shiroyagi.Text.Unicode.{Unicode}

pub record Account : Type 0 where
  pub host : Bytes
  pub port : ℤ
  pub security : Bytes
  pub username : Bytes
  pub password : Bytes
  pub allow_insecure_auth : Bool

-- An address of an envelope; `address` is "mailbox@host", as `Address()` of go-imap says.
pub record Address : Type 0 where
  pub personal_name : Bytes
  pub mailbox_name : Bytes
  pub host_name : Bytes

-- The envelope of a message; a zero time is none.
pub record Envelope : Type 0 where
  pub date : Option ℤ
  pub subject : Bytes
  pub from : List (Option Address)
  pub reply_to : List (Option Address)
  pub to : List (Option Address)
  pub cc : List (Option Address)
  pub in_reply_to : Bytes
  pub message_id : Bytes

abbrev pub email_of : Address → Bytes
email_of a = a.mailbox_name ++ (b'@' ∷ a.host_name)

-- A nil pointer is none.
unfoldable pub format_address : Option Address → Bytes
format_address none = []
format_address (some a) =
    if is_empty a.mailbox_name || is_empty a.host_name
    then []
    else if not (is_empty a.personal_name) && not (is_empty (email_of a))
    then a.personal_name ++ (codes " <" ++ (email_of a ++ codes ">"))
    else if not (is_empty (email_of a))
    then email_of a
    else if not (is_empty a.personal_name)
    then a.personal_name
    else []

abbrev pub formatted : List (Option Address) → List Bytes
unfolding format_address
formatted [] = []
formatted (a ∷ as') =
    let rest = formatted as' in
    if is_empty (format_address a) then rest else format_address a ∷ rest

unfoldable pub format_addresses : List (Option Address) → Bytes
unfolding formatted join
format_addresses addresses = join (formatted addresses) (codes ", ")

unfoldable pub first_address : List (Option Address) → Bytes
unfolding format_address
first_address [] = []
first_address (a ∷ as') = format_address a

module _ ⦃u : Unicode⦄ where
  unfoldable pub has_flag : List Bytes → Bytes → Bool
  unfolding equal_fold
  has_flag flags want = any (λ flag. equal_fold flag want) flags

  -- The test of `isLocalhost`, with `is_loopback` for `ip != nil && ip.IsLoopback()`.
  unfoldable pub is_localhost : (Bytes → Bool) → Bytes → Bool
  unfolding to_lower trim_space trim_suffix ◌==◌
  is_localhost is_loopback host =
      let normalized = trim_suffix (to_lower (trim_space host)) b'.' in
      normalized == codes "localhost" || is_loopback normalized

-- What the server is asked for, in order.
pub data Event : Type 0 where
  dial_tls dial greet login : Event
  select : (mailbox : Bytes) (read_only : Bool) → Event
  fetch : (start stop : ℕ) → Event
  uid_fetch : ℕ → Event
  uid_store : (uid : ℕ) (flag : Bytes) → Event
  logout close : Event

pub data ConnectError : Type 0 where
  cancelled insecure_auth unsupported_security connect_failed login_failed : ConnectError

-- Whether a step succeeds. `NewClient` waits for the greeting.
pub record Server : Type 0 where
  pub accepts : Event → Bool

module _ ⦃u : Unicode⦄ (is_loopback : Bytes → Bool) (server : Server) where
  abbrev pub log_in : List Event → Result ConnectError (Unit {0}) × List Event
  log_in log =
      if server.accepts login
      then (ok tt, log ++ login ∷ [])
      else (err login_failed, log ++ login ∷ close ∷ [])

  abbrev pub connect_tls : Result ConnectError (Unit {0}) × List Event
  connect_tls =
      if server.accepts dial_tls
      then log_in (dial_tls ∷ [])
      else (err connect_failed, dial_tls ∷ [])

  abbrev pub connect_plain : Result ConnectError (Unit {0}) × List Event
  connect_plain =
      if not (server.accepts dial)
      then (err connect_failed, dial ∷ [])
      else if not (server.accepts greet)
      then (err connect_failed, dial ∷ greet ∷ [])
      else log_in (dial ∷ greet ∷ [])

  -- The result, and the steps that were made. `done` says that the context is cancelled.
  unfoldable pub connect : Bool → Account → Result ConnectError (Unit {0}) × List Event
  unfolding is_localhost ◌==◌
  connect done account =
      if done
      then (err cancelled, [])
      else if account.security == codes "imaps"
      then connect_tls
      else if account.security == codes "imap"
      then (if not account.allow_insecure_auth && not (is_localhost is_loopback account.host)
          then (err insecure_auth, [])
          else connect_plain)
      else (err unsupported_security, [])
