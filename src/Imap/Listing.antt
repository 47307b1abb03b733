-- ===== src/Imap/Listing.antt =====
-- `ListMessages`: which messages are fetched, and what is shown of them.
use shiroyagi.Base.{
  ℕ, ◌+◌, ◌-◌, ◌%◌, ◌^◌, Bool, true, Option, none, some, List, [], ◌∷◌, ◌++◌, map, ltb, same,
  reverse, if◌then◌else◌,
}
use shiroyagi.Base.Int.{ℤ}
use shiroyagi.Text.{Bytes, codes}
use shiroyagi.Text.Unicode.{Unicode}
use shiroyagi.Base.Result.{Result, ok, err, or_err, map_err, ◌>>=◌, ◌>>◌}
use shiroyagi.Imap.Client.{
  Event, select, fetch, logout, close, ConnectError, Envelope, has_flag, format_addresses,
}

abbrev pub default_limit : ℕ
default_limit = 100

abbrev pub answered_flag : Bytes
answered_flag = codes "\\Answered"

abbrev pub forwarded_flag : Bytes
forwarded_flag = codes "$Forwarded"

-- uint32
abbrev pub wrap : ℕ → ℕ
wrap n = n % 2 ^ 32

-- `limit` after the default, and the first sequence number of the range; the last is `messages`.
abbrev pub effective_limit : ℕ → ℕ
effective_limit limit = if same limit 0 then default_limit else limit

unfoldable pub range_start : ℕ → ℕ → ℕ
range_start messages limit =
    if ltb (effective_limit limit) messages
    then wrap (messages + 2 ^ 32 - effective_limit limit + 1)
    else 1

-- A message as the server answers it; a zero time is none.
pub record Fetched : Type 0 where
  pub uid : ℕ
  pub size : ℕ
  pub internal_date : Option ℤ
  pub flags : List Bytes
  pub envelope : Option Envelope

pub record MessageSummary : Type 0 where
  pub uid : ℕ
  pub subject : Bytes
  pub from : Bytes
  pub date : Option ℤ
  pub size : ℕ
  pub answered : Bool
  pub forwarded : Bool

pub data ListError : Type 0 where
  not_connected : ConnectError → ListError
  select_failed fetch_failed : ListError

abbrev pub or_else : Option ℤ → Option ℤ → Option ℤ
or_else none b = b
or_else (some t) b = some t

unfoldable pub with_envelope : Option Envelope → MessageSummary → MessageSummary
unfolding format_addresses
with_envelope none s = s
with_envelope (some e) s = record s {
  subject = e.subject;
  from = format_addresses e.from;
  date = or_else e.date s.date;
}

-- An open connection: `Select`, with the number of messages, and `Fetch` of a range of them.
pub record Mailboxes : Type 0 where
  pub select : Bytes → Option ℕ
  pub fetch : ℕ → ℕ → Option (List Fetched)

module _ ⦃u : Unicode⦄ where
  unfoldable pub summary : Fetched → MessageSummary
  unfolding has_flag
  summary f = with_envelope f.envelope (record {
    uid = f.uid;
    subject = [];
    from = [];
    date = f.internal_date;
    size = f.size;
    answered = has_flag f.flags answered_flag;
    forwarded = has_flag f.flags forwarded_flag;
  })

  unfoldable pub fetch_summaries : Mailboxes → ℕ → ℕ → Result ListError (List MessageSummary)
  unfolding range_start summary
  fetch_summaries server limit messages =
      if same messages 0
      then ok []
      else or_err (server.fetch (range_start messages limit) messages) fetch_failed
        >>= (λ fetched. ok (reverse (map summary fetched)))

  -- `connected` is the result of `connect`.
  unfoldable pub list_messages :
      Result ConnectError (Unit {0})
      → Mailboxes
      → Bytes
      → ℕ
      → Result ListError (List MessageSummary)
  unfolding fetch_summaries
  list_messages connected server mailbox limit = do
    map_err not_connected connected
    messages ← or_err (server.select mailbox) select_failed
    fetch_summaries server limit messages

  -- The calls of `ListMessages` on an open connection.
  unfoldable pub list_calls : Mailboxes → Bytes → ℕ → Option ℕ → List Event
  unfolding range_start
  list_calls server mailbox limit none = select mailbox true ∷ []
  list_calls server mailbox limit (some messages) =
      if same messages 0
      then select mailbox true ∷ []
      else select mailbox true ∷ fetch (range_start messages limit) messages ∷ []

  -- `ListMessages`, with all calls that it makes: those of `connect`, its own, and the deferred
  -- `Logout` and `Close`.
  unfoldable pub list_session :
      Result ConnectError (Unit {0}) × List Event
      → Mailboxes
      → Bytes
      → ℕ
      → Result ListError (List MessageSummary) × List Event
  unfolding list_messages list_calls
  list_session (err e, log) server mailbox limit = (list_messages (err e) server mailbox limit, log)
  list_session (ok t, log) server mailbox limit = (
    list_messages (ok t) server mailbox limit,
    log ++ (list_calls server mailbox limit (server.select mailbox) ++ (logout ∷ close ∷ [])),
  )
