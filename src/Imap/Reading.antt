-- ===== src/Imap/Reading.antt =====
-- `GetMessage`, `MarkAnswered` and `MarkForwarded` of internal/imap/client.go: one connection each.
pub mod Effects
use shiroyagi.Base.{ℕ, Bool, true, false, Option, none, some, List, [], ◌∷◌, ◌++◌, if◌then◌else◌}
use shiroyagi.Base.Int.{ℤ}
use shiroyagi.Base.Result.{Result, ok, err, or_err, map_err, ◌>>=◌}
use shiroyagi.Text.{Bytes, codes, is_empty}
use shiroyagi.Text.Unicode.{Unicode}
use shiroyagi.Imap.Client.{
  Account, Envelope, Event, select, uid_fetch, uid_store, logout, close, Server, ConnectError,
  connect, has_flag, format_addresses, first_address,
}
use shiroyagi.Imap.Listing.{answered_flag, forwarded_flag}
use shiroyagi.Imap.Mime.{Header, Mime, MimeError, bad_message, extract_text_body}

pub record Message : Type 0 where
  pub uid : ℕ
  pub subject : Bytes
  pub from : Bytes
  pub reply_to : Bytes
  pub to : Bytes
  pub cc : Bytes
  pub date : Option ℤ
  pub body : Bytes
  pub message_id : Bytes
  pub in_reply_to : Bytes
  pub references : Bytes
  pub answered : Bool
  pub forwarded : Bool

-- The answer to `UidFetch`. `section` is none where the message has no body section, and holds none
-- where reading it fails.
pub record FetchedMessage : Type 0 where
  pub uid : ℕ
  pub flags : List Bytes
  pub envelope : Option Envelope
  pub section : Option (Option Bytes)

-- `UidFetch` of one message in an open mailbox; none is an error.
abbrev pub Reader : Type 0
Reader = Bytes → ℕ → Option (List FetchedMessage)

pub data GetError : Type 0 where
  not_connected : ConnectError → GetError
  select_failed fetch_failed message_not_found empty_body read_failed : GetError
  bad_body : MimeError → GetError
  bad_headers store_failed : GetError

abbrev pub or_value : Bytes → Bytes → Bytes
or_value value other = if is_empty value then other else value

unfoldable pub with_envelope : Option Envelope → Message → Message
unfolding format_addresses first_address
with_envelope none m = m
with_envelope (some e) m = record m {
  subject = e.subject;
  from = format_addresses e.from;
  reply_to = first_address e.reply_to;
  to = format_addresses e.to;
  cc = format_addresses e.cc;
  date = e.date;
  message_id = e.message_id;
  in_reply_to = or_value m.in_reply_to e.in_reply_to;
}

abbrev pub with_message_id : Bytes → Message → Message
with_message_id id m = record m { message_id = or_value m.message_id id }

abbrev pub first_message : List FetchedMessage → Result GetError FetchedMessage
first_message [] = err message_not_found
first_message (f ∷ fs) = ok f

module _ (mime : Mime) ⦃u : Unicode⦄ where
  unfoldable pub extract_headers : Bytes → Result MimeError Header
  extract_headers raw = or_err (mime.read_message raw) bad_message >>= λ m. ok (m.0)

  unfoldable pub message_of : FetchedMessage → Bytes → Header → Message
  unfolding has_flag with_envelope
  message_of f body headers = with_message_id (headers (codes "Message-ID")) (
      with_envelope f.envelope (record {
        uid = f.uid;
        subject = [];
        from = [];
        reply_to = [];
        to = [];
        cc = [];
        date = none;
        body = body;
        message_id = [];
        in_reply_to = headers (codes "In-Reply-To");
        references = headers (codes "References");
        answered = has_flag f.flags answered_flag;
        forwarded = has_flag f.flags forwarded_flag;
      }))

  -- After the fetch.
  unfoldable pub read_message : Option (List FetchedMessage) → Result GetError Message
  unfolding extract_text_body extract_headers message_of
  read_message fetched = do
    messages ← or_err fetched fetch_failed
    f ← first_message messages
    section ← or_err f.section empty_body
    raw ← or_err section read_failed
    body ← map_err bad_body (extract_text_body mime raw)
    headers ← map_err (λ e. bad_headers) (extract_headers raw)
    ok (message_of f body headers)

-- The calls that follow a successful `connect`, and the deferred `Logout` and `Close`.
abbrev pub in_session :
    {A : Type 0}
    → Result ConnectError (Unit {0}) × List Event
    → Result GetError A × List Event
    → Result GetError A × List Event
in_session (err e, log) calls = (err (not_connected e), log)
in_session (ok _, log) (r, events) = (r, log ++ (events ++ (logout ∷ close ∷ [])))

module _ ⦃u : Unicode⦄ (is_loopback : Bytes → Bool) (server : Server) where
  unfoldable pub fetch_calls : Mime → Reader → Bytes → ℕ → Result GetError Message × List Event
  unfolding read_message
  fetch_calls mime reader mailbox uid =
      if server.accepts (select mailbox true)
      then (read_message mime (reader mailbox uid), select mailbox true ∷ uid_fetch uid ∷ [])
      else (err select_failed, select mailbox true ∷ [])

  unfoldable pub get_message :
      Mime → Reader → Bool → Account → Bytes → ℕ → Result GetError Message × List Event
  unfolding connect fetch_calls
  get_message mime reader done account mailbox uid =
      in_session (connect is_loopback server done account) (fetch_calls mime reader mailbox uid)

  abbrev pub store_calls : Bytes → ℕ → Bytes → Result GetError (Unit {0}) × List Event
  store_calls mailbox uid flag =
      if server.accepts (select mailbox false)
      then (if server.accepts (uid_store uid flag)
          then (ok tt, select mailbox false ∷ uid_store uid flag ∷ [])
          else (err store_failed, select mailbox false ∷ uid_store uid flag ∷ []))
      else (err select_failed, select mailbox false ∷ [])

  unfoldable pub mark_message_flag :
      Bool → Account → Bytes → ℕ → Bytes → Result GetError (Unit {0}) × List Event
  unfolding connect
  mark_message_flag done account mailbox uid flag =
      in_session (connect is_loopback server done account) (store_calls mailbox uid flag)

  unfoldable pub mark_answered :
      Bool → Account → Bytes → ℕ → Result GetError (Unit {0}) × List Event
  unfolding mark_message_flag
  mark_answered done account mailbox uid = mark_message_flag done account mailbox uid answered_flag

  unfoldable pub mark_forwarded :
      Bool → Account → Bytes → ℕ → Result GetError (Unit {0}) × List Event
  unfolding mark_message_flag
  mark_forwarded done account mailbox uid =
      mark_message_flag done account mailbox uid forwarded_flag
