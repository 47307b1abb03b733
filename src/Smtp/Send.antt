-- ===== src/Smtp/Send.antt =====
-- `Send`, `connect` and `smtpAuth` of internal/smtp/client.go. The parameter `accepts` says whether
-- a call of net, crypto/tls or net/smtp succeeds after the calls before it.
use shiroyagi.Base.{Bool, true, false, not, ◌&&◌, ◌||◌, List, [], ◌∷◌, ◌++◌, if◌then◌else◌}
use shiroyagi.Base.Int.{ℤ}
use shiroyagi.Base.Result.{Result, ok, err}
use shiroyagi.Base.Exec.{Exec, pure, lift, map_err, ◌>>=◌, ◌>>◌}
use shiroyagi.Base.Result
use shiroyagi.Text.{Bytes, codes, ◌==◌, is_empty}
use shiroyagi.Smtp.Message.{
  AddressParser, Message, MessageError, validate_message, message_recipients, build_message,
}

pub record Account : Type 0 where
  pub host : Bytes
  pub port : ℤ
  pub security : Bytes
  pub username : Bytes
  pub password : Bytes
  pub allow_insecure_auth : Bool

-- `insecurePlainAuth` sends the password without asking whether the connection is encrypted;
-- `stdsmtp.PlainAuth` refuses to on a connection that is neither encrypted nor to localhost.
pub data Auth : Type 0 where
  insecure_plain_auth : (username password : Bytes) → Auth
  plain_auth : (username password host : Bytes) → Auth

-- The calls, in the order of the program. `has_starttls` asks for the extension.
pub data Event : Type 0 where
  dial dial_tls greet has_starttls start_tls : Event
  authenticate : Auth → Event
  mail_from : Bytes → Event
  rcpt_to : Bytes → Event
  begin_data : Event
  write_data : Bytes → Event
  end_data quit close : Event

-- The field `Op` of the error, with the cause where the program makes it.
pub data SendError : Type 0 where
  invalid_message : MessageError → SendError
  cancelled connect_failed starttls_failed unsupported_security : SendError
  username_required password_required authenticate_failed sender_failed : SendError
  invalid_recipients : MessageError → SendError
  recipient_failed data_failed write_failed finish_failed quit_failed : SendError

abbrev pub Log : Type 0
Log = List Event

abbrev pub Call : Type 0
Call = Exec Log SendError (Unit {0})

unfoldable pub smtp_auth : Account → Auth
smtp_auth a =
    if a.security == codes "plain" && a.allow_insecure_auth
    then insecure_plain_auth a.username a.password
    else plain_auth a.username a.password a.host

module _ (accepts : Log → Event → Bool) where
  -- A call that is followed by the calls `cleanup` where it fails.
  unfoldable pub call_or : Event → SendError → List Event → Call
  call_or e x cleanup log =
      if accepts log e then (ok tt, log ++ e ∷ []) else (err x, log ++ e ∷ cleanup)

  abbrev pub call : Event → SendError → Call
  unfolding call_or
  call e x = call_or e x []

  unfoldable pub start_tls_if : Bool → Call
  unfolding call_or
  start_tls_if false = pure tt
  start_tls_if true = do
    call_or has_starttls starttls_failed (close ∷ [])
    call_or start_tls starttls_failed (close ∷ [])

  unfoldable pub connect : Bool → Account → Call
  unfolding call_or start_tls_if ◌==◌
  connect done a =
      if done
      then lift (err cancelled)
      else if a.security == codes "smtps"
      then (do call dial_tls connect_failed; call_or greet connect_failed (close ∷ []))
      else if a.security == codes "plain" || a.security == codes "starttls"
      then (do
        call dial connect_failed
        call_or greet connect_failed (close ∷ [])
        start_tls_if (a.security == codes "starttls"))
      else lift (err unsupported_security)

  unfoldable pub rcpt_each : List Bytes → Call
  unfolding call_or
  rcpt_each [] = pure tt
  rcpt_each (r ∷ rs) = do call (rcpt_to r) recipient_failed; rcpt_each rs

  unfoldable pub transmit : Message → List Bytes → Call
  unfolding call_or rcpt_each build_message
  transmit m recipients = do
    rcpt_each recipients
    call begin_data data_failed
    call_or (write_data (build_message m)) write_failed (end_data ∷ [])
    call end_data finish_failed
    call quit quit_failed

  module _ (mail : AddressParser) where
    unfoldable pub deliver : Account → Message → Call
    unfolding call_or transmit smtp_auth message_recipients
    deliver a m = do
      lift (Result.guard (not (is_empty a.username)) username_required)
      lift (Result.guard (not (is_empty a.password)) password_required)
      call (authenticate (smtp_auth a)) authenticate_failed
      call (mail_from m.from) sender_failed
      recipients ← map_err invalid_recipients (lift (message_recipients mail m))
      transmit m recipients

    -- `defer client.Close()`
    abbrev pub and_close : Call → Call
    and_close k log = ((k log).0, (k log).1 ++ close ∷ [])

    unfoldable pub send : Bool → Account → Message → Call
    unfolding connect deliver validate_message
    send done a m = do
      map_err invalid_message (lift (validate_message mail m))
      connect done a
      and_close (deliver a m)
