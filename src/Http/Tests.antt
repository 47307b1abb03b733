-- ===== src/Http/Tests.antt =====
-- The theorems on the handlers at concrete inputs.
use shiroyagi.Base.{◌≡◌, refl, ◌↔◌, some, [], ◌∷◌, arith, if◌then◌else◌}
use shiroyagi.Base.Int.{pos}
use shiroyagi.Base.Result.{ok}
use shiroyagi.Text.{Bytes, codes, ◌==◌, atoi}
use shiroyagi.Dict
use shiroyagi.Crypto.Tests.{toy_laws, key}
use shiroyagi.MailAccount.Schema.{imap, smtp}
use shiroyagi.MailAccount.Store.{Detail, select_detail}
use shiroyagi.Http.Message.{Request, redirect}
use shiroyagi.Http.World.{env, session, row, state, stored, request, at_account}
use shiroyagi.Http.Server.{imap_reader_account, smtp_sender_account}
use shiroyagi.Http.Settings.{edit_path, handle_save_imap_account, handle_save_smtp_account}
use shiroyagi.Http.Settings.Form.{SettingsForm, parse_imap_form, parse_smtp_form}
use shiroyagi.Http.Settings.Saved.{Ready}
use shiroyagi.Http.Settings.Valid.{Valid, posted_imap, posted_smtp, parse_settings_form-Valid}
use shiroyagi.Http.Settings.Clients.{
  imap_account_of, smtp_account_of, handle_save_imap_account-imap_reader_account,
  handle_save_smtp_account-smtp_sender_account,
}

-- The forms of both protocols.
abbrev settings_field : Bytes → Bytes
settings_field name =
    if name == codes "imap_host"
    then codes "imap.example.test"
    else if name == codes "smtp_host"
    then codes "smtp.example.test"
    else if name == codes "imap_port"
    then codes "993"
    else if name == codes "smtp_port"
    then codes "587"
    else if name == codes "imap_security"
    then codes "imaps"
    else if name == codes "smtp_security"
    then codes "starttls"
    else codes "ada"

abbrev save_request : Request
save_request = request at_account settings_field

abbrev imap_form : SettingsForm
imap_form = record {
  host = codes "imap.example.test";
  port = pos 993;
  security = codes "imaps";
  username = codes "ada";
  password = codes "ada";
}

abbrev smtp_form : SettingsForm
smtp_form = record {
  host = codes "smtp.example.test";
  port = pos 587;
  security = codes "starttls";
  username = codes "ada";
  password = codes "ada";
}

imap_parsed : parse_imap_form save_request ≡ some imap_form
unfolding parse_imap_form atoi ◌==◌
imap_parsed = refl

smtp_parsed : parse_smtp_form save_request ≡ some smtp_form
unfolding parse_smtp_form atoi ◌==◌
smtp_parsed = refl

imap-Ready : Ready env toy_laws imap (codes "u1") (codes "a1") state
unfolding Dict.lookup Dict.empty
imap-Ready = record {
  row = row;
  kek = key;
  clean = refl;
  stored = stored;
  own = refl;
  has_kek = refl;
  kek_size = refl;
  enough = omega arith;
  opens = tt;
}

smtp-Ready : Ready env toy_laws smtp (codes "u1") (codes "a1") state
unfolding Dict.lookup Dict.empty
smtp-Ready = record {
  row = row;
  kek = key;
  clean = refl;
  stored = stored;
  own = refl;
  has_kek = refl;
  kek_size = refl;
  enough = omega arith;
  opens = tt;
}

handle_save_imap_account_example :
    ((handle_save_imap_account env session save_request state).0
      ≡ redirect (edit_path imap (save_request.path_value (codes "id"))) 303)
    × ((account : Detail) × (select_detail session.subject
            (save_request.path_value (codes "id"))
            (handle_save_imap_account env session save_request state).1.conn.db
          ≡ some account)
        × (imap_reader_account env session.subject account ≡ ok (imap_account_of env imap_form)))
unfolding ◌==◌
handle_save_imap_account_example =
    handle_save_imap_account-imap_reader_account env toy_laws session save_request imap_form state
      refl imap_parsed (λ e. cc) imap-Ready

handle_save_smtp_account_example :
    ((handle_save_smtp_account env session save_request state).0
      ≡ redirect (edit_path smtp (save_request.path_value (codes "id"))) 303)
    × ((account : Detail) × (select_detail session.subject
            (save_request.path_value (codes "id"))
            (handle_save_smtp_account env session save_request state).1.conn.db
          ≡ some account)
        × (smtp_sender_account env session.subject account ≡ ok (smtp_account_of env smtp_form)))
unfolding ◌==◌
handle_save_smtp_account_example =
    handle_save_smtp_account-smtp_sender_account env toy_laws session save_request smtp_form state
      refl smtp_parsed (λ e. cc) smtp-Ready

parse_settings_form-Valid_example :
    ((parse_imap_form save_request ≡ some imap_form)
      ↔ Valid
          (codes "imaps" ∷ codes "imap" ∷ [])
          (posted_imap save_request)
          (atoi (save_request.form (codes "imap_port")))
          imap_form)
    × ((parse_smtp_form save_request ≡ some imap_form)
        ↔ Valid
            (codes "starttls" ∷ codes "smtps" ∷ codes "plain" ∷ [])
            (posted_smtp save_request)
            (atoi (save_request.form (codes "smtp_port")))
            imap_form)
parse_settings_form-Valid_example = parse_settings_form-Valid save_request imap_form
