-- ===== src/Http/Settings/Form.antt =====
-- The forms of internal/http/imap_account.go and smtp_account.go: `parseIMAPForm`, `parseSMTPForm`.
use shiroyagi.Base.{Bool, not, ◌||◌, Option, none, some, List, [], ◌∷◌, any, if◌then◌else◌}
use shiroyagi.Base.Int.{ℤ, pos, ltb_ℤ}
use shiroyagi.Text.{Bytes, codes, ◌==◌, is_empty, atoi}
use shiroyagi.Http.Message.{Request}

-- The two forms have the same fields.
pub record SettingsForm : Type 0 where
  pub host : Bytes
  pub port : ℤ
  pub security : Bytes
  pub username : Bytes
  pub password : Bytes

abbrev pub one_of : List Bytes → Bytes → Bool
one_of values value = any (λ v. value == v) values

abbrev pub is_complete : SettingsForm → Bool
is_complete f = not (
    is_empty f.host
    || (not (ltb_ℤ (pos 0) f.port) || (ltb_ℤ (pos 65535) f.port || is_empty f.username)))

abbrev pub checked : List Bytes → SettingsForm → Option SettingsForm
checked securities f =
    if not (one_of securities f.security) then none else if is_complete f then some f else none

abbrev pub with_port : List Bytes → SettingsForm → Option ℤ → Option SettingsForm
with_port securities f none = none
with_port securities f (some port) = checked securities (record f { port = port })

abbrev pub imap_securities : List Bytes
imap_securities = codes "imaps" ∷ codes "imap" ∷ []

abbrev pub smtp_securities : List Bytes
smtp_securities = codes "starttls" ∷ codes "smtps" ∷ codes "plain" ∷ []

unfoldable pub parse_imap_form : Request → Option SettingsForm
unfolding ◌==◌ atoi
parse_imap_form r =
    with_port imap_securities
      (record {
        host = r.form (codes "imap_host");
        port = pos 0;
        security = r.form (codes "imap_security");
        username = r.form (codes "imap_username");
        password = r.form (codes "imap_password");
      })
      (atoi (r.form (codes "imap_port")))

unfoldable pub parse_smtp_form : Request → Option SettingsForm
unfolding ◌==◌ atoi
parse_smtp_form r =
    with_port smtp_securities
      (record {
        host = r.form (codes "smtp_host");
        port = pos 0;
        security = r.form (codes "smtp_security");
        username = r.form (codes "smtp_username");
        password = r.form (codes "smtp_password");
      })
      (atoi (r.form (codes "smtp_port")))
