-- ===== src/Http/Settings/Valid.antt =====
-- Which forms of settings are accepted: `parseIMAPForm` and `parseSMTPForm` of
-- internal/http/imap_account.go and smtp_account.go.
use shiroyagi.Base.{
  ℕ, ◌≤◌, ◌≡◌, ◌≢◌, refl, ◌↔◌, true, false, Option, none, some, List, [], ◌∷◌, arith,
}
use shiroyagi.Base.Int.{ℤ, pos, negsuc}
use shiroyagi.Text.{Bytes, codes, is_empty, atoi}
use shiroyagi.Http.Message.{Request}
use shiroyagi.Http.Settings.Form.{
  SettingsForm, one_of, is_complete, checked, with_port, imap_securities, smtp_securities,
  parse_imap_form, parse_smtp_form,
}

-- A form whose port is a number of a TCP port, and whose texts are there.
pub record Valid (securities : List Bytes) (posted : SettingsForm) (port : Option ℤ)
    (f : SettingsForm) : Type 0 where
  pub number : ℕ
  pub read : port ≡ some (pos number)
  pub positive : 1 ≤ number
  pub small : number ≤ 65535
  pub host : posted.host ≢ []
  pub username : posted.username ≢ []
  pub security : one_of securities posted.security ≡ true
  pub form : f ≡ record posted { port = pos number }

is_empty_iff : (s : Bytes) → (is_empty s ≡ false) ↔ (s ≢ [])
is_empty_iff [] = (λ h e. cc, λ h. absurd (h refl))
is_empty_iff (c ∷ s) = (λ h e. cc, λ h. refl)

complete_iff :
    (posted : SettingsForm) (n : ℕ)
    → (is_complete (record posted { port = pos n }) ≡ true) ↔ (
        (is_empty posted.host ≡ false) × (1 ≤ n) × (n ≤ 65535) × (is_empty posted.username ≡ false))
complete_iff posted n = ground arith

checked_iff :
    (securities : List Bytes) (g f : SettingsForm)
    → (checked securities g ≡ some f)
      ↔ ((one_of securities g.security ≡ true) × (is_complete g ≡ true) × (f ≡ g))
checked_iff securities g f = ground arith

with_port-Valid :
    (securities : List Bytes) (posted f : SettingsForm) (port : Option ℤ)
    → with_port securities posted port ≡ some f
    → Valid securities posted port f
with_port-Valid securities posted f none h = absurd (cc)
with_port-Valid securities posted f (some (negsuc n)) h =
    let (_, whole, _) = (checked_iff securities (record posted { port = negsuc n }) f).0 h in
    absurd (ground arith)
with_port-Valid securities posted f (some (pos n)) h =
    let (allowed, whole, e) = (checked_iff securities (record posted { port = pos n }) f).0 h in
    let (host, low, high, user) = (complete_iff posted n).0 whole in
    record {
      number = n;
      read = refl;
      positive = low;
      small = high;
      host = (is_empty_iff posted.host).0 host;
      username = (is_empty_iff posted.username).0 user;
      security = allowed;
      form = e;
    }

Valid-with_port :
    (securities : List Bytes) (posted f : SettingsForm) (port : Option ℤ)
    → Valid securities posted port f
    → with_port securities posted port ≡ some f
Valid-with_port securities posted f port v =
    let whole = (complete_iff posted v.number).1 (
      (is_empty_iff posted.host).1 v.host,
      v.positive,
      v.small,
      (is_empty_iff posted.username).1 v.username,
    ) in
    rw v.read (
      (checked_iff securities (record posted { port = pos v.number }) f).1
        (v.security, whole, v.form))

-- The texts of the form, without a port.
abbrev pub posted_imap : Request → SettingsForm
posted_imap r = record {
  host = r.form (codes "imap_host");
  port = pos 0;
  security = r.form (codes "imap_security");
  username = r.form (codes "imap_username");
  password = r.form (codes "imap_password");
}

abbrev pub posted_smtp : Request → SettingsForm
posted_smtp r = record {
  host = r.form (codes "smtp_host");
  port = pos 0;
  security = r.form (codes "smtp_security");
  username = r.form (codes "smtp_username");
  password = r.form (codes "smtp_password");
}

-- The forms of settings that are accepted are those with a host, a username, a security of the
-- protocol's list and a port that reads as a number from 1 to 65535, and what is accepted is what
-- was posted, with that number as the port. This holds of the form of IMAP settings and of that of
-- SMTP settings.
pub parse_settings_form-Valid :
    (r : Request) (f : SettingsForm)
    → ((parse_imap_form r ≡ some f)
        ↔ Valid
            (codes "imaps" ∷ codes "imap" ∷ [])
            (posted_imap r)
            (atoi (r.form (codes "imap_port")))
            f)
      × ((parse_smtp_form r ≡ some f)
          ↔ Valid
              (codes "starttls" ∷ codes "smtps" ∷ codes "plain" ∷ [])
              (posted_smtp r)
              (atoi (r.form (codes "smtp_port")))
              f)
unfolding parse_imap_form parse_smtp_form
parse_settings_form-Valid r f = (
  (
    with_port-Valid imap_securities (posted_imap r) f _,
    Valid-with_port imap_securities (posted_imap r) f _,
  ),
  (
    with_port-Valid smtp_securities (posted_smtp r) f _,
    Valid-with_port smtp_securities (posted_smtp r) f _,
  ),
)
