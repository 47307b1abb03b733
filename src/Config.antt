-- ===== src/Config.antt =====
-- internal/config/config.go. The environment and the files are parameters.
pub mod Loaded
mod Tests
use shiroyagi.Base.{Bool, true, false, ◌||◌, not, Option, none, some, List, [], ◌∷◌, if◌then◌else◌}
use shiroyagi.Base.Int.{ℤ, pos, ltb_ℤ}
use shiroyagi.Base.Result.{Result, ok, err, ◌>>=◌}
use shiroyagi.Text.{Bytes, codes, is_empty, ◌==◌, to_lower, trim_space, parse_int}
use shiroyagi.Text.Unicode.{Unicode}

pub record DatabaseConfig : Type 0 where
  pub host : Bytes
  pub port : Bytes
  pub name : Bytes
  pub user : Bytes
  pub password : Bytes

-- The sections for IMAP and SMTP have one field each.
pub record Config : Type 0 where
  pub issuer : Bytes
  pub client_id : Bytes
  pub client_secret : Bytes
  pub redirect_uri : Bytes
  pub database : DatabaseConfig
  pub kek_file : Bytes
  pub kek_version : ℤ
  pub imap_allow_insecure_auth : Bool
  pub smtp_allow_insecure_auth : Bool

pub data Error : Type 0 where
  invalid_kek_version : Error
  missing : List Bytes → Error
  no_path unreadable empty_secret : Bytes → Error

-- The names of the variables without a value.
unfoldable pub absent : List (Bytes × Bytes) → List Bytes
absent [] = []
absent ((name, value) ∷ variables) =
    let rest = absent variables in if is_empty value then name ∷ rest else rest

abbrev pub required : Config → List (Bytes × Bytes)
required c =
    (codes "OIDC_ISSUER", c.issuer)
    ∷ (codes "OIDC_CLIENT_ID", c.client_id)
    ∷ (codes "OIDC_REDIRECT_URI", c.redirect_uri)
    ∷ (codes "DATABASE_HOST", c.database.host)
    ∷ (codes "DATABASE_PORT", c.database.port)
    ∷ (codes "DATABASE_NAME", c.database.name)
    ∷ (codes "DATABASE_USER", c.database.user)
    ∷ (codes "MAIL_ACCOUNT_KEK_FILE", c.kek_file)
    ∷ []

abbrev pub default_kek_version : ℤ
default_kek_version = pos 1

abbrev pub positive_version : Option ℤ → Result Error ℤ
positive_version none = err invalid_kek_version
positive_version (some version) =
    if not (ltb_ℤ (pos 0) version) then err invalid_kek_version else ok version

unfoldable pub read_kek_version : Bytes → Result Error ℤ
unfolding parse_int
read_kek_version value =
    if is_empty value then ok default_kek_version else positive_version (parse_int value 16)

abbrev pub if_complete : Config → List Bytes → Result Error Config
if_complete c [] = ok c
if_complete c (name ∷ names) = err (missing (name ∷ names))

module _ ⦃u : Unicode⦄ where
  unfoldable pub is_true : Bytes → Bool
  unfolding to_lower trim_space ◌==◌
  is_true text =
      let value = to_lower (trim_space text) in
      value == codes "1" || (value == codes "true" || (value == codes "yes" || value == codes "on"))

  abbrev pub secret_in : Bytes → Bytes → Result Error Bytes
  secret_in name secret = if is_empty secret then err (empty_secret name) else ok secret

  unfoldable pub trimmed_file : Bytes → Option Bytes → Result Error Bytes
  unfolding trim_space
  trimmed_file name none = err (unreadable name)
  trimmed_file name (some value) = secret_in name (trim_space value)

  unfoldable pub read_secret_file :
      (read_file : Bytes → Option Bytes) → Bytes → Bytes → Result Error Bytes
  unfolding trimmed_file
  read_secret_file read_file name path =
      if is_empty path then err (no_path name) else trimmed_file name (read_file path)

  module _ (getenv : Bytes → Bytes) (read_file : Bytes → Option Bytes) where
    -- What the environment says, without the secrets.
    unfoldable pub from_environment : ℤ → Config
    unfolding is_true
    from_environment version = record {
      issuer = getenv (codes "OIDC_ISSUER");
      client_id = getenv (codes "OIDC_CLIENT_ID");
      client_secret = [];
      redirect_uri = getenv (codes "OIDC_REDIRECT_URI");
      database = record {
        host = getenv (codes "DATABASE_HOST");
        port = getenv (codes "DATABASE_PORT");
        name = getenv (codes "DATABASE_NAME");
        user = getenv (codes "DATABASE_USER");
        password = [];
      };
      kek_file = getenv (codes "MAIL_ACCOUNT_KEK_FILE");
      kek_version = version;
      imap_allow_insecure_auth = is_true (getenv (codes "IMAP_ALLOW_INSECURE_AUTH"));
      smtp_allow_insecure_auth = is_true (getenv (codes "SMTP_ALLOW_INSECURE_AUTH"));
    }

    unfoldable pub secret : Bytes → Result Error Bytes
    unfolding read_secret_file
    secret name = read_secret_file read_file name (getenv name)

    abbrev pub with_secrets : Config → Bytes → Bytes → Config
    with_secrets c client_secret password = record c {
      client_secret = client_secret;
      database = record (c.database) { password = password };
    }

    unfoldable pub read_password : Config → Bytes → Result Error Config
    unfolding secret
    read_password c client_secret = secret (codes "DATABASE_PASSWORD_FILE") >>= λ password.
        ok (with_secrets c client_secret password)

    unfoldable pub read_secrets : Config → Result Error Config
    unfolding secret read_password
    read_secrets c = secret (codes "OIDC_CLIENT_SECRET_FILE") >>= read_password c

    -- What follows the version of the KEK.
    unfoldable pub load_with : ℤ → Result Error Config
    unfolding from_environment absent read_secrets
    load_with version =
        if_complete (from_environment version) (absent (required (from_environment version)))
        >>= read_secrets

    unfoldable pub load : Result Error Config
    unfolding read_kek_version load_with
    load = read_kek_version (getenv (codes "MAIL_ACCOUNT_KEK_VERSION")) >>= load_with
