-- ===== src/Config/Loaded.antt =====
-- What a configuration that `Load` of internal/config/config.go returns holds.
use shiroyagi.Base.{
  ℕ, ◌≤◌, ◌<◌, ◌^◌, ◌≡◌, ◌≢◌, refl, ap, ◌∙◌, subst, zero, suc, false, Option, none, some, List, [],
  ◌∷◌, arith,
}
use shiroyagi.Base.Int.{ℤ, pos, negsuc}
use shiroyagi.Base.Result.{Result, ok, err, ◌>>=◌}
use shiroyagi.Text.{Bytes, codes, is_empty, trim_space, parse_int, parse_int-small}
use shiroyagi.Text.Unicode.{Unicode}
use shiroyagi.Config

-- Every variable of a list has a value.
abbrev AllSet : List (Bytes × Bytes) → Type 0
AllSet [] = Unit
AllSet ((name, value) ∷ variables) = (value ≢ []) × AllSet variables

-- The configuration has every value that the program needs, and a version that fits a KEK's.
pub record Loaded (c : Config.Config) : Type 0 where
  pub version : ℕ
  pub issuer : c.issuer ≢ []
  pub client_id : c.client_id ≢ []
  pub redirect_uri : c.redirect_uri ≢ []
  pub host : c.database.host ≢ []
  pub port : c.database.port ≢ []
  pub name : c.database.name ≢ []
  pub user : c.database.user ≢ []
  pub kek_file : c.kek_file ≢ []
  pub client_secret : c.client_secret ≢ []
  pub password : c.database.password ≢ []
  pub kek_version : c.kek_version ≡ pos version
  pub positive : 1 ≤ version
  pub small : version < 2 ^ 15

ok-bind :
    {A B : Type 0} (r : Result Config.Error A) (k : A → Result Config.Error B) (b : B)
    → (r >>= k) ≡ ok b
    → (a : A) × (r ≡ ok a) × (k a ≡ ok b)
ok-bind (ok a) k b h = (a, refl, h)
ok-bind (err e) k b h = absurd (cc)

ok-inj : {A : Type 0} (a b : A) → ◌≡◌ {A = Result Config.Error A} (ok a) (ok b) → a ≡ b
ok-inj a b h = cc

filled : (s : Bytes) → is_empty s ≡ false → s ≢ []
filled [] h = λ e. cc
filled (c ∷ s) h = λ e. cc

absent-AllSet : (variables : List (Bytes × Bytes)) → Config.absent variables ≡ [] → AllSet variables
unfolding Config.absent
absent-AllSet [] h = tt
absent-AllSet ((name, []) ∷ variables) h = absurd (cc)
absent-AllSet ((name, c ∷ value) ∷ variables) h = (λ e. cc, absent-AllSet variables h)

complete :
    (c d : Config.Config) (names : List Bytes)
    → Config.if_complete c names ≡ ok d
    → (names ≡ []) × (c ≡ d)
complete c d [] h = (refl, cc)
complete c d (name ∷ names) h = absurd (cc)

version_read :
    (value : Bytes) (v : ℤ)
    → Config.read_kek_version value ≡ ok v
    → (n : ℕ) × (v ≡ pos n) × (1 ≤ n) × (n < 2 ^ 15)
unfolding Config.read_kek_version
version_read [] v h = (1, cc, omega arith, omega arith)
version_read (c ∷ value) v h =
    from_parsed (parse_int (c ∷ value) 16) (λ n e k. parse_int-small (c ∷ value) 16 n e k) h
  where
    from_parsed :
        (o : Option ℤ)
        → ((n : ℕ) → o ≡ some (pos n) → 1 ≤ n → n < 2 ^ 15)
        → Config.positive_version o ≡ ok v
        → (n : ℕ) × (v ≡ pos n) × (1 ≤ n) × (n < 2 ^ 15)
    from_parsed none small h = absurd (cc)
    from_parsed (some (negsuc n)) small h = absurd (ground arith)
    from_parsed (some (pos zero)) small h = absurd (ground arith)
    from_parsed (some (pos (suc n))) small h =
        (suc n, ground arith, omega arith, small (suc n) refl (omega arith))

module _ ⦃u : Unicode⦄ where
  secret_filled :
      (read_file : Bytes → Option Bytes) (name path s : Bytes)
      → Config.read_secret_file read_file name path ≡ ok s
      → s ≢ []
  unfolding Config.read_secret_file
  secret_filled read_file name [] s h = absurd (cc)
  secret_filled read_file name (c ∷ path) s h = from_file (read_file (c ∷ path)) h
    where
      from_secret : (secret : Bytes) → Config.secret_in name secret ≡ ok s → s ≢ []
      from_secret [] h = absurd (cc)
      from_secret (b ∷ secret) h = λ e. cc

      from_file : (file : Option Bytes) → Config.trimmed_file name file ≡ ok s → s ≢ []
      from_file none h = absurd (cc)
      from_file (some value) h = from_secret (trim_space value) h

  -- In a configuration that is loaded, the issuer, the client id, the redirect URI, the database's
  -- host, port, name and user, the path of the KEK file, the client secret and the database password
  -- are not empty, and the KEK version is from 1 to 2^15 - 1.
  pub load-Loaded :
      (getenv : Bytes → Bytes) (read_file : Bytes → Option Bytes) (c : Config.Config)
      → Config.load getenv read_file ≡ ok c
      → Loaded c
  unfolding Config.load
  load-Loaded getenv read_file c h =
      let (version, read, h1) =
        ok-bind (Config.read_kek_version (getenv (codes "MAIL_ACCOUNT_KEK_VERSION")))
          (Config.load_with getenv read_file) c h in
      let c0 = Config.from_environment getenv read_file version in
      let (d, whole, h2) =
        ok-bind (Config.if_complete c0 (Config.absent (Config.required c0)))
          (Config.read_secrets getenv read_file) c h1 in
      let (client_secret, got, h3) =
        ok-bind (Config.secret getenv read_file (codes "OIDC_CLIENT_SECRET_FILE"))
          (Config.read_password getenv read_file d) c h2 in
      let (password, got', h4) =
        ok-bind (Config.secret getenv read_file (codes "DATABASE_PASSWORD_FILE"))
          (λ password. ok (Config.with_secrets getenv read_file d client_secret password)) c h3 in
      let (nothing, same) = complete c0 d (Config.absent (Config.required c0)) whole in
      let (n, v, positive, small) =
        version_read (getenv (codes "MAIL_ACCOUNT_KEK_VERSION")) version read in
      let built : Config.with_secrets getenv read_file c0 client_secret password ≡ c =
        ap (λ x. Config.with_secrets getenv read_file x client_secret password) same
        ∙ ok-inj _ _ h4 in
      let (issuer, (client_id, (redirect_uri, (host, (port, (name, (user, (kek_file, _)))))))) =
        absent-AllSet (Config.required c0) nothing in
      subst Loaded built (record {
        version = n;
        issuer = issuer;
        client_id = client_id;
        redirect_uri = redirect_uri;
        host = host;
        port = port;
        name = name;
        user = user;
        kek_file = kek_file;
        client_secret = secret_filled read_file _ _ client_secret got;
        password = secret_filled read_file _ _ password got';
        kek_version = v;
        positive = positive;
        small = small;
      })
