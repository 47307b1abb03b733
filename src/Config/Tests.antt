-- ===== src/Config/Tests.antt =====
-- The theorem on the configuration at a concrete environment.
use shiroyagi.Base.{◌≡◌, refl, some, false, if◌then◌else◌}
use shiroyagi.Base.Int.{pos}
use shiroyagi.Base.Result.{ok}
use shiroyagi.Text.{Bytes, codes, ◌==◌, parse_int, trim_space, to_lower}
use shiroyagi.Text.Unicode.{ascii_only}
use shiroyagi.Config.{
  Config, load, read_kek_version, from_environment, absent, is_true, read_secret_file,
}
use shiroyagi.Config.Loaded.{Loaded, load-Loaded}

abbrev value : Bytes
value = codes "v"

abbrev environment : Bytes → Bytes
environment name = if name == codes "MAIL_ACCOUNT_KEK_VERSION" then codes "3" else value

abbrev config : Config
config = record {
  issuer = value;
  client_id = value;
  client_secret = codes "secret";
  redirect_uri = value;
  database = record {
    host = value;
    port = value;
    name = value;
    user = value;
    password = codes "secret";
  };
  kek_file = value;
  kek_version = pos 3;
  imap_allow_insecure_auth = false;
  smtp_allow_insecure_auth = false;
}

loaded : load ⦃u = ascii_only⦄ environment (λ path. some (codes " secret ")) ≡ ok config
unfolding load read_kek_version from_environment absent is_true read_secret_file parse_int
    trim_space to_lower ◌==◌
loaded = refl

load-Loaded_example : Loaded config
load-Loaded_example =
    load-Loaded ⦃u = ascii_only⦄ environment (λ path. some (codes " secret ")) config loaded
