-- ===== src/Http/World.antt =====
-- A user with one mail account, and servers that accept everything, for the tests.
use shiroyagi.Base.{◌≡◌, refl, true, false, none, some, [], ◌∷◌, replicate, if◌then◌else◌}
use shiroyagi.Base.Int.{pos}
use shiroyagi.Text.{Bytes, codes, ◌==◌}
use shiroyagi.Auth.Session.{UserSession}
use shiroyagi.Dict
use shiroyagi.Crypto.Tests.{toy, key}
use shiroyagi.MailAccount.Schema.{MailAccountRow, Database}
use shiroyagi.Smtp.Message.{AddressParser}
use shiroyagi.Imap.Mime.{Mime, eof}
use shiroyagi.Http.Message.{Request}
use shiroyagi.Http.Server.{Env, State}

-- Texts of one part, whose type is what the header says.
abbrev pub plain_mime : Mime
plain_mime = record {
  read_message = λ s. some (λ key. [], s);
  parse_media_type = λ s. some (record { name = s; params = λ key. [] });
  parts = λ body boundary. eof;
  read_all = λ encoding limit s. some s;
}

abbrev pub plain_addresses : AddressParser
plain_addresses = record {
  parse_address = λ s. some (record { name = []; address = s });
  parse_address_list = λ s. some (record { name = []; address = s } ∷ []);
}

abbrev pub env : Env
env = record {
  gcm = toy;
  kek_file = some key;
  kek_version = 1;
  imap_allow_insecure_auth = false;
  smtp_allow_insecure_auth = false;
  done = false;
  is_loopback = λ h. false;
  mime = plain_mime;
  mail = plain_addresses;
  imap_server = λ log. record { accepts = λ e. true };
  imap_mailboxes = λ log. record { select = λ name. some 0; fetch = λ a b. some [] };
  imap_reader = λ log mailbox uid. some (
      record {
        uid = uid;
        flags = [];
        envelope = some (record {
          date = some (pos 3);
          subject = codes "hello";
          from = [];
          reply_to = [];
          to = [];
          cc = [];
          in_reply_to = [];
          message_id = codes "<m1@example.test>";
        });
        section = some (some (codes "hello"));
      }
      ∷ []);
  smtp_accepts = λ log e. true;
  local_time = λ t. codes "2026-01-02 03:04";
  get_error_text = λ e. codes "error";
  list_error_text = λ e. codes "error";
  send_error_text = λ e. codes "error";
  now = pos 5;
  collates = λ a b. true;
}

abbrev pub session : UserSession
session = record {
  subject = codes "u1";
  email = [];
  name = codes "Ada";
  preferred_username = [];
  auth_time = pos 1;
  created_at = pos 1;
}

abbrev pub row : MailAccountRow
row = record {
  user_id = codes "u1";
  email_address = codes "ada@example.test";
  created_at = pos 1;
  updated_at = pos 1;
}

abbrev pub database : Database
database = record {
  mail_accounts = Dict.insert (codes "a1") row Dict.empty;
  imap_accounts = Dict.empty;
  smtp_accounts = Dict.empty;
}

abbrev pub state : State
state = record {
  conn = record { db = database; faults = [] };
  random = replicate 200 9;
  imap = [];
  smtp = [];
}

-- A request with a path and a form.
abbrev pub request : (path : Bytes → Bytes) (form : Bytes → Bytes) → Request
request path form = record {
  cookie = λ name. none;
  query = λ name. [];
  path_value = path;
  form_ok = true;
  form = form;
}

-- The path of the account.
abbrev pub at_account : Bytes → Bytes
at_account name = if name == codes "id" then codes "a1" else []

pub stored : Dict.lookup (codes "a1") database.mail_accounts ≡ some row
unfolding Dict.lookup Dict.insert Dict.empty ◌==◌
stored = refl
