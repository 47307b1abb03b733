-- ===== src/Http/Routes/Tests.antt =====
-- The theorems on requests at concrete inputs.
use mathlib.Core.Bool.{false≢true}
use shiroyagi.Base.{◌≡◌, ◌≢◌, refl, none, some, List, [], ◌∷◌, arith, if◌then◌else◌}
use shiroyagi.Text.{Bytes, codes, ◌==◌, eq_iff}
use shiroyagi.Text.Unicode.{ascii_only}
use shiroyagi.Auth.Session.{UserSession}
use shiroyagi.Dict
use shiroyagi.MailAccount.Local.{SameAt}
use shiroyagi.Http.Message.{Request}
use shiroyagi.Http.World.{env, session, row, state, stored, request}
use shiroyagi.Http.Server.{State}
use shiroyagi.Http.Compose.Form.{
  ComposeForm, compose_mode_new, valid_mode, parse_compose_message_form,
}
use shiroyagi.Http.Compose.Valid.{Sendable}
use shiroyagi.Http.Compose.RoundTrip.{post, parse_compose_message_form-post}
use shiroyagi.Http.Routes.{mailbox, delete_mail_account, create_mail_account, save_imap, serve}
use shiroyagi.Http.Routes.Stored.{Stored}
use shiroyagi.Http.Routes.Steps.{Untouched}
use shiroyagi.Http.Routes.Serve.{
  Arrival, serve_all, serve-Untouched, serve_isolated, serve_all-Stored,
}

abbrev in_mailbox : Bytes → Bytes
in_mailbox name =
    if name == codes "id"
    then codes "a1"
    else if name == codes "mailbox"
    then codes "INBOX"
    else codes "7"

abbrev field : Bytes → Bytes
field name = if name == codes "imap_port" then codes "993" else codes "imaps"

abbrev a_request : Request
a_request = request in_mailbox field

serve-Untouched_example :
    Untouched state (serve env ⦃u = ascii_only⦄ mailbox (some session) a_request state).1
serve-Untouched_example =
    serve-Untouched env ⦃u = ascii_only⦄ mailbox (some session) a_request state refl

abbrev stranger : UserSession
stranger = record session { subject = codes "u2" }

strangers : row.user_id ≢ stranger.subject
unfolding ◌==◌
strangers e = false≢true ((eq_iff (codes "u1") (codes "u2")).1 e)

serve_isolated_example :
    SameAt
      (codes "a1")
      state.conn.db
      (serve env ⦃u = ascii_only⦄ delete_mail_account (some stranger) a_request state).1.conn.db
serve_isolated_example =
    serve_isolated env ⦃u = ascii_only⦄ delete_mail_account stranger a_request state (codes "a1")
      row stored strangers

abbrev empty_state : State
empty_state = record state {
  conn = record {
    db = record {
      mail_accounts = Dict.empty;
      imap_accounts = Dict.empty;
      smtp_accounts = Dict.empty;
    };
    faults = [];
  };
}

empty-Stored : Stored empty_state.conn.db
empty-Stored = record {
  accounts = λ k v h. absurd (nothing k v h);
  imap_rows = λ k v h. absurd (nothing k v h);
  smtp_rows = λ k v h. absurd (nothing k v h);
}
  where
    nothing : {V : Type 0} (k : Bytes) (v : V) → Dict.lookup k Dict.empty ≡ some v → ⊥
    nothing {V} k v h =
        let none_there : Dict.lookup k (Dict.empty {V = V}) ≡ none = Dict.lookup-empty k in
        absurd (ground arith)

abbrev arrivals : List Arrival
arrivals =
    record { env = env; route = create_mail_account; session = some session; request = a_request }
    ∷ record { env = env; route = save_imap; session = some session; request = a_request }
    ∷ record { env = env; route = delete_mail_account; session = none; request = a_request }
    ∷ []

serve_all-Stored_example : Stored (serve_all ⦃u = ascii_only⦄ arrivals empty_state).conn.db
serve_all-Stored_example = serve_all-Stored ⦃u = ascii_only⦄ arrivals empty_state empty-Stored

abbrev new_form : ComposeForm
new_form = record {
  mode = compose_mode_new;
  mailbox = [];
  uid = 0;
  to = codes "b@example.test";
  cc = [];
  subject = codes "hello";
  body = codes "text";
}

new_form-Sendable : Sendable new_form
unfolding valid_mode ◌==◌
new_form-Sendable = record {
  mode = refl;
  to = λ e. cc;
  subject = λ e. cc;
  body = λ e. cc;
  mailbox = λ needed. absurd (false≢true needed);
  positive = λ needed. absurd (false≢true needed);
  small = omega arith;
}

parse_compose_message_form-post_example :
    parse_compose_message_form (post a_request new_form) ≡ some new_form
parse_compose_message_form-post_example =
    parse_compose_message_form-post a_request new_form new_form-Sendable (λ free. refl)
