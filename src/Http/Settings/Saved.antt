-- ===== src/Http/Settings/Saved.antt =====
-- Settings that are saved are those that the clients get: internal/http/imap_account.go,
-- smtp_account.go, mailbox.go and smtp_send.go together.
use shiroyagi.Base.{
  ◌≤◌, ◌≡◌, ◌≢◌, refl, sym, ap, ◌∙◌, subst, false, inl, inr, Bool-cases, some, [], ◌∷◌, length,
  arith,
}
use shiroyagi.Base.Int.{ℤ}
use shiroyagi.Base.Result.{Result, ok, err}
use shiroyagi.Text.{Bytes, is_empty, eq_iff}
use shiroyagi.Dict
use shiroyagi.Auth.Session.{UserSession}
use shiroyagi.Crypto.Gcm.{GcmLaws}
use shiroyagi.MailAccount.Schema.{MailAccountRow, Protocol, imap, smtp, Settings, Database}
use shiroyagi.MailAccount.Conn.{Conn, statement, later, advance}
use shiroyagi.MailAccount.Conn
use shiroyagi.MailAccount.Store
use shiroyagi.MailAccount.Store.{Detail, select_detail, detail}
use shiroyagi.MailAccount.Spec.{run}
use shiroyagi.MailAccount.Save.{with_settings, save_reads_back}
use shiroyagi.Http.Message.{redirect}
use shiroyagi.Http.Password
use shiroyagi.Http.Password.{Secret, envelope_aad, seal_password, decrypt_password}
use shiroyagi.Http.Password.ReadBack.{Openable, seal_password-reads_back}
use shiroyagi.Http.Server.{Env, State, secret_of}
use shiroyagi.Http.Send.{Handled}
use shiroyagi.Http.Settings.Form.{SettingsForm}
use shiroyagi.Http.Settings.{
  has_settings, detail_settings, field_of, edit_path, settings_from, account_to_save, store_save,
  answered, save_sealed, save_form, save_parsed,
}

get_clean :
    (user_id id : Bytes) (c : Conn)
    → c.faults ≡ []
    → Store.get user_id id c ≡ (ok (select_detail user_id id c.db), advance c)
unfolding Store.get statement
get_clean user_id id c clean = ground arith

own_detail :
    (user_id id : Bytes) (db : Database) (row : MailAccountRow)
    → Dict.lookup id db.mail_accounts ≡ some row
    → row.user_id ≡ user_id
    → select_detail user_id id db ≡ some (detail id row db)
unfolding select_detail
own_detail user_id id db row e own = ground (arith, eq_iff row.user_id user_id)

named_lem : (password : Bytes) → password ≢ [] → is_empty password ≡ false
named_lem [] named = absurd (named refl)
named_lem (c ∷ password) named = refl

answered_ok :
    (s : State) (url : Bytes) (result : Result Conn.Error (Unit {0}) × Conn)
    → result.0 ≡ ok tt
    → answered s url result ≡ (redirect url 303, record s { conn = result.1 })
answered_ok s url (ok t, c) h = refl
answered_ok s url (err e, c) h = absurd (cc)

-- The account after the settings of one protocol were saved.
abbrev pub saved_detail :
    Protocol → SettingsForm → Secret → Bytes → MailAccountRow → Database → Detail
saved_detail p form secret id row db =
    with_settings p (settings_from form secret) (detail id row db)

-- the store's answer to the settings of a form
saves :
    (p : Protocol) (now : ℤ) (user_id id : Bytes) (settings : Settings) (c : Conn)
    (row : MailAccountRow)
    → c.faults ≡ []
    → Dict.lookup id c.db.mail_accounts ≡ some row
    → row.user_id ≡ user_id
    → ((store_save p now (account_to_save p user_id id settings) c).0 ≡ ok tt)
      × (select_detail user_id id (store_save p now (account_to_save p user_id id settings) c).1.db
          ≡ some (with_settings p settings (detail id row c.db)))
unfolding store_save run
saves imap now user_id id settings c row clean e own =
    save_reads_back imap now (account_to_save imap user_id id settings) c row clean e own
saves smtp now user_id id settings c row clean e own =
    save_reads_back smtp now (account_to_save smtp user_id id settings) c row clean e own

-- What a client is given for the account of a stored detail.
abbrev pub stored_password : Env → Protocol → Bytes → Detail → Result Password.Error Bytes
stored_password env p user_id a =
    decrypt_password env.gcm user_id a.id (field_of p) env.kek_file
      (secret_of (detail_settings p a))

-- The conditions under which a save is answered by success: the user's account, no failing
-- statement, a KEK of 32 bytes and 56 random bytes, and the envelope of existing settings opens.
pub record Ready (env : Env) (laws : GcmLaws env.gcm) (p : Protocol) (user_id id : Bytes)
    (s : State) : Type 0 where
  pub row : MailAccountRow
  pub kek : Bytes
  pub clean : s.conn.faults ≡ []
  pub stored : Dict.lookup id s.conn.db.mail_accounts ≡ some row
  pub own : row.user_id ≡ user_id
  pub has_kek : env.kek_file ≡ some kek
  pub kek_size : length kek ≡ 32
  pub enough : 56 ≤ length s.random
  pub opens :
      Openable env.gcm laws kek
        (envelope_aad user_id id)
        (has_settings p (detail id row s.conn.db))
        (secret_of (detail_settings p (detail id row s.conn.db)))

-- The answer is the redirect to `url`, and the account that is stored afterwards has the form's
-- settings, with a password that decrypts to the form's.
pub record Stored (env : Env) (p : Protocol) (user_id id url : Bytes) (form : SettingsForm)
    (h : Handled) : Type 0 where
  pub account : Detail
  pub answer : h.0 ≡ redirect url 303
  pub selected : select_detail user_id id h.1.conn.db ≡ some account
  pub host : (detail_settings p account).host ≡ form.host
  pub port : (detail_settings p account).port ≡ form.port
  pub security : (detail_settings p account).security ≡ form.security
  pub username : (detail_settings p account).username ≡ form.username
  pub password : stored_password env p user_id account ≡ ok form.password

save_form_named :
    (env : Env) (p : Protocol) (user_id url : Bytes) (form : SettingsForm) (a : Detail) (s : State)
    → form.password ≢ []
    → save_form env p user_id url form a s
      ≡ save_sealed env p user_id url a form s (
          seal_password env.gcm env.kek_version user_id a.id
            (field_of p)
            env.kek_file
            (has_settings p a)
            (secret_of (detail_settings p a))
            form.password
            s.random)
unfolding save_form
save_form_named env p user_id url form a s named = elim (Bool-cases (has_settings p a)) [
  | inl has ↦ rw (has) refl
  | inr new ↦ rw (new, named_lem form.password named) refl
]

module _ (env : Env) (p : Protocol) (user_id id url : Bytes) (form : SettingsForm) where
  sealed-Stored :
      (left : Bytes) (s : State) (row : MailAccountRow) (secret : Secret)
      → s.conn.faults ≡ []
      → Dict.lookup id s.conn.db.mail_accounts ≡ some row
      → row.user_id ≡ user_id
      → decrypt_password env.gcm user_id id (field_of p) env.kek_file secret ≡ ok form.password
      → Stored env p user_id id url form
          (save_sealed env p user_id url (detail id row s.conn.db) form s (ok secret, left))
  unfolding save_sealed
  sealed-Stored left s row secret clean e own read =
      let settings = settings_from form secret in
      let (done, reads) = saves p env.now user_id id settings s.conn row clean e own in
      let result =
        answered_ok (record s { random = left }) url
          (store_save p env.now (account_to_save p user_id id settings) s.conn) done in
      subst (Stored env p user_id id url form) (sym result) (stored p reads read)
    where
      stored :
          (q : Protocol)
          → select_detail user_id id
              (store_save p env.now
                (account_to_save p user_id id (settings_from form secret))
                s.conn).1.db
            ≡ some (with_settings q (settings_from form secret) (detail id row s.conn.db))
          → decrypt_password env.gcm user_id id (field_of q) env.kek_file secret ≡ ok form.password
          → Stored env q user_id id url form (
            redirect url 303,
            record s {
              random = left;
              conn =
                  (store_save p env.now
                    (account_to_save p user_id id (settings_from form secret))
                    s.conn).1;
            },
          )
      stored imap reads read = record {
        account = with_settings imap (settings_from form secret) (detail id row s.conn.db);
        answer = refl;
        selected = reads;
        host = refl;
        port = refl;
        security = refl;
        username = refl;
        password = read;
      }
      stored smtp reads read = record {
        account = with_settings smtp (settings_from form secret) (detail id row s.conn.db);
        answer = refl;
        selected = reads;
        host = refl;
        port = refl;
        security = refl;
        username = refl;
        password = read;
      }

module _ (env : Env) (laws : GcmLaws env.gcm) (p : Protocol) (user_id id url : Bytes) where
  form-Stored :
      (form : SettingsForm) (s s' : State) (r : Ready env laws p user_id id s)
      → s'.conn.faults ≡ []
      → s'.conn.db ≡ s.conn.db
      → s'.random ≡ s.random
      → form.password ≢ []
      → Stored env p user_id id url form
          (save_form env p user_id url form (detail id r.row s'.conn.db) s')
  unfolding save_form
  form-Stored form s s' r clean same_db same_random named =
      let before = detail id r.row s'.conn.db in
      let (secret, left, made, read) =
        seal_password-reads_back env.gcm laws env.kek_version user_id id (field_of p) r.kek
          (has_settings p before) (secret_of (detail_settings p before)) form.password s'.random
          r.kek_size (rw same_random r.enough) (rw same_db r.opens) named in
      let saved =
        sealed-Stored env p user_id id url form left s' r.row secret clean (rw same_db r.stored)
          r.own (rw r.has_kek read) in
      let sealed : _ ≡ (ok secret, left) =
        subst
          (λ file.
            seal_password env.gcm env.kek_version user_id id (field_of p) file
              (has_settings p before) (secret_of (detail_settings p before)) form.password s'.random
            ≡ (ok secret, left))
          (sym r.has_kek) made in
      subst (Stored env p user_id id url form)
        (sym (
          save_form_named env p user_id url form before s' named
          ∙ ap (save_sealed env p user_id url before form s') sealed))
        saved

module _ (env : Env) (laws : GcmLaws env.gcm) (p : Protocol) (session : UserSession)
    (id : Bytes) where
  -- A form with a password is saved.
  pub save_parsed-Stored :
      (form : SettingsForm) (s : State)
      → Ready env laws p session.subject id s
      → form.password ≢ []
      → Stored env p session.subject id
          (edit_path p id)
          form
          (save_parsed env p session id s (some form))
  unfolding save_parsed
  save_parsed-Stored form s r named = rw (get_clean session.subject id s.conn r.clean) (
      rw (own_detail session.subject id s.conn.db r.row r.stored r.own) (
        form-Stored env laws p session.subject id (edit_path p id) form s
          (record s { conn = advance s.conn }) r (rw r.clean refl) refl refl named))
