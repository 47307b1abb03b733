-- ===== src/MailAccount/Save.antt =====
-- What the store holds after settings were saved.
use mathlib.Core.Option
use shiroyagi.Base.{
  ◌≡◌, ◌≢◌, refl, ◌∙◌, ap, subst, inl, inr, Bool, true, false, some, Option-cases, [], arith,
}
use shiroyagi.Base.Int.{ℤ}
use shiroyagi.Base.Result.{ok}
use shiroyagi.Text.{Bytes, eq_iff, eq_refl}
use shiroyagi.Dict
use shiroyagi.MailAccount.Schema
use shiroyagi.MailAccount.Schema.{
  MailAccountRow, SettingsRow, Database, Settings, touch_account, delete_row, upsert_row, imap,
  smtp, Protocol, table, set_table,
}
use shiroyagi.MailAccount.Conn.{Conn}
use shiroyagi.MailAccount.Store.{Account, Detail, select_detail, detail}
use shiroyagi.MailAccount.Spec.{
  Op, update, save_imap, save_smtp, run, spec, touched, upserted, either,
}
use shiroyagi.MailAccount.Refine.{outcome, run-Refined, run-outcome}

abbrev pub other : Protocol → Protocol
other imap = smtp
other smtp = imap

-- What an upsert for an existing account leaves.
pub record Upserted (p : Protocol) (id : Bytes) (s : Settings) (db d : Database) : Type 0 where
  pub row : SettingsRow
  pub stored : Dict.lookup id (table p d) ≡ some row
  pub settings : row.settings ≡ s
  pub accounts : d.mail_accounts ≡ db.mail_accounts
  pub others : table (other p) d ≡ table (other p) db

lookup-insert_self :
    {V : Type 0} (k : Bytes) (v : V) (m : Dict.Dict V) → Dict.lookup k (Dict.insert k v m) ≡ some v
lookup-insert_self k v m = rw Dict.lookup-insert (rw eq_refl)

set-Upserted :
    (p : Protocol) (id : Bytes) (row : SettingsRow) (db : Database)
    → Upserted p id row.settings db (set_table p db (Dict.insert id row (table p db)))
set-Upserted imap id row db = record {
  row = row;
  stored = lookup-insert_self id row db.imap_accounts;
  settings = refl;
  accounts = refl;
  others = refl;
}
set-Upserted smtp id row db = record {
  row = row;
  stored = lookup-insert_self id row db.smtp_accounts;
  settings = refl;
  accounts = refl;
  others = refl;
}

pub upsert_row-Upserted :
    (p : Protocol) (now : ℤ) (id : Bytes) (s : Settings) (db : Database) {account : MailAccountRow}
    → Dict.lookup id db.mail_accounts ≡ some account
    → (d : Database) × (upsert_row p now id s db ≡ ok d) × Upserted p id s db d
unfolding upsert_row
upsert_row-Upserted p now id s db e = elim (Option-cases (Dict.lookup id (table p db))) [
  | inl n ↦
      let row : SettingsRow = Schema.new_row now s in
      (set_table p db (Dict.insert id row (table p db)), ground arith, set-Upserted p id row db)
  | inr (old, f) ↦
      let row : SettingsRow = record old { settings = s; updated_at = now } in
      (set_table p db (Dict.insert id row (table p db)), ground arith, set-Upserted p id row db)
]

-- The methods that save, and what they save.
abbrev pub save : Protocol → Account → Op
save imap a = save_imap a
save smtp a = save_smtp a

abbrev pub settings_of : Protocol → Account → Settings
settings_of imap a = a.imap_settings
settings_of smtp a = a.smtp_settings

abbrev pub with_settings : Protocol → Settings → Detail → Detail
with_settings imap s d = record d { has_imap = true; imap_settings = s }
with_settings smtp s d = record d { has_smtp = true; smtp_settings = s }

-- the outcome of a call and the tables after it, from the specification
pub run_of_spec :
    (now : ℤ) (op : Op) (c : Conn) {d : Database}
    → c.faults ≡ []
    → spec now op c.db ≡ ok d
    → ((run now op c).0 ≡ ok tt) × ((run now op c).1.db ≡ d)
run_of_spec now op c {d} clean h =
    let done : (run now op c).0 ≡ ok tt = run-outcome now op c clean ∙ ap outcome h in
    elim (run-Refined now op c) [ inl (_, e) ↦ (done, cc) | inr (x, failed, _) ↦ absurd (cc) ]

upserted-some :
    (p : Protocol) (now : ℤ) (a : Account) (db : Database) {account : MailAccountRow}
    → Dict.lookup a.id db.mail_accounts ≡ some account
    → (d : Database) × (upserted now p a db ≡ ok d) × Upserted p a.id (settings_of p a) db d
unfolding upserted
upserted-some imap now a db e =
    let (d, h, u) = upsert_row-Upserted imap now a.id a.imap_settings db e in (d, rw h, u)
upserted-some smtp now a db e =
    let (d, h, u) = upsert_row-Upserted smtp now a.id a.smtp_settings db e in (d, rw h, u)

-- the account after a touch
abbrev pub bumped : ℤ → Bytes → MailAccountRow → Database → Database
bumped now id row db = record db {
  mail_accounts = Dict.insert id (record row { updated_at = now }) db.mail_accounts;
}

pub touched_own :
    (now : ℤ) (user_id id : Bytes) (db : Database) (row : MailAccountRow)
    → Dict.lookup id db.mail_accounts ≡ some row
    → row.user_id ≡ user_id
    → touched now user_id id db ≡ ok (bumped now id row db)
unfolding touched touch_account
touched_own now user_id id db row e own = ground (arith, eq_iff row.user_id user_id)

spec-save :
    (p : Protocol) (now : ℤ) (a : Account) (db : Database) (row : MailAccountRow)
    → Dict.lookup a.id db.mail_accounts ≡ some row
    → row.user_id ≡ a.user_id
    → (d : Database) × (spec now (save p a) db ≡ ok d)
      × Upserted p a.id (settings_of p a) (bumped now a.id row db) d
unfolding spec
spec-save imap now a db row e own =
    let (d, h, u) =
      upserted-some imap now a (bumped now a.id row db) (lookup-insert_self a.id _ _) in
    (d, rw (touched_own now a.user_id a.id db row e own) h, u)
spec-save smtp now a db row e own =
    let (d, h, u) =
      upserted-some smtp now a (bumped now a.id row db) (lookup-insert_self a.id _ _) in
    (d, rw (touched_own now a.user_id a.id db row e own) h, u)

select-Upserted :
    (p : Protocol) (now : ℤ) (id : Bytes) (s : Settings) (db d : Database) (row : MailAccountRow)
    → Upserted p id s (bumped now id row db) d
    → select_detail row.user_id id d ≡ some (with_settings p s (detail id row db))
unfolding select_detail
select-Upserted imap now id s db d row u = ground (
  arith,
  ap (Dict.lookup id) u.accounts,
  lookup-insert_self id (record row { updated_at = now }) db.mail_accounts,
  eq_refl row.user_id,
  ap (Dict.lookup id) u.others,
  u.stored,
  u.settings,
)
select-Upserted smtp now id s db d row u = ground (
  arith,
  ap (Dict.lookup id) u.accounts,
  lookup-insert_self id (record row { updated_at = now }) db.mail_accounts,
  eq_refl row.user_id,
  ap (Dict.lookup id) u.others,
  u.stored,
  u.settings,
)

-- Saving the settings of one protocol for an account of the calling user, with no call failing,
-- succeeds, and reading the account then gives the saved settings for that protocol, and the email
-- address and the settings of the other protocol as they were.
pub save_reads_back :
    (p : Protocol) (now : ℤ) (a : Account) (c : Conn) (row : MailAccountRow)
    → c.faults ≡ []
    → Dict.lookup a.id c.db.mail_accounts ≡ some row
    → row.user_id ≡ a.user_id
    → ((run now (save p a) c).0 ≡ ok tt)
      × (select_detail a.user_id a.id (run now (save p a) c).1.db
          ≡ some (with_settings p (settings_of p a) (detail a.id row c.db)))
save_reads_back p now a c row clean e own =
    let (d, h, u) = spec-save p now a c.db row e own in
    let (done, after) = run_of_spec now (save p a) c clean h in
    let read = select-Upserted p now a.id (settings_of p a) c.db d row u in
    let wanted = with_settings p (settings_of p a) (detail a.id row c.db) in
    (done, rw after (subst (λ user. select_detail user a.id d ≡ some wanted) own read))

update_smtp_keeps :
    (b : Bool) (now : ℤ) (a : Account) (db : Database) {row : MailAccountRow}
    → Dict.lookup a.id db.mail_accounts ≡ some row
    → (d : Database) × (either b (upserted now smtp a) (λ x. ok (delete_row smtp a.id x)) db ≡ ok d)
      × (d.imap_accounts ≡ db.imap_accounts)
update_smtp_keeps true now a db e =
    let (d, h, u) = upserted-some smtp now a db e in (d, h, u.others)
update_smtp_keeps false now a db e = (delete_row smtp a.id db, refl, unfold delete_row in refl)

-- `Update` does not check whose account it writes: for an account of another user that exists, with
-- IMAP settings in the call and no call failing, it succeeds and stores the given IMAP settings
-- for that account.
pub update_crosses_users :
    (now : ℤ) (a : Account) (c : Conn) (row : MailAccountRow)
    → c.faults ≡ []
    → Dict.lookup a.id c.db.mail_accounts ≡ some row
    → row.user_id ≢ a.user_id
    → a.has_imap ≡ true
    → ((run now (update a) c).0 ≡ ok tt)
      × (Option.map (λ r. r.settings) (Dict.lookup a.id (run now (update a) c).1.db.imap_accounts)
          ≡ some a.imap_settings)
update_crosses_users now a c row clean e foreign has =
    let (d, h, u) = upserted-some imap now a c.db e in
    let (d', h', kept) =
      update_smtp_keeps a.has_smtp now a d (ap (Dict.lookup a.id) u.accounts ∙ e) in
    let untouched : (touch_account now a.user_id a.id c.db).1 ≡ c.db =
      unfold touch_account in ground (arith, eq_iff row.user_id a.user_id) in
    let (done, after) =
      run_of_spec now (update a) c {d = d'} clean (unfold spec in simp (untouched, has, h) h') in
    (done, rw (after, kept, u.stored, u.settings))
