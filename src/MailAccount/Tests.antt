-- ===== src/MailAccount/Tests.antt =====
-- The theorems on the store, at a database with one account.
use mathlib.Core.Option
use mathlib.Core.Bool.{false≢true}
use shiroyagi.Base.{◌≡◌, ◌≢◌, refl, ◌↔◌, ◌⊎◌, none, List, true, false, some, [], ◌∷◌}
use shiroyagi.Base.Int.{pos}
use shiroyagi.Base.Result.{ok, err}
use shiroyagi.Text.{codes, ◌==◌, eq_iff}
use shiroyagi.Dict
use shiroyagi.MailAccount.Schema.{MailAccountRow, Settings, imap}
use shiroyagi.MailAccount.Conn.{Conn, no_rows, duplicate_account}
use shiroyagi.MailAccount.Store.{Account, no_settings, select_detail, detail}
use shiroyagi.Dict.{Among}
use shiroyagi.MailAccount.Summaries.{Summary, list_summaries}
use shiroyagi.MailAccount.Summaries.Listed.{list_summaries_lem}
use shiroyagi.MailAccount.Spec.{insert, update, save_imap, delete_smtp, delete, run, spec}
use shiroyagi.MailAccount.Refine.{Refined, run-Refined}
use shiroyagi.MailAccount.Refusals.{Owned, NotOwned, run-ownership, insert-duplicate}
use shiroyagi.MailAccount.Local.{SameAt}
use shiroyagi.MailAccount.Isolation.{run_isolated}
use shiroyagi.MailAccount.Save.{save, with_settings, save_reads_back, update_crosses_users}

abbrev row : MailAccountRow
row = record {
  user_id = codes "u1";
  email_address = codes "u@example.test";
  created_at = pos 1;
  updated_at = pos 1;
}

abbrev conn : Conn
conn = record {
  db = record {
    mail_accounts = Dict.insert (codes "a1") row Dict.empty;
    imap_accounts = Dict.empty;
    smtp_accounts = Dict.empty;
  };
  faults = [];
}

-- a connection that breaks in the second call
abbrev flaky : Conn
flaky = record conn { faults = false ∷ true ∷ [] }

abbrev given : Settings
given = record no_settings { host = codes "imap.example.test"; port = pos 993 }

abbrev account : Account
account = record {
  id = codes "a1";
  user_id = codes "u1";
  email_address = [];
  has_imap = true;
  imap_settings = given;
  has_smtp = false;
  smtp_settings = no_settings;
}

-- the same call in the name of another user
abbrev intruder : Account
intruder = record account { user_id = codes "u2" }

strangers : codes "u1" ≢ codes "u2"
unfolding ◌==◌
strangers e = false≢true ((eq_iff (codes "u1") (codes "u2")).1 e)

found : Dict.lookup (codes "a1") conn.db.mail_accounts ≡ some row
unfolding Dict.lookup Dict.insert Dict.empty ◌==◌
found = refl

run-Refined_example :
    Refined
      (run (pos 2) (save_imap account) flaky)
      (spec (pos 2) (save_imap account) flaky.db)
      flaky.db
run-Refined_example = run-Refined (pos 2) (save_imap account) flaky

run_isolated_example :
    SameAt (codes "a1") conn.db (run (pos 2) (delete (codes "u2") (codes "a1")) conn).1.db
run_isolated_example =
    run_isolated (pos 2) (delete (codes "u2") (codes "a1")) conn (codes "a1") row tt found strangers

save_reads_back_example :
    ((run (pos 2) (save imap account) conn).0 ≡ ok tt)
    × (select_detail (codes "u1") (codes "a1") (run (pos 2) (save imap account) conn).1.db
        ≡ some (with_settings imap given (detail (codes "a1") row conn.db)))
save_reads_back_example = save_reads_back imap (pos 2) account conn row refl found refl

update_crosses_users_example :
    ((run (pos 2) (update intruder) conn).0 ≡ ok tt)
    × (Option.map
          (λ r. r.settings)
          (Dict.lookup (codes "a1") (run (pos 2) (update intruder) conn).1.db.imap_accounts)
        ≡ some given)
update_crosses_users_example =
    update_crosses_users (pos 2) intruder conn row refl found strangers refl

list_summaries_lem_example :
    (l : List Summary) × ((list_summaries (λ a b. true) (codes "u1") conn).0 ≡ ok l)
    × ((s : Summary)
        → Among s l ↔ (
            (found : MailAccountRow) × (Dict.lookup s.id conn.db.mail_accounts ≡ some found)
            × (found.user_id ≡ codes "u1")
            × (found.email_address ≡ s.email_address)))
list_summaries_lem_example = list_summaries_lem (λ a b. true) (codes "u1") conn refl

-- a call of another user
run-ownership_example :
    (Owned (codes "u2") (codes "a1") conn.db
      × ((run (pos 2) (delete_smtp (codes "u2") (codes "a1")) conn).0 ≡ ok tt))
    ⊎ (NotOwned (codes "u2") (codes "a1") conn.db
        × ((run (pos 2) (delete_smtp (codes "u2") (codes "a1")) conn).0 ≡ err no_rows)
        × ((run (pos 2) (delete_smtp (codes "u2") (codes "a1")) conn).1.db ≡ conn.db))
run-ownership_example = run-ownership (pos 2) (delete_smtp (codes "u2") (codes "a1")) conn refl tt

abbrev again : Account
again = record account { id = codes "a2"; email_address = codes "u@example.test" }

free : Dict.lookup (codes "a2") conn.db.mail_accounts ≡ none
unfolding Dict.lookup Dict.insert Dict.empty ◌==◌
free = refl

insert-duplicate_example :
    ((run (pos 2) (insert again) conn).0 ≡ err duplicate_account)
    × ((run (pos 2) (insert again) conn).1.db ≡ conn.db)
insert-duplicate_example =
    insert-duplicate (pos 2) again conn (codes "a1") row refl free found refl refl
