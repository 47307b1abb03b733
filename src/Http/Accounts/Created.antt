-- ===== src/Http/Accounts/Created.antt =====
-- What a request that creates an account does: `handleCreateMailAccount` of
-- internal/http/mail_account.go over the store.
use shiroyagi.Base.{
  ◌≡◌, refl, sym, ◌∙◌, subst, inl, inr, Bool, true, false, not, Bool-cases, none, some,
  Option-cases, if◌then◌else◌, arith,
}
use shiroyagi.Base.Int.{ℤ}
use shiroyagi.Base.Result.{Result, ok, err, map_err, ◌>>=◌}
use shiroyagi.Text.{Bytes, codes, is_empty, eq_refl}
use shiroyagi.Dict
use shiroyagi.Auth.Session.{UserSession}
use shiroyagi.MailAccount.Schema.{MailAccountRow, Database, DbError, has_address, insert_account}
use shiroyagi.MailAccount.Conn
use shiroyagi.MailAccount.Conn.{Conn}
use shiroyagi.MailAccount.Store.{insert_error, exists_by_user_and_email}
use shiroyagi.MailAccount.Spec.{insert, run, spec}
use shiroyagi.MailAccount.Refine.{run-Refined}
use shiroyagi.MailAccount.Identifier
use shiroyagi.MailAccount.Identifier.{new_id}
use shiroyagi.Http.Message.{Request}
use shiroyagi.Http.Server.{Env, State, bad_request}
use shiroyagi.Http.Send.{Handled}
use shiroyagi.Http.Settings.{answered}
use shiroyagi.Http.Accounts.{
  new_account, mail_accounts_path, insert_identified, create_unless_found,
  handle_create_mail_account,
}
use shiroyagi.Http.Routes.AccountWrites.{exists-db}

-- The user had no account with the address, and has one now, under an identifier that no account had.
pub record Created (user_id email_address : Bytes) (before after : Database) : Type 0 where
  pub id : Bytes
  pub row : MailAccountRow
  pub unused : Dict.any (has_address user_id email_address) before.mail_accounts ≡ false
  pub free : Dict.lookup id before.mail_accounts ≡ none
  pub stored : Dict.lookup id after.mail_accounts ≡ some row
  pub own : row.user_id ≡ user_id
  pub address : row.email_address ≡ email_address

insert_account-Created :
    (now : ℤ) (id user_id email_address : Bytes) (before after : Database)
    → insert_account now id user_id email_address before ≡ ok after
    → Created user_id email_address before after
unfolding insert_account
insert_account-Created now id user_id email_address before after h =
    elim (Option-cases (Dict.lookup id before.mail_accounts)) [
      | inr (row, e) ↦ absurd (ground arith)
      | inl free ↦
          elim (Bool-cases (Dict.any (has_address user_id email_address) before.mail_accounts)) [
            | inl used ↦ absurd (ground arith)
            | inr unused ↦
                let row : MailAccountRow = record {
                  user_id = user_id;
                  email_address = email_address;
                  created_at = now;
                  updated_at = now;
                } in
                let built : record before {
                  mail_accounts = Dict.insert id row before.mail_accounts;
                }
                    ≡ after =
                  ground arith in
                record {
                  id = id;
                  row = row;
                  unused = unused;
                  free = free;
                  stored =
                      subst (λ d. Dict.lookup id d.mail_accounts ≡ some row) built
                        (rw (Dict.lookup-insert id id row before.mail_accounts) (rw eq_refl));
                  own = refl;
                  address = refl;
                }
          ]
    ]

spec-Created :
    (now : ℤ) (user_id id email_address : Bytes) (before after : Database)
    → spec now (insert (new_account user_id id email_address)) before ≡ ok after
    → Created user_id email_address before after
unfolding spec
spec-Created now user_id id email_address before after h =
    inserted (insert_account now id user_id email_address before) refl h
  where
    inserted :
        (r : Result DbError Database)
        → insert_account now id user_id email_address before ≡ r
        → (map_err insert_error r >>= λ d. (ok d >>= ok)) ≡ ok after
        → Created user_id email_address before after
    inserted (err e) made h = absurd (cc)
    inserted (ok d) made h =
        let same : ◌≡◌ {A = Result DbError Database} (ok d) (ok after) = cc in
        insert_account-Created now id user_id email_address before after (made ∙ same)

answered_303 :
    (s : State) (url : Bytes) (result : Result Conn.Error (Unit {0}) × Conn)
    → (answered s url result).0.status ≡ 303
    → (result.0 ≡ ok tt) × ((answered s url result).1.conn ≡ result.1)
answered_303 s url (ok t, c) h = (refl, refl)
answered_303 s url (err e, c) h = absurd (omega (arith, h))

module _ (env : Env) where
  insert_identified-Created :
      (user_id email_address : Bytes) (s : State) (made : Result Identifier.Error Bytes × Bytes)
      → (insert_identified env user_id email_address s made).0.status ≡ 303
      → Created user_id email_address s.conn.db
          (insert_identified env user_id email_address s made).1.conn.db
  unfolding insert_identified run
  insert_identified-Created user_id email_address s (err e, rest) h = absurd (omega (arith, h))
  insert_identified-Created user_id email_address s (ok id, rest) h =
      let a = new_account user_id id email_address in
      let (done, same) =
        answered_303 (record s { random = rest }) mail_accounts_path (run env.now (insert a) s.conn)
          h in
      elim (run-Refined env.now (insert a) s.conn) [
        | inl (_, e) ↦
            subst (λ c. Created user_id email_address s.conn.db c.db) (sym same)
              (spec-Created env.now user_id id email_address s.conn.db _ e)
        | inr (x, failed, _) ↦ absurd (cc)
      ]

  create_unless_found-Created :
      (user_id email_address : Bytes) (s : State) (found : Result Conn.Error Bool × Conn)
      → found.1.db ≡ s.conn.db
      → (create_unless_found env user_id email_address s found).0.status ≡ 303
      → Created user_id email_address s.conn.db
          (create_unless_found env user_id email_address s found).1.conn.db
  unfolding create_unless_found
  create_unless_found-Created user_id email_address s (err e, c) same h = absurd (omega (arith, h))
  create_unless_found-Created user_id email_address s (ok true, c) same h =
      absurd (omega (arith, h))
  create_unless_found-Created user_id email_address s (ok false, c) same h =
      subst
        (λ d.
          Created user_id email_address d
            (create_unless_found env user_id email_address s (ok false, c)).1.conn.db)
        same
        (insert_identified-Created user_id email_address (record s { conn = c }) (new_id s.random)
          h)

  -- A request to create an account that is answered by the redirect to the accounts has created one:
  -- the user had no account with the address of the form, and has one now, under an identifier
  -- that no account had.
  pub handle_create_mail_account-Created :
      (session : UserSession) (r : Request) (s : State)
      → (handle_create_mail_account env session r s).0.status ≡ 303
      → Created session.subject
          (r.form (codes "email_address"))
          s.conn.db
          (handle_create_mail_account env session r s).1.conn.db
  unfolding handle_create_mail_account
  handle_create_mail_account-Created session r s =
      checked (not r.form_ok) (is_empty email_address)
        (create_unless_found env session.subject email_address s found)
        (create_unless_found-Created session.subject email_address s found
          (exists-db env session.subject email_address s.conn))
    where
      email_address : Bytes
      email_address = r.form (codes "email_address")

      found : Result Conn.Error Bool × Conn
      found = exists_by_user_and_email session.subject email_address s.conn

      checked :
          (bad empty : Bool) (rest : Handled)
          → (rest.0.status ≡ 303 → Created session.subject email_address s.conn.db rest.1.conn.db)
          → (if bad then (bad_request, s) else if empty then (bad_request, s) else rest).0.status
            ≡ 303
          → Created session.subject email_address s.conn.db
              (if bad then (bad_request, s) else if empty then (bad_request, s) else rest).1.conn.db
      checked true empty rest made h = absurd (omega (arith, h))
      checked false true rest made h = absurd (omega (arith, h))
      checked false false rest made h = made h
