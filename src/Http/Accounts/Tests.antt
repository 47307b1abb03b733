-- ===== src/Http/Accounts/Tests.antt =====
-- The theorem on creating an account at a concrete request.
use shiroyagi.Base.{◌≡◌, refl}
use shiroyagi.Text.{codes, ◌==◌}
use shiroyagi.Dict
use shiroyagi.MailAccount.Schema.{insert_account}
use shiroyagi.Http.Message.{Request}
use shiroyagi.Http.World.{env, session, state, request, at_account}
use shiroyagi.Http.Accounts.{handle_create_mail_account}
use shiroyagi.Http.Accounts.Created.{Created, handle_create_mail_account-Created}

abbrev create_request : Request
create_request = request at_account (λ name. codes "second@example.test")

answer : (handle_create_mail_account env session create_request state).0.status ≡ 303
unfolding handle_create_mail_account Dict.any Dict.insert Dict.empty insert_account ◌==◌
answer = refl

handle_create_mail_account-Created_example :
    Created
      (codes "u1")
      (codes "second@example.test")
      state.conn.db
      (handle_create_mail_account env session create_request state).1.conn.db
handle_create_mail_account-Created_example =
    handle_create_mail_account-Created env session create_request state answer
