-- ===== src/MailAccount/Summaries.antt =====
-- `ListSummaries` of internal/mailaccount/store.go.
pub mod Listed
use shiroyagi.Base.{Bool, List, [], ◌∷◌, if◌then◌else◌}
use shiroyagi.Base.Exec.{Exec, map_err}
use shiroyagi.Base.Result.{ok}
use shiroyagi.Text.{Bytes, codes, ◌==◌}
use shiroyagi.Dict
use shiroyagi.Dict.{Dict}
use shiroyagi.MailAccount.Schema.{MailAccountRow}
use shiroyagi.MailAccount.Conn.{Conn, Error, wrapped, statement}

pub record Summary : Type 0 where
  pub id : Bytes
  pub email_address : Bytes

-- WHERE user_id = $1
unfoldable pub summaries_of : Bytes → List (Bytes × MailAccountRow) → List Summary
summaries_of user_id [] = []
summaries_of user_id ((id, row) ∷ rows) =
    let rest = summaries_of user_id rows in
    if row.user_id == user_id
    then record { id = id; email_address = row.email_address } ∷ rest
    else rest

-- ORDER BY email_address; `before` is the order of the database's collation, with equals before
-- each other.
module _ (before : Bytes → Bytes → Bool) where
  unfoldable pub place : Summary → List Summary → List Summary
  place s [] = s ∷ []
  place s (t ∷ l) =
      let rest = place s l in if before s.email_address t.email_address then s ∷ t ∷ l else t ∷ rest

  unfoldable pub in_order : List Summary → List Summary
  unfolding place
  in_order [] = []
  in_order (s ∷ l) = place s (in_order l)

  unfoldable pub list_summaries : Bytes → Exec Conn Error (List Summary)
  unfolding statement summaries_of in_order
  list_summaries user_id =
      map_err (wrapped (codes "list mail accounts"))
        (statement (λ db. ok (in_order (summaries_of user_id (Dict.to_list db.mail_accounts)), db)))
