-- ===== src/MailAccount/Summaries/Listed.antt =====
-- The list of a user's accounts is complete and holds no other: `ListSummaries` of
-- internal/mailaccount/store.go.
use mathlib.Core.Bool.{false≢true}
use shiroyagi.Base.{
  ◌≡◌, refl, sym, ap, ◌∙◌, ◌⊎◌, ◌↔◌, inl, inr, Bool, Bool-cases, some, List, [], ◌∷◌,
}
use shiroyagi.Base.Result.{ok}
use shiroyagi.Text.{Bytes, ◌==◌, eq_iff}
use shiroyagi.Dict
use shiroyagi.Dict.{Among, Among-to_list}
use shiroyagi.MailAccount.Schema.{MailAccountRow}
use shiroyagi.MailAccount.Conn.{Conn, statement}
use shiroyagi.MailAccount.Summaries.{Summary, summaries_of, place, in_order, list_summaries}

-- The summary is that of a row of the user.
abbrev pub IsOwn : Bytes → List (Bytes × MailAccountRow) → Summary → Type 0
IsOwn user_id rows s =
    (row : MailAccountRow) × Among (s.id, row) rows
    × (row.user_id ≡ user_id)
    × (row.email_address ≡ s.email_address)

later :
    (user_id : Bytes) (e : Bytes × MailAccountRow) (rows : List (Bytes × MailAccountRow))
    (s : Summary)
    → IsOwn user_id rows s
    → IsOwn user_id (e ∷ rows) s
later user_id e rows s (row, among, own, address) = (row, inr among, own, address)

Among-summaries_of :
    (user_id : Bytes) (rows : List (Bytes × MailAccountRow)) (s : Summary)
    → Among s (summaries_of user_id rows) ↔ IsOwn user_id rows s
unfolding summaries_of
Among-summaries_of user_id [] s = (λ h. absurd h, λ h. absurd h.1)
Among-summaries_of user_id ((id, row) ∷ rows) s = elim (Bool-cases (row.user_id == user_id)) [
  | inl own ↦ rw own (
    λ h. elim h [
      | inl e ↦ (
        row,
        inl (ap (λ x. (x.id, row)) e),
        (eq_iff row.user_id user_id).0 own,
        ap (λ x. x.email_address) e,
      )
      | inr there ↦ later user_id (id, row) rows s ((Among-summaries_of user_id rows s).0 there)
    ],
    λ h. elim h.1 [
      | inl e ↦ inl (
          ap (λ x. record { id = x.0; email_address = x.1.email_address }) e
          ∙ ap (λ y. record { id = s.id; email_address = y }) h.3)
      | inr there ↦ inr ((Among-summaries_of user_id rows s).1 (h.0, there, h.2, h.3))
    ],
  )
  | inr other ↦ rw other (
    λ h. later user_id (id, row) rows s ((Among-summaries_of user_id rows s).0 h),
    λ h. elim h.1 [
      | inl e ↦
          absurd (
            false≢true (sym other ∙ (eq_iff row.user_id user_id).1 (ap (λ x. x.1.user_id) e ∙ h.2)))
      | inr there ↦ (Among-summaries_of user_id rows s).1 (h.0, there, h.2, h.3)
    ],
  )
]

module _ (before : Bytes → Bytes → Bool) where
  Among-place :
      (s t : Summary) (l : List Summary) → Among s (place before t l) ↔ ((t ≡ s) ⊎ Among s l)
  unfolding place
  Among-place s t [] = (λ h. h, λ h. h)
  Among-place s t (a ∷ l) = elim (Bool-cases (before t.email_address a.email_address)) [
    | inl first ↦ rw first (λ h. h, λ h. h)
    | inr behind ↦ rw behind (
      λ h. elim h [
        | inl e ↦ inr (inl e)
        | inr there ↦ elim ((Among-place s t l).0 there) [ inl e ↦ inl e | inr x ↦ inr (inr x) ]
      ],
      λ h. elim h [
        | inl e ↦ inr ((Among-place s t l).1 (inl e))
        | inr there ↦ elim there [ inl e ↦ inl e | inr x ↦ inr ((Among-place s t l).1 (inr x)) ]
      ],
    )
  ]

  Among-in_order : (s : Summary) (l : List Summary) → Among s (in_order before l) ↔ Among s l
  unfolding in_order
  Among-in_order s [] = (λ h. h, λ h. h)
  Among-in_order s (t ∷ l) = (
    λ h. elim ((Among-place s t (in_order before l)).0 h) [
      | inl e ↦ inl e
      | inr x ↦ inr ((Among-in_order s l).0 x)
    ],
    λ h. elim h [
      | inl e ↦ (Among-place s t (in_order before l)).1 (inl e)
      | inr x ↦ (Among-place s t (in_order before l)).1 (inr ((Among-in_order s l).1 x))
    ],
  )

  -- Where no statement fails, the list of a user's accounts holds an account with its address exactly
  -- if the table has it and it is the user's.
  pub list_summaries_lem :
      (user_id : Bytes) (c : Conn)
      → c.faults ≡ []
      → (l : List Summary) × ((list_summaries before user_id c).0 ≡ ok l)
        × ((s : Summary)
            → Among s l ↔ (
                (row : MailAccountRow) × (Dict.lookup s.id c.db.mail_accounts ≡ some row)
                × (row.user_id ≡ user_id)
                × (row.email_address ≡ s.email_address)))
  unfolding list_summaries statement
  list_summaries_lem user_id c clean = (
    in_order before (summaries_of user_id (Dict.to_list c.db.mail_accounts)),
    rw clean refl,
    λ s. (
      λ h.
          let (row, among, own, address) =
            (Among-summaries_of user_id (Dict.to_list c.db.mail_accounts) s).0
              ((Among-in_order s (summaries_of user_id (Dict.to_list c.db.mail_accounts))).0 h) in
          (row, (Among-to_list s.id row c.db.mail_accounts).0 among, own, address),
      λ h.
          let (row, stored, own, address) = h in
          (Among-in_order s (summaries_of user_id (Dict.to_list c.db.mail_accounts))).1 (
            (Among-summaries_of user_id (Dict.to_list c.db.mail_accounts) s).1
              (row, (Among-to_list s.id row c.db.mail_accounts).1 stored, own, address)),
    ),
  )
