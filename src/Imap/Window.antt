-- ===== src/Imap/Window.antt =====
-- What `ListMessages` of internal/imap/client.go asks of a mailbox, and what it shows.
use shiroyagi.Base.{
  ℕ, ◌+◌, ◌-◌, ◌≤◌, ◌<◌, ◌^◌, ◌≡◌, ◌≢◌, refl, ◌⊎◌, inl, inr, true, Bool-cases, Option, none, some,
  List, [], ◌∷◌, ◌++◌, map, reverse, ltb, same, if◌then◌else◌, arith,
}
use shiroyagi.Base.Result.{Result, ok, err, or_err, ◌>>=◌}
use shiroyagi.Text.{Bytes}
use shiroyagi.Text.Unicode.{Unicode}
use shiroyagi.Imap.Client.{Event, select, fetch, logout, close}
use shiroyagi.Imap.Listing.{
  range_start, list_messages, fetch_summaries, list_calls, list_session, summary, Mailboxes,
  MessageSummary, Fetched, ListError, fetch_failed,
}

abbrev pub least : ℕ → ℕ → ℕ
least a b = if ltb a b then a else b

-- `first` begins the last `limit` numbers of a mailbox of `n` messages, or all of them if there are
-- fewer; the limit 0 stands for 100.
pub record Window (limit n first : ℕ) : Type 0 where
  pub first_positive : 1 ≤ first
  pub not_past_last : first ≤ n
  pub default : limit ≡ 0 → n + 1 - first ≡ least n 100
  pub given : limit ≢ 0 → n + 1 - first ≡ least n limit

range_start-Window :
    (n limit : ℕ) → n ≢ 0 → n < 2 ^ 32 → limit < 2 ^ 32 → Window limit n (range_start n limit)
unfolding range_start
range_start-Window n limit some_there small limited = record {
  first_positive = ground arith;
  not_past_last = ground arith;
  default = λ e. ground arith;
  given = λ e. ground arith;
}

module _ ⦃u : Unicode⦄ where
  -- The messages of an answer, the last of them first.
  abbrev pub shown : Option (List Fetched) → Result ListError (List MessageSummary)
  shown none = err fetch_failed
  shown (some fetched) = ok (reverse (map summary fetched))

  fetched_shown :
      (o : Option (List Fetched))
      → (or_err o fetch_failed >>= (λ fetched. ok (reverse (map summary fetched)))) ≡ shown o
  fetched_shown none = refl
  fetched_shown (some fetched) = refl

  -- On an open connection to a mailbox that has `n` messages, `ListMessages` selects the mailbox
  -- read-only; if there are messages, fetches the range that ends with the last and holds `limit` of
  -- them (100 for the limit 0) or all if there are fewer, and shows the answer in reverse order; and
  -- logs out and closes. `n` and the limit are below 2^32.
  pub list_session-Window :
      (log : List Event) (server : Mailboxes) (mailbox : Bytes) (limit n : ℕ)
      → server.select mailbox ≡ some n
      → n < 2 ^ 32
      → limit < 2 ^ 32
      → ((n ≡ 0)
          × (list_session (ok tt, log) server mailbox limit
              ≡ (ok [], log ++ (select mailbox true ∷ logout ∷ close ∷ []))))
        ⊎ ((first : ℕ) × Window limit n first
            × (list_session (ok tt, log) server mailbox limit ≡ (
              shown (server.fetch first n),
              log ++ (select mailbox true ∷ fetch first n ∷ logout ∷ close ∷ []),
            )))
  unfolding list_session list_calls list_messages fetch_summaries
  list_session-Window log server mailbox limit n e small limited = elim (Bool-cases (same n 0)) [
    | inl empty ↦ inl (ground arith, rw (e, empty) refl)
    | inr more ↦ inr (
      range_start n limit,
      range_start-Window n limit (ground arith) small limited,
      rw (e, more, fetched_shown (server.fetch (range_start n limit) n)) refl,
    )
  ]
