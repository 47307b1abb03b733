-- ===== src/Imap/Tests.antt =====
-- The theorems on internal/imap/client.go at concrete inputs.
use shiroyagi.Base.{
  ℕ, zero, suc, ◌+◌, ◌-◌, ◌≡◌, refl, ◌⊎◌, true, false, ◌||◌, Option, none, some, List, [], ◌∷◌,
  arith,
}
use shiroyagi.Base.Int.{pos}
use shiroyagi.Base.Result.{ok}
use shiroyagi.Text.{codes, ◌==◌}
use shiroyagi.Text.Unicode.{ascii_only}
use shiroyagi.Imap.Client.{
  Account, Event, dial_tls, select, fetch, logout, close, Server, connect, is_localhost,
}
use shiroyagi.Imap.Listing.{Fetched, Mailboxes, list_session}
use shiroyagi.Imap.Safety.{connect-safe}
use shiroyagi.Imap.Window.{Window, shown, list_session-Window}

abbrev reader : Account
reader = record {
  host = codes "imap.example.test";
  port = pos 993;
  security = codes "imaps";
  username = codes "reader";
  password = codes "secret";
  allow_insecure_auth = false;
}

abbrev willing : Server
willing = record { accepts = λ e. true }

connect-safe_example :
    (((reader.security == codes "imaps") ≡ true)
      × ((rest : List Event) × ((connect ⦃u = ascii_only⦄ (λ h. false) willing false reader).1
            ≡ dial_tls ∷ rest)))
    ⊎ (((reader.security == codes "imap") ≡ true)
        × (reader.allow_insecure_auth || is_localhost ⦃u = ascii_only⦄ (λ h. false) reader.host
            ≡ true))
unfolding connect ◌==◌
connect-safe_example = connect-safe ⦃u = ascii_only⦄ (λ h. false) willing false reader refl

abbrev message : Fetched
message = record {
  uid = 7;
  size = 10;
  internal_date = some (pos 5);
  flags = codes "\\answered" ∷ [];
  envelope = none;
}

if_any : ℕ → Option (List Fetched)
if_any zero = some []
if_any (suc n) = some (message ∷ [])

abbrev shop : Mailboxes
shop = record { select = λ name. some 1; fetch = λ a b. if_any (b + 1 - a) }

list_session-Window_example :
    (◌≡◌ {A = ℕ} 1 0
      × (list_session ⦃u = ascii_only⦄ (ok tt, []) shop (codes "INBOX") 0
          ≡ (ok [], select (codes "INBOX") true ∷ logout ∷ close ∷ [])))
    ⊎ ((first : ℕ) × Window 0 1 first
        × (list_session ⦃u = ascii_only⦄ (ok tt, []) shop (codes "INBOX") 0 ≡ (
          shown ⦃u = ascii_only⦄ (shop.fetch first 1),
          select (codes "INBOX") true ∷ fetch first 1 ∷ logout ∷ close ∷ [],
        )))
list_session-Window_example =
    list_session-Window ⦃u = ascii_only⦄ [] shop (codes "INBOX") 0 1 refl (omega arith)
      (omega arith)
