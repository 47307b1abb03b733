-- ===== src/Imap/Safety.antt =====
-- When `connect` of internal/imap/client.go sends the password.
use shiroyagi.Base.{
  ◌≡◌, refl, ◌⊎◌, inl, inr, ap, Bool, true, false, not, ◌&&◌, ◌||◌, Bool-cases, List, [], ◌∷◌, any,
  arith,
}
use shiroyagi.Base.Result.{Result, err}
use shiroyagi.Text.{Bytes, codes, ◌==◌}
use shiroyagi.Text.Unicode.{Unicode}
use shiroyagi.Imap.Client.{
  Account, Event, login, close, dial_tls, connect_tls, insecure_auth, unsupported_security, Server,
  ConnectError, connect, is_localhost,
}

abbrev pub is_login : Event → Bool
is_login login = true
is_login _ = false

module _ ⦃u : Unicode⦄ (is_loopback : Bytes → Bool) (server : Server) where
  dials_first : (rest : List Event) × ((connect_tls is_loopback server).1 ≡ dial_tls ∷ rest)
  dials_first = elim (Bool-cases (server.accepts dial_tls)) [
    | inl dialled ↦ elim (Bool-cases (server.accepts login)) [
      | inl accepted ↦ (login ∷ [], rw (dialled, accepted) refl)
      | inr refused ↦ (login ∷ close ∷ [], rw (dialled, refused) refl)
    ]
    | inr failed ↦ ([], rw failed refl)
  ]

  no_login :
      {r : Result ConnectError (Unit {0}) × List Event} {e : ConnectError}
      → r ≡ (err e, [])
      → any is_login r.1 ≡ true
      → ⊥
  no_login {r} e h = let none_sent : any is_login r.1 ≡ false = ap (λ x. any is_login x.1) e in cc

  neither : (b c : Bool) → (b || c) ≡ false → (not b && not c) ≡ true
  neither = ground arith

  forbidden_fails :
      (a : Account)
      → (a.security == codes "imaps") ≡ false
      → (a.security == codes "imap") ≡ true
      → (not a.allow_insecure_auth && not (is_localhost is_loopback a.host)) ≡ true
      → connect is_loopback server false a ≡ (err insecure_auth, [])
  unfolding connect
  forbidden_fails a e f g = rw (e, f, g) refl

  unknown_fails :
      (a : Account)
      → (a.security == codes "imaps") ≡ false
      → (a.security == codes "imap") ≡ false
      → connect is_loopback server false a ≡ (err unsupported_security, [])
  unfolding connect
  unknown_fails a e f = rw (e, f) refl

  -- If `connect` sends the password, then either the account's security is imaps and the first step
  -- was to dial with TLS, or the security is imap and the account allows insecure authentication or
  -- its host is this computer.
  pub connect-safe :
      (done : Bool) (a : Account)
      → any is_login (connect is_loopback server done a).1 ≡ true
      → (((a.security == codes "imaps") ≡ true)
          × ((rest : List Event) × ((connect is_loopback server done a).1 ≡ dial_tls ∷ rest)))
        ⊎ (((a.security == codes "imap") ≡ true)
            × (a.allow_insecure_auth || is_localhost is_loopback a.host ≡ true))
  unfolding connect
  connect-safe true a h = absurd (cc)
  connect-safe false a h = elim (Bool-cases (a.security == codes "imaps")) [
    | inl tls ↦ inl (tls, rw tls dials_first)
    | inr other ↦ elim (Bool-cases (a.security == codes "imap")) [
      | inl plain ↦ elim (Bool-cases (a.allow_insecure_auth || is_localhost is_loopback a.host)) [
        | inl allowed ↦ inr (plain, allowed)
        | inr forbidden ↦
            absurd (no_login (forbidden_fails a other plain (neither _ _ forbidden)) h)
      ]
      | inr unknown ↦ absurd (no_login (unknown_fails a other unknown) h)
    ]
  ]
