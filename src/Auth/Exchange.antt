-- ===== src/Auth/Exchange.antt =====
-- `exchange_code` succeeds only for a verified ID token with the expected nonce.
use shiroyagi.Base.{◌≡◌, none, some, inl, inr, arith, Option-cases}
use shiroyagi.Base.Int.{ℤ}
use shiroyagi.Base.Result.{ok}
use shiroyagi.Text.{Bytes, eq_iff}
use shiroyagi.Auth.Session.{UserSession}
use shiroyagi.Auth.Client.{Oidc, Exchanged, exchange_code}

pub exchange_code-Exchanged :
    (oidc : Oidc) (now : ℤ) (code expected : Bytes) (session : UserSession)
    → exchange_code oidc now code expected ≡ ok session
    → Exchanged oidc now code expected session
unfolding exchange_code
exchange_code-Exchanged oidc now code expected session h =
    elim (Option-cases (oidc.exchange code)) [
      | inl e ↦ absurd (ground arith)
      | inr (none, e) ↦ absurd (ground arith)
      | inr (some raw, e) ↦ elim (Option-cases (oidc.verify raw)) [
        | inl v ↦ absurd (ground arith)
        | inr (token, v) ↦ elim (Option-cases token.claims) [
          | inl c ↦ absurd (ground arith)
          | inr (claims, c) ↦ record {
            raw = raw;
            id_token = token;
            claims = claims;
            exchanged = e;
            verified = v;
            same_nonce = ground (arith, eq_iff token.nonce expected);
            read = c;
            made = ground arith;
          }
        ]
      ]
    ]
