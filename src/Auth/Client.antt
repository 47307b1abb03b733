-- ===== src/Auth/Client.antt =====
-- `ExchangeCode` of internal/auth/client.go. The token endpoint and the verification of ID tokens
-- are the work of golang.org/x/oauth2 and github.com/coreos/go-oidc.
use shiroyagi.Base.{◌≡◌, Bool, not, Option, some, List, [], ◌∷◌, if◌then◌else◌}
use shiroyagi.Base.Int.{ℤ}
use shiroyagi.Base.Result.{Result, ok, or_err, guard, ◌>>=◌, ◌>>◌}
use shiroyagi.Text.{Bytes, codes, ◌==◌, is_empty}
use shiroyagi.Auth.Session.{UserSession}

pub record IdTokenClaims : Type 0 where
  pub subject : Bytes
  pub email : Bytes
  pub name : Bytes
  pub preferred_username : Bytes
  pub auth_time : ℤ

-- `claims` is none where the payload is not the JSON that the struct asks for.
pub record IdToken : Type 0 where
  pub nonce : Bytes
  pub claims : Option IdTokenClaims

-- `exchange code` is none on an error, and otherwise holds the token's string field `id_token`, if
-- there is one; `verify` is none where the verifier refuses the raw token.
pub record Oidc : Type 0 where
  pub exchange : Bytes → Option (Option Bytes)
  pub verify : Bytes → Option IdToken

pub data Error : Type 0 where
  exchange_failed missing_id_token verify_failed invalid_nonce bad_claims : Error

abbrev pub user_session : IdTokenClaims → ℤ → UserSession
user_session c now = record {
  subject = c.subject;
  email = c.email;
  name = c.name;
  preferred_username = c.preferred_username;
  auth_time = c.auth_time;
  created_at = now;
}

unfoldable pub exchange_code : Oidc → ℤ → Bytes → Bytes → Result Error UserSession
exchange_code oidc now code expected_nonce = do
  token ← or_err (oidc.exchange code) exchange_failed
  raw_id_token ← or_err token missing_id_token
  guard (not (is_empty raw_id_token)) missing_id_token
  id_token ← or_err (oidc.verify raw_id_token) verify_failed
  guard (id_token.nonce == expected_nonce) invalid_nonce
  claims ← or_err id_token.claims bad_claims
  ok (user_session claims now)

pub data AuthCodeOption : Type 0 where
  nonce : Bytes → AuthCodeOption
  max_age : Bytes → AuthCodeOption

-- `AuthCodeURL`; `url` is that of golang.org/x/oauth2, for this client.
unfoldable pub auth_code_url : (Bytes → List AuthCodeOption → Bytes) → Bytes → Bytes → Bool → Bytes
auth_code_url url state n force_reauth =
    url state (nonce n ∷ (if force_reauth then max_age (codes "0") ∷ [] else []))

-- What a successful exchange rests on.
pub record Exchanged (oidc : Oidc) (now : ℤ) (code expected : Bytes) (session : UserSession)
    : Type 0 where
  pub raw : Bytes
  pub id_token : IdToken
  pub claims : IdTokenClaims
  pub exchanged : oidc.exchange code ≡ some (some raw)
  pub verified : oidc.verify raw ≡ some id_token
  pub same_nonce : id_token.nonce ≡ expected
  pub read : id_token.claims ≡ some claims
  pub made : session ≡ user_session claims now
