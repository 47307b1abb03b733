-- ===== src/Http/Auth.antt =====
-- internal/http/auth.go and session.go: signing in, signing out and the guard of the pages.
pub mod Grant
pub mod Enter
pub mod Logout
mod Tests
use shiroyagi.Base.{
  ℕ, Bool, true, false, not, ◌||◌, Option, none, some, List, [], ◌∷◌, ◌++◌, if◌then◌else◌,
}
use shiroyagi.Base.Int.{ℤ, pos, negsuc, ltb_ℤ, is_zero}
use shiroyagi.Base.Result.{Result, ok, err}
use shiroyagi.Text.{Bytes, codes, ◌==◌, is_empty}
use shiroyagi.Auth.Session
use shiroyagi.Auth.Session.{UserSession, SessionStore}
use shiroyagi.Auth.Client.{Oidc, exchange_code, AuthCodeOption, auth_code_url}
use shiroyagi.Http.Message.{Request, Response, Cookie, http_error, redirect, with_cookies}
use shiroyagi.Auth.Client
use shiroyagi.Http.Token
use shiroyagi.Http.Token.{random_token}

abbrev pub oauth_state_cookie : Bytes
oauth_state_cookie = codes "shiroyagi_oauth_state"

abbrev pub oauth_nonce_cookie : Bytes
oauth_nonce_cookie = codes "shiroyagi_oauth_nonce"

abbrev pub force_login_cookie : Bytes
force_login_cookie = codes "shiroyagi_force_login"

abbrev pub session_cookie : Bytes
session_cookie = codes "shiroyagi_session"

abbrev pub set_transient_cookie : Bytes → Bytes → Cookie
set_transient_cookie name value = record { name = name; value = value; max_age = pos 300 }

-- 12 hours
abbrev pub set_session_cookie : Bytes → Cookie
set_session_cookie value = record { name = session_cookie; value = value; max_age = pos 43200 }

abbrev pub clear_cookie : Bytes → Cookie
clear_cookie name = record { name = name; value = []; max_age = negsuc 0 }

-- The session store, and the random source.
pub record Web : Type 0 where
  pub store : SessionStore
  pub supply : Bytes

-- `err == nil && cookie.Value == value`
abbrev pub has_value : Option Bytes → Bytes → Bool
has_value none value = false
has_value (some v) value = v == value

-- A cookie that is there and not empty.
abbrev pub present : Option Bytes → Option Bytes
present none = none
present (some v) = if is_empty v then none else some v

abbrev pub fail : Bytes → ℕ → Web → Response × Web
fail message status w = (http_error message status, w)

module _ (url : Bytes → List AuthCodeOption → Bytes) (r : Request) where
  -- After the two tokens.
  unfoldable pub start_login : Bytes → Bytes → Response
  start_login state nonce =
      let force = has_value (r.cookie force_login_cookie) (codes "1") in
      with_cookies
        (set_transient_cookie oauth_state_cookie state
          ∷ set_transient_cookie oauth_nonce_cookie nonce
          ∷ (if force then clear_cookie force_login_cookie ∷ [] else []))
        (redirect (auth_code_url url state nonce force) 302)

  unfoldable pub nonce_of_login : Bytes → Result Token.Error Bytes × Bytes → Web → Response × Web
  unfolding start_login
  nonce_of_login state (err e, rest) w =
      fail (codes "failed to create login nonce") 500 (record w { supply = rest })
  nonce_of_login state (ok nonce, rest) w = (start_login state nonce, record w { supply = rest })

  unfoldable pub state_of_login : Result Token.Error Bytes × Bytes → Web → Response × Web
  unfolding nonce_of_login
  state_of_login (err e, rest) w =
      fail (codes "failed to create login state") 500 (record w { supply = rest })
  state_of_login (ok state, rest) w = nonce_of_login state (random_token rest) w

  unfoldable pub handle_auth_login : Web → Response × Web
  unfolding state_of_login
  handle_auth_login w = state_of_login (random_token w.supply) w

-- `ok && (session.AuthTime == 0 || session.AuthTime < reauthAfter)`
unfoldable pub is_stale : Option ℤ → UserSession → Bool
is_stale none session = false
is_stale (some after) session = is_zero session.auth_time || ltb_ℤ session.auth_time after

-- The marker is removed only where there is one.
unfoldable pub clear_marker : Option ℤ → SessionStore → Bytes → SessionStore
clear_marker none s subject = s
clear_marker (some after) s subject = Session.clear_reauth_after s subject

-- The new session under a random identifier.
unfoldable pub create_session :
    UserSession → Result Token.Error Bytes × Bytes → SessionStore → Response × Web
create_session session (err e, rest) s =
    fail (codes "failed to create session") 500 (record { store = s; supply = rest })
create_session session (ok id, rest) s = (
  with_cookies (set_session_cookie id ∷ []) (redirect (codes "/") 302),
  record { store = Session.put s id session; supply = rest },
)

-- From the verified session on.
unfoldable pub admit : UserSession → Web → Response × Web
unfolding is_stale clear_marker create_session
admit session w =
    let after = Session.reauth_after_time w.store session.subject in
    if is_stale after session
    then fail (codes "fresh Keycloak authentication required") 401 w
    else create_session session (random_token w.supply) (clear_marker after w.store session.subject)

abbrev pub clear_login_cookies : Response × Web → Response × Web
clear_login_cookies (r, w) =
    (with_cookies (clear_cookie oauth_state_cookie ∷ clear_cookie oauth_nonce_cookie ∷ []) r, w)

module _ (oidc : Oidc) (now : ℤ) where
  abbrev pub admit_or_fail : Result Client.Error UserSession → Web → Response × Web
  admit_or_fail (err e) w = fail (codes "failed to exchange OIDC code") 502 w
  admit_or_fail (ok session) w = admit session w

  -- After the two cookies have been cleared.
  unfoldable pub exchange : Bytes → Bytes → Web → Response × Web
  unfolding admit
  exchange code nonce w =
      if is_empty code
      then fail (codes "missing OIDC code") 400 w
      else admit_or_fail (exchange_code oidc now code nonce) w

  abbrev pub check_nonce : Request → Option Bytes → Web → Response × Web
  check_nonce r none w = fail (codes "missing OIDC nonce") 400 w
  check_nonce r (some nonce) w = clear_login_cookies (exchange (r.query (codes "code")) nonce w)

  abbrev pub check_state : Request → Option Bytes → Web → Response × Web
  check_state r none w = fail (codes "invalid OIDC state") 400 w
  check_state r (some state) w =
      if not (r.query (codes "state") == state)
      then fail (codes "invalid OIDC state") 400 w
      else check_nonce r (present (r.cookie oauth_nonce_cookie)) w

  unfoldable pub handle_auth_callback : Request → Web → Response × Web
  unfolding exchange
  handle_auth_callback r w =
      if not (is_empty (r.query (codes "error")))
      then fail (codes "OIDC login failed") 400 w
      else check_state r (present (r.cookie oauth_state_cookie)) w

-- What the session of the cookie leaves behind.
unfoldable pub require_reauth : ℤ → Option UserSession → SessionStore → SessionStore
require_reauth now none s = s
require_reauth now (some session) s = Session.require_reauth_after s session.subject now

abbrev pub sign_out : ℤ → Option Bytes → SessionStore → SessionStore
sign_out now none s = s
sign_out now (some id) s = Session.delete (require_reauth now (Session.get s id) s) id

unfoldable pub handle_auth_logout : ℤ → Request → Web → Response × Web
unfolding require_reauth
handle_auth_logout now r w = (
  with_cookies
      (clear_cookie session_cookie ∷ set_transient_cookie force_login_cookie (codes "1") ∷ [])
      (redirect (codes "/") 302),
  record w { store = sign_out now (r.cookie session_cookie) w.store },
)

-- `currentSession`
abbrev pub session_of : SessionStore → Option Bytes → Option UserSession
session_of s none = none
session_of s (some id) = Session.get s id

unfoldable pub current_session : SessionStore → Request → Option UserSession
current_session s r = session_of s (r.cookie session_cookie)

-- `requireSession`: the handler runs with the session in its context.
abbrev pub guarded : {A : Type 0} → A → (UserSession → A) → Option UserSession → A
guarded signin next none = signin
guarded signin next (some session) = next session

unfoldable pub require_session :
    (UserSession → Request → Web → Response × Web) → Request → Web → Response × Web
unfolding current_session
require_session next r w =
    guarded (redirect (codes "/signin") 302, w) (λ session. next session r w)
      (current_session w.store r)
