-- ===== src/Http/Auth/Tests.antt =====
-- The theorems on signing in and out, at concrete inputs.
use shiroyagi.Base.{◌≡◌, ◌⊎◌, ◌||◌, refl, true, none, some, [], ◌∷◌, if◌then◌else◌, replicate}
use shiroyagi.Base.Int.{pos, is_zero, ltb_ℤ}
use shiroyagi.Text.{Bytes, codes, ◌==◌}
use shiroyagi.Dict
use shiroyagi.Auth.Session
use shiroyagi.Auth.Session.{UserSession, SessionStore, new_session_store}
use shiroyagi.Auth.Client.{Oidc, IdTokenClaims, exchange_code, user_session}
use shiroyagi.Http.Message.{Request, Response, redirect, with_cookies}
use shiroyagi.Http.Token.{random_token, base64}
use shiroyagi.Http.Auth.{
  Web, oauth_state_cookie, oauth_nonce_cookie, session_cookie, clear_cookie, set_session_cookie,
  is_stale, handle_auth_callback, handle_auth_logout, require_session,
}
use shiroyagi.Http.Auth.Enter.{callback_enters, after_sign_in}
use shiroyagi.Http.Auth.Grant.{Granted, callback-Granted}
use shiroyagi.Http.Auth.Logout.{logout_ends, logout_requires_reauth}

abbrev claims : IdTokenClaims
claims = record {
  subject = codes "u1";
  email = codes "u@example.test";
  name = [];
  preferred_username = [];
  auth_time = pos 100;
}

abbrev oidc : Oidc
oidc = record {
  exchange = λ code. if code == codes "good" then some (some (codes "raw")) else none;
  verify = λ raw. some (record { nonce = codes "n"; claims = some claims });
}

abbrev callback_request : Request
callback_request = record {
  cookie = λ name.
      if name == oauth_state_cookie
      then some (codes "s")
      else if name == oauth_nonce_cookie
      then some (codes "n")
      else none;
  query = λ key.
      if key == codes "state" then codes "s" else if key == codes "code" then codes "good" else [];
  path_value = λ name. [];
  form_ok = true;
  form = λ name. [];
}

abbrev start : Web
start = record { store = new_session_store; supply = replicate 40 0 }

abbrev id : Bytes
id = replicate 43 b'A'

abbrev page_request : Request
page_request = record callback_request {
  cookie = λ name. if name == session_cookie then some id else none;
}

abbrev session : UserSession
session = user_session claims (pos 200)

abbrev next : UserSession → Request → Web → Response × Web
next s r w = (redirect s.subject 200, w)

callback_enters_example :
    (handle_auth_callback oidc (pos 200) callback_request start ≡ (
      with_cookies
          (clear_cookie oauth_state_cookie
            ∷ clear_cookie oauth_nonce_cookie
            ∷ set_session_cookie id
            ∷ [])
          (redirect (codes "/") 302),
      after_sign_in session id (replicate 8 0) start,
    ))
    × (require_session next page_request (after_sign_in session id (replicate 8 0) start)
        ≡ next session page_request (after_sign_in session id (replicate 8 0) start))
unfolding ◌==◌ exchange_code is_stale Session.reauth_after_time Dict.lookup Dict.empty random_token
    base64
callback_enters_example =
    callback_enters oidc (pos 200) callback_request start (codes "s") (codes "n") id (replicate 8 0)
      session refl refl (cc) refl refl (cc) (cc) refl refl refl next page_request refl

callback-Granted_example :
    ((handle_auth_callback oidc (pos 200) callback_request start).1.store.sessions
      ≡ start.store.sessions)
    ⊎ Granted oidc
        (pos 200)
        callback_request
        start
        (handle_auth_callback oidc (pos 200) callback_request start).1
callback-Granted_example = callback-Granted oidc (pos 200) start callback_request

abbrev signed_in : Web
signed_in = after_sign_in session id [] start

logout_ends_example :
    (require_session next page_request (handle_auth_logout (pos 300) page_request signed_in).1
      ≡ (redirect (codes "/signin") 302, (handle_auth_logout (pos 300) page_request signed_in).1))
    × (Session.get (handle_auth_logout (pos 300) page_request signed_in).1.store (codes "x")
        ≡ (if id == codes "x" then none else Session.get signed_in.store (codes "x")))
unfolding ◌==◌
logout_ends_example = logout_ends (pos 300) page_request signed_in id (codes "x") next refl

logout_requires_reauth_example :
    is_stale
      (Session.reauth_after_time
        (handle_auth_logout (pos 300) page_request signed_in).1.store
        (codes "u1"))
      session
    ≡ is_zero (pos 100) || ltb_ℤ (pos 100) (pos 300)
unfolding ◌==◌ Session.get Session.put Dict.lookup Dict.insert Dict.empty is_stale
    Session.reauth_after_time
logout_requires_reauth_example =
    logout_requires_reauth (pos 300) page_request signed_in id session session refl refl (λ e. cc)
      refl
