-- ===== src/Http/Auth/Enter.antt =====
-- The successful way through the callback.
use shiroyagi.Base.{◌≡◌, ◌≢◌, refl, false, Option, some, [], ◌∷◌}
use shiroyagi.Base.Int.{ℤ}
use shiroyagi.Base.Result.{ok}
use shiroyagi.Text.{Bytes, codes, eq_refl, is_empty}
use shiroyagi.Dict
use shiroyagi.Auth.Session
use shiroyagi.Auth.Session.{UserSession, SessionStore}
use shiroyagi.Auth.Client.{Oidc, exchange_code}
use shiroyagi.Http.Message.{Request, Response, redirect, with_cookies}
use shiroyagi.Http.Token.{random_token}
use shiroyagi.Http.Auth.{
  Web, oauth_state_cookie, oauth_nonce_cookie, session_cookie, clear_cookie, set_session_cookie,
  present, is_stale, clear_marker, create_session, admit, exchange, handle_auth_callback,
  require_session,
}

is_empty_of_ne-nil : (s : Bytes) → s ≢ [] → is_empty s ≡ false
is_empty_of_ne-nil [] h = absurd (h refl)
is_empty_of_ne-nil (c ∷ s) h = refl

present_of_ne-nil : (o : Option Bytes) (v : Bytes) → o ≡ some v → v ≢ [] → present o ≡ some v
present_of_ne-nil o v e h = rw e (rw (is_empty_of_ne-nil v h))

-- The store after an admitted sign-in.
abbrev pub entered : UserSession → Bytes → SessionStore → SessionStore
entered session id s =
    Session.put (clear_marker (Session.reauth_after_time s session.subject) s session.subject) id
      session

abbrev pub after_sign_in : UserSession → Bytes → Bytes → Web → Web
after_sign_in session id rest w = record { store = entered session id w.store; supply = rest }

module _ (oidc : Oidc) (now : ℤ) (r : Request) (w : Web) (state nonce id rest : Bytes)
    (session : UserSession) (no_error : r.query (codes "error") ≡ [])
    (state_set : r.cookie oauth_state_cookie ≡ some state) (state_given : state ≢ [])
    (state_matches : r.query (codes "state") ≡ state)
    (nonce_set : r.cookie oauth_nonce_cookie ≡ some nonce) (nonce_given : nonce ≢ [])
    (code_given : r.query (codes "code") ≢ [])
    (exchanged : exchange_code oidc now (r.query (codes "code")) nonce ≡ ok session)
    (fresh : is_stale (Session.reauth_after_time w.store session.subject) session ≡ false)
    (random : random_token w.supply ≡ (ok id, rest)) where
  -- A callback with the state of its cookie, a nonce cookie and a code that is exchanged for a
  -- session which is not stale, with enough random bytes, clears the two cookies of the flow, sets
  -- the session cookie to the new identifier, redirects to "/", and stores the session under the
  -- identifier; and a guarded request with that session cookie then runs its handler with the
  -- session.
  pub callback_enters :
      (next : UserSession → Request → Web → Response × Web) (q : Request)
      → q.cookie session_cookie ≡ some id
      → (handle_auth_callback oidc now r w ≡ (
        with_cookies
            (clear_cookie oauth_state_cookie
              ∷ clear_cookie oauth_nonce_cookie
              ∷ set_session_cookie id
              ∷ [])
            (redirect (codes "/") 302),
        after_sign_in session id rest w,
      ))
        × (require_session next q (after_sign_in session id rest w)
            ≡ next session q (after_sign_in session id rest w))
  unfolding handle_auth_callback exchange admit create_session require_session Session.get
      Session.put
  callback_enters next q c = (
    rw (no_error, present_of_ne-nil _ state state_set state_given, state_matches, eq_refl)
        (rw (present_of_ne-nil _ nonce nonce_set nonce_given)
          (rw (is_empty_of_ne-nil _ code_given, exchanged, fresh, random))),
    rw c (rw Dict.lookup-insert (rw eq_refl)),
  )
