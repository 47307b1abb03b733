-- ===== src/Http/Auth/Logout.antt =====
-- Signing out, and what the guard of the pages does afterwards.
use shiroyagi.Base.{◌≡◌, ◌≢◌, refl, ◌||◌, Option, none, some, [], ◌∷◌, arith, if◌then◌else◌}
use shiroyagi.Base.Int.{ℤ, ltb_ℤ, is_zero}
use shiroyagi.Text.{Bytes, codes, ◌==◌, eq_refl}
use shiroyagi.Dict
use shiroyagi.Auth.Session
use shiroyagi.Auth.Session.{UserSession, SessionStore}
use shiroyagi.Http.Message.{Request, Response, redirect}
use shiroyagi.Http.Auth.{
  Web, session_cookie, require_reauth, is_stale, sign_out, handle_auth_logout, require_session,
}

reauth_delete :
    (s : SessionStore) (d : Dict.Dict UserSession) (subject : Bytes)
    → Session.reauth_after_time (record s { sessions = d }) subject
      ≡ Session.reauth_after_time s subject
unfolding Session.reauth_after_time
reauth_delete s d subject = refl

sessions-require_reauth :
    (now : ℤ) (o : Option UserSession) (s : SessionStore)
    → (require_reauth now o s).sessions ≡ s.sessions
unfolding require_reauth Session.require_reauth_after
sessions-require_reauth now none s = refl
sessions-require_reauth now (some session) s = ground arith

-- The store of sessions after signing out with the session cookie `id`: `id` names no session, and
-- every other identifier names what it named before.
pub get-sign_out :
    (now : ℤ) (id j : Bytes) (s : SessionStore)
    → Session.get (sign_out now (some id) s) j ≡ (if id == j then none else Session.get s j)
unfolding Session.get Session.delete
get-sign_out now id j s =
    rw Dict.lookup-remove (rw (sessions-require_reauth now (Dict.lookup id s.sessions) s))

reauth-require_reauth_after :
    (s : SessionStore) (subject : Bytes) (now : ℤ)
    → subject ≢ []
    → Session.reauth_after_time (Session.require_reauth_after s subject now) subject ≡ some now
unfolding Session.reauth_after_time Session.require_reauth_after
reauth-require_reauth_after s [] now n = absurd (n refl)
reauth-require_reauth_after s (c ∷ rest) now n = simp (Dict.lookup-insert, eq_refl)

reauth-sign_out :
    (now : ℤ) (id : Bytes) (s : SessionStore) (session : UserSession)
    → Session.get s id ≡ some session
    → session.subject ≢ []
    → Session.reauth_after_time (sign_out now (some id) s) session.subject ≡ some now
unfolding Session.delete require_reauth
reauth-sign_out now id s session h named =
    rw h (rw reauth_delete (reauth-require_reauth_after s session.subject now named))

-- A sign-out with a session cookie ends that session: a later request with the cookie is sent to
-- the sign-in page by every guarded handler and changes nothing, and every other identifier names
-- the session that it named before.
pub logout_ends :
    (now : ℤ) (r : Request) (w : Web) (id j : Bytes)
    (next : UserSession → Request → Web → Response × Web)
    → r.cookie session_cookie ≡ some id
    → (require_session next r (handle_auth_logout now r w).1
        ≡ (redirect (codes "/signin") 302, (handle_auth_logout now r w).1))
      × (Session.get (handle_auth_logout now r w).1.store j
          ≡ (if id == j then none else Session.get w.store j))
unfolding handle_auth_logout require_session
logout_ends now r w id j next h =
    (rw h (rw (get-sign_out now id id w.store) (rw eq_refl)), rw h (get-sign_out now id j w.store))

-- After a sign-out at `now` with the cookie of a session whose subject is not empty, a session of
-- that subject counts as stale exactly if its `auth_time` is 0 or before `now`.
pub logout_requires_reauth :
    (now : ℤ) (r : Request) (w : Web) (id : Bytes) (session again : UserSession)
    → r.cookie session_cookie ≡ some id
    → Session.get w.store id ≡ some session
    → session.subject ≢ []
    → again.subject ≡ session.subject
    → is_stale (Session.reauth_after_time (handle_auth_logout now r w).1.store again.subject) again
      ≡ is_zero again.auth_time || ltb_ℤ again.auth_time now
unfolding handle_auth_logout is_stale
logout_requires_reauth now r w id session again h found named same_subject =
    rw (h, same_subject) (rw (reauth-sign_out now id w.store session found named))
