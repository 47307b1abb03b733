-- ===== src/Http/Auth/Grant.antt =====
-- Who gets a session.
use shiroyagi.Base.{
  ◌≡◌, ◌≢◌, ◌⊎◌, inl, inr, refl, ap, ◌∙◌, true, false, ◌∷◌, Option, none, some, [], arith,
  Option-cases, Bool-cases,
}
use shiroyagi.Base.Int.{ℤ, ◌≤ℤ◌, pos}
use shiroyagi.Base.Result.{Result, ok, err}
use shiroyagi.Text.{Bytes, codes, eq_iff, is_empty, ◌==◌}
use shiroyagi.Dict
use shiroyagi.Auth.Session
use shiroyagi.Auth.Session.{UserSession, SessionStore}
use shiroyagi.Auth.Client
use shiroyagi.Auth.Client.{Oidc, Exchanged, exchange_code}
use shiroyagi.Auth.Exchange.{exchange_code-Exchanged}
use shiroyagi.Http.Message.{Request, Response}
use shiroyagi.Http.Token
use shiroyagi.Http.Token.{random_token}
use shiroyagi.Http.Auth.{
  Web, oauth_state_cookie, oauth_nonce_cookie, is_stale, clear_marker, create_session, admit,
  present, admit_or_fail, exchange, handle_auth_callback,
}

-- `session` was put into the store `w.store` under a fresh identifier, and its sign-in is not
-- older than the last sign-out of its subject.
pub record Admitted (session : UserSession) (w w' : Web) : Type 0 where
  pub id : Bytes
  pub random : (random_token w.supply).0 ≡ ok id
  pub put : w'.store.sessions ≡ Dict.insert id session w.store.sessions
  pub fresh :
      (Session.reauth_after_time w.store session.subject ≡ none)
      ⊎ ((t : ℤ) × (Session.reauth_after_time w.store session.subject ≡ some t)
          × (session.auth_time ≢ pos 0)
          × (t ≤ℤ session.auth_time))

create_session_cases :
    (session : UserSession) (token : Result Token.Error Bytes × Bytes) (s : SessionStore)
    → ((create_session session token s).1.store ≡ s)
      ⊎ ((id : Bytes) × (token.0 ≡ ok id)
          × ((create_session session token s).1.store ≡ Session.put s id session))
unfolding create_session
create_session_cases session (err e, rest) s = inl refl
create_session_cases session (ok id, rest) s = inr (id, refl, refl)

sessions-clear_marker :
    (after : Option ℤ) (s : SessionStore) (subject : Bytes)
    → (clear_marker after s subject).sessions ≡ s.sessions
unfolding clear_marker Session.clear_reauth_after
sessions-clear_marker none s subject = refl
sessions-clear_marker (some t) s subject = ground arith

fresh_of_is_stale :
    (session : UserSession) (after : Option ℤ)
    → is_stale after session ≡ false
    → (after ≡ none)
      ⊎ ((t : ℤ) × (after ≡ some t) × (session.auth_time ≢ pos 0) × (t ≤ℤ session.auth_time))
unfolding is_stale
fresh_of_is_stale session none h = inl refl
fresh_of_is_stale session (some t) h = inr (t, refl, (λ e. ground arith), ground arith)

abbrev created : UserSession → Web → Response × Web
created session w =
    create_session session (random_token w.supply)
      (clear_marker (Session.reauth_after_time w.store session.subject) w.store session.subject)

created_cases :
    (session : UserSession) (w : Web)
    → is_stale (Session.reauth_after_time w.store session.subject) session ≡ false
    → ((created session w).1.store.sessions ≡ w.store.sessions)
      ⊎ Admitted session w (created session w).1
created_cases session w h =
    let after = Session.reauth_after_time w.store session.subject in
    let s = clear_marker after w.store session.subject in
    let kept = sessions-clear_marker after w.store session.subject in
    elim (create_session_cases session (random_token w.supply) s) [
      | inl e ↦ inl (ap (λ (t : SessionStore). t.sessions) e ∙ kept)
      | inr (id, random, e) ↦ inr (record {
        id = id;
        random = random;
        put =
            ap (λ (t : SessionStore). t.sessions) e
            ∙ unfold Session.put in ap (Dict.insert id session) kept;
        fresh = fresh_of_is_stale session after h;
      })
    ]

pub admit_cases :
    (session : UserSession) (w : Web)
    → ((admit session w).1.store.sessions ≡ w.store.sessions)
      ⊎ Admitted session w (admit session w).1
admit_cases session w =
    elim (Bool-cases (is_stale (Session.reauth_after_time w.store session.subject) session)) [
      | inl stale ↦ inl (unfold admit in rw stale)
      | inr e ↦ unfold admit in rw e (created_cases session w e)
    ]

-- What a callback that creates a session was given.
pub record Granted (oidc : Oidc) (now : ℤ) (r : Request) (w w' : Web) : Type 0 where
  pub no_error : r.query (codes "error") ≡ []
  pub state : Bytes
  pub state_set : (r.cookie oauth_state_cookie ≡ some state) × (state ≢ [])
  pub state_matches : r.query (codes "state") ≡ state
  pub nonce : Bytes
  pub nonce_set : (r.cookie oauth_nonce_cookie ≡ some nonce) × (nonce ≢ [])
  pub code_given : r.query (codes "code") ≢ []
  pub session : UserSession
  pub exchanged : Exchanged oidc now (r.query (codes "code")) nonce session
  pub admitted : Admitted session w w'

present-eq-some : (o : Option Bytes) (v : Bytes) → present o ≡ some v → (o ≡ some v) × (v ≢ [])
present-eq-some none v h = absurd (cc)
present-eq-some (some []) v h = absurd (cc)
present-eq-some (some (c ∷ s)) v h = (ground arith, λ e. absurd (ground arith))

eq-nil_of_is_empty : (s : Bytes) → is_empty s ≡ true → s ≡ []
eq-nil_of_is_empty [] h = refl
eq-nil_of_is_empty (c ∷ s) h = absurd (cc)

ne-nil_of_is_empty : (s : Bytes) → is_empty s ≡ false → s ≢ []
ne-nil_of_is_empty [] h = absurd (cc)
ne-nil_of_is_empty (c ∷ s) h = λ e. absurd (cc)

module _ (oidc : Oidc) (now : ℤ) (w : Web) where
  Exchanged-cases :
      (code nonce : Bytes) (x : Result Client.Error UserSession)
      → exchange_code oidc now code nonce ≡ x
      → ((admit_or_fail oidc now x w).1.store.sessions ≡ w.store.sessions)
        ⊎ ((session : UserSession) × Exchanged oidc now code nonce session
            × Admitted session w (admit_or_fail oidc now x w).1)
  Exchanged-cases code nonce (err e) h = inl refl
  Exchanged-cases code nonce (ok session) h = elim (admit_cases session w) [
    | inl kept ↦ inl kept
    | inr a ↦ inr (session, exchange_code-Exchanged oidc now code nonce session h, a)
  ]

  exchange_cases :
      (code nonce : Bytes)
      → ((exchange oidc now code nonce w).1.store.sessions ≡ w.store.sessions)
        ⊎ ((code ≢ [])
            × ((session : UserSession) × Exchanged oidc now code nonce session
                × Admitted session w (exchange oidc now code nonce w).1))
  unfolding exchange
  exchange_cases code nonce = elim (Bool-cases (is_empty code)) [
    | inl e ↦ inl (rw e)
    | inr e ↦ rw e (elim (Exchanged-cases code nonce _ refl) [
      | inl kept ↦ inl kept
      | inr found ↦ inr (ne-nil_of_is_empty code e, found)
    ])
  ]

  -- A callback changes no session, or it adds exactly one. Then the request had no error, its state
  -- is the value of a state cookie that is not empty, it has a code and a nonce cookie that is not
  -- empty, the code was exchanged for an ID token that was verified and has that nonce, and the
  -- session added is made of the claims of that token. If the store remembers a sign-out of the
  -- subject, the `auth_time` of the session is not 0 and not before that sign-out.
  pub callback-Granted :
      (r : Request)
      → ((handle_auth_callback oidc now r w).1.store.sessions ≡ w.store.sessions)
        ⊎ Granted oidc now r w (handle_auth_callback oidc now r w).1
  unfolding handle_auth_callback
  callback-Granted r = elim (Bool-cases (is_empty (r.query (codes "error")))) [
    | inr e ↦ inl (rw e)
    | inl e ↦ rw e (elim (Option-cases (present (r.cookie oauth_state_cookie))) [
      | inl s ↦ inl (rw s)
      | inr (state, s) ↦ rw s (elim (Bool-cases (r.query (codes "state") == state)) [
        | inr m ↦ inl (rw m)
        | inl m ↦ rw m (elim (Option-cases (present (r.cookie oauth_nonce_cookie))) [
          | inl n ↦ inl (rw n)
          | inr (nonce, n) ↦ rw n (elim (exchange_cases (r.query (codes "code")) nonce) [
            | inl kept ↦ inl kept
            | inr (given, (session, exchanged, admitted)) ↦ inr (record {
              no_error = eq-nil_of_is_empty _ e;
              state = state;
              state_set = present-eq-some _ state s;
              state_matches = (eq_iff _ state).0 m;
              nonce = nonce;
              nonce_set = present-eq-some _ nonce n;
              code_given = given;
              session = session;
              exchanged = exchanged;
              admitted = admitted;
            })
          ])
        ])
      ])
    ])
  ]
