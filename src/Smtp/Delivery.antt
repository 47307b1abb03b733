-- ===== src/Smtp/Delivery.antt =====
-- What a successful `Send` of internal/smtp/client.go did.
use shiroyagi.Base.{
  ◌≡◌, refl, sym, ap, subst, ◌∙◌, Bool, true, false, List, [], ◌∷◌, ◌++◌, append-nil, append_assoc,
  map, if◌then◌else◌,
}
use shiroyagi.Base.Result.{Result, ok, err}
use shiroyagi.Base.Result
use shiroyagi.Base.Exec
use shiroyagi.Base.Exec.{Exec, continue, pure, lift, ◌>>◌}
use shiroyagi.Text.{Bytes, codes, ◌==◌}
use shiroyagi.Smtp.Message.{Message, build_message}
use shiroyagi.Smtp.Send.{
  Account, Event, SendError, Log, Call, smtp_auth, dial, dial_tls, greet, has_starttls, start_tls,
  authenticate, mail_from, rcpt_to, begin_data, write_data, end_data, quit,
}

-- A call that succeeds makes exactly the calls `events`.
abbrev pub Does : Call → List Event → Type 0
Does m events = (log : Log) → (m log).0 ≡ ok tt → (m log).1 ≡ log ++ events

continue-eq-ok :
    {A : Type 0} (r : Result SendError A) (f : A → Call) (log : Log)
    → (continue r f log).0 ≡ ok tt
    → (a : A) × (r ≡ ok a) × ((f a log).0 ≡ ok tt) × ((continue r f log).1 ≡ (f a log).1)
continue-eq-ok (ok a) f log h = (a, refl, h, refl)
continue-eq-ok (err x) f log h = absurd (cc)

pub Does-bind : (m k : Call) (es fs : List Event) → Does m es → Does k fs → Does (m >> k) (es ++ fs)
Does-bind m k es fs first second log h =
    let (_, done, rest, same_log) = continue-eq-ok (m log).0 (λ _. k) (m log).1 h in
    let after : (m log).1 ≡ log ++ es = first log done in
    same_log ∙ second (m log).1 rest ∙ ap (λ l. l ++ fs) after ∙ append_assoc log es fs

pub Does-pure : Does (pure tt) []
Does-pure log h = sym (append-nil log)

-- A step that only computes a value.
pub Does-lift :
    {A : Type 0} (r : Result SendError A) (a : A) (k : A → Call) (es : List Event)
    → r ≡ ok a
    → Does (k a) es
    → Does (Exec.◌>>=◌ (lift r) k) es
Does-lift (ok b) a k es e d = subst (λ c. Does (k c) es) (cc) d
Does-lift (err x) a k es e d = absurd (cc)

pub Does-guard :
    (b : Bool) (x : SendError) (k : Call) (es : List Event)
    → Does k es
    → Does (lift (Result.guard b x) >> k) es
Does-guard true x k es d = d
Does-guard false x k es d = λ log h. absurd (cc)

-- The calls that open the connection of an account.
abbrev pub opening : Account → List Event
opening a =
    if a.security == codes "smtps"
    then dial_tls ∷ greet ∷ []
    else dial
      ∷ greet
      ∷ (if a.security == codes "starttls" then has_starttls ∷ start_tls ∷ [] else [])

-- The dialogue that hands over one message to its recipients.
abbrev pub dialogue : Account → Message → List Bytes → List Event
dialogue a m recipients =
    authenticate (smtp_auth a)
    ∷ mail_from m.from
    ∷ (map rcpt_to recipients ++ (begin_data ∷ write_data (build_message m) ∷ end_data ∷ quit ∷ []))
