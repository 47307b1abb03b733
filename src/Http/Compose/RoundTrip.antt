-- ===== src/Http/Compose/RoundTrip.antt =====
-- A form that the pages of internal/http/smtp_reply.go and smtp_forward.go offer is one that
-- `parseComposeMessageForm` of smtp_send.go accepts.
use shiroyagi.Base.{
  ◌≡◌, ◌≢◌, inl, inr, refl, sym, ap, ◌∙◌, not, true, false, Bool-cases, Option, none, some, [], ◌∷◌,
  arith, if◌then◌else◌,
}
use shiroyagi.Text.{Bytes, codes, is_empty, decimal, parse_uint-decimal, ◌==◌}
use shiroyagi.Http.Message.{Request}
use shiroyagi.Http.Compose.Form.{
  ComposeForm, requires_original, valid_mode, posted_form, with_uid, with_required_uid, complete,
  parse_compose_message_form,
}
use shiroyagi.Http.Compose.Valid.{Sendable}

-- The fields of a form as a browser posts them; the UID in decimal.
unfoldable pub posted_field : ComposeForm → Bytes → Bytes
unfolding decimal ◌==◌
posted_field f name =
    if name == codes "mode"
    then f.mode
    else if name == codes "mailbox"
    then f.mailbox
    else if name == codes "uid"
    then decimal f.uid
    else if name == codes "to"
    then f.to
    else if name == codes "cc"
    then f.cc
    else if name == codes "subject"
    then f.subject
    else if name == codes "body"
    then f.body
    else []

-- A request that posts the form.
abbrev pub post : Request → ComposeForm → Request
post r f = record r { form = posted_field f }

filled : (s : Bytes) → s ≢ [] → is_empty s ≡ false
filled [] h = absurd (h refl)
filled (c ∷ s) h = refl

posted_form-post :
    (r : Request) (f : ComposeForm) → f.mode ≢ [] → posted_form (post r f) ≡ record f { uid = 0 }
unfolding posted_field ◌==◌
posted_form-post r f h = rw (filled f.mode h) refl

complete-filled :
    (f : ComposeForm) → f.to ≢ [] → f.subject ≢ [] → f.body ≢ [] → complete (some f) ≡ some f
complete-filled f to subject body =
    rw (filled f.to to, filled f.subject subject, filled f.body body) refl

valid_mode-filled : (mode : Bytes) → valid_mode mode ≡ true → mode ≢ []
unfolding valid_mode ◌==◌
valid_mode-filled [] h = absurd (cc)
valid_mode-filled (c ∷ mode) h = λ e. cc

with_uid-some :
    (f : ComposeForm)
    → f.mailbox ≢ []
    → f.uid ≢ 0
    → with_uid (record f { uid = 0 }) (some f.uid) ≡ some f
with_uid-some f mailbox positive = ground (arith, filled f.mailbox mailbox)

required-some :
    (f : ComposeForm)
    → Sendable f
    → (requires_original f.mode ≡ false → f.uid ≡ 0)
    → with_required_uid (decimal f.uid) (record f { uid = 0 }) ≡ some f
unfolding with_required_uid
required-some f s none_needed = elim (Bool-cases (requires_original f.mode)) [
  | inl needed ↦
      rw (needed, parse_uint-decimal f.uid 32 s.small)
        (with_uid-some f (s.mailbox needed) (s.positive needed))
  | inr free ↦ rw free (ap (λ n. some (record f { uid = n })) (sym (none_needed free)))
]

-- `parseComposeMessageForm` of the fields of a form
abbrev parse_posted : Bytes → ComposeForm → Option ComposeForm
unfolding valid_mode with_required_uid
parse_posted uid g = if not (valid_mode g.mode) then none else complete (with_required_uid uid g)

parse_posted-some :
    (uid : Bytes) (g f : ComposeForm)
    → valid_mode g.mode ≡ true
    → with_required_uid uid g ≡ some f
    → complete (some f) ≡ some f
    → parse_posted uid g ≡ some f
unfolding parse_posted
parse_posted-some uid g f known found whole = rw (known, found) whole

-- A form that can be sent, and whose UID is 0 where its mode needs no original message, is what
-- `parseComposeMessageForm` reads from a request that posts its fields as they are.
pub parse_compose_message_form-post :
    (r : Request) (f : ComposeForm)
    → Sendable f
    → (requires_original f.mode ≡ false → f.uid ≡ 0)
    → parse_compose_message_form (post r f) ≡ some f
unfolding parse_compose_message_form posted_field parse_posted ◌==◌
parse_compose_message_form-post r f s none_needed =
    ap (parse_posted (decimal f.uid)) (posted_form-post r f (valid_mode-filled f.mode s.mode))
    ∙ parse_posted-some (decimal f.uid) (record f { uid = 0 }) f s.mode
        (required-some f s none_needed) (complete-filled f s.to s.subject s.body)
