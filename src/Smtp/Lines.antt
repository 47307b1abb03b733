-- ===== src/Smtp/Lines.antt =====
-- The line breaks of the text that `buildMessage` of internal/smtp/client.go makes.
use shiroyagi.Base.{
  ℕ, ◌+◌, ◌-◌, ◌*◌, ◌≡◌, refl, ◌∙◌, ◌||◌, List, [], ◌∷◌, ◌++◌, length, same, if◌then◌else◌, arith,
}
use shiroyagi.Text.{Bytes, codes, join}
use shiroyagi.Smtp.Message.{
  Message, sanitize_header_value, message_headers, other_headers, thread_headers, mime_headers,
  crlf, optional_header,
}

-- How many of the bytes are CR or LF.
abbrev pub breaks : Bytes → ℕ
breaks [] = 0
breaks (c ∷ s) = (if same c 13 || same c 10 then 1 else 0) + breaks s

breaks-append : (s t : Bytes) → breaks (s ++ t) ≡ breaks s + breaks t
breaks-append [] t = omega arith
breaks-append (c ∷ s) t = omega (arith, breaks-append s t)

breaks-sanitize_header_value : (s : Bytes) → breaks (sanitize_header_value s) ≡ 0
unfolding sanitize_header_value
breaks-sanitize_header_value [] = refl
breaks-sanitize_header_value (c ∷ s) = ground (arith, breaks-sanitize_header_value s)

abbrev pub total : List Bytes → ℕ
total [] = 0
total (p ∷ ps) = breaks p + total ps

total-append : (ps qs : List Bytes) → total (ps ++ qs) ≡ total ps + total qs
total-append [] qs = omega arith
total-append (p ∷ ps) qs = omega (arith, total-append ps qs)

breaks-join :
    (p : Bytes) (ps : List Bytes) → breaks (join (p ∷ ps) crlf) ≡ total (p ∷ ps) + 2 * length ps
unfolding join
breaks-join p [] = omega arith
breaks-join p (q ∷ ps) =
    breaks-append (p ++ crlf) (join (q ∷ ps) crlf)
    ∙ omega (arith, breaks-append p crlf, breaks-join q ps)

-- A header whose value is sanitized.
breaks-sanitized :
    (name value : Bytes) → breaks name ≡ 0 → breaks (name ++ sanitize_header_value value) ≡ 0
breaks-sanitized name value h =
    breaks-append name (sanitize_header_value value)
    ∙ omega (arith, h, breaks-sanitize_header_value value)

total-optional_header :
    (name value : Bytes) → breaks name ≡ 0 → total (optional_header name value) ≡ 0
total-optional_header name [] h = refl
total-optional_header name (c ∷ s) h = omega (arith, breaks-sanitized name (c ∷ s) h)

extend_clean : (l ps : List Bytes) → total l ≡ 0 → total ps ≡ 0 → total (l ++ ps) ≡ 0
extend_clean l ps h k = total-append l ps ∙ omega (arith, h, k)

cons_clean : (p : Bytes) (ps : List Bytes) → breaks p ≡ 0 → total ps ≡ 0 → total (p ∷ ps) ≡ 0
cons_clean p ps h k = omega (arith, h, k)

total-two :
    (p q : Bytes) (ps : List Bytes)
    → total ps ≡ 0
    → total (p ∷ q ∷ ps) + 2 * length (q ∷ ps)
      ≡ 2 * (length (p ∷ q ∷ ps) - 1) + (breaks p + breaks q)
total-two p q ps h = omega (arith, h)

total-other_headers : (m : Message) → total (other_headers m) ≡ 0
total-other_headers m =
    extend_clean (optional_header (codes "Cc: ") m.cc) (subject ∷ thread_headers m)
      (total-optional_header (codes "Cc: ") m.cc refl)
      (cons_clean subject (thread_headers m) (breaks-sanitized (codes "Subject: ") m.subject refl) (
        extend_clean (optional_header (codes "In-Reply-To: ") m.in_reply_to)
          (references ++ mime_headers)
          (total-optional_header (codes "In-Reply-To: ") m.in_reply_to refl)
          (extend_clean references mime_headers
            (total-optional_header (codes "References: ") m.references refl) refl)))
  where
    subject : Bytes
    subject = codes "Subject: " ++ sanitize_header_value m.subject

    references : List Bytes
    references = optional_header (codes "References: ") m.references

-- The CR and LF bytes of the header section that `buildMessage` writes are the two between each
-- pair of neighbouring headers, and those of the values of From and To: a value of Cc, Subject,
-- In-Reply-To or References adds no line.
pub breaks-message_headers :
    (m : Message)
    → breaks (join (message_headers m) crlf)
      ≡ 2 * (length (message_headers m) - 1) + (breaks m.from + breaks m.to)
unfolding message_headers
breaks-message_headers m =
    let from = codes "From: " ++ m.from in
    let to = codes "To: " ++ m.to in
    let sum : breaks (join (message_headers m) crlf)
        ≡ 2 * (length (message_headers m) - 1) + (breaks from + breaks to) =
      breaks-join from (to ∷ other_headers m)
      ∙ total-two from to (other_headers m) (total-other_headers m) in
    omega (arith, sum, breaks-append (codes "From: ") m.from, breaks-append (codes "To: ") m.to)
