-- ===== src/Http/Compose.antt =====
-- The texts that internal/http makes of a message for a reply or a forward: smtp_reply.go,
-- smtp_forward.go, mailbox.go.
pub mod Form
pub mod Pages
pub mod Valid
pub mod RoundTrip
pub mod Recipients
pub mod ReplyAll
pub mod References
mod Tests
use shiroyagi.Base.{
  ℕ, Bool, true, false, not, ◌&&◌, ◌||◌, Option, none, some, List, [], ◌∷◌, ◌++◌, map,
  if◌then◌else◌,
}
use shiroyagi.Text.{
  Bytes, codes, ◌==◌, is_empty, to_lower, trim_space, trim_right, has_prefix, contains, split, join,
}
use shiroyagi.Text.Unicode.{Unicode}
use shiroyagi.Imap.Reading.{Message}
use shiroyagi.Base.Int.{ℤ}
use shiroyagi.Smtp.Message.{Address, AddressParser}

unfoldable pub message_header_value : Bytes → Bytes
message_header_value value = if is_empty value then codes "(none)" else value

unfoldable pub subject_or_untitled : Bytes → Bytes
subject_or_untitled subject = if is_empty subject then codes "(no subject)" else subject

-- The references without the white space around them, and the identifier of the original.
abbrev pub extend_references : Bytes → Bytes → Bytes
extend_references references message_id =
    if is_empty references
    then message_id
    else if contains references message_id
    then references
    else references ++ (codes " " ++ message_id)

module _ ⦃u : Unicode⦄ where
  unfoldable pub reply_subject : Bytes → Bytes
  unfolding trim_space to_lower has_prefix
  reply_subject subject =
      let trimmed = trim_space subject in
      if is_empty trimmed
      then codes "Re: (no subject)"
      else if has_prefix (to_lower trimmed) (codes "re:")
      then trimmed
      else codes "Re: " ++ trimmed

  unfoldable pub forward_subject : Bytes → Bytes
  unfolding trim_space to_lower has_prefix
  forward_subject subject =
      let trimmed = trim_space subject in
      let lower = to_lower trimmed in
      if is_empty trimmed
      then codes "Fwd: (no subject)"
      else if has_prefix lower (codes "fwd:") || has_prefix lower (codes "fw:")
      then trimmed
      else codes "Fwd: " ++ trimmed

  unfoldable pub reply_references : Message → Bytes
  unfolding trim_space contains
  reply_references o = extend_references (trim_space o.references) o.message_id

abbrev pub quote_line : Bytes → Bytes
unfolding trim_right
quote_line line = codes "> " ++ trim_right line 13

-- `formatIMAPTime`, with `local_time` for the layout in the server's time zone.
abbrev pub format_imap_time : (ℤ → Bytes) → Option ℤ → Bytes
format_imap_time local_time none = []
format_imap_time local_time (some t) = local_time t

unfoldable pub quoted_reply_body : (ℤ → Bytes) → Message → Bytes
unfolding quote_line split join
quoted_reply_body local_time o =
    join
      ([]
        ∷ []
        ∷ (codes "On "
            ++ (format_imap_time local_time o.date ++ (codes ", " ++ (o.from ++ codes " wrote:"))))
        ∷ map quote_line (split o.body 10))
      (10 ∷ [])

unfoldable pub forwarded_body : (ℤ → Bytes) → Message → Bytes
unfolding message_header_value subject_or_untitled join
forwarded_body local_time o =
    let header_lines =
      (codes "From: " ++ message_header_value o.from)
      ∷ (codes "Date: " ++ format_imap_time local_time o.date)
      ∷ (codes "Subject: " ++ subject_or_untitled o.subject)
      ∷ (codes "To: " ++ message_header_value o.to)
      ∷ (if is_empty o.cc then [] else (codes "Cc: " ++ o.cc) ∷ []) in
    (10 ∷ 10 ∷ codes "---------- Forwarded message ---------")
    ++ (10 ∷ (join header_lines (10 ∷ []) ++ (10 ∷ 10 ∷ o.body)))
