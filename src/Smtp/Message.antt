-- ===== src/Smtp/Message.antt =====
-- The messages of internal/smtp/client.go: validation, recipients and the text that is sent.
-- `parse_address` and `parse_address_list` are those of net/mail, which the parameter stands for.
use shiroyagi.Base.{ℕ, ◌||◌, same, not, Option, none, some, List, [], ◌∷◌, ◌++◌, map, if◌then◌else◌}
use shiroyagi.Base.Result.{Result, ok, err, guard, or_err, ◌>>=◌, ◌>>◌}
use shiroyagi.Text.{Bytes, codes, is_empty, join, replace_all}

-- An address of net/mail.
pub record Address : Type 0 where
  pub name : Bytes
  pub address : Bytes

-- The two parsers of RFC 5322 addresses; none is an error.
pub record AddressParser : Type 0 where
  pub parse_address : Bytes → Option Address
  pub parse_address_list : Bytes → Option (List Address)

pub record Message : Type 0 where
  pub from : Bytes
  pub to : Bytes
  pub cc : Bytes
  pub subject : Bytes
  pub body : Bytes
  pub in_reply_to : Bytes
  pub references : Bytes

pub data MessageError : Type 0 where
  from_required invalid_from to_required invalid_to invalid_cc recipient_required : MessageError

module _ (mail : AddressParser) where
  unfoldable pub parse_address_list : Bytes → Option (List Bytes)
  parse_address_list value = elim (mail.parse_address_list value) [
    | none ↦ none
    | some addresses ↦ some (map (λ a. a.address) addresses)
  ]

  abbrev pub cc_recipients : Bytes → Result MessageError (List Bytes)
  unfolding parse_address_list
  cc_recipients cc = if is_empty cc then ok [] else or_err (parse_address_list cc) invalid_cc

  abbrev pub some_recipient : List Bytes → Result MessageError (List Bytes)
  some_recipient [] = err recipient_required
  some_recipient (r ∷ rs) = ok (r ∷ rs)

  unfoldable pub message_recipients : Message → Result MessageError (List Bytes)
  unfolding parse_address_list
  message_recipients m = do
    recipients ← or_err (parse_address_list m.to) invalid_to
    copies ← cc_recipients m.cc
    some_recipient (recipients ++ copies)

  unfoldable pub validate_message : Message → Result MessageError (Unit {0})
  unfolding message_recipients
  validate_message m = do
    guard (not (is_empty m.from)) from_required
    or_err (mail.parse_address m.from) invalid_from
    guard (not (is_empty m.to)) to_required
    message_recipients m
    ok tt

-- `strings.NewReplacer("\r", " ", "\n", " ")`
abbrev pub blank_break : ℕ → ℕ
blank_break c = if same c 13 || same c 10 then 32 else c

unfoldable pub sanitize_header_value : Bytes → Bytes
sanitize_header_value value = map blank_break value

abbrev pub crlf : Bytes
crlf = 13 ∷ 10 ∷ []

unfoldable pub normalize_body : Bytes → Bytes
unfolding replace_all
normalize_body body =
    replace_all (replace_all (replace_all body crlf (10 ∷ [])) (13 ∷ []) (10 ∷ [])) (10 ∷ []) crlf

-- `if value != "" { headers = append(headers, name+sanitizeHeaderValue(value)) }`
abbrev pub optional_header : Bytes → Bytes → List Bytes
optional_header name value =
    if is_empty value then [] else (name ++ sanitize_header_value value) ∷ []

abbrev pub mime_headers : List Bytes
mime_headers =
    codes "MIME-Version: 1.0"
    ∷ codes "Content-Type: text/plain; charset=UTF-8"
    ∷ codes "Content-Transfer-Encoding: 8bit"
    ∷ []

abbrev pub thread_headers : Message → List Bytes
thread_headers m =
    optional_header (codes "In-Reply-To: ") m.in_reply_to
    ++ (optional_header (codes "References: ") m.references ++ mime_headers)

-- The headers after From and To.
abbrev pub other_headers : Message → List Bytes
other_headers m =
    optional_header (codes "Cc: ") m.cc
    ++ ((codes "Subject: " ++ sanitize_header_value m.subject) ∷ thread_headers m)

unfoldable pub message_headers : Message → List Bytes
unfolding sanitize_header_value
message_headers m = (codes "From: " ++ m.from) ∷ (codes "To: " ++ m.to) ∷ other_headers m

unfoldable pub build_message : Message → Bytes
unfolding message_headers normalize_body join
build_message m = join (message_headers m) crlf ++ (crlf ++ (crlf ++ normalize_body m.body))
