-- ===== src/Imap/Mime.antt =====
-- The text of a message: `extractTextBody` and what it calls in internal/imap/client.go. The parser
-- of messages, media types and multipart bodies, and the decoders, are those of net/mail, mime,
-- mime/multipart, mime/quotedprintable and encoding/base64, which the parameter stands for.
pub mod Depth
pub mod Choice
mod Tests
use shiroyagi.Base.{
  ℕ, zero, suc, ◌*◌, ◌^◌, ◌≤◌, Bool, true, false, not, ◌&&◌, Option, none, some, List, [], ◌∷◌,
  if◌then◌else◌, length, ◌≡◌,
}
use shiroyagi.Base.Result.{Result, ok, err, or_err, ◌>>=◌}
use shiroyagi.Text.{Bytes, codes, ◌==◌, is_empty, has_prefix, equal_fold, to_lower, trim_space}
use shiroyagi.Text.Unicode.{Unicode}

-- `Get` of a header, "" for a missing key.
abbrev pub Header : Type 0
Header = Bytes → Bytes

-- What `NextPart` gives, one part after another, until `io.EOF` or an error.
pub data Parts : Type 0 where
  eof : Parts
  broken : Parts
  part : Header → Bytes → Parts → Parts

pub data Encoding : Type 0 where
  base64 quoted_printable identity : Encoding

pub record MediaType : Type 0 where
  pub name : Bytes
  pub params : Bytes → Bytes

pub record Mime : Type 0 where
  pub read_message : Bytes → Option (Header × Bytes)
  pub parse_media_type : Bytes → Option MediaType
  pub parts : (body boundary : Bytes) → Parts
  -- `io.ReadAll(io.LimitReader(…, limit))` of the decoder of a body
  pub read_all : Encoding → ℕ → Bytes → Option Bytes

abbrev pub body_limit : ℕ
body_limit = 2 * 2 ^ 20

pub data MimeError : Type 0 where
  bad_message bad_content_type missing_boundary bad_multipart bad_encoding out_of_fuel : MimeError

module _ (mime : Mime) ⦃u : Unicode⦄ where
  abbrev pub lower_name : MediaType → MediaType
  lower_name t = record t { name = to_lower t.name }

  unfoldable pub parse_content_type : Bytes → Option MediaType
  unfolding to_lower
  parse_content_type value =
      if is_empty value
      then some (record { name = codes "text/plain"; params = λ key. [] })
      else elim (mime.parse_media_type value) [ none ↦ none | some t ↦ some (lower_name t) ]

  unfoldable pub is_attachment : Bytes → Bool
  unfolding equal_fold
  is_attachment disposition =
      if is_empty disposition then false else elim (mime.parse_media_type disposition) [
        | none ↦ false
        | some t ↦ equal_fold t.name (codes "attachment")
      ]

  abbrev pub encoding_of : Bytes → Encoding
  encoding_of name =
      if name == codes "base64"
      then base64
      else if name == codes "quoted-printable"
      then quoted_printable
      else identity

  unfoldable pub decode_transfer_encoding : Bytes → Bytes → Option Bytes
  unfolding to_lower trim_space ◌==◌
  decode_transfer_encoding encoding body =
      mime.read_all (encoding_of (to_lower (trim_space encoding))) body_limit body

  abbrev pub name_of : Option MediaType → Bytes
  name_of none = []
  name_of (some t) = t.name

  -- Whether a part that has a text is taken at once.
  unfoldable pub is_plain : Header → Bool
  unfolding parse_content_type ◌==◌
  is_plain header =
      name_of (parse_content_type (header (codes "Content-Type"))) == codes "text/plain"

  -- A body that is not multipart.
  unfoldable pub leaf_text : MediaType → Header → Bytes → Result MimeError (Option Bytes)
  unfolding is_attachment decode_transfer_encoding ◌==◌
  leaf_text t header body =
      if not (t.name == codes "text/plain") && not (t.name == codes "text/html")
      then ok none
      else if is_attachment (header (codes "Content-Disposition"))
      then ok none
      else or_err (decode_transfer_encoding (header (codes "Content-Transfer-Encoding")) body)
          bad_encoding
        >>= (λ text. ok (some text))

  abbrev pub or_candidate : Bytes → Bytes → Bytes
  or_candidate candidate text = if is_empty candidate then text else candidate

  -- What follows the text of one part: `plain` says that its type is text/plain, and `rest` is the
  -- loop over the parts after it, with the candidate.
  abbrev pub after_part :
      Bool
      → Bytes
      → (Bytes → Result MimeError (Option Bytes))
      → Option Bytes
      → Result MimeError (Option Bytes)
  after_part plain candidate rest none = rest candidate
  after_part true candidate rest (some text) = ok (some text)
  after_part false candidate rest (some text) = rest (or_candidate candidate text)

  -- The loop over the parts; `extract` is the recursive call.
  unfoldable pub scan_parts :
      (Header → Bytes → Result MimeError (Option Bytes))
      → Parts
      → Bytes
      → Result MimeError (Option Bytes)
  unfolding is_plain
  scan_parts extract eof candidate = ok (if is_empty candidate then none else some candidate)
  scan_parts extract broken candidate = err bad_multipart
  scan_parts extract (part header body parts) candidate =
      extract header body >>= after_part (is_plain header) candidate (scan_parts extract parts)

  unfoldable pub multipart_text :
      (Header → Bytes → Result MimeError (Option Bytes))
      → MediaType
      → Bytes
      → Result MimeError (Option Bytes)
  unfolding scan_parts
  multipart_text extract t body =
      if is_empty (t.params (codes "boundary"))
      then err missing_boundary
      else scan_parts extract (mime.parts body (t.params (codes "boundary"))) []

  unfoldable pub extract_typed :
      (Header → Bytes → Result MimeError (Option Bytes))
      → Header
      → Bytes
      → MediaType
      → Result MimeError (Option Bytes)
  unfolding leaf_text multipart_text has_prefix
  extract_typed extract header body t =
      if has_prefix t.name (codes "multipart/")
      then multipart_text extract t body
      else leaf_text t header body

  -- The recursion is on the depth of multipart bodies, which fuel bounds.
  unfoldable pub extract_entity_text : ℕ → Header → Bytes → Result MimeError (Option Bytes)
  unfolding extract_typed parse_content_type
  extract_entity_text zero header body = err out_of_fuel
  extract_entity_text (suc fuel) header body =
      or_err (parse_content_type (header (codes "Content-Type"))) bad_content_type
      >>= extract_typed (extract_entity_text fuel) header body

  abbrev pub text_or_none : Option Bytes → Bytes
  text_or_none none = codes "(no text body)"
  text_or_none (some body) = body

  -- The parts of a body are shorter than it, so its length is fuel enough.
  unfoldable pub extract_text_body : Bytes → Result MimeError Bytes
  unfolding extract_entity_text
  extract_text_body raw = or_err (mime.read_message raw) bad_message >>= λ m.
      extract_entity_text (suc (length m.1)) m.0 m.1 >>= λ t. ok (text_or_none t)
