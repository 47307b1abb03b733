-- ===== src/Imap/Mime/Tests.antt =====
-- The theorems on the text of a message at concrete inputs.
use shiroyagi.Base.{◌≡◌, refl, true, false, Option, none, some, [], ◌∷◌, any, arith, if◌then◌else◌}
use shiroyagi.Base.Int.{pos}
use shiroyagi.Base.Result.{Result, ok}
use shiroyagi.Text.{Bytes, codes, ◌==◌}
use shiroyagi.Text.Unicode.{ascii_only}
use shiroyagi.Imap.Client.{Account}
use shiroyagi.Imap.Mime.{
  Header, Parts, eof, part, Mime, MimeError, is_plain, extract_entity_text, scan_parts,
}
use shiroyagi.Imap.Mime.Depth.{PartsShrink, Finishes, extract_entity_text-total}
use shiroyagi.Imap.Mime.Choice.{part_texts, chosen, scan_parts-chosen}
use shiroyagi.Imap.Reading.{get_message}
use shiroyagi.Imap.Reading.Effects.{is_write, get_message-quiet}

-- A body of several parts has one part, which is the body without its first byte.
abbrev one_part : Bytes → Parts
one_part [] = eof
one_part (c ∷ s) = part (λ key. []) s eof

abbrev typed : Bytes → Header
typed name key = if key == codes "Content-Type" then name else []

abbrev small : Mime
small = record {
  read_message = λ s. some (typed (codes "multipart/mixed"), s);
  parse_media_type = λ s. some (record { name = s; params = λ key. codes "b" });
  parts = λ body boundary. one_part body;
  read_all = λ encoding limit s. some s;
}

small-PartsShrink : PartsShrink small
small-PartsShrink [] boundary = tt
small-PartsShrink (c ∷ s) boundary = (omega arith, tt)

extract_entity_text-total_example :
    Finishes
      (extract_entity_text small ⦃u = ascii_only⦄ 5 (typed (codes "multipart/mixed")) (codes "abc"))
    × (extract_entity_text small ⦃u = ascii_only⦄ 5 (typed (codes "multipart/mixed")) (codes "abc")
        ≡ extract_entity_text small ⦃u = ascii_only⦄ 9
            (typed (codes "multipart/mixed"))
            (codes "abc"))
extract_entity_text-total_example =
    extract_entity_text-total small ⦃u = ascii_only⦄ small-PartsShrink 5 9
      (typed (codes "multipart/mixed")) (codes "abc") (omega arith) (omega arith)

-- The text of a part is its body.
abbrev body_of : Header → Bytes → Result MimeError (Option Bytes)
body_of header body = ok (some body)

-- HTML before plain text
abbrev two : Parts
two =
    part (typed (codes "text/html")) (codes "<p>")
      (part (typed (codes "text/plain")) (codes "p") eof)

two_texts :
    part_texts small ⦃u = ascii_only⦄ body_of two
    ≡ ok ((false, some (codes "<p>")) ∷ (true, some (codes "p")) ∷ [])
unfolding part_texts is_plain ◌==◌
two_texts = refl

scan_parts-chosen_example :
    scan_parts small ⦃u = ascii_only⦄ body_of two []
    ≡ ok (chosen ((false, some (codes "<p>")) ∷ (true, some (codes "p")) ∷ []))
scan_parts-chosen_example =
    scan_parts-chosen small ⦃u = ascii_only⦄ body_of two
      ((false, some (codes "<p>")) ∷ (true, some (codes "p")) ∷ []) two_texts

abbrev reader : Account
reader = record {
  host = codes "imap.example.test";
  port = pos 993;
  security = codes "imaps";
  username = codes "reader";
  password = codes "secret";
  allow_insecure_auth = false;
}

get_message-quiet_example :
    any is_write
      (get_message ⦃u = ascii_only⦄
        (λ h. false)
        (record { accepts = λ e. true })
        small
        (λ m uid. none)
        false
        reader
        (codes "INBOX")
        7).1
    ≡ false
get_message-quiet_example =
    get_message-quiet ⦃u = ascii_only⦄ (λ h. false) (record { accepts = λ e. true }) small
      (λ m uid. none) false reader (codes "INBOX") 7
