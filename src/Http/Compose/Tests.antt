-- ===== src/Http/Compose/Tests.antt =====
-- The theorems on smtp_reply.go at concrete inputs.
use shiroyagi.Base.{none, false, ◌≡◌, refl, true, false, ◌&&◌, ◌||◌, some, List, [], ◌∷◌, ◌++◌, All}
use shiroyagi.Text.{has_prefix, contains, trim_space, Bytes, codes, is_empty, to_lower, ◌==◌}
use shiroyagi.Text.Unicode.{ascii_only}
use shiroyagi.Smtp.Message.{Address, AddressParser}
use shiroyagi.Http.Compose.Recipients.{
  is_in, addresses_of, copies, add_excluded_address, exclude_all, append_reply_all_addresses,
  append_each,
}
use shiroyagi.Imap.Reading.{Message}
use shiroyagi.Http.Compose.{reply_references}
use shiroyagi.Http.Compose.References.{reply_references_lem}
use shiroyagi.Http.Compose.ReplyAll.{Distinct, key, keys, is_own, copies_lem}

-- One letter of a text is one address.
abbrev letters : Bytes → List Address
letters [] = []
letters (c ∷ s) = record { name = []; address = c ∷ [] } ∷ letters s

abbrev letter_addresses : AddressParser
letter_addresses = record {
  parse_address = λ s. some (record { name = []; address = s });
  parse_address_list = λ s. some (letters s);
}

copies_run :
    copies letter_addresses ⦃u = ascii_only⦄ (codes "t") (codes "s") (codes "aSbA") (codes "Btc")
    ≡ codes "a" ∷ codes "b" ∷ codes "c" ∷ []
unfolding copies add_excluded_address exclude_all append_reply_all_addresses append_each to_lower
    ◌==◌
copies_run = refl

copies_lem_example :
    Distinct (
      keys ⦃u = ascii_only⦄ (
        copies letter_addresses ⦃u = ascii_only⦄
          (codes "t")
          (codes "s")
          (codes "aSbA")
          (codes "Btc")))
    × ((is_own ⦃u = ascii_only⦄ letter_addresses (codes "s") (codes "t") (codes "a")
          && is_in (codes "a") (
              keys ⦃u = ascii_only⦄ (
                copies letter_addresses ⦃u = ascii_only⦄
                  (codes "t")
                  (codes "s")
                  (codes "aSbA")
                  (codes "Btc"))))
        ≡ false)
    × All
        (λ a.
          (is_empty (key ⦃u = ascii_only⦄ a)
            || (is_own ⦃u = ascii_only⦄ letter_addresses
                  (codes "s")
                  (codes "t")
                  (key ⦃u = ascii_only⦄ a)
                || is_in (key ⦃u = ascii_only⦄ a) (
                    keys ⦃u = ascii_only⦄ (
                      copies letter_addresses ⦃u = ascii_only⦄
                        (codes "t")
                        (codes "s")
                        (codes "aSbA")
                        (codes "Btc")))))
          ≡ true)
        (addresses_of (letter_addresses.parse_address_list (codes "aSbA"))
          ++ addresses_of (letter_addresses.parse_address_list (codes "Btc")))
copies_lem_example =
    copies_lem ⦃u = ascii_only⦄ letter_addresses (codes "t") (codes "s") (codes "aSbA")
      (codes "Btc") (codes "a")

abbrev original : Message
original = record {
  uid = 1;
  subject = codes "hello";
  from = codes "a";
  reply_to = [];
  to = codes "b";
  cc = [];
  date = none;
  body = codes "text";
  message_id = codes "<2>";
  in_reply_to = codes "<1>";
  references = codes " <1> ";
  answered = false;
  forwarded = false;
}

reply_references_lem_example :
    (has_prefix
        (reply_references ⦃u = ascii_only⦄ original)
        (trim_space ⦃u = ascii_only⦄ original.references)
      ≡ true)
    × (contains (reply_references ⦃u = ascii_only⦄ original) original.message_id ≡ true)
reply_references_lem_example = reply_references_lem ⦃u = ascii_only⦄ original
