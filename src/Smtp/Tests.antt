-- ===== src/Smtp/Tests.antt =====
-- The theorems on internal/smtp/client.go at concrete inputs.
use shiroyagi.Base.{length, ◌*◌, ◌-◌, ◌+◌, ◌≡◌, refl, false, some, [], ◌∷◌}
use shiroyagi.Base.Int.{pos}
use shiroyagi.Text.{codes, join, replace_all, replace_from, has_prefix}
use shiroyagi.Smtp.Message.{AddressParser, Message, message_headers, normalize_body, crlf}
use shiroyagi.Smtp.Send.{Account}
use shiroyagi.Smtp.Lines.{breaks, breaks-message_headers}
use shiroyagi.Smtp.Body.{normal_from, normalize_body_lem}

-- Every text is one address without a name.
abbrev plain_addresses : AddressParser
plain_addresses = record {
  parse_address = λ s. some (record { name = []; address = s });
  parse_address_list = λ s. some (record { name = []; address = s } ∷ []);
}

abbrev letter : Message
letter = record {
  from = codes "a@example.test";
  to = codes "b@example.test";
  cc = codes "c@example.test";
  subject = codes "hello";
  body = codes "text";
  in_reply_to = [];
  references = [];
}

abbrev sender : Account
sender = record {
  host = codes "smtp.example.test";
  port = pos 587;
  security = codes "starttls";
  username = codes "a";
  password = codes "secret";
  allow_insecure_auth = false;
}

-- A sender that holds a line break.
abbrev broken : Message
broken = record letter { from = 97 ∷ 13 ∷ 10 ∷ 98 ∷ []; subject = 13 ∷ 10 ∷ [] }

breaks-message_headers_example :
    breaks (join (message_headers broken) crlf)
    ≡ 2 * (length (message_headers broken) - 1) + (breaks broken.from + breaks broken.to)
breaks-message_headers_example = breaks-message_headers broken

normalize_body_lem_example :
    normalize_body (97 ∷ 13 ∷ 10 ∷ 13 ∷ 98 ∷ 10 ∷ [])
    ≡ normal_from false (97 ∷ 13 ∷ 10 ∷ 13 ∷ 98 ∷ 10 ∷ [])
normalize_body_lem_example = normalize_body_lem (97 ∷ 13 ∷ 10 ∷ 13 ∷ 98 ∷ 10 ∷ [])

normalize_body_run : normalize_body (97 ∷ 13 ∷ 10 ∷ 13 ∷ 10 ∷ []) ≡ 97 ∷ 13 ∷ 10 ∷ 13 ∷ 10 ∷ []
unfolding normalize_body replace_all replace_from has_prefix
normalize_body_run = refl
