-- ===== src/Http/Markup/Tests.antt =====
-- The theorems on the markup of the pages, at an honest and at a hostile message.
use shiroyagi.Base.{refl, true, false, none, [], ◌∷◌}
use shiroyagi.Text.{codes}
use shiroyagi.MailAccount.Store.{Detail, no_settings}
use shiroyagi.MailAccount.Summaries.{Summary}
use shiroyagi.Imap.Listing.{MessageSummary}
use shiroyagi.Imap.Reading
use shiroyagi.Http.World.{env}
use shiroyagi.Http.Server.{imap_error_page, smtp_error_page}
use shiroyagi.Http.Compose.Form.{ComposeForm, compose_mode_new}
use shiroyagi.Http.Compose.Pages.{message_form_page}
use shiroyagi.Http.Mailbox.{mailbox_page, message_page}
use shiroyagi.Http.Reply.{
  reply_mode_reply, reply_mode_reply_all, reply_form_page, forward_form_page,
}
use shiroyagi.Http.Accounts.{accounts_page}
use shiroyagi.Http.Settings.Edit.{edit_imap_page, edit_smtp_page}
use shiroyagi.Http.Markup.{SameMarkup, message_pages-SameMarkup, list_pages-SameMarkup}

abbrev honest_account : Detail
honest_account = record {
  id = codes "a1";
  email_address = codes "ada@example.test";
  has_imap = true;
  imap_settings = no_settings;
  has_smtp = true;
  smtp_settings = no_settings;
}

abbrev hostile_account : Detail
hostile_account = record honest_account { id = codes "a2"; email_address = codes "<b>\"@e.test" }

abbrev honest : Reading.Message
honest = record {
  uid = 7;
  subject = codes "hello";
  from = codes "b@example.test";
  reply_to = [];
  to = codes "ada@example.test";
  cc = [];
  date = none;
  body = codes "text";
  message_id = codes "<m1@example.test>";
  in_reply_to = [];
  references = [];
  answered = false;
  forwarded = false;
}

abbrev hostile : Reading.Message
hostile = record honest { subject = codes "\"><script>"; body = codes "</pre><script>" }

abbrev form : ComposeForm
form = record {
  mode = compose_mode_new;
  mailbox = [];
  uid = 0;
  to = codes "b@example.test";
  cc = [];
  subject = codes "hello";
  body = codes "text";
}

abbrev hostile_form : ComposeForm
hostile_form = record form { body = codes "</textarea><script>" }

message_pages-SameMarkup_example :
    SameMarkup
      (message_page env.local_time honest_account (codes "INBOX") honest)
      (message_page env.local_time hostile_account (codes "<i>") hostile)
    × SameMarkup
        (reply_form_page env.local_time honest_account (codes "INBOX") honest reply_mode_reply form)
        (reply_form_page env.local_time hostile_account
          (codes "<i>")
          hostile
          reply_mode_reply_all
          hostile_form)
    × SameMarkup
        (forward_form_page env.local_time honest_account (codes "INBOX") honest form)
        (forward_form_page env.local_time hostile_account (codes "<i>") hostile hostile_form)
    × SameMarkup
        (message_form_page honest_account form)
        (message_form_page hostile_account hostile_form)
    × SameMarkup
        (imap_error_page honest_account (codes "INBOX"))
        (imap_error_page hostile_account (codes "<i>"))
    × SameMarkup
        (smtp_error_page honest_account (codes "INBOX"))
        (smtp_error_page hostile_account (codes "<i>"))
message_pages-SameMarkup_example =
    message_pages-SameMarkup env.local_time honest_account hostile_account (codes "INBOX")
      (codes "<i>") honest hostile reply_mode_reply reply_mode_reply_all form hostile_form

abbrev row : MessageSummary
row = record {
  uid = 7;
  subject = codes "hello";
  from = codes "b@example.test";
  date = none;
  size = 10;
  answered = false;
  forwarded = false;
}

abbrev hostile_row : MessageSummary
hostile_row = record row { subject = codes "</a><script>" }

abbrev listed : Summary
listed = record { id = codes "a1"; email_address = codes "ada@example.test" }

abbrev hostile_listed : Summary
hostile_listed = record { id = codes "a2"; email_address = codes "<script>" }

list_pages-SameMarkup_example :
    SameMarkup
      (mailbox_page env.local_time honest_account (codes "INBOX") (row ∷ []))
      (mailbox_page env.local_time hostile_account (codes "<i>") (hostile_row ∷ []))
    × SameMarkup (accounts_page (listed ∷ [])) (accounts_page (hostile_listed ∷ []))
    × SameMarkup (edit_imap_page honest_account) (edit_imap_page hostile_account)
    × SameMarkup (edit_smtp_page honest_account) (edit_smtp_page hostile_account)
list_pages-SameMarkup_example =
    list_pages-SameMarkup env.local_time honest_account hostile_account (codes "INBOX")
      (codes "<i>") (row ∷ []) (hostile_row ∷ []) (listed ∷ []) (hostile_listed ∷ []) refl refl
