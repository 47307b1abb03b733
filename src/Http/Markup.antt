-- ===== src/Http/Markup.antt =====
-- No value adds markup to a page of internal/http: mailbox.go, mail_account.go, smtp_reply.go,
-- smtp_forward.go, smtp_send.go, imap_account.go, smtp_account.go, and the error pages.
mod Tests
use shiroyagi.Base.{
  ℕ, ◌+◌, ◌≡◌, refl, sym, ap, ◌∙◌, Bool, true, false, List, [], ◌∷◌, ◌++◌, length, arith,
}
use shiroyagi.Base.Int.{ℤ}
use shiroyagi.Text.{Bytes, codes, ◌==◌}
use shiroyagi.MailAccount.Store.{Detail}
use shiroyagi.MailAccount.Summaries.{Summary}
use shiroyagi.Imap.Listing.{MessageSummary}
use shiroyagi.Imap.Reading
use shiroyagi.Http.Html.{Piece, markup, value, segment, number, verbatim, render}
use shiroyagi.Http.Html.Inert.{delimiters, own_delimiters, delimiters-render, delimiters-itoa}
use shiroyagi.Http.Server.{imap_error_page, smtp_error_page}
use shiroyagi.Http.Compose.Form.{ComposeForm}
use shiroyagi.Http.Compose.Pages.{message_form_page}
use shiroyagi.Http.Mailbox.{message_row, message_rows, mailbox_table, mailbox_page, message_page}
use shiroyagi.Http.Reply.{ReplyMode, reply_form_page, forward_form_page}
use shiroyagi.Http.Accounts.{account_item, account_items, account_list, accounts_page}
use shiroyagi.Http.Settings.Edit.{
  edit_imap_page, edit_smtp_page, selected, plain_if_empty, smtp_security_selected, port_value,
}

-- Two pages have as many of the bytes < > " and ' as each other.
abbrev pub SameMarkup : List Piece → List Piece → Type 0
SameMarkup p q = delimiters (render p) ≡ delimiters (render q)

same_pieces : (p q : List Piece) → own_delimiters p ≡ own_delimiters q → SameMarkup p q
same_pieces p q e = delimiters-render p ∙ e ∙ sym (delimiters-render q)

-- The page of a message, the forms for a reply and for a forward of it, the form for a new message
-- and the error pages have the same number of the bytes < > " and ' whatever the account, the
-- mailbox, the message, the mode of the reply, the fields of the form and the error are.
pub message_pages-SameMarkup :
    (local_time : ℤ → Bytes) (a b : Detail) (x y : Bytes) (o p : Reading.Message) (m n : ReplyMode)
    (f g : ComposeForm)
    → SameMarkup (message_page local_time a x o) (message_page local_time b y p)
      × SameMarkup (reply_form_page local_time a x o m f) (reply_form_page local_time b y p n g)
      × SameMarkup (forward_form_page local_time a x o f) (forward_form_page local_time b y p g)
      × SameMarkup (message_form_page a f) (message_form_page b g)
      × SameMarkup (imap_error_page a x) (imap_error_page b y)
      × SameMarkup (smtp_error_page a x) (smtp_error_page b y)
unfolding message_page reply_form_page forward_form_page
message_pages-SameMarkup local_time a b x y o p m n f g = (
  same_pieces (message_page local_time a x o) (message_page local_time b y p) refl,
  same_pieces (reply_form_page local_time a x o m f) (reply_form_page local_time b y p n g) refl,
  same_pieces (forward_form_page local_time a x o f) (forward_form_page local_time b y p g) refl,
  same_pieces (message_form_page a f) (message_form_page b g) refl,
  same_pieces (imap_error_page a x) (imap_error_page b y) refl,
  same_pieces (smtp_error_page a x) (smtp_error_page b y) refl,
)

own_delimiters-append :
    (p q : List Piece) → own_delimiters (p ++ q) ≡ own_delimiters p + own_delimiters q
own_delimiters-append [] q = omega arith
own_delimiters-append (markup s ∷ p) q = omega (arith, own_delimiters-append p q)
own_delimiters-append (value s ∷ p) q = own_delimiters-append p q
own_delimiters-append (segment s ∷ p) q = own_delimiters-append p q
own_delimiters-append (number n ∷ p) q = own_delimiters-append p q
own_delimiters-append (verbatim s ∷ p) q = omega (arith, own_delimiters-append p q)

-- Two parts of a page, put together.
append_same :
    (p q r s : List Piece)
    → own_delimiters p ≡ own_delimiters q
    → own_delimiters r ≡ own_delimiters s
    → own_delimiters (p ++ r) ≡ own_delimiters (q ++ s)
append_same p q r s h k = omega (arith, own_delimiters-append p r, own_delimiters-append q s, h, k)

module _ (local_time : ℤ → Bytes) (a b : Detail) (x y : Bytes) where
  rows_same :
      (l m : List MessageSummary)
      → length l ≡ length m
      → own_delimiters (message_rows local_time a x l)
        ≡ own_delimiters (message_rows local_time b y m)
  unfolding message_rows message_row
  rows_same [] [] e = refl
  rows_same [] (f ∷ m) e = absurd (omega arith)
  rows_same (f ∷ l) [] e = absurd (omega arith)
  rows_same (f ∷ l) (g ∷ m) e =
      append_same (message_row local_time a x f) (message_row local_time b y g)
        (message_rows local_time a x l) (message_rows local_time b y m) refl
        (rows_same l m (omega arith))

  table_same :
      (l m : List MessageSummary)
      → length l ≡ length m
      → own_delimiters (mailbox_table local_time a x l)
        ≡ own_delimiters (mailbox_table local_time b y m)
  unfolding mailbox_table
  table_same [] [] e = refl
  table_same [] (f ∷ m) e = absurd (omega arith)
  table_same (f ∷ l) [] e = absurd (omega arith)
  table_same (f ∷ l) (g ∷ m) e =
      let end : List Piece = markup "\n    </tbody>\n  </table>" ∷ [] in
      let rows =
        append_same (message_rows local_time a x (f ∷ l)) (message_rows local_time b y (g ∷ m)) end
          end (rows_same (f ∷ l) (g ∷ m) e) refl in
      omega (arith, rows)

  mailbox_page-SameMarkup :
      (l m : List MessageSummary)
      → length l ≡ length m
      → SameMarkup (mailbox_page local_time a x l) (mailbox_page local_time b y m)
  unfolding mailbox_page
  mailbox_page-SameMarkup l m e =
      let end : List Piece =
        markup "\n  <p><a href=\"/mail-accounts\">Back</a></p>\n</body>\n</html>" ∷ [] in
      let tables =
        append_same (mailbox_table local_time a x l) (mailbox_table local_time b y m) end end
          (table_same l m e) refl in
      same_pieces (mailbox_page local_time a x l) (mailbox_page local_time b y m)
        (omega (arith, tables))

items_same :
    (l m : List Summary)
    → length l ≡ length m
    → own_delimiters (account_items l) ≡ own_delimiters (account_items m)
items_same [] [] e = refl
items_same [] (f ∷ m) e = absurd (omega arith)
items_same (f ∷ l) [] e = absurd (omega arith)
items_same (f ∷ l) (g ∷ m) e =
    append_same (account_item f) (account_item g) (account_items l) (account_items m) refl
      (items_same l m (omega arith))

account_list_same :
    (l m : List Summary)
    → length l ≡ length m
    → own_delimiters (account_list l) ≡ own_delimiters (account_list m)
account_list_same [] [] e = refl
account_list_same [] (f ∷ m) e = absurd (omega arith)
account_list_same (f ∷ l) [] e = absurd (omega arith)
account_list_same (f ∷ l) (g ∷ m) e =
    let end : List Piece = markup "\n  </ul>" ∷ [] in
    let items =
      append_same (account_items (f ∷ l)) (account_items (g ∷ m)) end end
        (items_same (f ∷ l) (g ∷ m) e) refl in
    omega (arith, items)

accounts_page-SameMarkup :
    (l m : List Summary) → length l ≡ length m → SameMarkup (accounts_page l) (accounts_page m)
accounts_page-SameMarkup l m e =
    let end : List Piece = markup "\n  <p><a href=\"/\">Back</a></p>\n</body>\n</html>" ∷ [] in
    let lists =
      append_same (account_list l) (account_list m) end end (account_list_same l m e) refl in
    same_pieces (accounts_page l) (accounts_page m) (omega (arith, lists))

-- A verbatim text without delimiters adds none.
delimiters-selected : (b : Bool) → delimiters (selected b) ≡ 0
delimiters-selected true = refl
delimiters-selected false = refl

delimiters-port_value : (b : Bool) (n : ℤ) → delimiters (port_value b n) ≡ 0
unfolding port_value
delimiters-port_value true n = delimiters-itoa n
delimiters-port_value false n = refl

edit_imap_page-SameMarkup : (a b : Detail) → SameMarkup (edit_imap_page a) (edit_imap_page b)
edit_imap_page-SameMarkup a b = same_pieces (edit_imap_page a) (edit_imap_page b) (
    omega (
      arith,
      delimiters-port_value a.has_imap a.imap_settings.port,
      delimiters-port_value b.has_imap b.imap_settings.port,
      delimiters-selected (a.imap_settings.security == codes "imaps"),
      delimiters-selected (a.imap_settings.security == codes "imap"),
      delimiters-selected (b.imap_settings.security == codes "imaps"),
      delimiters-selected (b.imap_settings.security == codes "imap"),
    ))

edit_smtp_page-SameMarkup : (a b : Detail) → SameMarkup (edit_smtp_page a) (edit_smtp_page b)
edit_smtp_page-SameMarkup a b = same_pieces (edit_smtp_page a) (edit_smtp_page b) (
    omega (
      arith,
      delimiters-port_value a.has_smtp a.smtp_settings.port,
      delimiters-port_value b.has_smtp b.smtp_settings.port,
      chosen a (codes "starttls"),
      chosen a (codes "smtps"),
      chosen a (codes "plain"),
      chosen b (codes "starttls"),
      chosen b (codes "smtps"),
      chosen b (codes "plain"),
    ))
  where
    chosen :
        (d : Detail) (choice : Bytes)
        → delimiters (smtp_security_selected d.smtp_settings.security choice) ≡ 0
    chosen d choice = delimiters-selected (plain_if_empty d.smtp_settings.security == choice)

-- The page of a mailbox and the list of the accounts have a number of the bytes < > " and ' that
-- depends on no more than how many messages or accounts they show; the pages that edit the settings
-- of an account always have the same number of them.
pub list_pages-SameMarkup :
    (local_time : ℤ → Bytes) (a b : Detail) (x y : Bytes) (l m : List MessageSummary)
    (k n : List Summary)
    → length l ≡ length m
    → length k ≡ length n
    → SameMarkup (mailbox_page local_time a x l) (mailbox_page local_time b y m)
      × SameMarkup (accounts_page k) (accounts_page n)
      × SameMarkup (edit_imap_page a) (edit_imap_page b)
      × SameMarkup (edit_smtp_page a) (edit_smtp_page b)
list_pages-SameMarkup local_time a b x y l m k n e h = (
  mailbox_page-SameMarkup local_time a b x y l m e,
  accounts_page-SameMarkup k n h,
  edit_imap_page-SameMarkup a b,
  edit_smtp_page-SameMarkup a b,
)
