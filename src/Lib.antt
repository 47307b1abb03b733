-- ===== src/Lib.antt =====
-- Verification of Shiroyagi, a web mail client: a server that signs users in with OpenID Connect,
-- keeps their mail accounts with encrypted passwords in PostgreSQL, reads mailboxes over IMAP and
-- sends mail over SMTP.
--
-- Parts and files. A handler of internal/http reads a request and the state of the server and
-- returns a response; it calls the session store, the OIDC client, the mail account store, and the
-- IMAP and SMTP clients.
--   Base          shared names, Boolean tests, lists, results, and the monad of a state with errors
--   Text          Go strings as bytes with the functions of the package strings that are used
--   Dict          a map of Go, or a table by its primary key
--   Crypto        internal/crypto/envelope.go. Envelope has encryptAESGCM, decryptAESGCM,
--                 NewEnvelope, OpenEnvelope, EncryptWithAAD and DecryptWithAAD; Gcm the cipher;
--                 Blob and RoundTrip the theorems
--   Auth          internal/auth: Session is session.go (SessionStore), Client is client.go
--                 (ExchangeCode, AuthCodeURL), Exchange a lemma on the exchange
--   Http.Auth     internal/http/auth.go and session.go: handleAuthLogin, handleAuthCallback,
--                 handleAuthLogout, requireSession, over Http.Message (requests and responses) and
--                 Http.Token (randomToken); Grant, Enter and Logout have the theorems
--   Config        internal/config/config.go: Load; Loaded has the theorem
--   Http.Password the passwords in internal/http/mail_account.go, imap_account.go, smtp_account.go,
--                 mailbox.go and smtp_send.go: envelopeAAD, fieldAAD, the encryption on saving and
--                 decryptIMAPPassword; ReadBack and Binding have the theorems
--   Http.Html     the pages as pieces: the template's markup and the values written into it by
--                 html.EscapeString, url.PathEscape and the verbs of fmt; Inert counts the bytes
--                 of markup in them
--   Http.Server   the Server of internal/http/server.go with the world around it (Env), what a
--                 request changes (State), imapReaderAccount, smtpSenderAccount, the error pages
--   Http.Compose  internal/http/smtp_reply.go, smtp_forward.go, mailbox.go and smtp_send.go: the
--                 texts and the recipients of a reply or a forward; Form has
--                 parseComposeMessageForm, Pages the pages of smtp_send.go; ReplyAll, References,
--                 Valid and RoundTrip have the theorems
--   Http.Send     handleSendMessage and handleNewMessage of internal/http/smtp_send.go; Steps and
--                 Outcome have the theorem
--   Http.Settings internal/http/imap_account.go, smtp_account.go and form.go, once for both
--                 protocols: Form the forms, Edit the pages; Valid, Saved and Clients have the
--                 theorems
--   Http.Mailbox  handleMailbox and handleMessage of internal/http/mailbox.go
--   Http.Reply    handleNewReply of internal/http/smtp_reply.go and handleNewForwardMessage of
--                 smtp_forward.go
--   Http.Markup   the theorems on the markup of the pages
--   Http.Accounts internal/http/mail_account.go, and handleIndex and handleSignIn of server.go;
--                 Created has the theorem
--   Http.Routes   Routes of internal/http/server.go: the handler of each pattern behind the session
--                 guard, which leaves out /auth/login, /auth/callback, /auth/logout, /signin and
--                 /healthz; Steps, Pages, Sends, Writes,
--                 AccountWrites, Stored and Serve have the theorems
--   MailAccount   internal/mailaccount/store.go and internal/db/migrations: Schema has the tables,
--                 Conn a connection with transactions, Store the methods, Summaries and Identifier
--                 ListSummaries and NewID; Spec says what each method does to the tables, Refine
--                 that the methods do it, Local, Isolation, Save, Refusals and Summaries.Listed
--                 what follows
--   Smtp          internal/smtp/client.go: Message (validateMessage, buildMessage, normalizeBody),
--                 Send (connect, smtpAuth, Send); Delivery, Lines and Body have the theorems
--   Imap          internal/imap/client.go: Client (connect, isLocalhost, address formatting),
--                 Listing (ListMessages), Mime (extractTextBody, extractEntityText), Reading
--                 (GetMessage, MarkAnswered, MarkForwarded); Safety, Window, Mime.Depth,
--                 Mime.Choice and Reading.Effects have the theorems
--
-- State. SessionStore is the record of its two maps; the handlers of the sign-in take it with the
-- bytes that the random source still has (Web) and return both. The other handlers take and
-- return the connection, the random bytes, and the calls made so far to IMAP and SMTP servers
-- (State). A connection (Conn) holds the tables and a list of the faults of the calls to come, so
-- that a theorem for every list covers every failure of the database. A client of SMTP or IMAP
-- appends its calls to a log, and a parameter says which of them succeed. An error comes back
-- beside the state, since what was done before it stays done.
--
-- Parameters, for code that is not in the repository: the cipher of crypto/aes and crypto/cipher,
-- with the laws of sealing and unsealing (Crypto.Gcm); the exchange and verification of tokens
-- (Auth.Client.Oidc); the address parsers of net/mail (Smtp.Message.AddressParser); net/mail,
-- mime, mime/multipart and the decoders of a body (Imap.Mime.Mime); what the package unicode says
-- of bytes above ASCII (Text.Unicode); net.ParseIP; the environment and the files; the local
-- time; the database's order of texts; the servers.
--
-- Bounds. The recursion of extractEntityText has fuel, which extractTextBody sets to one more
-- than the length of the body: a part is shorter than the body that it is a part of, so that is
-- enough. Every other loop is a recursion on a list, or on the digits of a number. Sequence
-- numbers of IMAP wrap at 2^32; a UID is read within 32 bits, the KEK version within 16 and a
-- port within 64, the last two with a sign; times are integers. Where an envelope carries its
-- KEK version, that is a natural number, not the int16 of the source: Load bounds the version of
-- every new envelope, and a stored one is not computed with.
--
-- Not modelled: opening and migrating the database, discovery of the OIDC provider, the matching
-- of patterns by net/http, logging, the texts of errors, and the program's start. The mutexes
-- make each method of the session store one step, and a transaction of the store is one step to
-- other connections; requests are served one after the other. A COMMIT that fails is taken as a
-- rollback, although a connection that is lost in it may have committed. Identifiers of accounts
-- are compared as bytes, where PostgreSQL also accepts other spellings of a UUID. A form is posted
-- with its fields as they are; what a browser does to the line ends of a textarea is left out. The
-- call of a UID fetch does not record that the body is peeked at, which does not matter in a mailbox
-- that is selected read-only.
pub mod Base
pub mod Text
pub mod Dict
pub mod Crypto
pub mod Auth
pub mod Http
pub mod Config
pub mod MailAccount
pub mod Smtp
pub mod Imap
