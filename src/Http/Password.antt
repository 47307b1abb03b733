-- ===== src/Http/Password.antt =====
-- How internal/http keeps a password of a mail account: `envelopeAAD` and `fieldAAD` of
-- mail_account.go, the encryption in `handleSaveIMAPAccount` and `handleSaveSMTPAccount`, and
-- `decryptIMAPPassword` and `decryptSMTPPassword`. The key file is none where it cannot be read.
pub mod ReadBack
pub mod Binding
mod Tests
use shiroyagi.Base.{ℕ, Bool, true, false, Option, none, some, ◌∷◌, ◌++◌, if◌then◌else◌}
use shiroyagi.Base.Result
use shiroyagi.Base.Result.{Result, ok, err, or_err}
use shiroyagi.Text.{Bytes, codes, is_empty}
use shiroyagi.Crypto.Gcm.{Gcm}
use shiroyagi.Crypto.Rand.{Rand, pure, lift, map_err, ◌>>=◌, ◌>>◌}
use shiroyagi.Crypto.Envelope
use shiroyagi.Crypto.Envelope.{
  Envelope, new_envelope, open_envelope, encrypt_with_aad, decrypt_with_aad,
}

unfoldable pub envelope_aad : (user_id account_id : Bytes) → Bytes
envelope_aad user_id account_id = user_id ++ (b':' ∷ account_id)

unfoldable pub field_aad : (user_id account_id field : Bytes) → Bytes
field_aad user_id account_id field = user_id ++ (b':' ∷ (account_id ++ (b':' ∷ field)))

-- `aadFieldIMAPPassword` and `aadFieldSMTPPassword`
abbrev pub imap_password : Bytes
imap_password = codes "imap_password"

abbrev pub smtp_password : Bytes
smtp_password = codes "smtp_password"

-- The three columns of the settings of one protocol.
pub record Secret : Type 0 where
  pub encrypted_password : Bytes
  pub envelope : Envelope

-- The secret with the envelope to store, and the DEK of the encrypter.
pub record Encrypter : Type 0 where
  pub secret : Secret
  pub dek : Bytes

pub data Error : Type 0 where
  kek_unreadable : Error
  crypto : Envelope.Error → Error

module _ (g : Gcm) (version : ℕ) (user_id account_id field : Bytes) where
  -- The envelope of settings that exist is opened, and a new one is made for others.
  unfoldable pub encrypter_for : Bytes → Bool → Secret → Rand Envelope.Error Encrypter
  unfolding open_envelope new_envelope envelope_aad
  encrypter_for kek true s = do
    decrypter ← lift (open_envelope g kek s.envelope (envelope_aad user_id account_id))
    pure (record { secret = s; dek = decrypter.dek })
  encrypter_for kek false s = do
    created ← new_envelope g kek version (envelope_aad user_id account_id)
    pure (record { secret = record s { envelope = created.envelope }; dek = created.dek })

  unfoldable pub seal_with : Bytes → Bool → Secret → Bytes → Rand Envelope.Error Secret
  unfolding encrypter_for
  seal_with kek has s password = do
    e ← encrypter_for kek has s
    ciphertext ← encrypt_with_aad g e.dek password (field_aad user_id account_id field)
    pure (record { encrypted_password = ciphertext; envelope = e.secret.envelope })

  -- An empty password keeps what is stored.
  unfoldable pub seal_password : Option Bytes → Bool → Secret → Bytes → Rand Error Secret
  unfolding seal_with
  seal_password kek_file has s password = if is_empty password then pure s else (do
    kek ← lift (or_err kek_file kek_unreadable)
    map_err crypto (seal_with kek has s password))

module _ (g : Gcm) (user_id account_id field : Bytes) where
  unfoldable pub decrypt_password : Option Bytes → Secret → Result Error Bytes
  unfolding envelope_aad field_aad
  decrypt_password kek_file s = Result.◌>>=◌ (or_err kek_file kek_unreadable) λ kek.
      Result.map_err crypto (
        Result.◌>>=◌ (open_envelope g kek s.envelope (envelope_aad user_id account_id))
          λ d. decrypt_with_aad g d s.encrypted_password (field_aad user_id account_id field))
