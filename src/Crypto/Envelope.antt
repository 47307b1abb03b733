-- ===== src/Crypto/Envelope.antt =====
-- The code of internal/crypto/envelope.go. A blob is `version | nonce | ciphertext | tag`.
use shiroyagi.Base.{
  ℕ, ◌+◌, not, ◌||◌, [], ◌∷◌, ◌++◌, ltb, same, length, take, drop, leb, if◌then◌else◌,
}
use shiroyagi.Base.Result
use shiroyagi.Base.Result.{Result, ok, err, guard, or_err}
use shiroyagi.Text.{Bytes, codes}
use shiroyagi.Crypto.Gcm.{Gcm, overhead}
use shiroyagi.Crypto.Rand.{Rand, pure, lift, map_err, ◌>>=◌, ◌>>◌}

abbrev pub blob_version : ℕ
blob_version = 1

abbrev pub key_size : ℕ
key_size = 32

abbrev pub nonce_size : ℕ
nonce_size = 12

-- `wrapped` is `fmt.Errorf` with `%w`.
pub data Error : Type 0 where
  invalid_key_size invalid_ciphertext unsupported_version : Error
  aes_key_size random_failed : Error
  wrapped : Bytes → Error → Error

pub record Envelope : Type 0 where
  pub wrapped_dek : Bytes
  pub kek_version : ℕ

pub record EnvelopeEncrypter : Type 0 where
  pub envelope : Envelope
  pub dek : Bytes

pub record EnvelopeDecrypter : Type 0 where
  pub dek : Bytes

unfoldable pub validate_key : Bytes → Result Error (Unit {0})
validate_key key = guard (same (length key) key_size) invalid_key_size

-- `io.ReadFull(cryptorand.Reader, b)`
unfoldable pub random_bytes : ℕ → Rand Error Bytes
random_bytes size supply =
    if leb size (length supply)
    then (ok (take size supply), drop size supply)
    else (err random_failed, [])

-- `aes.NewCipher` refuses the keys that are none of AES-128, AES-192 and AES-256;
-- `cipher.NewGCM` accepts every AES block.
unfoldable pub new_cipher : Bytes → Result Error (Unit {0})
new_cipher key =
    guard (same (length key) 16 || same (length key) 24 || same (length key) 32) aes_key_size

module _ (g : Gcm) where
  unfoldable pub encrypt_aes_gcm : Bytes → Bytes → Bytes → Rand Error Bytes
  unfolding validate_key new_cipher random_bytes
  encrypt_aes_gcm key plaintext aad = do
    lift (validate_key key)
    lift (new_cipher key)
    nonce ← random_bytes nonce_size
    pure (blob_version ∷ nonce ++ g.seal key nonce plaintext aad)

  -- After the checks of key, length and version; `rest` is the blob without its first byte.
  unfoldable pub open_body : Bytes → Bytes → Bytes → Result Error Bytes
  open_body key rest aad =
      let nonce = take nonce_size rest in
      let ciphertext = drop nonce_size rest in
      if ltb (length ciphertext) overhead
      then err invalid_ciphertext
      else or_err (g.unseal key nonce ciphertext aad) invalid_ciphertext

  abbrev pub decrypt_blob : Bytes → Bytes → Bytes → Result Error Bytes
  unfolding open_body new_cipher
  decrypt_blob key [] aad = err invalid_ciphertext
  decrypt_blob key (version ∷ rest) aad =
      if ltb (length (version ∷ rest)) (1 + nonce_size)
      then err invalid_ciphertext
      else if not (same version blob_version)
      then err unsupported_version
      else Result.◌>>◌ (new_cipher key) (open_body key rest aad)

  unfoldable pub decrypt_aes_gcm : Bytes → Bytes → Bytes → Result Error Bytes
  unfolding validate_key decrypt_blob
  decrypt_aes_gcm key blob aad = Result.◌>>◌ (validate_key key) (decrypt_blob key blob aad)

  unfoldable pub new_envelope : Bytes → ℕ → Bytes → Rand Error EnvelopeEncrypter
  unfolding validate_key random_bytes
  new_envelope kek kek_version aad = do
    map_err (wrapped (codes "validate KEK")) (lift (validate_key kek))
    dek ← map_err (wrapped (codes "generate DEK")) (random_bytes key_size)
    wrapped_dek ← map_err (wrapped (codes "wrap DEK")) (encrypt_aes_gcm kek dek aad)
    pure (record {
      envelope = record { wrapped_dek = wrapped_dek; kek_version = kek_version };
      dek = dek;
    })

  unfoldable pub open_envelope : Bytes → Envelope → Bytes → Result Error EnvelopeDecrypter
  unfolding validate_key
  open_envelope kek envelope aad =
      Result.◌>>=◌ (Result.map_err (wrapped (codes "validate KEK")) (validate_key kek)) λ _.
        Result.◌>>=◌
          (Result.map_err (wrapped (codes "unwrap DEK"))
            (decrypt_aes_gcm kek envelope.wrapped_dek aad))
          λ dek.
            Result.◌>>=◌ (Result.map_err (wrapped (codes "validate DEK")) (validate_key dek))
              λ _. ok (record { dek = dek })

  -- `EncryptWithAAD` of either handle: both run it on their DEK.
  unfoldable pub encrypt_with_aad : Bytes → Bytes → Bytes → Rand Error Bytes
  encrypt_with_aad dek plaintext aad =
      map_err (wrapped (codes "encrypt data")) (encrypt_aes_gcm dek plaintext aad)

  unfoldable pub decrypt_with_aad : EnvelopeDecrypter → Bytes → Bytes → Result Error Bytes
  decrypt_with_aad d ciphertext aad =
      Result.map_err (wrapped (codes "decrypt data")) (decrypt_aes_gcm d.dek ciphertext aad)
