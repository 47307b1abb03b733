-- ===== src/Crypto/Blob.antt =====
-- The blob format, and what decryption does with any blob.
use shiroyagi.Base.{
  ◌<◌, ◌≡◌, ◌≢◌, ◌↔◌, ◌⊎◌, [], ◌∷◌, ◌++◌, length, take, drop, arith, take_of_length, drop_of_length,
  length-append, length-take, take-append-drop, none,
}
use shiroyagi.Base.Result.{ok, err}
use shiroyagi.Text.{Bytes}
use shiroyagi.Crypto.Gcm.{Gcm, GcmLaws}
use shiroyagi.Crypto.Envelope.{
  invalid_key_size, invalid_ciphertext, unsupported_version, blob_version, validate_key, open_body,
  new_cipher, decrypt_aes_gcm,
}

-- The blob that encryption writes.
abbrev pub blob_of : Gcm → Bytes → Bytes → Bytes → Bytes → Bytes
blob_of g key nonce plaintext aad = blob_version ∷ nonce ++ g.seal key nonce plaintext aad

module _ (g : Gcm) (laws : GcmLaws g) where
  open_body-seal :
      (key nonce plaintext aad : Bytes)
      → length key ≡ 32
      → length nonce ≡ 12
      → open_body g key (nonce ++ g.seal key nonce plaintext aad) aad ≡ ok plaintext
  unfolding open_body
  open_body-seal key nonce plaintext aad hk hn =
      rw (take_of_length nonce _ hn, drop_of_length nonce _ hn)
        (ground (
          arith,
          laws.unseal-seal key nonce plaintext aad hk hn,
          laws.length-seal key nonce plaintext aad,
        ))

  pub decrypt-blob_of :
      (key nonce plaintext aad : Bytes)
      → length key ≡ 32
      → length nonce ≡ 12
      → decrypt_aes_gcm g key (blob_of g key nonce plaintext aad) aad ≡ ok plaintext
  unfolding decrypt_aes_gcm validate_key new_cipher
  decrypt-blob_of key nonce plaintext aad hk hn =
      let opened = open_body-seal key nonce plaintext aad hk hn in
      let size = length-append nonce (g.seal key nonce plaintext aad) in ground arith

  decrypt_aes_gcm_sound :
      (key blob aad plaintext : Bytes)
      → decrypt_aes_gcm g key blob aad ≡ ok plaintext
      → (length key ≡ 32)
        × ((nonce : Bytes) × (length nonce ≡ 12) × (blob ≡ blob_of g key nonce plaintext aad))
  unfolding decrypt_aes_gcm validate_key new_cipher open_body
  decrypt_aes_gcm_sound key [] aad plaintext h = absurd (ground arith)
  decrypt_aes_gcm_sound key (version ∷ rest) aad plaintext h =
      let sealed = laws.seal_of_unseal key (take 12 rest) (drop 12 rest) aad plaintext in
      (
        ground arith,
        (
          take 12 rest,
          ground (arith, length-take 12 rest),
          ground (arith, sealed, take-append-drop 12 rest),
        ),
      )

  -- Decryption succeeds exactly on the blobs that encryption writes for this key, this text and
  -- this additional data, with a nonce of 12 bytes; so no blob opens to a text that was not sealed.
  pub decrypt-eq-ok_iff :
      (key blob aad plaintext : Bytes)
      → (decrypt_aes_gcm g key blob aad ≡ ok plaintext) ↔ (
          (length key ≡ 32)
          × ((nonce : Bytes) × (length nonce ≡ 12) × (blob ≡ blob_of g key nonce plaintext aad)))
  decrypt-eq-ok_iff key blob aad plaintext = (
    decrypt_aes_gcm_sound key blob aad plaintext,
    λ (hk, (nonce, hn, e)). rw e (decrypt-blob_of key nonce plaintext aad hk hn),
  )

module _ (g : Gcm) where
  -- The cause of each error that a decryption reports, exactly. The key size is invalid if and only
  -- if the key is not 32 bytes long. The version is unsupported if and only if the key has 32 bytes
  -- and the blob has at least 13, of which the first is not 1. The ciphertext is invalid if and only
  -- if the key has 32 bytes and the blob is shorter than 13 bytes; or its first byte is 1 and it is
  -- shorter than 29, or the cipher does not open what follows the 12 bytes of the nonce.
  pub decrypt_errors :
      (key blob aad : Bytes)
      → ((decrypt_aes_gcm g key blob aad ≡ err invalid_key_size) ↔ (length key ≢ 32))
        × (((decrypt_aes_gcm g key blob aad ≡ err unsupported_version)
              ↔ ((length key ≡ 32) × (12 < length blob) × (take 1 blob ≢ 1 ∷ [])))
            × ((decrypt_aes_gcm g key blob aad ≡ err invalid_ciphertext) ↔ (
                (length key ≡ 32)
                × ((length blob < 13)
                    ⊎ ((take 1 blob ≡ 1 ∷ [])
                        × ((length blob < 29)
                            ⊎ (g.unseal key (take 12 (drop 1 blob)) (drop 13 blob) aad ≡ none)))))))
  unfolding decrypt_aes_gcm validate_key new_cipher open_body
  decrypt_errors key [] aad = (
    (λ h. ground arith, λ h. ground arith),
    ((λ h. ground arith, λ h. ground arith), (λ h. ground arith, λ h. ground arith)),
  )
  decrypt_errors key (version ∷ rest) aad = (
    (λ h. ground arith, λ h. ground arith),
    ((λ h. ground arith, λ h. ground arith), (λ h. ground arith, λ h. ground arith)),
  )
