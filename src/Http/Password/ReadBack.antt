-- ===== src/Http/Password/ReadBack.antt =====
-- A password that is saved is the password that the clients get.
use shiroyagi.Base.{
  ℕ, ◌≤◌, ◌≡◌, ◌≢◌, refl, Bool, true, false, some, [], ◌∷◌, length, take, drop, length-drop,
  length-take, arith,
}
use shiroyagi.Base.Result.{ok}
use shiroyagi.Text.{Bytes}
use shiroyagi.Crypto.Gcm.{Gcm, GcmLaws}
use shiroyagi.Crypto.Envelope.{EnvelopeDecrypter, open_envelope}
use shiroyagi.Crypto.Blob.{blob_of}
use shiroyagi.Crypto.RoundTrip.{
  encrypt_with_aad_lem, new_envelope_lem, open_envelope_lem, envelope_of, decrypt-encrypt,
}
use shiroyagi.Http.Password.{
  Secret, Encrypter, envelope_aad, field_aad, encrypter_for, seal_with, seal_password,
  decrypt_password,
}

module _ (g : Gcm) (laws : GcmLaws g) where
  -- Settings that exist have an envelope that opens.
  abbrev pub Openable : Bytes → Bytes → Bool → Secret → Type 0
  Openable kek aad true s = (d : EnvelopeDecrypter) × (open_envelope g kek s.envelope aad ≡ ok d)
  Openable kek aad false s = Unit

  dek_size :
      (kek aad : Bytes) (s : Secret) (d : EnvelopeDecrypter)
      → open_envelope g kek s.envelope aad ≡ ok d
      → length d.dek ≡ 32
  unfolding open_envelope
  dek_size kek aad s d h = ground arith

  module _ (version : ℕ) (user_id account_id field : Bytes) where
    encrypter_for_lem :
        (kek : Bytes) (has : Bool) (s : Secret) (supply : Bytes)
        → length kek ≡ 32
        → 56 ≤ length supply
        → Openable kek (envelope_aad user_id account_id) has s
        → (e : Encrypter) × (left : Bytes) × (encrypter_for g version user_id account_id field kek
              has s supply
            ≡ (ok e, left))
          × (12 ≤ length left)
          × (length e.dek ≡ 32)
          × (open_envelope g kek e.secret.envelope (envelope_aad user_id account_id)
              ≡ ok (record { dek = e.dek }))
    unfolding encrypter_for
    encrypter_for_lem kek true s supply hk hs (d, h) = (
      record { secret = s; dek = d.dek },
      supply,
      rw h refl,
      omega (arith, hs),
      dek_size kek (envelope_aad user_id account_id) s d h,
      h,
    )
    encrypter_for_lem kek false s supply hk hs opened =
        let aad = envelope_aad user_id account_id in
        let e = envelope_of g kek version aad supply in
        (
          record { secret = record s { envelope = e.envelope }; dek = e.dek },
          drop 12 (drop 32 supply),
          rw (new_envelope_lem g kek version aad supply hk (omega (arith, hs))) refl,
          omega (arith, hs, length-drop 12 (drop 32 supply), length-drop 32 supply),
          omega (arith, hs, length-take 32 supply),
          open_envelope_lem g laws kek version aad supply hk (omega (arith, hs)),
        )

    -- With a KEK of 32 bytes and 56 random bytes, and with an envelope that opens where the settings
    -- exist already, a password that is not empty is encrypted, and what is then stored decrypts
    -- to that password.
    pub seal_password-reads_back :
        (kek : Bytes) (has : Bool) (s : Secret) (password supply : Bytes)
        → length kek ≡ 32
        → 56 ≤ length supply
        → Openable kek (envelope_aad user_id account_id) has s
        → password ≢ []
        → (stored : Secret) × (left : Bytes) × (seal_password g version user_id account_id field
              (some kek)
              has
              s
              password
              supply
            ≡ (ok stored, left))
          × (decrypt_password g user_id account_id field (some kek) stored ≡ ok password)
    unfolding seal_password seal_with decrypt_password
    seal_password-reads_back kek has s [] supply hk hs opened named = absurd (named refl)
    seal_password-reads_back kek has s (c ∷ password) supply hk hs opened named =
        let (e, left, made, enough, size, opens) =
          encrypter_for_lem kek has s supply hk hs opened in
        let aad = field_aad user_id account_id field in
        let wrote = encrypt_with_aad_lem g e.dek (c ∷ password) aad left size enough in
        (
          record {
            encrypted_password = blob_of g e.dek (take 12 left) (c ∷ password) aad;
            envelope = e.secret.envelope;
          },
          drop 12 left,
          rw made (rw wrote refl),
          rw opens (rw (decrypt-encrypt g laws e.dek (c ∷ password) aad left _ _ wrote) refl),
        )
