-- ===== src/Crypto/RoundTrip.antt =====
-- What is encrypted under an envelope is read back under it.
use shiroyagi.Base.{
  ℕ, ◌≤◌, ◌≡◌, refl, sym, ◌∙◌, append_inj_of_length, ◌++◌, length, take, drop, arith, length-take,
  length-drop,
}
use shiroyagi.Base.Result.{ok}
use shiroyagi.Text.{Bytes}
use shiroyagi.Crypto.Gcm.{Gcm, GcmLaws}
use shiroyagi.Crypto.Envelope.{
  EnvelopeEncrypter, EnvelopeDecrypter, encrypt_aes_gcm, new_envelope, open_envelope,
  encrypt_with_aad, decrypt_with_aad,
}
use shiroyagi.Crypto.Blob.{blob_of, decrypt-eq-ok_iff, decrypt-blob_of}

module _ (g : Gcm) where
  pub encrypt_aes_gcm_lem :
      (key plaintext aad supply : Bytes)
      → length key ≡ 32
      → 12 ≤ length supply
      → encrypt_aes_gcm g key plaintext aad supply
        ≡ (ok (blob_of g key (take 12 supply) plaintext aad), drop 12 supply)
  unfolding encrypt_aes_gcm
  encrypt_aes_gcm_lem key plaintext aad supply hk hs = ground arith

  -- the encrypter that `new_envelope` makes from a supply of 44 bytes
  abbrev pub envelope_of : Bytes → ℕ → Bytes → Bytes → EnvelopeEncrypter
  envelope_of kek version aad supply = record {
    envelope = record {
      wrapped_dek = blob_of g kek (take 12 (drop 32 supply)) (take 32 supply) aad;
      kek_version = version;
    };
    dek = take 32 supply;
  }

  pub new_envelope_lem :
      (kek : Bytes) (version : ℕ) (aad supply : Bytes)
      → length kek ≡ 32
      → 44 ≤ length supply
      → new_envelope g kek version aad supply
        ≡ (ok (envelope_of kek version aad supply), drop 12 (drop 32 supply))
  unfolding new_envelope
  new_envelope_lem kek version aad supply hk hs =
      let left = length-drop 32 supply in
      ground (
        arith,
        left,
        encrypt_aes_gcm_lem kek (take 32 supply) aad (drop 32 supply) hk (omega (arith, left)),
      )

  pub encrypt_with_aad_lem :
      (dek plaintext aad supply : Bytes)
      → length dek ≡ 32
      → 12 ≤ length supply
      → encrypt_with_aad g dek plaintext aad supply
        ≡ (ok (blob_of g dek (take 12 supply) plaintext aad), drop 12 supply)
  unfolding encrypt_with_aad
  encrypt_with_aad_lem dek plaintext aad supply hk hs =
      ground (arith, encrypt_aes_gcm_lem dek plaintext aad supply hk hs)

module _ (g : Gcm) (laws : GcmLaws g) where
  pub open_envelope_lem :
      (kek : Bytes) (version : ℕ) (aad supply : Bytes)
      → length kek ≡ 32
      → 44 ≤ length supply
      → open_envelope g kek (envelope_of g kek version aad supply).envelope aad
        ≡ ok (record { dek = take 32 supply })
  unfolding open_envelope
  open_envelope_lem kek version aad supply hk hs =
      let size : length (take 32 supply) ≡ 32 = omega (arith, length-take 32 supply) in
      let nonce : length (take 12 (drop 32 supply)) ≡ 12 =
        omega (arith, length-take 12 (drop 32 supply), length-drop 32 supply) in
      ground
        (arith, decrypt-blob_of g laws kek (take 12 (drop 32 supply)) (take 32 supply) aad hk nonce)

  -- What either handle of an envelope encrypts for some additional data, a decrypter with the same
  -- DEK gives back for that additional data.
  pub decrypt-encrypt :
      (dek plaintext aad supply ciphertext rest : Bytes)
      → encrypt_with_aad g dek plaintext aad supply ≡ (ok ciphertext, rest)
      → decrypt_with_aad g (record { dek = dek }) ciphertext aad ≡ ok plaintext
  unfolding encrypt_with_aad encrypt_aes_gcm decrypt_with_aad
  decrypt-encrypt dek plaintext aad supply ciphertext rest h =
      let opened = decrypt-blob_of g laws dek (take 12 supply) plaintext aad in
      ground (arith, opened (ground arith) (ground (arith, length-take 12 supply)))

  -- With a KEK of 32 bytes and 56 random bytes a new envelope and the encryption of a text under it
  -- succeed, the envelope records the KEK version, it opens under the KEK with the additional data
  -- that it was made for, and the opened envelope decrypts the text.
  pub envelope_lem :
      (kek : Bytes) (version : ℕ) (aad plaintext field_aad supply : Bytes)
      → length kek ≡ 32
      → 56 ≤ length supply
      → (e : EnvelopeEncrypter) × (d : EnvelopeDecrypter) × (ciphertext : Bytes) × (rest : Bytes)
        × (left : Bytes) × (new_envelope g kek version aad supply ≡ (ok e, rest))
        × (e.envelope.kek_version ≡ version)
        × (encrypt_with_aad g e.dek plaintext field_aad rest ≡ (ok ciphertext, left))
        × (open_envelope g kek e.envelope aad ≡ ok d)
        × (decrypt_with_aad g d ciphertext field_aad ≡ ok plaintext)
  envelope_lem kek version aad plaintext field_aad supply hk hs =
      let rest = drop 12 (drop 32 supply) in
      let dek = take 32 supply in
      let enough : 12 ≤ length rest =
        omega (arith, length-drop 12 (drop 32 supply), length-drop 32 supply) in
      let size : length dek ≡ 32 = omega (arith, length-take 32 supply) in
      let wrote = encrypt_with_aad_lem g dek plaintext field_aad rest size enough in
      (
        envelope_of g kek version aad supply,
        record { dek = dek },
        blob_of g dek (take 12 rest) plaintext field_aad,
        rest,
        drop 12 rest,
        new_envelope_lem g kek version aad supply hk (omega arith),
        refl,
        wrote,
        open_envelope_lem kek version aad supply hk (omega arith),
        decrypt-encrypt dek plaintext field_aad rest _ _ wrote,
      )

  -- A ciphertext made for some additional data that decrypts, under the same DEK, for other
  -- additional data is a collision of the cipher: two pairs of a text and its additional data that
  -- seal to the same bytes under one nonce.
  pub other_aad :
      (dek plaintext aad supply ciphertext rest aad' plaintext' : Bytes)
      → encrypt_with_aad g dek plaintext aad supply ≡ (ok ciphertext, rest)
      → decrypt_with_aad g (record { dek = dek }) ciphertext aad' ≡ ok plaintext'
      → g.seal dek (take 12 supply) plaintext aad ≡ g.seal dek (take 12 supply) plaintext' aad'
  unfolding encrypt_with_aad encrypt_aes_gcm decrypt_with_aad
  other_aad dek plaintext aad supply ciphertext rest aad' plaintext' h k =
      let (size, (nonce, hn, e)) =
        (decrypt-eq-ok_iff g laws dek ciphertext aad' plaintext').0 (ground arith) in
      let hs : length (take 12 supply) ≡ 12 = ground (arith, length-take 12 supply) in
      let same_bytes : take 12 supply ++ g.seal dek (take 12 supply) plaintext aad
          ≡ nonce ++ g.seal dek nonce plaintext' aad' =
        ground arith in
      let parts = append_inj_of_length (take 12 supply) nonce same_bytes (hs ∙ sym hn) in
      let same_nonce = parts.0 in let same_body = parts.1 in cc
