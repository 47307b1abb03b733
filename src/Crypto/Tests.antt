-- ===== src/Crypto/Tests.antt =====
-- A cipher that meets the laws (and hides nothing), and the theorems at concrete inputs.
use shiroyagi.Base.{
  ◌+◌, ◌-◌, ◌≡◌, refl, ◌↔◌, ◌⊎◌, Option, none, some, ◌++◌, [], ◌∷◌, length, take, drop, replicate,
  arith, length-append, take_of_length, if◌then◌else◌, ◌<◌, ◌≢◌,
}
use shiroyagi.Base.Result.{ok, err}
use shiroyagi.Text.{Bytes, codes, ◌==◌, eq_iff, eq_refl}
use shiroyagi.Crypto.Gcm.{Gcm, GcmLaws}
use shiroyagi.Crypto.Envelope.{
  EnvelopeEncrypter, EnvelopeDecrypter, invalid_key_size, invalid_ciphertext, unsupported_version,
  decrypt_aes_gcm, encrypt_aes_gcm, new_envelope, open_envelope, encrypt_with_aad, decrypt_with_aad,
}
use shiroyagi.Crypto.Blob.{blob_of, decrypt-eq-ok_iff, decrypt_errors}
use shiroyagi.Crypto.RoundTrip.{envelope_lem, other_aad}

pub toy_seal : Bytes → Bytes → Bytes → Bytes → Bytes
toy_seal key nonce plaintext aad = plaintext ++ replicate 16 (length aad)

pub toy_unseal : Bytes → Bytes → Bytes → Bytes → Option Bytes
unfolding toy_seal ◌==◌
toy_unseal key nonce ciphertext aad =
    let plaintext = take (length ciphertext - 16) ciphertext in
    if ciphertext == toy_seal key nonce plaintext aad then some plaintext else none

abbrev pub toy : Gcm
toy = record { seal = toy_seal; unseal = toy_unseal }

toy_length :
    (key nonce plaintext aad : Bytes)
    → length (toy_seal key nonce plaintext aad) ≡ length plaintext + 16
unfolding toy_seal
toy_length key nonce plaintext aad = length-append plaintext (replicate 16 (length aad))

toy_front :
    (key nonce plaintext aad : Bytes)
    → take (length (toy_seal key nonce plaintext aad) - 16) (toy_seal key nonce plaintext aad)
      ≡ plaintext
toy_front key nonce plaintext aad =
    unfold toy_seal in
    take_of_length plaintext _ (omega (arith, length-append plaintext (replicate 16 (length aad))))

toy_opens :
    (key nonce plaintext aad : Bytes)
    → toy_unseal key nonce (toy_seal key nonce plaintext aad) aad ≡ some plaintext
unfolding toy_unseal
toy_opens key nonce plaintext aad = rw (toy_front key nonce plaintext aad) (rw eq_refl)

toy_sound :
    (key nonce ciphertext aad plaintext : Bytes)
    → toy_unseal key nonce ciphertext aad ≡ some plaintext
    → ciphertext ≡ toy_seal key nonce plaintext aad
unfolding toy_unseal
toy_sound key nonce ciphertext aad plaintext h =
    let front = take (length ciphertext - 16) ciphertext in
    ground (arith, eq_iff ciphertext (toy_seal key nonce front aad))

pub toy_laws : GcmLaws toy
toy_laws = record {
  length-seal = toy_length;
  unseal-seal = λ key nonce plaintext aad _ _. toy_opens key nonce plaintext aad;
  seal_of_unseal = toy_sound;
}

abbrev pub key : Bytes
key = replicate 32 7

abbrev pub supply : Bytes
supply = replicate 60 9

-- too short for a blob
abbrev short : Bytes
short = 5 ∷ []

abbrev secret : Bytes
secret = codes "s3cret"

decrypt-eq-ok_iff_example : (decrypt_aes_gcm toy key short [] ≡ ok secret) ↔ (
    (length key ≡ 32)
    × ((nonce : Bytes) × (length nonce ≡ 12) × (short ≡ blob_of toy key nonce secret [])))
decrypt-eq-ok_iff_example = decrypt-eq-ok_iff toy toy_laws key short [] secret

decrypt_errors_example :
    ((decrypt_aes_gcm toy key short [] ≡ err invalid_key_size) ↔ (length key ≢ 32))
    × (((decrypt_aes_gcm toy key short [] ≡ err unsupported_version)
          ↔ ((length key ≡ 32) × (12 < length short) × (take 1 short ≢ 1 ∷ [])))
        × ((decrypt_aes_gcm toy key short [] ≡ err invalid_ciphertext) ↔ (
            (length key ≡ 32)
            × ((length short < 13)
                ⊎ ((take 1 short ≡ 1 ∷ [])
                    × ((length short < 29)
                        ⊎ (toy.unseal key (take 12 (drop 1 short)) (drop 13 short) [] ≡ none)))))))
decrypt_errors_example = decrypt_errors toy key short []

envelope_lem_example :
    (e : EnvelopeEncrypter) × (d : EnvelopeDecrypter) × (ciphertext : Bytes) × (rest : Bytes)
    × (left : Bytes) × (new_envelope toy key 1 (codes "u:a") supply ≡ (ok e, rest))
    × (e.envelope.kek_version ≡ 1)
    × (encrypt_with_aad toy e.dek secret (codes "u:a:f") rest ≡ (ok ciphertext, left))
    × (open_envelope toy key e.envelope (codes "u:a") ≡ ok d)
    × (decrypt_with_aad toy d ciphertext (codes "u:a:f") ≡ ok secret)
envelope_lem_example =
    envelope_lem toy toy_laws key 1 (codes "u:a") secret (codes "u:a:f") supply refl (omega arith)

other_aad_example :
    toy_seal key (take 12 supply) secret (codes "ab")
    ≡ toy_seal key (take 12 supply) secret (codes "cd")
unfolding encrypt_with_aad decrypt_with_aad toy_unseal encrypt_aes_gcm decrypt_aes_gcm
other_aad_example =
    other_aad toy toy_laws key secret (codes "ab") supply
      (blob_of toy key (take 12 supply) secret (codes "ab")) (drop 12 supply) (codes "cd") secret
      refl refl
