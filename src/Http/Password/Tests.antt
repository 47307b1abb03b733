-- ===== src/Http/Password/Tests.antt =====
-- The theorems on the passwords of mail accounts at concrete inputs.
use shiroyagi.Base.{◌≡◌, refl, false, some, [], arith}
use shiroyagi.Base.Result.{ok}
use shiroyagi.Text.{Bytes, codes}
use shiroyagi.Crypto.Tests.{toy, toy_laws, key, supply}
use shiroyagi.Http.Password.{Secret, imap_password, seal_password, decrypt_password}
use shiroyagi.Http.Password.ReadBack.{seal_password-reads_back}
use shiroyagi.Http.Password.Binding.{field_aad-inj}

abbrev nothing : Secret
nothing = record {
  encrypted_password = [];
  envelope = record { wrapped_dek = []; kek_version = 0 };
}

seal_password-reads_back_example :
    (stored : Secret) × (left : Bytes) × (seal_password toy 1
        (codes "u")
        (codes "a")
        imap_password
        (some key)
        false
        nothing
        (codes "s3cret")
        supply
      ≡ (ok stored, left))
    × (decrypt_password toy (codes "u") (codes "a") imap_password (some key) stored
        ≡ ok (codes "s3cret"))
seal_password-reads_back_example =
    seal_password-reads_back toy toy_laws 1 (codes "u") (codes "a") imap_password key false nothing
      (codes "s3cret") supply refl (omega arith) tt (λ e. cc)

field_aad-inj_example :
    (codes "u" ≡ codes "u") × (codes "a" ≡ codes "a") × (imap_password ≡ imap_password)
field_aad-inj_example =
    field_aad-inj (codes "u") (codes "a") imap_password (codes "u") (codes "a") imap_password refl
      refl refl
