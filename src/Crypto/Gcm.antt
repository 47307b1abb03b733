-- ===== src/Crypto/Gcm.antt =====
-- AES-GCM as `crypto/aes` and `crypto/cipher` provide it: the arguments are key, nonce, text and
-- additional data.
use shiroyagi.Base.{ℕ, ◌+◌, ◌≡◌, Option, some, length}
use shiroyagi.Text.{Bytes}

pub record Gcm : Type 0 where
  pub seal : Bytes → Bytes → Bytes → Bytes → Bytes
  pub unseal : Bytes → Bytes → Bytes → Bytes → Option Bytes

-- `Overhead()`: the length of the tag.
abbrev pub overhead : ℕ
overhead = 16

-- What is documented of `Seal` and `Open` at a key of 32 bytes and a nonce of 12. Sealing is
-- deterministic, and a text opens only if it is what sealing gives: the tag is computed again.
pub record GcmLaws (g : Gcm) : Type 0 where
  pub length-seal :
      (key nonce plaintext aad : Bytes)
      → length (g.seal key nonce plaintext aad) ≡ length plaintext + overhead
  pub unseal-seal :
      (key nonce plaintext aad : Bytes)
      → length key ≡ 32
      → length nonce ≡ 12
      → g.unseal key nonce (g.seal key nonce plaintext aad) aad ≡ some plaintext
  pub seal_of_unseal :
      (key nonce ciphertext aad plaintext : Bytes)
      → g.unseal key nonce ciphertext aad ≡ some plaintext
      → ciphertext ≡ g.seal key nonce plaintext aad
