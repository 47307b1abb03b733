-- ===== src/Http/Token.antt =====
-- `randomToken` of internal/http/auth.go, with base64.RawURLEncoding.
use shiroyagi.Base.{
  ℕ, ◌+◌, ◌-◌, ◌*◌, ◌/◌, ◌%◌, [], ◌∷◌, ltb, leb, same, length, take, drop, if◌then◌else◌,
}
use shiroyagi.Base.Result.{ok, err}
use shiroyagi.Text.{Bytes}
use shiroyagi.Crypto.Rand.{Rand}

-- The alphabet of RFC 4648, section 5.
unfoldable pub digit : ℕ → ℕ
digit n =
    if ltb n 26
    then b'A' + n
    else if ltb n 52
    then b'a' + (n - 26)
    else if ltb n 62
    then b'0' + (n - 52)
    else if same n 62
    then b'-'
    else b'_'

unfoldable pub base64 : Bytes → Bytes
unfolding digit
base64 [] = []
base64 (a ∷ []) = digit (a / 4) ∷ digit (a % 4 * 16) ∷ []
base64 (a ∷ b ∷ []) = digit (a / 4) ∷ digit (a % 4 * 16 + b / 16) ∷ digit (b % 16 * 4) ∷ []
base64 (a ∷ b ∷ c ∷ s) =
    digit (a / 4)
    ∷ digit (a % 4 * 16 + b / 16)
    ∷ digit (b % 16 * 4 + c / 64)
    ∷ digit (c % 64)
    ∷ base64 s

pub data Error : Type 0 where
  read_random_bytes : Error

unfoldable pub random_token : Rand Error Bytes
random_token supply =
    if leb 32 (length supply)
    then (ok (base64 (take 32 supply)), drop 32 supply)
    else (err read_random_bytes, [])
