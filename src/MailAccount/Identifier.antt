-- ===== src/MailAccount/Identifier.antt =====
-- `NewID` of internal/mailaccount/store.go: a random UUID of version 4.
use shiroyagi.Base.{
  ℕ, ◌+◌, ◌-◌, ◌/◌, ◌%◌, [], ◌∷◌, ◌++◌, ltb, leb, length, take, drop, if◌then◌else◌,
}
use shiroyagi.Base.Result.{ok, err}
use shiroyagi.Text.{Bytes}
use shiroyagi.Crypto.Rand.{Rand}

abbrev pub hex_digit : ℕ → ℕ
hex_digit n = if ltb n 10 then b'0' + n else b'a' + (n - 10)

-- `%02x` of each byte
unfoldable pub hex : Bytes → Bytes
hex [] = []
hex (b ∷ s) = hex_digit (b / 16) ∷ hex_digit (b % 16) ∷ hex s

abbrev pub versioned : ℕ → ℕ
versioned b = b % 16 + 64

abbrev pub variant : ℕ → ℕ
variant b = b % 64 + 128

-- The text of 16 bytes, two of which get the version and the variant.
unfoldable pub uuid : Bytes → Bytes
unfolding hex
uuid (b0 ∷ b1 ∷ b2 ∷ b3 ∷ b4 ∷ b5 ∷ b6 ∷ b7 ∷ b8 ∷ b9 ∷ rest) =
    hex (b0 ∷ b1 ∷ b2 ∷ b3 ∷ [])
    ++ (b'-' ∷ hex (b4 ∷ b5 ∷ [])
        ++ (b'-' ∷ hex (versioned b6 ∷ b7 ∷ [])
            ++ (b'-' ∷ hex (variant b8 ∷ b9 ∷ []) ++ (b'-' ∷ hex rest))))
uuid _ = []

pub data Error : Type 0 where
  read_random_bytes : Error

unfoldable pub new_id : Rand Error Bytes
unfolding uuid
new_id supply =
    if leb 16 (length supply)
    then (ok (uuid (take 16 supply)), drop 16 supply)
    else (err read_random_bytes, [])
