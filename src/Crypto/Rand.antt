-- ===== src/Crypto/Rand.antt =====
-- `crypto/rand` as a supply of bytes: an action takes bytes from the front, and fails when the
-- supply is at its end.
unfoldable pub use shiroyagi.Base.Exec.{pure, lift, map_err, ◌>>=◌, ◌>>◌}
use shiroyagi.Base.Exec.{Exec}
use shiroyagi.Text.{Bytes}

abbrev pub Rand : Type 0 → Type 0 → Type 0
Rand E A = Exec Bytes E A
