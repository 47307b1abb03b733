-- ===== src/Base/Exec.antt =====
-- A call that reads and writes a state and may fail: what was written before an error stays
-- written, so the state comes back beside the error too.
use shiroyagi.Base.Result
use shiroyagi.Base.Result.{Result, ok, err}

abbrev pub Exec : Type 0 → Type 0 → Type 0 → Type 0
Exec S E A = S → Result E A × S

module _ {S E A : Type 0} where
  abbrev pub pure : A → Exec S E A
  pure a s = (ok a, s)

  abbrev pub lift : Result E A → Exec S E A
  lift r s = (r, s)

module _ {S E A B : Type 0} where
  abbrev pub continue : Result E A → (A → Exec S E B) → Exec S E B
  continue (ok a) f s = f a s
  continue (err e) f s = (err e, s)

  infixl 5 ◌>>=◌ ◌>>◌
  abbrev pub ◌>>=◌ : Exec S E A → (A → Exec S E B) → Exec S E B
  ◌>>=◌ m f s = continue (m s).0 f (m s).1

  abbrev pub ◌>>◌ : Exec S E A → Exec S E B → Exec S E B
  m >> k = m >>= λ _. k

-- `fmt.Errorf("...: %w", err)` on the error of a call
abbrev pub map_err : {S E F A : Type 0} → (E → F) → Exec S E A → Exec S F A
map_err f m s = (Result.map_err f (m s).0, (m s).1)
