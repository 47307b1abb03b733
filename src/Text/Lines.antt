-- ===== src/Text/Lines.antt =====
-- `Split` at one byte and `Join` of the package `strings`.
use shiroyagi.Base.{ℕ, true, false, List, [], ◌∷◌, ◌++◌, same}
use shiroyagi.Text.Basic.{Bytes}

abbrev pub extend : ℕ → List Bytes → List Bytes
extend c [] = (c ∷ []) ∷ []
extend c (p ∷ ps) = (c ∷ p) ∷ ps

-- `Split(s, string(sep))` for one byte: at least one part.
unfoldable pub split : Bytes → ℕ → List Bytes
split [] sep = [] ∷ []
split (c ∷ s) sep = elim (same c sep) [ true ↦ [] ∷ split s sep | false ↦ extend c (split s sep) ]

-- `Join(parts, sep)`
unfoldable pub join : List Bytes → Bytes → Bytes
join [] sep = []
join (p ∷ []) sep = p
join (p ∷ q ∷ ps) sep = p ++ sep ++ join (q ∷ ps) sep
