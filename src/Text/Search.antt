-- ===== src/Text/Search.antt =====
-- `HasPrefix`, `Contains`, `TrimSuffix`, `TrimRight` and `ReplaceAll` of the package `strings`.
use shiroyagi.Base.{
  ℕ, zero, suc, ◌-◌, Bool, true, false, ◌&&◌, ◌||◌, [], ◌∷◌, ◌++◌, reverse, same, length,
  if◌then◌else◌,
}
use shiroyagi.Text.Basic.{Bytes, is_empty}

unfoldable pub has_prefix : Bytes → Bytes → Bool
has_prefix s [] = true
has_prefix [] (p ∷ ps) = false
has_prefix (c ∷ s) (p ∷ ps) = same c p && has_prefix s ps

unfoldable pub contains : Bytes → Bytes → Bool
unfolding has_prefix
contains [] sub = is_empty sub
contains (c ∷ s) sub = has_prefix (c ∷ s) sub || contains s sub

-- `s` without the bytes `b` at its front; `trim_right` drops them at the end, as
-- `TrimRight(s, string(b))` does for an ASCII byte.
unfoldable pub trim_left : Bytes → ℕ → Bytes
trim_left [] b = []
trim_left (c ∷ s) b = if same c b then trim_left s b else c ∷ s

unfoldable pub trim_right : Bytes → ℕ → Bytes
unfolding trim_left
trim_right s b = reverse (trim_left (reverse s) b)

-- `TrimSuffix(s, string(b))` for one byte.
abbrev pub drop_first : Bytes → ℕ → Bytes
drop_first [] b = []
drop_first (c ∷ s) b = if same c b then s else c ∷ s

unfoldable pub trim_suffix : Bytes → ℕ → Bytes
trim_suffix s b = reverse (drop_first (reverse s) b)

-- The bytes still to skip are those of the match that was replaced.
unfoldable pub replace_from : Bytes → Bytes → ℕ → Bytes → Bytes
replace_from old new skip [] = []
replace_from old new (suc skip) (c ∷ s) = replace_from old new skip s
replace_from old new zero (c ∷ s) = elim (has_prefix (c ∷ s) old) [
  | true ↦ new ++ replace_from old new (length old - 1) s
  | false ↦ c ∷ replace_from old new 0 s
]

-- `ReplaceAll(s, old, new)` for a text `old` that is not empty.
unfoldable pub replace_all : Bytes → Bytes → Bytes → Bytes
unfolding replace_from has_prefix
replace_all s old new = replace_from old new 0 s
