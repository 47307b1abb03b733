-- ===== src/Text/Space.antt =====
-- `TrimSpace` of the package `strings`: it walks from both ends while the bytes are ASCII.
use shiroyagi.Base.{ℕ, Bool, ◌&&◌, ◌||◌, [], ◌∷◌, reverse, leb, same, if◌then◌else◌}
use shiroyagi.Text.Basic.{Bytes}
use shiroyagi.Text.Unicode.{Unicode}

-- '\t', '\n', '\v', '\f', '\r' and ' '
unfoldable pub is_space : ℕ → Bool
is_space c = (leb 9 c && leb c 13) || same c 32

module _ ⦃u : Unicode⦄ where
  -- the loop from the end, over the reversed text
  unfoldable pub trim_back : Bytes → Bytes
  unfolding is_space
  trim_back [] = []
  trim_back (c ∷ r) =
      if leb 128 c
      then u.trim_right (reverse (c ∷ r))
      else if is_space c
      then trim_back r
      else reverse (c ∷ r)

  unfoldable pub trim_space : Bytes → Bytes
  unfolding trim_back
  trim_space [] = []
  trim_space (c ∷ s) =
      if leb 128 c
      then u.trim (c ∷ s)
      else if is_space c
      then trim_space s
      else trim_back (reverse (c ∷ s))
