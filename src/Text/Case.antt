-- ===== src/Text/Case.antt =====
-- `ToLower` and `EqualFold` of the package `strings`.
use shiroyagi.Base.{ℕ, ◌+◌, Bool, true, false, ◌&&◌, ◌||◌, [], ◌∷◌, leb, same, if◌then◌else◌}
use shiroyagi.Text.Basic.{Bytes}
use shiroyagi.Text.Unicode.{Unicode}

unfoldable pub lower_ascii : ℕ → ℕ
lower_ascii c = if leb b'A' c && leb c b'Z' then c + 32 else c

module _ ⦃u : Unicode⦄ where
  unfoldable pub to_lower : Bytes → Bytes
  unfolding lower_ascii
  to_lower [] = []
  to_lower (c ∷ s) = if leb 128 c then u.to_lower (c ∷ s) else lower_ascii c ∷ to_lower s

  unfoldable pub equal_fold : Bytes → Bytes → Bool
  unfolding lower_ascii
  equal_fold [] [] = true
  equal_fold [] (y ∷ t) = false
  equal_fold (x ∷ s) [] = false
  equal_fold (x ∷ s) (y ∷ t) =
      if leb 128 x || leb 128 y
      then u.equal_fold (x ∷ s) (y ∷ t)
      else same (lower_ascii x) (lower_ascii y) && equal_fold s t
