-- ===== src/Text/Basic.antt =====
-- Go strings as sequences of bytes, and the comparison `==`.
use Prim.Native.Char.{code}
use Prim.Native.String.{String}
use shiroyagi.Base.{ℕ, ◌≡◌, refl, ◌↔◌, Bool, true, false, ◌&&◌, List, [], ◌∷◌, arith, same}

abbrev pub Bytes : Type 0
Bytes = List ℕ

-- The bytes of an ASCII literal.
abbrev pub codes : String → Bytes
codes String.[] = []
codes (String.◌∷◌ c s) = code c ∷ codes s

-- The test of two strings.
infix 50 ◌==◌
unfoldable pub ◌==◌ : Bytes → Bytes → Bool
[] == [] = true
[] == (y ∷ t) = false
(x ∷ s) == [] = false
(x ∷ s) == (y ∷ t) = same x y && s == t

pub eq_iff : (s t : Bytes) → ((s == t) ≡ true) ↔ (s ≡ t)
unfolding ◌==◌
eq_iff [] [] = ground arith
eq_iff [] (y ∷ t) = ground arith
eq_iff (x ∷ s) [] = ground arith
eq_iff (x ∷ s) (y ∷ t) = ground (arith, eq_iff s t)

pub eq_refl : (s : Bytes) → (s == s) ≡ true
eq_refl s = (eq_iff s s).1 refl

-- s == ""
abbrev pub is_empty : Bytes → Bool
is_empty [] = true
is_empty (c ∷ s) = false
