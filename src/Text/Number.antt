-- ===== src/Text/Number.antt =====
-- Numbers of the package `strconv` in base 10: `Itoa`, `ParseUint`, `ParseInt` and `Atoi`.
use shiroyagi.Base.{
  ℕ, zero, suc, ◌+◌, ◌-◌, ◌*◌, ◌/◌, ◌%◌, ◌^◌, ◌<◌, ◌≤◌, ◌≡◌, refl, inl, inr, Bool-cases, Bool, true,
  false, ◌&&◌, Option, none, some, [], ◌∷◌, ltb, leb, same, arith, if◌then◌else◌,
}
use shiroyagi.Base.Int.{ℤ, pos, negsuc}
use shiroyagi.Text.Basic.{Bytes, codes, is_empty}

-- The digits of `n` before `acc`; a number has fewer digits than `n + 1`.
unfoldable pub decimal_from : ℕ → ℕ → Bytes → Bytes
decimal_from zero n acc = acc
decimal_from (suc fuel) n acc =
    let rest = decimal_from fuel (n / 10) ((48 + n % 10) ∷ acc) in
    if ltb n 10 then (48 + n) ∷ acc else rest

unfoldable pub decimal : ℕ → Bytes
unfolding decimal_from
decimal n = decimal_from (suc n) n []

-- `Itoa`
unfoldable pub itoa : ℤ → Bytes
unfolding decimal
itoa (pos n) = decimal n
itoa (negsuc n) = b'-' ∷ decimal (n + 1)

abbrev pub is_digit : ℕ → Bool
is_digit c = leb 48 c && leb c 57

-- The value of a text of digits after those of the value `v`.
unfoldable pub value_from : ℕ → Bytes → Option ℕ
value_from v [] = some v
value_from v (c ∷ s) = elim (is_digit c) [ true ↦ value_from (v * 10 + (c - 48)) s | false ↦ none ]

abbrev pub below : ℕ → Option ℕ → Option ℕ
below bound none = none
below bound (some n) = if ltb n bound then some n else none

-- `ParseUint(s, 10, bits)`; none is an error.
unfoldable pub parse_uint : Bytes → ℕ → Option ℕ
unfolding value_from
parse_uint s bits = if is_empty s then none else below (2 ^ bits) (value_from 0 s)

abbrev pub negated : ℕ → ℤ
negated zero = pos 0
negated (suc n) = negsuc n

abbrev pub signed : Bool → Option ℕ → Option ℤ
signed b none = none
signed true (some n) = some (negated n)
signed false (some n) = some (pos n)

unfoldable pub unsigned_part : Bytes → ℕ → Option ℕ
unfolding value_from
unsigned_part s bound = if is_empty s then none else below bound (value_from 0 s)

-- `ParseInt(s, 10, bits)` for `bits` of at least 1
unfoldable pub parse_int : Bytes → ℕ → Option ℤ
unfolding unsigned_part
parse_int [] bits = none
parse_int (c ∷ s) bits =
    if same c b'-'
    then signed true (unsigned_part s (2 ^ (bits - 1) + 1))
    else if same c b'+'
    then signed false (unsigned_part s (2 ^ (bits - 1)))
    else signed false (unsigned_part (c ∷ s) (2 ^ (bits - 1)))

-- `Atoi` on a platform whose `int` has 64 bits
unfoldable pub atoi : Bytes → Option ℤ
unfolding parse_int
atoi s = parse_int s 64

value_from-decimal_from :
    (fuel n : ℕ) (acc : Bytes)
    → n < fuel
    → value_from 0 (decimal_from fuel n acc) ≡ value_from n acc
unfolding decimal_from value_from
value_from-decimal_from zero n acc h = absurd (omega arith)
value_from-decimal_from (suc fuel) n acc h =
    ground (arith, value_from-decimal_from fuel (n / 10) ((48 + n % 10) ∷ acc))

is_empty-decimal_from :
    (fuel n c : ℕ) (acc : Bytes) → is_empty (decimal_from fuel n (c ∷ acc)) ≡ false
unfolding decimal_from
is_empty-decimal_from zero n c acc = refl
is_empty-decimal_from (suc fuel) n c acc =
    ground (arith, is_empty-decimal_from fuel (n / 10) (48 + n % 10) (c ∷ acc))

is_empty-decimal : (n : ℕ) → is_empty (decimal n) ≡ false
unfolding decimal decimal_from
is_empty-decimal n = ground (arith, is_empty-decimal_from n (n / 10) (48 + n % 10) [])

-- What `Itoa` writes for a number that fits is read back.
pub parse_uint-decimal : (n bits : ℕ) → n < 2 ^ bits → parse_uint (decimal n) bits ≡ some n
unfolding parse_uint decimal
parse_uint-decimal n bits h =
    ground (arith, is_empty-decimal n, value_from-decimal_from (suc n) n [])

below-eq-some : (bound : ℕ) (o : Option ℕ) (n : ℕ) → below bound o ≡ some n → n < bound
below-eq-some bound none n h = absurd (cc)
below-eq-some bound (some m) n h = ground arith

-- A number that is read fits into the bits.
pub parse_uint-small : (s : Bytes) (bits n : ℕ) → parse_uint s bits ≡ some n → n < 2 ^ bits
unfolding parse_uint
parse_uint-small [] bits n h = absurd (cc)
parse_uint-small (c ∷ s) bits n h = below-eq-some (2 ^ bits) (value_from 0 (c ∷ s)) n h

unsigned_part-small : (s : Bytes) (bound n : ℕ) → unsigned_part s bound ≡ some n → n < bound
unfolding unsigned_part
unsigned_part-small [] bound n h = absurd (cc)
unsigned_part-small (c ∷ s) bound n h = below-eq-some bound (value_from 0 (c ∷ s)) n h

signed-negative : (o : Option ℕ) (n : ℕ) → signed true o ≡ some (pos n) → n ≡ 0
signed-negative none n h = absurd (cc)
signed-negative (some zero) n h = cc
signed-negative (some (suc m)) n h = absurd (cc)

signed-positive : (o : Option ℕ) (n : ℕ) → signed false o ≡ some (pos n) → o ≡ some n
signed-positive none n h = absurd (cc)
signed-positive (some m) n h = cc

-- A positive number that is read fits into the bits without the sign.
pub parse_int-small :
    (s : Bytes) (bits n : ℕ) → parse_int s bits ≡ some (pos n) → 1 ≤ n → n < 2 ^ (bits - 1)
unfolding parse_int
parse_int-small [] bits n h k = absurd (cc)
parse_int-small (c ∷ s) bits n h k = elim (Bool-cases (same c b'-')) [
  | inl minus ↦
      absurd
        (omega (arith, signed-negative (unsigned_part s (2 ^ (bits - 1) + 1)) n (ground arith), k))
  | inr other ↦ elim (Bool-cases (same c b'+')) [
    | inl plus ↦
        unsigned_part-small s (2 ^ (bits - 1)) n
          (signed-positive (unsigned_part s (2 ^ (bits - 1))) n (ground arith))
    | inr digits ↦
        unsigned_part-small (c ∷ s) (2 ^ (bits - 1)) n
          (signed-positive (unsigned_part (c ∷ s) (2 ^ (bits - 1))) n (ground arith))
  ]
]

decimal_runs : itoa (negsuc 119) ≡ codes "-120"
unfolding itoa
decimal_runs = refl

atoi_runs : atoi (codes "-65535") ≡ some (negsuc 65534)
unfolding atoi
atoi_runs = refl
