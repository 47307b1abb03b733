-- ===== src/Smtp/Body.antt =====
-- `normalizeBody` of internal/smtp/client.go against one pass over the bytes.
use shiroyagi.Base.{
  ℕ, ◌≡◌, refl, sym, ap, ◌∙◌, Bool, true, false, Bool-cases, inl, inr, ◌&&◌, [], ◌∷◌, ◌++◌, same,
  length, ◌-◌, same_iff, subst, if◌then◌else◌,
}
use shiroyagi.Text.{Bytes, replace_all, replace_from, has_prefix}
use shiroyagi.Smtp.Message.{normalize_body, crlf}

-- One pass that ends a line at CRLF, at a CR and at a LF. The flag says that the byte before was a
-- CR: its line is ended already, and a LF after it adds none.
unfoldable pub normal_from : Bool → Bytes → Bytes
normal_from after [] = []
normal_from after (c ∷ s) =
    if same c 10
    then (if after then normal_from false s else crlf ++ normal_from false s)
    else (if same c 13 then crlf ++ normal_from true s else c ∷ normal_from false s)

replace_from-miss :
    (old new : Bytes) (c : ℕ) (s : Bytes)
    → has_prefix (c ∷ s) old ≡ false
    → replace_from old new 0 (c ∷ s) ≡ c ∷ replace_from old new 0 s
unfolding replace_from
replace_from-miss old new c s h =
    ap
      (λ b. elim b [
        | true ↦ new ++ replace_from old new (length old - 1) s
        | false ↦ c ∷ replace_from old new 0 s
      ])
      h

misses : (c d : ℕ) (s t : Bytes) → same c d ≡ false → has_prefix (c ∷ s) (d ∷ t) ≡ false
unfolding has_prefix
misses c d s t h = ap (λ b. b && has_prefix s t) h

-- The second and the third pass of the program.
ends : Bytes → Bytes
ends t = replace_all (replace_all t (13 ∷ []) (10 ∷ [])) (10 ∷ []) crlf

joined : Bytes → Bytes
joined s = replace_all s crlf (10 ∷ [])

ends-nil : ends [] ≡ []
unfolding ends replace_all replace_from
ends-nil = refl

ends-cr : (t : Bytes) → ends (13 ∷ t) ≡ crlf ++ ends t
unfolding ends replace_all replace_from has_prefix
ends-cr t = refl

ends-lf : (t : Bytes) → ends (10 ∷ t) ≡ crlf ++ ends t
unfolding ends replace_all replace_from has_prefix
ends-lf t = refl

ends-other : (c : ℕ) (t : Bytes) → same c 13 ≡ false → same c 10 ≡ false → ends (c ∷ t) ≡ c ∷ ends t
unfolding ends replace_all replace_from has_prefix
ends-other c t h k =
    ap (λ r. replace_all r (10 ∷ []) crlf)
      (replace_from-miss (13 ∷ []) (10 ∷ []) c t (misses c 13 t [] h))
    ∙ replace_from-miss (10 ∷ []) crlf c (replace_from (13 ∷ []) (10 ∷ []) 0 t)
        (misses c 10 (replace_from (13 ∷ []) (10 ∷ []) 0 t) [] k)

joined-crlf : (s : Bytes) → joined (13 ∷ 10 ∷ s) ≡ 10 ∷ joined s
unfolding joined replace_all replace_from has_prefix
joined-crlf s = refl

joined-cr : (c : ℕ) (s : Bytes) → same c 10 ≡ false → joined (13 ∷ c ∷ s) ≡ 13 ∷ joined (c ∷ s)
unfolding joined replace_all replace_from has_prefix
joined-cr c s h = replace_from-miss crlf (10 ∷ []) 13 (c ∷ s) (misses c 10 s [] h)

joined-other : (c : ℕ) (s : Bytes) → same c 13 ≡ false → joined (c ∷ s) ≡ c ∷ joined s
unfolding joined replace_all replace_from has_prefix
joined-other c s h = replace_from-miss crlf (10 ∷ []) c s (misses c 13 s (10 ∷ []) h)

joined-last : joined (13 ∷ []) ≡ 13 ∷ []
unfolding joined replace_all replace_from has_prefix
joined-last = refl

normal_from-nil : (b : Bool) → normal_from b [] ≡ []
unfolding normal_from
normal_from-nil b = refl

normal_from-lf : (s : Bytes) → normal_from false (10 ∷ s) ≡ crlf ++ normal_from false s
unfolding normal_from
normal_from-lf s = refl

normal_from-lf_after_cr : (s : Bytes) → normal_from true (10 ∷ s) ≡ normal_from false s
unfolding normal_from
normal_from-lf_after_cr s = refl

normal_from-cr : (b : Bool) (s : Bytes) → normal_from b (13 ∷ s) ≡ crlf ++ normal_from true s
unfolding normal_from
normal_from-cr b s = refl

normal_from-other :
    (c : ℕ) (s : Bytes)
    → same c 13 ≡ false
    → same c 10 ≡ false
    → normal_from false (c ∷ s) ≡ c ∷ normal_from false s
unfolding normal_from
normal_from-other c s h k = rw (k, h) refl

normal_from-after_cr :
    (c : ℕ) (s : Bytes) → same c 10 ≡ false → normal_from true (c ∷ s) ≡ normal_from false (c ∷ s)
unfolding normal_from
normal_from-after_cr c s h = rw h refl

Agrees : Bytes → Type 0
Agrees s = ends (joined s) ≡ normal_from false s

Agrees-lf : (s : Bytes) → Agrees s → Agrees (10 ∷ s)
unfolding Agrees
Agrees-lf s h =
    ap ends (joined-other 10 s refl)
    ∙ ends-lf (joined s)
    ∙ ap (λ t. crlf ++ t) h
    ∙ sym (normal_from-lf s)

Agrees-other :
    (c : ℕ) (s : Bytes) → same c 13 ≡ false → same c 10 ≡ false → Agrees s → Agrees (c ∷ s)
unfolding Agrees
Agrees-other c s h k e =
    ap ends (joined-other c s h)
    ∙ ends-other c (joined s) h k
    ∙ ap (λ t. c ∷ t) e
    ∙ sym (normal_from-other c s h k)

-- A byte that is not a CR.
Agrees-not_cr : (c : ℕ) (s : Bytes) → same c 13 ≡ false → Agrees s → Agrees (c ∷ s)
Agrees-not_cr c s h e = elim (Bool-cases (same c 10)) [
  | inl lf ↦ subst (λ x. Agrees (x ∷ s)) (sym ((same_iff c 10).0 lf)) (Agrees-lf s e)
  | inr other ↦ Agrees-other c s h other e
]

Agrees-cr_lf : (s : Bytes) → Agrees s → Agrees (13 ∷ 10 ∷ s)
unfolding Agrees
Agrees-cr_lf s e =
    ap ends (joined-crlf s)
    ∙ ends-lf (joined s)
    ∙ ap (λ t. crlf ++ t) (e ∙ sym (normal_from-lf_after_cr s))
    ∙ sym (normal_from-cr false (10 ∷ s))

Agrees-cr_other : (d : ℕ) (s : Bytes) → same d 10 ≡ false → Agrees (d ∷ s) → Agrees (13 ∷ d ∷ s)
unfolding Agrees
Agrees-cr_other d s h e =
    ap ends (joined-cr d s h)
    ∙ ends-cr (joined (d ∷ s))
    ∙ ap (λ t. crlf ++ t) (e ∙ sym (normal_from-after_cr d s h))
    ∙ sym (normal_from-cr false (d ∷ s))

Agrees-cr : (d : ℕ) (s : Bytes) → Agrees s → Agrees (d ∷ s) → Agrees (13 ∷ d ∷ s)
Agrees-cr d s e f = elim (Bool-cases (same d 10)) [
  | inl lf ↦ subst (λ x. Agrees (13 ∷ x ∷ s)) (sym ((same_iff d 10).0 lf)) (Agrees-cr_lf s e)
  | inr other ↦ Agrees-cr_other d s other f
]

Agrees-nil : Agrees []
unfolding Agrees joined replace_all replace_from
Agrees-nil = ends-nil ∙ sym (normal_from-nil false)

Agrees-last : Agrees (13 ∷ [])
unfolding Agrees
Agrees-last =
    ap ends joined-last
    ∙ ends-cr []
    ∙ ap (λ t. crlf ++ t) (ends-nil ∙ sym (normal_from-nil true))
    ∙ sym (normal_from-cr false [])

Agrees-all : (s : Bytes) → Agrees s
Agrees-all [] = Agrees-nil
Agrees-all (c ∷ []) = elim (Bool-cases (same c 13)) [
  | inl cr ↦ subst (λ x. Agrees (x ∷ [])) (sym ((same_iff c 13).0 cr)) Agrees-last
  | inr other ↦ Agrees-not_cr c [] other Agrees-nil
]
Agrees-all (c ∷ d ∷ s) = elim (Bool-cases (same c 13)) [
  | inl cr ↦
      subst (λ x. Agrees (x ∷ d ∷ s)) (sym ((same_iff c 13).0 cr))
        (Agrees-cr d s (Agrees-all s) (Agrees-all (d ∷ s)))
  | inr other ↦ Agrees-not_cr c (d ∷ s) other (Agrees-all (d ∷ s))
]

-- `normalizeBody`, which replaces the line breaks in three passes, is the one pass over the bytes
-- that writes CRLF for each CRLF, each CR without a LF after it and each LF without a CR before it,
-- and keeps every other byte.
pub normalize_body_lem : (body : Bytes) → normalize_body body ≡ normal_from false body
unfolding normalize_body Agrees ends joined
normalize_body_lem body = Agrees-all body
