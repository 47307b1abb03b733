-- ===== src/Http/Compose/References.antt =====
-- The References field of a reply: `replyReferences` of smtp_reply.go.
use shiroyagi.Base.{ℕ, ◌≡◌, refl, true, Bool-cases, inl, inr, [], ◌∷◌, ◌++◌, arith}
use shiroyagi.Text.{Bytes, has_prefix, contains, trim_space}
use shiroyagi.Text.Unicode.{Unicode}
use shiroyagi.Imap.Reading.{Message}
use shiroyagi.Http.Compose.{extend_references, reply_references}

has_prefix-append : (s t : Bytes) → has_prefix (s ++ t) s ≡ true
unfolding has_prefix
has_prefix-append [] t = refl
has_prefix-append (c ∷ s) t = ground (arith, has_prefix-append s t)

has_prefix_refl : (s : Bytes) → has_prefix s s ≡ true
unfolding has_prefix
has_prefix_refl [] = refl
has_prefix_refl (c ∷ s) = ground (arith, has_prefix_refl s)

contains_refl : (s : Bytes) → contains s s ≡ true
unfolding contains
contains_refl [] = refl
contains_refl (c ∷ s) = rw (has_prefix_refl (c ∷ s)) refl

contains-append : (s : Bytes) (c : ℕ) (t : Bytes) → contains (s ++ (c ∷ t)) t ≡ true
unfolding contains
contains-append [] c t = ground (arith, contains_refl t)
contains-append (d ∷ s) c t = ground (arith, contains-append s c t)

extend_references_lem :
    (r id : Bytes)
    → (has_prefix (extend_references r id) r ≡ true) × (contains (extend_references r id) id ≡ true)
extend_references_lem [] id = (has_prefix-append [] id, contains_refl id)
extend_references_lem (c ∷ r) id = elim (Bool-cases (contains (c ∷ r) id)) [
  | inl held ↦ rw held (has_prefix_refl (c ∷ r), held)
  | inr missing ↦ rw missing (has_prefix-append (c ∷ r) _, contains-append (c ∷ r) 32 id)
]

module _ ⦃u : Unicode⦄ where
  -- The references of a reply begin with those of the original, without the white space around
  -- them, and contain the identifier of the original.
  pub reply_references_lem :
      (o : Message)
      → (has_prefix (reply_references o) (trim_space o.references) ≡ true)
        × (contains (reply_references o) o.message_id ≡ true)
  unfolding reply_references
  reply_references_lem o = extend_references_lem (trim_space o.references) o.message_id
