-- ===== src/Imap/Mime/Choice.antt =====
-- Which part of a multipart body is shown: the loop of `extractEntityText` in
-- internal/imap/client.go against a choice among the texts of its parts.
use shiroyagi.Base.{
  ◌≡◌, refl, ap, ◌∙◌, Bool, true, false, Option, none, some, List, [], ◌∷◌, if◌then◌else◌,
}
use shiroyagi.Base.Result.{Result, ok, err}
use shiroyagi.Text.{Bytes, is_empty}
use shiroyagi.Text.Unicode.{Unicode}
use shiroyagi.Imap.Mime.{
  Header, Parts, eof, broken, bad_multipart, part, Mime, MimeError, is_plain, or_candidate,
  after_part, scan_parts,
}

-- A part, as whether its type is text/plain, and its text, if it has one.
abbrev pub PartText : Type 0
PartText = Bool × Option Bytes

abbrev pub first_plain : List PartText → Option Bytes
first_plain [] = none
first_plain ((false, o) ∷ ps) = first_plain ps
first_plain ((true, none) ∷ ps) = first_plain ps
first_plain ((true, some t) ∷ ps) = some t

abbrev pub first_filled : List PartText → Bytes
first_filled [] = []
first_filled ((b, none) ∷ ps) = first_filled ps
first_filled ((b, some t) ∷ ps) = if is_empty t then first_filled ps else t

abbrev pub filled : Bytes → Option Bytes
filled t = if is_empty t then none else some t

abbrev pub or_text : Option Bytes → Bytes → Option Bytes
or_text none t = filled t
or_text (some p) t = some p

-- The first text of a part of type text/plain, else the first text that is not empty.
abbrev pub chosen : List PartText → Option Bytes
chosen ps = or_text (first_plain ps) (first_filled ps)

module _ (mime : Mime) ⦃u : Unicode⦄ where
  abbrev pub and_text :
      Bool → Option Bytes → Result MimeError (List PartText) → Result MimeError (List PartText)
  and_text plain o (err e) = err e
  and_text plain o (ok ps) = ok ((plain, o) ∷ ps)

  abbrev pub with_part :
      Bool
      → Result MimeError (Option Bytes)
      → Result MimeError (List PartText)
      → Result MimeError (List PartText)
  with_part plain (err e) rest = err e
  with_part plain (ok o) rest = and_text plain o rest

  -- The texts of all parts, if none fails.
  unfoldable pub part_texts :
      (Header → Bytes → Result MimeError (Option Bytes)) → Parts → Result MimeError (List PartText)
  unfolding is_plain
  part_texts extract eof = ok []
  part_texts extract broken = err bad_multipart
  part_texts extract (part header body parts) =
      with_part (is_plain mime header) (extract header body) (part_texts extract parts)

  with_part-eq-ok :
      (plain : Bool) (r : Result MimeError (Option Bytes)) (rest : Result MimeError (List PartText))
      (ps : List PartText)
      → with_part plain r rest ≡ ok ps
      → (o : Option Bytes) × (qs : List PartText) × (r ≡ ok o)
        × (rest ≡ ok qs)
        × (ps ≡ (plain, o) ∷ qs)
  with_part-eq-ok plain (err e) rest ps h = absurd (cc)
  with_part-eq-ok plain (ok o) (err e) ps h = absurd (cc)
  with_part-eq-ok plain (ok o) (ok qs) ps h = (o, qs, refl, refl, cc)

  abbrev pub chosen_after : Bytes → List PartText → Option Bytes
  chosen_after c ps = or_text (first_plain ps) (or_candidate mime c (first_filled ps))

  candidates :
      (c t f : Bytes)
      → or_candidate mime (or_candidate mime c t) f
        ≡ or_candidate mime c (if is_empty t then f else t)
  candidates [] t f = refl
  candidates (b ∷ c) t f = refl

  last_candidate :
      (c : Bytes)
      → ◌≡◌ {A = Result MimeError (Option Bytes)}
          (ok (filled c))
          (ok (filled (or_candidate mime c [])))
  last_candidate [] = refl
  last_candidate (b ∷ c) = refl

  chosen_step :
      (plain : Bool) (o : Option Bytes) (qs : List PartText) (c : Bytes)
      (rest : Bytes → Result MimeError (Option Bytes))
      → ((d : Bytes) → rest d ≡ ok (chosen_after d qs))
      → after_part mime plain c rest o ≡ ok (chosen_after c ((plain, o) ∷ qs))
  chosen_step true none qs c rest h = h c
  chosen_step false none qs c rest h = h c
  chosen_step true (some t) qs c rest h = refl
  chosen_step false (some t) qs c rest h =
      h (or_candidate mime c t)
      ∙ ap (λ x. ok (or_text (first_plain qs) x)) (candidates c t (first_filled qs))

  scan_parts-chosen_after :
      (extract : Header → Bytes → Result MimeError (Option Bytes)) (parts : Parts)
      (ps : List PartText) (c : Bytes)
      → part_texts extract parts ≡ ok ps
      → scan_parts mime extract parts c ≡ ok (chosen_after c ps)
  unfolding scan_parts part_texts
  scan_parts-chosen_after extract eof ps c h = let e : ps ≡ [] = cc in rw e (last_candidate c)
  scan_parts-chosen_after extract broken ps c h = absurd (cc)
  scan_parts-chosen_after extract (part header body parts) ps c h =
      let (o, qs, r, rest, e) =
        with_part-eq-ok (is_plain mime header) (extract header body) (part_texts extract parts) ps
          h in
      rw (r, e)
        (chosen_step (is_plain mime header) o qs c (scan_parts mime extract parts)
          (λ d. scan_parts-chosen_after extract parts qs d rest))

  -- If the texts of all parts of a multipart body can be read, the loop gives the first text of a
  -- part whose own type is text/plain, and where no such part has a text the first text that is not
  -- empty, if there is one.
  pub scan_parts-chosen :
      (extract : Header → Bytes → Result MimeError (Option Bytes)) (parts : Parts)
      (ps : List PartText)
      → part_texts extract parts ≡ ok ps
      → scan_parts mime extract parts [] ≡ ok (chosen ps)
  scan_parts-chosen extract parts ps h = scan_parts-chosen_after extract parts ps [] h
