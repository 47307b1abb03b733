-- ===== src/Imap/Mime/Depth.antt =====
-- The recursion of `extractEntityText` ends: internal/imap/client.go.
use shiroyagi.Base.{
  ℕ, zero, suc, ◌<◌, ◌≡◌, ◌≢◌, refl, ap, ◌∙◌, Bool, true, false, Bool-cases, inl, inr, Option, none,
  some, [], length, arith,
}
use shiroyagi.Base.Result.{Result, ok, err, or_err, ◌>>=◌}
use shiroyagi.Text.{Bytes, codes, is_empty, has_prefix}
use shiroyagi.Text.Unicode.{Unicode}
use shiroyagi.Imap.Mime.{
  Header, Parts, eof, broken, part, MediaType, Mime, MimeError, out_of_fuel, bad_content_type,
  parse_content_type, is_plain, leaf_text, or_candidate, after_part, scan_parts, extract_typed,
  extract_entity_text,
}

-- A predicate of every body of the parts.
abbrev pub AllBodies : (Bytes → Type 0) → Parts → Type 0
AllBodies P eof = Unit
AllBodies P broken = Unit
AllBodies P (part header body parts) = P body × AllBodies P parts

-- What `NextPart` gives is a piece of the body without the boundary lines around it.
abbrev pub PartsShrink : Mime → Type 0
PartsShrink mime =
    (body boundary : Bytes) → AllBodies (λ b. length b < length body) (mime.parts body boundary)

abbrev pub Finishes : {A : Type 0} → Result MimeError A → Type 0
Finishes r = r ≢ err out_of_fuel

AllBodies-imp :
    {P Q : Bytes → Type 0}
    → ((b : Bytes) → P b → Q b)
    → (parts : Parts) → AllBodies P parts
    → AllBodies Q parts
AllBodies-imp f eof h = tt
AllBodies-imp f broken h = tt
AllBodies-imp f (part header body parts) h = (f body h.0, AllBodies-imp f parts h.1)

or_err-Finishes :
    {A : Type 0} (o : Option A) (e : MimeError)
    → ◌≢◌ {A = MimeError} e out_of_fuel
    → Finishes (or_err o e)
or_err-Finishes none e h = λ eq. h (cc)
or_err-Finishes (some a) e h = λ eq. cc

module _ (mime : Mime) ⦃u : Unicode⦄ where
  abbrev pub Extract : Type 0
  Extract = Header → Bytes → Result MimeError (Option Bytes)

  leaf_text-Finishes :
      (t : MediaType) (header : Header) (body : Bytes) → Finishes (leaf_text mime t header body)
  unfolding leaf_text
  leaf_text-Finishes t header body = ground arith

  after_part-Finishes :
      (plain : Bool) (candidate : Bytes) (rest : Bytes → Result MimeError (Option Bytes))
      (o : Option Bytes)
      → ((c : Bytes) → Finishes (rest c))
      → Finishes (after_part mime plain candidate rest o)
  after_part-Finishes plain candidate rest none h = h candidate
  after_part-Finishes true candidate rest (some text) h = λ e. cc
  after_part-Finishes false candidate rest (some text) h = h (or_candidate mime candidate text)

  bind-Finishes :
      {A B : Type 0} (r : Result MimeError A) (k : A → Result MimeError B)
      → Finishes r
      → ((a : A) → Finishes (k a))
      → Finishes (r >>= k)
  bind-Finishes (ok a) k h g = g a
  bind-Finishes (err e) k h g = λ eq. h (cc)

  scan_parts-Finishes :
      (extract : Extract) (parts : Parts) (candidate : Bytes)
      → AllBodies (λ b. (header : Header) → Finishes (extract header b)) parts
      → Finishes (scan_parts mime extract parts candidate)
  unfolding scan_parts
  scan_parts-Finishes extract eof candidate h = λ e. cc
  scan_parts-Finishes extract broken candidate h = λ e. cc
  scan_parts-Finishes extract (part header body parts) candidate h =
      bind-Finishes (extract header body) _ (h.0 header) (λ o.
        after_part-Finishes (is_plain mime header) candidate _ o
          (λ c. scan_parts-Finishes extract parts c h.1))

  extract_typed-Finishes :
      (extract : Extract) (header : Header) (body : Bytes) (t : MediaType)
      → ((boundary : Bytes)
          → AllBodies (λ b. (h : Header) → Finishes (extract h b)) (mime.parts body boundary))
      → Finishes (extract_typed mime extract header body t)
  unfolding extract_typed
  extract_typed-Finishes extract header body t h =
      elim (Bool-cases (has_prefix t.name (codes "multipart/"))) [
        | inl multi ↦ elim (Bool-cases (is_empty (t.params (codes "boundary")))) [
          | inl missing ↦ rw (multi, missing) (λ e. cc)
          | inr found ↦
              rw (multi, found) (scan_parts-Finishes extract _ [] (h (t.params (codes "boundary"))))
        ]
        | inr leaf ↦ rw leaf (leaf_text-Finishes t header body)
      ]

  after_part-cong :
      (plain : Bool) (candidate : Bytes) (rest rest' : Bytes → Result MimeError (Option Bytes))
      (o : Option Bytes)
      → ((c : Bytes) → rest c ≡ rest' c)
      → after_part mime plain candidate rest o ≡ after_part mime plain candidate rest' o
  after_part-cong plain candidate rest rest' none h = h candidate
  after_part-cong true candidate rest rest' (some text) h = refl
  after_part-cong false candidate rest rest' (some text) h = h (or_candidate mime candidate text)

  bind-cong :
      {A B : Type 0} (r : Result MimeError A) (k k' : A → Result MimeError B)
      → ((a : A) → k a ≡ k' a)
      → (r >>= k) ≡ (r >>= k')
  bind-cong (ok a) k k' h = h a
  bind-cong (err e) k k' h = refl

  scan_parts-cong :
      (extract extract' : Extract) (parts : Parts) (candidate : Bytes)
      → AllBodies (λ b. (header : Header) → extract header b ≡ extract' header b) parts
      → scan_parts mime extract parts candidate ≡ scan_parts mime extract' parts candidate
  unfolding scan_parts
  scan_parts-cong extract extract' eof candidate h = refl
  scan_parts-cong extract extract' broken candidate h = refl
  scan_parts-cong extract extract' (part header body parts) candidate h =
      ap
        (λ r.
          r >>= after_part mime (is_plain mime header) candidate (scan_parts mime extract parts))
        (h.0 header)
      ∙ bind-cong (extract' header body) _ _ (λ o.
        after_part-cong (is_plain mime header) candidate _ _ o
          (λ c. scan_parts-cong extract extract' parts c h.1))

  extract_typed-cong :
      (extract extract' : Extract) (header : Header) (body : Bytes) (t : MediaType)
      → ((boundary : Bytes)
          → AllBodies (λ b. (h : Header) → extract h b ≡ extract' h b) (mime.parts body boundary))
      → extract_typed mime extract header body t ≡ extract_typed mime extract' header body t
  unfolding extract_typed
  extract_typed-cong extract extract' header body t h =
      elim (Bool-cases (has_prefix t.name (codes "multipart/"))) [
        | inl multi ↦ elim (Bool-cases (is_empty (t.params (codes "boundary")))) [
          | inl missing ↦ rw (multi, missing) refl
          | inr found ↦
              rw (multi, found)
                (scan_parts-cong extract extract' _ [] (h (t.params (codes "boundary"))))
        ]
        | inr leaf ↦ rw leaf refl
      ]

  module _ (shrink : PartsShrink mime) where
    extract_entity_text-Finishes :
        (fuel : ℕ) (header : Header) (body : Bytes)
        → length body < fuel
        → Finishes (extract_entity_text mime fuel header body)
    unfolding extract_entity_text
    extract_entity_text-Finishes zero header body h = absurd (omega arith)
    extract_entity_text-Finishes (suc fuel) header body h =
        bind-Finishes
          (or_err (parse_content_type mime (header (codes "Content-Type"))) bad_content_type) _
          (or_err-Finishes (parse_content_type mime (header (codes "Content-Type")))
            bad_content_type (λ e. cc))
          (λ t. extract_typed-Finishes (extract_entity_text mime fuel) header body t (λ boundary.
            AllBodies-imp
              (λ b shorter g. extract_entity_text-Finishes fuel g b (omega (arith, h, shorter)))
              (mime.parts body boundary) (shrink body boundary)))

    -- More fuel than the length of the body changes nothing.
    extract_entity_text-stable :
        (fuel more : ℕ) (header : Header) (body : Bytes)
        → length body < fuel
        → length body < more
        → extract_entity_text mime fuel header body ≡ extract_entity_text mime more header body
    unfolding extract_entity_text
    extract_entity_text-stable zero more header body h k = absurd (omega arith)
    extract_entity_text-stable (suc fuel) zero header body h k = absurd (omega arith)
    extract_entity_text-stable (suc fuel) (suc more) header body h k =
        bind-cong
          (or_err (parse_content_type mime (header (codes "Content-Type"))) bad_content_type) _ _
          (λ t.
            extract_typed-cong (extract_entity_text mime fuel) (extract_entity_text mime more)
              header body t
              (λ boundary.
                AllBodies-imp
                  (λ b shorter g.
                    extract_entity_text-stable fuel more g b (omega (arith, h, shorter))
                      (omega (arith, k, shorter)))
                  (mime.parts body boundary) (shrink body boundary)))

    -- The recursion into the parts of an entity ends, if each part is shorter than the body that it
    -- is a part of: with more fuel than the length of the body what stands for the recursion here
    -- does not run out, and its result is the same for every such amount of fuel.
    pub extract_entity_text-total :
        (fuel more : ℕ) (header : Header) (body : Bytes)
        → length body < fuel
        → length body < more
        → Finishes (extract_entity_text mime fuel header body)
          × (extract_entity_text mime fuel header body ≡ extract_entity_text mime more header body)
    extract_entity_text-total fuel more header body h k = (
      extract_entity_text-Finishes fuel header body h,
      extract_entity_text-stable fuel more header body h k,
    )
