-- ===== src/Http/Compose/ReplyAll.antt =====
-- What the Cc field of a reply to all holds: smtp_reply.go, lines 229 to 267.
use shiroyagi.Base.{
  ◌≡◌, refl, sym, ap, ◌∙◌, Bool, true, false, ◌&&◌, ◌||◌, Bool-cases, inl, inr, List, [], ◌∷◌, ◌++◌,
  append-nil, append_assoc, map, All, All-imp, subst, if◌then◌else◌, arith,
}
use shiroyagi.Text.{Bytes, ◌==◌, eq_iff, eq_refl, is_empty, to_lower}
use shiroyagi.Text.Unicode.{Unicode}
use shiroyagi.Smtp.Message.{Address, AddressParser}
use shiroyagi.Http.Compose.Recipients.{
  is_in, addresses_of, exclude_all, add_excluded_address, skipped, append_each,
  append_reply_all_addresses, copies,
}

abbrev pub Distinct : List Bytes → Type 0
Distinct [] = Unit
Distinct (k ∷ ks) = ((is_in k ks) ≡ false) × Distinct ks

or_right : (b c : Bool) → c ≡ true → (b || c) ≡ true
or_right = ground arith

or_none : (b c : Bool) → b ≡ false → c ≡ false → (b || c) ≡ false
or_none = ground arith

and_avoids : (b c : Bool) → (b ≡ true → c ≡ false) → (b && c) ≡ false
and_avoids true c h = h refl
and_avoids false c h = refl

or_same : (b c e d : Bool) → c ≡ e → (b || (c || d)) ≡ true → (b || (e || d)) ≡ true
or_same = ground arith

or_skipped : (b c d : Bool) → (b || c) ≡ true → (b || (c || d)) ≡ true
or_skipped = ground arith

or_kept : (b c d e : Bool) → d ≡ true → (b || (c || (d || e))) ≡ true
or_kept = ground arith

or_moved : (b c d e : Bool) → (b || ((c || d) || e)) ≡ true → (b || (d || (c || e))) ≡ true
or_moved = ground arith

right_of_or : (b c : Bool) → (b || c) ≡ false → c ≡ false
right_of_or = ground arith

or_false : (b : Bool) → (b || false) ≡ b
or_false = ground arith

or_left : (b c : Bool) → b ≡ true → (b || c) ≡ true
or_left = ground arith

or_swap : (b c d : Bool) → (b || c) || d ≡ c || (b || d)
or_swap = ground arith

module _ ⦃u : Unicode⦄ where
  abbrev pub key : Address → Bytes
  key a = to_lower a.address

  abbrev pub keys : List Bytes → List Bytes
  keys l = map to_lower l

  -- The keys of the addresses that are not empty.
  abbrev pub own_keys : List Address → List Bytes
  own_keys [] = []
  own_keys (a ∷ l) = if is_empty a.address then own_keys l else key a ∷ own_keys l

  -- What the loop appends.
  kept : List Bytes → List Address → List Bytes
  kept excluded [] = []
  kept excluded (a ∷ l) =
      if skipped excluded a then kept excluded l else a.address ∷ kept (key a ∷ excluded) l

  kept-skip :
      (excluded : List Bytes) (a : Address) (l : List Address)
      → skipped excluded a ≡ true
      → kept excluded (a ∷ l) ≡ kept excluded l
  unfolding kept
  kept-skip excluded a l h =
      ap (λ b. if b then kept excluded l else a.address ∷ kept (key a ∷ excluded) l) h

  kept-take :
      (excluded : List Bytes) (a : Address) (l : List Address)
      → skipped excluded a ≡ false
      → kept excluded (a ∷ l) ≡ a.address ∷ kept (key a ∷ excluded) l
  unfolding kept
  kept-take excluded a l h =
      ap (λ b. if b then kept excluded l else a.address ∷ kept (key a ∷ excluded) l) h

  step : List Bytes → List Bytes → Address → Bool → List Bytes × List Bytes
  step out excluded a b = if b then (out, excluded) else (out ++ a.address ∷ [], key a ∷ excluded)

  append_each-kept :
      (out excluded : List Bytes) (l : List Address)
      → (append_each out excluded l).0 ≡ out ++ kept excluded l
  unfolding append_each kept step
  append_each-kept out excluded [] = sym (append-nil out)
  append_each-kept out excluded (a ∷ l) = elim (Bool-cases (skipped excluded a)) [
    | inl skip ↦
        ap (λ b. (append_each (step out excluded a b).0 (step out excluded a b).1 l).0) skip
        ∙ append_each-kept out excluded l
        ∙ ap (λ r. out ++ r) (sym (kept-skip excluded a l skip))
    | inr take ↦
        ap (λ b. (append_each (step out excluded a b).0 (step out excluded a b).1 l).0) take
        ∙ append_each-kept (out ++ a.address ∷ []) (key a ∷ excluded) l
        ∙ append_assoc out (a.address ∷ []) (kept (key a ∷ excluded) l)
        ∙ ap (λ r. out ++ r) (sym (kept-take excluded a l take))
  ]

  append_each-append :
      (l l' : List Address) (out excluded : List Bytes)
      → append_each out excluded (l ++ l')
        ≡ append_each (append_each out excluded l).0 (append_each out excluded l).1 l'
  unfolding append_each
  append_each-append [] l' out excluded = refl
  append_each-append (a ∷ l) l' out excluded = append_each-append l l' _ _

  is_in-exclude_all :
      (k : Bytes) (excluded : List Bytes) (l : List Address)
      → is_in k (exclude_all excluded l) ≡ is_in k excluded || is_in k (own_keys l)
  unfolding exclude_all
  is_in-exclude_all k excluded [] = sym (or_false (is_in k excluded))
  is_in-exclude_all k excluded (a ∷ l) = elim (Bool-cases (is_empty a.address)) [
    | inl empty ↦ rw empty (is_in-exclude_all k excluded l)
    | inr named ↦
        rw (named, is_in-exclude_all k (key a ∷ excluded) l)
          (or_swap (key a == k) (is_in k excluded) (is_in k (own_keys l)))
  ]

  apart :
      (k : Bytes) (excluded : List Bytes) (a : Address)
      → is_in k excluded ≡ true
      → skipped excluded a ≡ false
      → (key a == k) ≡ false
  apart k excluded a h take = elim (Bool-cases (key a == k)) [
    | inl same_key ↦
        let e : key a ≡ k = (eq_iff (key a) k).0 same_key in
        let out : is_in (key a) excluded ≡ false = right_of_or (is_empty (key a)) _ take in
        let inside : is_in (key a) excluded ≡ true = rw e h in absurd (cc)
    | inr other ↦ other
  ]

  kept-avoids :
      (k : Bytes) (excluded : List Bytes) (l : List Address)
      → is_in k excluded ≡ true
      → is_in k (keys (kept excluded l)) ≡ false
  unfolding kept
  kept-avoids k excluded [] h = refl
  kept-avoids k excluded (a ∷ l) h = elim (Bool-cases (skipped excluded a)) [
    | inl skip ↦ rw (kept-skip excluded a l skip) (kept-avoids k excluded l h)
    | inr take ↦ rw (kept-take excluded a l take) (
        or_none _ _ (apart k excluded a h take)
          (kept-avoids k (key a ∷ excluded) l (or_right (key a == k) _ h)))
  ]

  kept-Distinct : (excluded : List Bytes) (l : List Address) → Distinct (keys (kept excluded l))
  unfolding kept
  kept-Distinct excluded [] = tt
  kept-Distinct excluded (a ∷ l) = elim (Bool-cases (skipped excluded a)) [
    | inl skip ↦ rw (kept-skip excluded a l skip) (kept-Distinct excluded l)
    | inr take ↦ rw (kept-take excluded a l take) (
      kept-avoids (key a) (key a ∷ excluded) l (or_left _ _ (eq_refl (key a))),
      kept-Distinct (key a ∷ excluded) l,
    )
  ]

  -- Every address of the list is skipped for a reason, or its key is kept.
  abbrev pub Accounted : List Bytes → List Bytes → Address → Type 0
  Accounted excluded out a =
      is_empty (key a) || (is_in (key a) excluded || is_in (key a) (keys out)) ≡ true

  All-Accounted :
      (excluded : List Bytes) (l : List Address) → All (Accounted excluded (kept excluded l)) l
  All-Accounted excluded [] = tt
  All-Accounted excluded (a ∷ l) = elim (Bool-cases (skipped excluded a)) [
    | inl skip ↦
        subst (λ out. All (Accounted excluded out) (a ∷ l)) (sym (kept-skip excluded a l skip))
          (or_skipped (is_empty (key a)) _ _ skip, All-Accounted excluded l)
    | inr take ↦
        subst (λ out. All (Accounted excluded out) (a ∷ l)) (sym (kept-take excluded a l take))
          (
            or_kept (is_empty (key a)) _ (key a == key a) _ (eq_refl (key a)),
            All-imp
                (λ b h. or_moved (is_empty (key b)) (key a == key b) (is_in (key b) excluded) _ h) l
                (All-Accounted (key a ∷ excluded) l),
          )
  ]

  module _ (mail : AddressParser) where
    copies-kept :
        (self to original_to original_cc : Bytes)
        → copies mail to self original_to original_cc
          ≡ kept
              (exclude_all
                (exclude_all [] (addresses_of (mail.parse_address_list self)))
                (addresses_of (mail.parse_address_list to)))
              (addresses_of (mail.parse_address_list original_to)
                ++ addresses_of (mail.parse_address_list original_cc))
    unfolding copies add_excluded_address append_reply_all_addresses
    copies-kept self to original_to original_cc =
        sym (
          ap (λ r. r.0)
            (append_each-append (addresses_of (mail.parse_address_list original_to))
              (addresses_of (mail.parse_address_list original_cc)) [] _))
        ∙ append_each-kept [] _ _

    -- Whether a key is that of the account's own address or of the recipient of the reply.
    abbrev pub is_own : Bytes → Bytes → Bytes → Bool
    is_own self to k =
        is_in k (own_keys (addresses_of (mail.parse_address_list self)))
        || is_in k (own_keys (addresses_of (mail.parse_address_list to)))

    is_in-excluded :
        (self to k : Bytes)
        → is_in k (
            exclude_all
              (exclude_all [] (addresses_of (mail.parse_address_list self)))
              (addresses_of (mail.parse_address_list to)))
          ≡ is_own self to k
    is_in-excluded self to k =
        is_in-exclude_all k _ (addresses_of (mail.parse_address_list to))
        ∙ ap (λ b. b || is_in k (own_keys (addresses_of (mail.parse_address_list to))))
            (is_in-exclude_all k [] (addresses_of (mail.parse_address_list self)))

    -- The copies of a reply to all, as keys (the addresses in lower case): none occurs twice; none is
    -- a key of the account's own address or of the recipient of the reply; and every address of the
    -- original's To and Cc fields has an empty key, or such a key, or is among the copies.
    pub copies_lem :
        (to self original_to original_cc k : Bytes)
        → Distinct (keys (copies mail to self original_to original_cc))
          × ((is_own self to k && is_in k (keys (copies mail to self original_to original_cc)))
              ≡ false)
          × All
              (λ a.
                (is_empty (key a)
                  || (is_own self to (key a)
                      || is_in (key a) (keys (copies mail to self original_to original_cc))))
                ≡ true)
              (addresses_of (mail.parse_address_list original_to)
                ++ addresses_of (mail.parse_address_list original_cc))
    copies_lem to self original_to original_cc k =
        rw (copies-kept self to original_to original_cc) (
          kept-Distinct _ _,
          and_avoids _ _ (λ h. kept-avoids k _ _ (is_in-excluded self to k ∙ h)),
          All-imp (λ a h. or_same _ _ _ _ (is_in-excluded self to (key a)) h) _ (All-Accounted _ _),
        )
