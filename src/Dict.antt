-- ===== src/Dict.antt =====
-- A Go map with string keys, or a table by its primary key, as an association list. The program
-- iterates over no Go map, and the rows of a table are ordered where they are read.
use shiroyagi.Base.{
  Bool, false, ◌||◌, ◌≡◌, refl, sym, ap, ◌∙◌, subst, ◌⊎◌, ◌↔◌, inl, inr, true, Bool-cases, Option,
  none, some, List, [], ◌∷◌, arith, if◌then◌else◌,
}
use mathlib.Core.Bool.{false≢true}
use shiroyagi.Text.{Bytes, ◌==◌, eq_iff, eq_refl}

pub record Dict (V : Type 0) : Type 0 where
  entries : List (Bytes × V)

module _ {V : Type 0} where
  find : Bytes → List (Bytes × V) → Option V
  find k [] = none
  find k ((j, v) ∷ l) = if j == k then some v else find k l

  without : Bytes → List (Bytes × V) → List (Bytes × V)
  without name [] = []
  without name (entry ∷ entries) =
      let others = without name entries in if entry.0 == name then others else entry ∷ others

  find-without :
      (k j : Bytes) (l : List (Bytes × V))
      → find j (without k l) ≡ (if k == j then none else find j l)
  unfolding find without
  find-without k j [] = ground arith
  find-without k j ((i, v) ∷ l) =
      ground (arith, find-without k j l, eq_iff i k, eq_iff i j, eq_iff k j)

  unfoldable pub empty : Dict V
  empty = record { entries = [] }

  -- `v, ok := m[k]`
  unfoldable pub lookup : Bytes → Dict V → Option V
  unfolding find
  lookup k m = find k m.entries

  -- `m[k] = v`
  unfoldable pub insert : Bytes → V → Dict V → Dict V
  unfolding without
  insert k v m = record { entries = (k, v) ∷ without k m.entries }

  -- `delete(m, k)`
  unfoldable pub remove : Bytes → Dict V → Dict V
  unfolding without
  remove k m = record { entries = without k m.entries }

  pub lookup-insert :
      (at read : Bytes) (new : V) (m : Dict V)
      → lookup read (insert at new m) ≡ (if at == read then some new else lookup read m)
  unfolding lookup insert
  lookup-insert at read new m = ground (arith, find-without at read m.entries)

  pub lookup-remove :
      (k j : Bytes) (m : Dict V) → lookup j (remove k m) ≡ (if k == j then none else lookup j m)
  unfolding lookup remove
  lookup-remove k j m = find-without k j m.entries

  pub lookup-empty : (k : Bytes) → lookup k empty ≡ none
  unfolding lookup empty
  lookup-empty k = refl

  holds_at : (V → Bool) → Dict V → Bytes × V → Bool
  unfolding lookup
  holds_at p m (k, v) = elim (lookup k m) [ none ↦ false | some found ↦ p found ]

  some_entry : (V → Bool) → Dict V → List (Bytes × V) → Bool
  unfolding holds_at
  some_entry p m [] = false
  some_entry p m (e ∷ l) = holds_at p m e || some_entry p m l

  -- Some value of the map passes the test.
  unfoldable pub any : (V → Bool) → Dict V → Bool
  unfolding some_entry
  any p m = some_entry p m m.entries

  some_entry-find :
      (p : V → Bool) (m : Dict V) (k : Bytes) (l : List (Bytes × V)) (v w : V)
      → find k l ≡ some v
      → lookup k m ≡ some w
      → some_entry p m l ≡ false
      → p w ≡ false
  unfolding find some_entry holds_at lookup
  some_entry-find p m k [] v w e f h = absurd (cc)
  some_entry-find p m k ((j, u) ∷ l) v w e f h =
      ground (arith, eq_iff j k, some_entry-find p m k l v w)

  -- What a map holds fails a test that no value of it passes.
  pub any-lookup :
      (p : V → Bool) (m : Dict V) (k : Bytes) (v : V)
      → lookup k m ≡ some v
      → any p m ≡ false
      → p v ≡ false
  unfolding lookup any
  any-lookup p m k v e h = some_entry-find p m k m.entries v v e e h

  distinct : List (Bytes × V) → List (Bytes × V)
  unfolding without
  distinct [] = []
  distinct ((k, v) ∷ l) = (k, v) ∷ without k (distinct l)

  -- The entries of the map, each key once.
  unfoldable pub to_list : Dict V → List (Bytes × V)
  unfolding distinct
  to_list m = distinct m.entries

-- An entry is in a list.
abbrev pub Among : {A : Type 0} → A → List A → Type 0
Among a [] = ⊥
Among a (b ∷ l) = (b ≡ a) ⊎ Among a l

module _ {V : Type 0} where
  abbrev Without : Bytes → Bytes → V → List (Bytes × V) → List (Bytes × V) → Type 0
  Without k j v l rest = Among (j, v) rest ↔ ((Among (j, v) l) × ((j == k) ≡ false))

  dropped :
      (k i j : Bytes) (w v : V) (l rest : List (Bytes × V))
      → (i == k) ≡ true
      → Without k j v l rest
      → Without k j v ((i, w) ∷ l) rest
  dropped k i j w v l rest same_key ih = (
    λ h. (inr (ih.0 h).0, (ih.0 h).1),
    λ h. elim h.0 [
      | inl here ↦
          let place : i ≡ j = ap (λ x. x.0) here in
          absurd (false≢true (sym h.1 ∙ subst (λ x. (x == k) ≡ true) place same_key))
      | inr there ↦ ih.1 (there, h.1)
    ],
  )

  kept :
      (k i j : Bytes) (w v : V) (l rest : List (Bytes × V))
      → (i == k) ≡ false
      → Without k j v l rest
      → Without k j v ((i, w) ∷ l) ((i, w) ∷ rest)
  kept k i j w v l rest other ih = (
    λ h. elim h [
      | inl here ↦ (inl here, subst (λ x. (x == k) ≡ false) (ap (λ x. x.0) here) other)
      | inr there ↦ (inr (ih.0 there).0, (ih.0 there).1)
    ],
    λ h. elim h.0 [ inl here ↦ inl here | inr there ↦ inr (ih.1 (there, h.1)) ],
  )

  Among-without : (k j : Bytes) (v : V) (l : List (Bytes × V)) → Without k j v l (without k l)
  unfolding without
  Among-without k j v [] = (λ h. absurd h, λ h. h.0)
  Among-without k j v ((i, w) ∷ l) = elim (Bool-cases (i == k)) [
    | inl same_key ↦
        rw same_key (dropped k i j w v l (without k l) same_key (Among-without k j v l))
    | inr other ↦ rw other (kept k i j w v l (without k l) other (Among-without k j v l))
  ]

  some-inj : (v w : V) → ◌≡◌ {A = Option V} (some v) (some w) → v ≡ w
  some-inj v w h = cc

  Among-distinct :
      (j : Bytes) (v : V) (l : List (Bytes × V)) → Among (j, v) (distinct l) ↔ (find j l ≡ some v)
  unfolding distinct find
  Among-distinct j v [] = (λ h. absurd h, λ h. absurd (cc))
  Among-distinct j v ((k, w) ∷ l) = elim (Bool-cases (k == j)) [
    | inl here ↦
        let place = (eq_iff k j).0 here in
        (
          λ h. elim h [
            | inl e ↦ rw here (ap (λ x. some x.1) e)
            | inr later ↦ absurd (
                false≢true (
                  sym ((Among-without k j v (distinct l)).0 later).1
                  ∙ subst (λ x. (x == k) ≡ true) place (eq_refl k)))
          ],
          λ h.
              let found : ◌≡◌ {A = Option V} (some w) (some v) = ground arith in
              inl (ap (λ x. (x, w)) place ∙ ap (λ x. (j, x)) (some-inj w v found)),
        )
    | inr away ↦ (
      λ h. elim h [
        | inl e ↦ absurd (false≢true (sym away ∙ (eq_iff k j).1 (ap (λ x. x.0) e)))
        | inr later ↦
            rw away ((Among-distinct j v l).0 ((Among-without k j v (distinct l)).0 later).0)
      ],
      λ h.
          let found : find j l ≡ some v = ground arith in
          inr (
            (Among-without k j v (distinct l)).1
              ((Among-distinct j v l).1 found, ground (arith, eq_iff k j, eq_iff j k))),
    )
  ]

  -- The entries of a map are what it holds.
  pub Among-to_list :
      (k : Bytes) (v : V) (m : Dict V) → Among (k, v) (to_list m) ↔ (lookup k m ≡ some v)
  unfolding to_list lookup
  Among-to_list k v m = Among-distinct k v m.entries
