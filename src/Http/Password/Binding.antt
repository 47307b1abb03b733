-- ===== src/Http/Password/Binding.antt =====
-- The additional data of mail_account.go tells users, accounts and fields apart.
use shiroyagi.Base.{◌+◌, ◌≡◌, ap, ◌∷◌, ◌++◌, length, length-append, append_inj_of_length, arith}
use shiroyagi.Text.{Bytes}
use shiroyagi.Http.Password.{field_aad}

length-field_aad :
    (u a f : Bytes) → length (field_aad u a f) ≡ length u + (length a + (length f + 2))
unfolding field_aad
length-field_aad u a f =
    omega (arith, length-append u (b':' ∷ (a ++ (b':' ∷ f))), length-append a (b':' ∷ f))

-- The additional data of two fields is the same only for the same user, the same account and the
-- same field, if the account identifiers have one length, as UUIDs do, and the field names have one
-- length; the user identifier may hold any byte.
pub field_aad-inj :
    (u a f u' a' f' : Bytes)
    → length a ≡ length a'
    → length f ≡ length f'
    → field_aad u a f ≡ field_aad u' a' f'
    → (u ≡ u') × (a ≡ a') × (f ≡ f')
unfolding field_aad
field_aad-inj u a f u' a' f' ha hf e =
    let total = ap length e in
    let same_length : length u ≡ length u' =
      omega (arith, total, ha, hf, length-field_aad u a f, length-field_aad u' a' f') in
    let outer = append_inj_of_length u u' e same_length in
    let tails : a ++ (b':' ∷ f) ≡ a' ++ (b':' ∷ f') = cc in
    let inner = append_inj_of_length a a' tails ha in (outer.0, inner.0, cc)
