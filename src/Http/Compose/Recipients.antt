-- ===== src/Http/Compose/Recipients.antt =====
-- The recipients of a reply, in smtp_reply.go. The map of excluded addresses is the list of its
-- keys: the program only adds keys with the value true.
use shiroyagi.Base.{Bool, not, ◌||◌, Option, none, some, List, [], ◌∷◌, ◌++◌, any, if◌then◌else◌}
use shiroyagi.Text.{Bytes, codes, ◌==◌, is_empty, to_lower, join}
use shiroyagi.Text.Unicode.{Unicode}
use shiroyagi.Smtp.Message.{Address, AddressParser}

abbrev pub is_in : Bytes → List Bytes → Bool
is_in key excluded = any (λ k. k == key) excluded

abbrev pub addresses_of : Option (List Address) → List Address
addresses_of none = []
addresses_of (some l) = l

module _ ⦃u : Unicode⦄ where
  unfoldable pub exclude_all : List Bytes → List Address → List Bytes
  exclude_all excluded [] = excluded
  exclude_all excluded (a ∷ l) =
      exclude_all (if is_empty a.address then excluded else to_lower a.address ∷ excluded) l

  abbrev pub skipped : List Bytes → Address → Bool
  skipped excluded a = is_empty (to_lower a.address) || is_in (to_lower a.address) excluded

  -- the loop over the addresses of one field: the list so far, and the excluded keys
  unfoldable pub append_each : List Bytes → List Bytes → List Address → List Bytes × List Bytes
  unfolding to_lower ◌==◌
  append_each out excluded [] = (out, excluded)
  append_each out excluded (a ∷ l) =
      let next : List Bytes × List Bytes =
        if skipped excluded a
        then (out, excluded)
        else (out ++ a.address ∷ [], to_lower a.address ∷ excluded) in
      append_each next.0 next.1 l

module _ (mail : AddressParser) where
  abbrev pub first_or : Bytes → Option (List Address) → Bytes
  first_or value none = value
  first_or value (some []) = value
  first_or value (some (a ∷ l)) = a.address

  unfoldable pub reply_address : Bytes → Bytes
  reply_address value = first_or value (mail.parse_address_list value)

  -- of the fields `ReplyTo` and `From` of the original
  unfoldable pub reply_recipient : Bytes → Bytes → Bytes
  unfolding reply_address
  reply_recipient reply_to from =
      if not (is_empty reply_to) then reply_address reply_to else reply_address from

  module _ ⦃u : Unicode⦄ where
    unfoldable pub add_excluded_address : List Bytes → Bytes → List Bytes
    unfolding exclude_all
    add_excluded_address excluded value =
        exclude_all excluded (addresses_of (mail.parse_address_list value))

    unfoldable pub append_reply_all_addresses :
        List Bytes → List Bytes → Bytes → List Bytes × List Bytes
    unfolding append_each
    append_reply_all_addresses out excluded value =
        append_each out excluded (addresses_of (mail.parse_address_list value))

    -- the addresses that `Join` makes the Cc field of; `to` is the recipient of the reply
    unfoldable pub copies : Bytes → Bytes → Bytes → Bytes → List Bytes
    unfolding add_excluded_address append_reply_all_addresses
    copies reply_recipient' self original_to original_cc =
        let excluded = add_excluded_address (add_excluded_address [] self) reply_recipient' in
        let first = append_reply_all_addresses [] excluded original_to in
        (append_reply_all_addresses first.0 first.1 original_cc).0

    unfoldable pub reply_all_recipients :
        (reply_to from original_to original_cc self : Bytes) → Bytes × Bytes
    unfolding copies reply_recipient join
    reply_all_recipients reply_to from original_to original_cc self =
        let to = reply_recipient reply_to from in
        (to, join (copies to self original_to original_cc) (codes ", "))
