-- ===== src/LocalAddresses/Occurs.antt =====
-- How often an address stands in the list of na-local-addresses.c, which does not look for one that
-- it has.
use gnome_usage.Base.{ℕ, suc, ◌≡◌, refl, List, [], ◌∷◌, ltb, arith, if◌then◌else◌}
use gnome_usage.Base.Text.{Text, text_beq}
use gnome_usage.LocalAddresses.{is_local_address}

unfoldable pub occurs : Text → List Text → ℕ
occurs address [] = 0
occurs address (entry ∷ rest) =
    if text_beq entry address then suc (occurs address rest) else occurs address rest

pub is_local_address-occurs :
    (local_addresses : List Text) (address : Text)
    → is_local_address local_addresses address ≡ ltb 0 (occurs address local_addresses)
unfolding is_local_address occurs
is_local_address-occurs [] address = refl
is_local_address-occurs (entry ∷ rest) address =
    ground (arith, is_local_address-occurs rest address)
