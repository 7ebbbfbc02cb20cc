-- ===== src/LocalAddresses.antt =====
-- network-analyzer/na-local-addresses.c. The static list `local_addresses` is an argument.
pub mod Occurs
use gnome_usage.Base.{Bool, true, false, List, [], ◌∷◌, if◌then◌else◌}
use gnome_usage.Base.Text.{Text, text_beq}

unfoldable pub add_local_address : Text → List Text → List Text
add_local_address address local_addresses = address ∷ local_addresses

unfoldable pub is_local_address : List Text → Text → Bool
is_local_address [] address = false
is_local_address (entry ∷ rest) address =
    if text_beq entry address then true else is_local_address rest address

unfoldable pub get_local_addresses : List Text → List Text
get_local_addresses local_addresses = local_addresses
