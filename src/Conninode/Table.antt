-- ===== src/Conninode/Table.antt =====
-- What the rows of /proc/net do to the connection table of na-conninode.c.
use gnome_usage.Base.{
  ℕ, ◌≤◌, ◌≡◌, refl, sym, ap, ◌∙◌, Bool, true, false, ◌||◌, none, some, List, [], ◌∷◌, ◌==◌, arith,
  if◌then◌else◌, inl, inr, Option-cases, Bool-cases,
}
use gnome_usage.Base.Text.{Text, c_str, text_eq, text_beq, text_beq_iff}
use gnome_usage.Base.Assoc.{insert, lookup, lookup-insert}
use gnome_usage.LocalAddresses.{get_local_addresses}
use gnome_usage.LocalAddresses.Occurs.{occurs}
use gnome_usage.Packet.Key.{hash_key-source}
use gnome_usage.Packet.{InetNtop, hash_key}
use gnome_usage.Scanf.{sscanf}
use gnome_usage.Conninode.{
  ConninodeTable, Undefined, NetAddr, Row, five, row_format, ntop_at, row_addresses, insert_all,
  add_row, addtoconninode,
}

-- Whether a key is among those made from the addresses.
pub is_made : Text → (Text → Text) → List Text → Bool
is_made j key [] = false
is_made j key (address ∷ rest) = text_beq (key address) j || is_made j key rest

-- The addresses behind the first one whose key is `own`.
pub behind : Text → (Text → Text) → List Text → List Text
behind own key [] = []
behind own key (address ∷ rest) = if text_beq (key address) own then rest else behind own key rest

-- Keys that tell their addresses apart are made from the addresses that are there.
module _ (a : Text) (key : Text → Text) (injective : (s : Text) → key s ≡ key a → s ≡ a) where
  is_made-absent : (l : List Text) → occurs a l ≡ 0 → is_made (key a) key l ≡ false
  unfolding is_made occurs
  is_made-absent [] absent = refl
  is_made-absent (s ∷ l) absent =
      ground (arith, is_made-absent l, text_beq_iff (key s) (key a), text_beq_iff s a, injective s)

  is_made-behind :
      (l : List Text) → occurs a l ≤ 1 → is_made (key a) key (behind (key a) key l) ≡ false
  unfolding is_made occurs behind
  is_made-behind [] once = refl
  is_made-behind (s ∷ l) once = ground (
    arith,
    is_made-behind l,
    is_made-absent l,
    text_beq_iff (key s) (key a),
    text_beq_iff s a,
    injective s,
  )

module _ (j : Text) (freed : Text → ℕ) (own : Text) (key : Text → Text) where
  insert_all-freed :
      (addresses : List Text) (table : ConninodeTable)
      → lookup j (insert_all freed own table addresses key none)
        ≡ (if is_made j key addresses then some (freed j) else lookup j table)
  unfolding insert_all is_made
  insert_all-freed [] table = refl
  insert_all-freed (a ∷ rest) table =
      let entered = insert (key a) (freed (key a)) table in
      ground (
        arith,
        insert_all-freed rest entered,
        lookup-insert (key a) j (freed (key a)) table,
        text_beq_iff (key a) j,
      )

  -- Up to the row's own key the inode is entered, and behind it what the freed memory holds.
  lookup-insert_all :
      (inode : ℕ) (addresses : List Text) (table : ConninodeTable)
      → lookup j (insert_all freed own table addresses key (some inode)) ≡ (
          if is_made j key (behind own key addresses)
          then some (freed j)
          else if is_made j key addresses
          then some inode
          else lookup j table)
  unfolding insert_all is_made behind
  lookup-insert_all inode [] table = refl
  lookup-insert_all inode (a ∷ rest) table =
      let entered = insert (key a) inode table in
      elim (Bool-cases (text_beq (key a) own)) [
        | inl own_key ↦
            rw own_key
              (ground (arith, insert_all-freed rest entered, lookup-insert (key a) j inode table))
        | inr other ↦ rw other (
            ground
              (arith, lookup-insert_all inode rest entered, lookup-insert (key a) j inode table))
      ]

module _ (ntop : InetNtop) (undefined : Undefined) (local_addresses : List Text) where
  -- The key of a row as seen from one of its local addresses.
  row_key : Row → Text → Text
  row_key row address =
      hash_key address row.local_port (ntop_at ntop (row_addresses undefined.stack row).1)
        row.rem_port

  -- Whether a row is entered under a key: from its own local address or from any of the machine's.
  pub is_entered : Row → Text → Bool
  unfolding row_key
  is_entered row j =
      is_made j (row_key row) (ntop_at ntop (row_addresses undefined.stack row).0 ∷ local_addresses)

  -- Whether a key is made from an address behind the row's own one in the list of local addresses.
  pub is_stale : Row → Text → Bool
  unfolding row_key
  is_stale row j =
      let own = row_key row (ntop_at ntop (row_addresses undefined.stack row).0) in
      is_made j (row_key row) (behind own (row_key row) local_addresses)

  -- The key of a row's own two addresses is made from them, and from no address behind, if the local
  -- one stands once at most in the list.
  pub own_key :
      (row : Row) (a b : NetAddr)
      → row_addresses undefined.stack row ≡ (a, b)
      → occurs (ntop_at ntop a) local_addresses ≤ 1
      → let j = hash_key (ntop_at ntop a) row.local_port (ntop_at ntop b) row.rem_port in
        (is_entered row j ≡ true) × (is_stale row j ≡ false)
  unfolding is_entered is_stale is_made row_key
  own_key row a b e once =
      let key = row_key row in
      let local_string = ntop_at ntop a in
      let j = hash_key local_string row.local_port (ntop_at ntop b) row.rem_port in
      let key_at : (s : Text) → key s ≡ hash_key s row.local_port (ntop_at ntop b) row.rem_port =
        λ s. ap (λ x. hash_key s row.local_port (ntop_at ntop x.1) row.rem_port) e in
      let injective : (s : Text) → key s ≡ key local_string → s ≡ local_string = λ s same.
        hash_key-source s local_string (ntop_at ntop b) row.local_port row.rem_port
          (sym (key_at s) ∙ same ∙ key_at local_string) in
      let own : key (ntop_at ntop (row_addresses undefined.stack row).0) ≡ key local_string =
        ap (λ x. key (ntop_at ntop x.0)) e in
      (
        ground (arith, (text_beq_iff _ j).1 (own ∙ key_at local_string)),
        ap
              (λ k. is_made k key (
                behind (key (ntop_at ntop (row_addresses undefined.stack row).0)) key
                  local_addresses))
              (sym (key_at local_string))
            ∙ ap (λ k. is_made (key local_string) key (behind k key local_addresses)) own
            ∙ is_made-behind local_string key injective local_addresses once,
      )

  lookup-add_row :
      (j : Text) (table : ConninodeTable) (row : Row)
      → lookup j (add_row ntop undefined local_addresses table row) ≡ (
          if is_stale row j
          then some (undefined.freed j)
          else if is_entered row j
          then some row.inode
          else lookup j table)
  unfolding add_row is_entered is_stale is_made get_local_addresses
  lookup-add_row j table row =
      let own = row_key row (ntop_at ntop (row_addresses undefined.stack row).0) in
      ground (
        arith,
        lookup-insert_all j undefined.freed own (row_key row) row.inode local_addresses
            (insert own row.inode table),
        lookup-insert own j row.inode table,
      )

  -- One line of the file, on every branch: a line that does not assign five fields, and a row of
  -- inode 0 (TIME_WAIT), leave every entry. Any other row sets the entries of its own key and of the
  -- keys from each local address to its inode, up to the first local address that gives the row's
  -- own key; behind that one the entries are set to what the freed memory of the inode holds. All
  -- other entries stay.
  pub lookup-addtoconninode :
      (j : Text) (table : ConninodeTable) (buffer : Text)
      → lookup j (addtoconninode ntop undefined local_addresses table buffer)
        ≡ elim (five (sscanf row_format (c_str buffer))) [
          | none ↦ lookup j table
          | some row ↦
              if row.inode == 0
              then lookup j table
              else if is_stale row j
              then some (undefined.freed j)
              else if is_entered row j
              then some row.inode
              else lookup j table
        ]
  unfolding addtoconninode
  lookup-addtoconninode j table buffer =
      elim (Option-cases (five (sscanf row_format (c_str buffer)))) [
        | inl e ↦ ground arith
        | inr (row, e) ↦ ground (arith, lookup-add_row j table row)
      ]
