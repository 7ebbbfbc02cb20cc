-- ===== src/Conninode/Files.antt =====
-- A refresh of the table of na-conninode.c, described line by line.
use gnome_usage.Base.{
  ℕ, ◌≡◌, refl, sym, ap, ◌∙◌, Option, none, some, List, [], ◌∷◌, ◌++◌, ◌==◌, arith, if◌then◌else◌,
  inl, inr, Option-cases, length,
}
use gnome_usage.Base.Text.{Text, c_str, text_eq}
use gnome_usage.Base.Assoc.{lookup}
use gnome_usage.Packet.{InetNtop}
use gnome_usage.Scanf.{sscanf}
use gnome_usage.Conninode.{
  ConninodeTable, Undefined, Row, five, row_format, addtoconninode, addprocinfo, fgets, buffer_room,
  ProcNet, conninode_table_refresh,
}
use gnome_usage.Conninode.Table.{is_entered, is_stale, lookup-addtoconninode}
use gnome_usage.Conninode.Rows.{lines, add_lines, addprocinfo_loop-lines}

-- The lines of a file behind its header; a file that cannot be opened has none.
unfoldable pub file_lines : Option Text → List Text
file_lines none = []
file_lines (some content) = let rest = (fgets buffer_room content).1 in lines (length rest) rest

-- All lines that a refresh reads, in their order.
unfoldable pub net_lines : ProcNet → List Text
unfolding file_lines
net_lines net =
    file_lines net.tcp ++ (file_lines net.tcp6 ++ (file_lines net.udp ++ file_lines net.udp6))

-- One that is given, or else another.
abbrev pub or_old : Option ℕ → Option ℕ → Option ℕ
or_old none old = old
or_old (some i) old = some i

module _ (ntop : InetNtop) (undefined : Undefined) (local_addresses : List Text) (j : Text) where
  abbrev row_entry : Option Row → Option ℕ
  row_entry none = none
  row_entry (some row) =
      if row.inode == 0
      then none
      else if is_stale ntop undefined local_addresses row j
      then some (undefined.freed j)
      else if is_entered ntop undefined local_addresses row j
      then some row.inode
      else none

  -- What a line enters under the key, if anything.
  unfoldable pub line_entry : Text → Option ℕ
  line_entry line = row_entry (five (sscanf row_format (c_str line)))

  -- The last entry that the lines make, or else the one given.
  unfoldable pub last_entry : List Text → Option ℕ → Option ℕ
  last_entry [] old = old
  last_entry (line ∷ rest) old = last_entry rest (or_old (line_entry line) old)

  pub lookup-line :
      (table : ConninodeTable) (line : Text)
      → lookup j (addtoconninode ntop undefined local_addresses table line)
        ≡ or_old (line_entry line) (lookup j table)
  unfolding line_entry
  lookup-line table line = elim (Option-cases (five (sscanf row_format (c_str line)))) [
    | inl e ↦ ground (arith, lookup-addtoconninode ntop undefined local_addresses j table line)
    | inr (row, e) ↦
        ground (arith, lookup-addtoconninode ntop undefined local_addresses j table line)
  ]

  lookup-add_lines :
      (ls : List Text) (table : ConninodeTable)
      → lookup j (add_lines ntop undefined local_addresses table ls)
        ≡ last_entry ls (lookup j table)
  unfolding last_entry add_lines
  lookup-add_lines [] table = refl
  lookup-add_lines (line ∷ rest) table =
      lookup-add_lines rest (addtoconninode ntop undefined local_addresses table line)
      ∙ ap (last_entry rest) (lookup-line table line)

  pub last_entry-append :
      (ls ks : List Text) (old : Option ℕ)
      → last_entry (ls ++ ks) old ≡ last_entry ks (last_entry ls old)
  unfolding last_entry
  last_entry-append [] ks old = refl
  last_entry-append (line ∷ rest) ks old = last_entry-append rest ks _

  lookup-addprocinfo :
      (file : Option Text) (table : ConninodeTable)
      → lookup j (addprocinfo ntop undefined local_addresses table file).0
        ≡ last_entry (file_lines file) (lookup j table)
  unfolding addprocinfo file_lines last_entry
  lookup-addprocinfo none table = refl
  lookup-addprocinfo (some content) table =
      let rest = (fgets buffer_room content).1 in
      ap (lookup j)
        (addprocinfo_loop-lines ntop undefined local_addresses (length rest) table rest
          (omega arith)).0
      ∙ lookup-add_lines (lines (length rest) rest) table

  -- A refresh takes the lines of the four files behind their headers, those of a file that cannot be
  -- opened being none, as one list: a key leads to what the last line enters that enters anything
  -- under it, and to what it led to before if there is no such line.
  pub lookup-refresh :
      (table : ConninodeTable) (net : ProcNet)
      → lookup j (conninode_table_refresh ntop undefined local_addresses table net)
        ≡ last_entry (net_lines net) (lookup j table)
  unfolding conninode_table_refresh net_lines
  lookup-refresh table net =
      let add = λ (t : ConninodeTable) (file : Option Text).
        (addprocinfo ntop undefined local_addresses t file).0 in
      let tcp6 = file_lines net.tcp6 in
      let udp = file_lines net.udp in
      let udp6 = file_lines net.udp6 in
      lookup-addprocinfo net.udp6 (add (add (add table net.tcp) net.tcp6) net.udp)
      ∙ ap (last_entry udp6) (
          lookup-addprocinfo net.udp (add (add table net.tcp) net.tcp6)
          ∙ ap (last_entry udp) (
              lookup-addprocinfo net.tcp6 (add table net.tcp)
              ∙ ap (last_entry tcp6) (lookup-addprocinfo net.tcp table)))
      ∙ sym (last_entry-append udp udp6 _)
      ∙ sym (last_entry-append tcp6 (udp ++ udp6) _)
      ∙ sym (last_entry-append (file_lines net.tcp) (tcp6 ++ (udp ++ udp6)) (lookup j table))
