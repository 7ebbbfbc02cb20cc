-- ===== src/Conninode/Sought.antt =====
-- A refresh of the table of na-conninode.c that comes across a printed row.
use gnome_usage.Base.{
  ℕ, ◌^◌, ◌<◌, ◌≤◌, ◌≡◌, refl, sym, ap, ◌∙◌, Option, none, some, List, [], ◌∷◌, ◌++◌, arith, All,
}
use gnome_usage.Base.Text.{Text, text_eq}
use gnome_usage.Base.Assoc.{lookup}
use gnome_usage.LocalAddresses.Occurs.{occurs}
use gnome_usage.Packet.{InetNtop, hash_key}
use gnome_usage.Scanf.Print.{hex_text}
use gnome_usage.Conninode.{ConninodeTable, Undefined, ProcNet, conninode_table_refresh}
use gnome_usage.Conninode.Printed.{Line, row_line}
use gnome_usage.Conninode.Entered.{IsLine, hex_text-line}
use gnome_usage.Conninode.Files.{
  net_lines, line_entry, last_entry, or_old, lookup-line, last_entry-append, lookup-refresh,
}

module _ (ntop : InetNtop) (undefined : Undefined) (local_addresses : List Text) where
  -- Lines that enter nothing under a key change nothing of it.
  pub last_entry-none :
      (j : Text) (ls : List Text) (old : Option ℕ)
      → All (λ line. line_entry ntop undefined local_addresses j line ≡ none) ls
      → last_entry ntop undefined local_addresses j ls old ≡ old
  unfolding last_entry
  last_entry-none j [] old h = refl
  last_entry-none j (line ∷ rest) old (first, h) =
      ap (λ e. last_entry ntop undefined local_addresses j rest (or_old e old)) first
      ∙ last_entry-none j rest old h

  module _ (s_ip d_ip : ℕ) (l : Line) (tail : Text) where
    abbrev printed_row : Text
    printed_row = row_line (hex_text 8 s_ip) (hex_text 8 d_ip) l tail

    abbrev own : Text
    own = hash_key (ntop.ntop4 s_ip) l.local_port (ntop.ntop4 d_ip) l.rem_port

    -- The row enters its inode under its own key.
    printed_row-entry :
        IsLine l
        → s_ip < 2 ^ 32
        → d_ip < 2 ^ 32
        → occurs (ntop.ntop4 s_ip) local_addresses ≤ 1
        → line_entry ntop undefined local_addresses own printed_row ≡ some l.inode
    unfolding lookup
    printed_row-entry w hs hd once =
        let here =
          sym (lookup-line ntop undefined local_addresses own [] printed_row)
          ∙ hex_text-line ntop undefined local_addresses [] s_ip d_ip l tail w hs hd once in
        ground (arith, here)

    -- After a refresh whose files show the row, with nothing behind it that concerns its key, the key
    -- leads to the row's inode.
    pub refresh-printed_row :
        (table : ConninodeTable) (net : ProcNet) (before after : List Text)
        → IsLine l
        → s_ip < 2 ^ 32
        → d_ip < 2 ^ 32
        → occurs (ntop.ntop4 s_ip) local_addresses ≤ 1
        → net_lines net ≡ before ++ printed_row ∷ after
        → All (λ line. line_entry ntop undefined local_addresses own line ≡ none) after
        → lookup own (conninode_table_refresh ntop undefined local_addresses table net)
          ≡ some l.inode
    unfolding last_entry
    refresh-printed_row table net before after w hs hd once shown others =
        lookup-refresh ntop undefined local_addresses own table net
        ∙ ap (λ ls. last_entry ntop undefined local_addresses own ls (lookup own table)) shown
        ∙ last_entry-append ntop undefined local_addresses own before (printed_row ∷ after) _
        ∙ last_entry-none own after _ others
        ∙ ap
            (λ e.
              or_old e (last_entry ntop undefined local_addresses own before (lookup own table)))
            (printed_row-entry w hs hd once)
