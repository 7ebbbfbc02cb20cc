-- ===== src/Conninode.antt =====
-- network-analyzer/na-conninode.c: the table from connections to inodes, filled from /proc/net. The
-- static table is an argument, and so are the files' contents.
pub mod Table
pub mod Rows
pub mod Printed
pub mod Addresses
pub mod Entered
pub mod Agreement
pub mod Files
pub mod Sought
use gnome_usage.Base.{
  ℕ, zero, suc, Bool, true, false, ◌&&◌, Option, none, some, List, [], ◌∷◌, ltb, ◌==◌,
  if◌then◌else◌, length, ◌++◌,
}
use gnome_usage.Base.Text.{Text, c_str, text_eq, text_beq}
use gnome_usage.Base.Assoc.{insert}
use gnome_usage.LocalAddresses.{get_local_addresses}
use gnome_usage.Packet.{SaFamily, inet, inet6, In6Addr, InetNtop, hash_key}
use gnome_usage.Scanf.{
  Directive, space, byte, hex_set, hex, dec, skip_hex, skip_dec, skip_word, Value, str, num, sscanf,
  span, scan_hex, hex_number, is_hex, skip_space,
}

-- From the key of a connection to its inode.
abbrev pub ConninodeTable : Type 0
ConninodeTable = List (Text × ℕ)

-- "%*d: %64[0-9A-Fa-f]:%X %64[0-9A-Fa-f]:%X %*X %*X:%*X %*X:%*X %*X %*d %*d %ld %*512s\n"
abbrev pub row_format : List Directive
row_format =
    skip_dec
    ∷ byte b':'
    ∷ space
    ∷ hex_set 64
    ∷ byte b':'
    ∷ hex
    ∷ space
    ∷ hex_set 64
    ∷ byte b':'
    ∷ hex
    ∷ space
    ∷ skip_hex
    ∷ space
    ∷ skip_hex
    ∷ byte b':'
    ∷ skip_hex
    ∷ space
    ∷ skip_hex
    ∷ byte b':'
    ∷ skip_hex
    ∷ space
    ∷ skip_hex
    ∷ space
    ∷ skip_dec
    ∷ space
    ∷ skip_dec
    ∷ space
    ∷ dec
    ∷ space
    ∷ skip_word 512
    ∷ space
    ∷ []

-- What the five conversions assign.
pub record Row : Type 0 where
  pub local_addr : Text
  pub local_port : ℕ
  pub rem_addr : Text
  pub rem_port : ℕ
  pub inode : ℕ

-- `matches != 5`
unfoldable pub five : List Value → Option Row
five (str l ∷ num lp ∷ str r ∷ num rp ∷ num i ∷ []) =
    some (record { local_addr = l; local_port = lp; rem_addr = r; rem_port = rp; inode = i })
five _ = none

-- An address as `inet_ntop` gets it: an IPv4 address is in the first word.
pub record NetAddr : Type 0 where
  pub sa_family : SaFamily
  pub words : In6Addr

unfoldable pub ntop_at : InetNtop → NetAddr → Text
ntop_at ntop a = elim a.sa_family [ inet ↦ ntop.ntop4 a.words.w0 | inet6 ↦ ntop.ntop6 a.words ]

-- `%08X` at the front of a text, with the value that stays where nothing is left to read.
pub eight_hex : ℕ → Text → ℕ × Text
unfolding skip_space span is_hex hex_number
eight_hex old s =
    let (front, rest) = span is_hex 8 (skip_space s) in
    elim front [ [] ↦ (old, []) | c ∷ more ↦ (hex_number (c ∷ more), rest) ]

-- `sscanf (addr, "%08X%08X%08X%08X", …)` into memory that holds `old`.
unfoldable pub scan_in6 : In6Addr → Text → In6Addr
unfolding eight_hex
scan_in6 old s =
    let (a, after_a) = eight_hex old.w0 s in
    let (b, after_b) = eight_hex old.w1 after_a in
    let (c, after_c) = eight_hex old.w2 after_b in
    let (d, after_d) = eight_hex old.w3 after_c in record { w0 = a; w1 = b; w2 = c; w3 = d }

-- `sscanf (addr, "%X", (guint *) &result)` into memory that holds `old`.
pub scan_in : In6Addr → Text → In6Addr
unfolding scan_hex
scan_in old s = elim (scan_hex s) [ none ↦ old | some (n, rest) ↦ record old { w0 = n } ]

-- The branch on the form of the two addresses; `old` is what the local variables hold before.
unfoldable pub row_addresses : In6Addr → Row → NetAddr × NetAddr
unfolding scan_in6 scan_in
row_addresses old row =
    if ltb 8 (length row.local_addr)
    then (let in6_local = scan_in6 old row.local_addr in
        let in6_remote = scan_in6 old row.rem_addr in
        if in6_local.w0 == 0 && in6_local.w1 == 0 && in6_local.w2 == 0xFFFF0000
        then (
          record { sa_family = inet; words = record old { w0 = in6_local.w3 } },
          record { sa_family = inet; words = record old { w0 = in6_remote.w3 } },
        )
        else (
          record { sa_family = inet6; words = in6_local },
          record { sa_family = inet6; words = in6_remote },
        ))
    else (
      record { sa_family = inet; words = scan_in old row.local_addr },
      record { sa_family = inet; words = scan_in old row.rem_addr },
    )

-- What memory holds that the C standard leaves undefined: a stack variable before it is written, and
-- the freed block of an inode that is read when a key is entered.
pub record Undefined : Type 0 where
  pub stack : In6Addr
  pub freed : Text → ℕ

-- The loop over the local addresses. `inode` is the memory behind the pointer, which `own`'s entry
-- owns: it is freed when another inode is inserted under that key.
unfoldable pub insert_all :
    (Text → ℕ) → Text → ConninodeTable → List Text → (Text → Text) → Option ℕ → ConninodeTable
insert_all freed own table [] key inode = table
insert_all freed own table (address ∷ rest) key inode =
    let hashkey = key address in
    let inode_dup : ℕ = elim inode [ none ↦ freed hashkey | some i ↦ i ] in
    insert_all freed own (insert hashkey inode_dup table) rest key
      (if text_beq hashkey own then none else inode)

module _ (ntop : InetNtop) (undefined : Undefined) (local_addresses : List Text) where
  -- The part of `addtoconninode` behind its two early returns.
  unfoldable pub add_row : ConninodeTable → Row → ConninodeTable
  add_row table row =
      let (result_addr_local, result_addr_remote) = row_addresses undefined.stack row in
      let local_string = ntop_at ntop result_addr_local in
      let remote_string = ntop_at ntop result_addr_remote in
      let hashkey =
        λ (address : Text). hash_key address row.local_port remote_string row.rem_port in
      insert_all undefined.freed (hashkey local_string)
        (insert (hashkey local_string) row.inode table) (get_local_addresses local_addresses)
        hashkey (some row.inode)

  unfoldable pub addtoconninode : ConninodeTable → Text → ConninodeTable
  addtoconninode table buffer = elim (five (sscanf row_format (c_str buffer))) [
    | none ↦ table
    | some row ↦ if row.inode == 0 then table else add_row table row
  ]

-- `fgets` with room for that many bytes: the line with its newline, and what is left of the file.
unfoldable pub fgets : ℕ → Text → Text × Text
fgets zero s = ([], s)
fgets (suc room) [] = ([], [])
fgets (suc room) (c ∷ s) =
    let (line, rest) = fgets room s in if c == 10 then (c ∷ [], s) else (c ∷ line, rest)

-- `sizeof (buffer) - 1`
abbrev pub buffer_room : ℕ
buffer_room = 8191

module _ (ntop : InetNtop) (undefined : Undefined) (local_addresses : List Text) where
  -- The loop up to the end of the file, where no read fails. Each round reads a byte at least, so the
  -- length of the file is fuel enough. (A read that fails leaves `feof` unset and is tried again.)
  unfoldable pub addprocinfo_loop : ℕ → ConninodeTable → Text → ConninodeTable
  addprocinfo_loop zero table s = table
  addprocinfo_loop (suc fuel) table [] = table
  addprocinfo_loop (suc fuel) table (c ∷ s) =
      let (line, rest) = fgets buffer_room (c ∷ s) in
      addprocinfo_loop fuel (addtoconninode ntop undefined local_addresses table line) rest

  -- `none` is a file that cannot be opened. The first line is the header.
  unfoldable pub addprocinfo : ConninodeTable → Option Text → ConninodeTable × Bool
  addprocinfo table none = (table, false)
  addprocinfo table (some content) =
      let (header, rest) = fgets buffer_room content in
      (addprocinfo_loop (length rest) table rest, true)

-- The four files as one refresh finds them: what can be read of each, or `none` for one that cannot
-- be opened. A read does not fail.
pub record ProcNet : Type 0 where
  pub tcp : Option Text
  pub tcp6 : Option Text
  pub udp : Option Text
  pub udp6 : Option Text

unfoldable pub conninode_table_refresh :
    InetNtop → Undefined → List Text → ConninodeTable → ProcNet → ConninodeTable
conninode_table_refresh ntop undefined local_addresses table net =
    let add = λ (t : ConninodeTable) (file : Option Text).
      (addprocinfo ntop undefined local_addresses t file).0 in
    add (add (add (add table net.tcp) net.tcp6) net.udp) net.udp6
