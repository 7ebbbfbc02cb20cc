-- ===== src/Conninode/Rows.antt =====
-- The files of /proc/net as na-conninode.c reads them: the loop takes every line.
use gnome_usage.Base.{ℕ, zero, suc, ◌≤◌, ◌≡◌, refl, List, [], ◌∷◌, ◌++◌, arith, length}
use gnome_usage.Base.Text.{Text}
use gnome_usage.Packet.{InetNtop}
use gnome_usage.Conninode.{
  ConninodeTable, Undefined, addtoconninode, addprocinfo_loop, fgets, buffer_room,
}

-- `fgets` takes a front of the file off.
fgets-append : (room : ℕ) (s : Text) → (fgets room s).0 ++ (fgets room s).1 ≡ s
unfolding fgets
fgets-append zero s = refl
fgets-append (suc room) [] = refl
fgets-append (suc room) (c ∷ s) = ground (arith, fgets-append room s)

fgets-length : (room : ℕ) (s : Text) → length (fgets room s).1 ≤ length s
unfolding fgets
fgets-length zero s = omega arith
fgets-length (suc room) [] = omega arith
fgets-length (suc room) (c ∷ s) = ground (arith, fgets-length room s)

fgets-shorter : (room c : ℕ) (s : Text) → length (fgets (suc room) (c ∷ s)).1 ≤ length s
unfolding fgets
fgets-shorter room c s = ground (arith, fgets-length room s)

fits : (fuel c : ℕ) (s : Text) → length s ≤ fuel → length (fgets buffer_room (c ∷ s)).1 ≤ fuel
fits fuel c s h = omega (arith, fgets-shorter 8190 c s)

-- The lines that `fgets` cuts a file into, and the table that takes them one by one.
unfoldable pub lines : ℕ → Text → List Text
lines zero s = []
lines (suc fuel) [] = []
lines (suc fuel) (c ∷ s) = (fgets buffer_room (c ∷ s)).0 ∷ lines fuel (fgets buffer_room (c ∷ s)).1

pub joined : List Text → Text
joined [] = []
joined (l ∷ ls) = l ++ joined ls

module _ (ntop : InetNtop) (undefined : Undefined) (local_addresses : List Text) where
  unfoldable pub add_lines : ConninodeTable → List Text → ConninodeTable
  add_lines table [] = table
  add_lines table (l ∷ ls) = add_lines (addtoconninode ntop undefined local_addresses table l) ls

  -- Where every read brings what the file holds next, none failing, the reading loop, given fuel for
  -- the length of the file, adds the lines that fgets cuts, one after the other, and these put together
  -- are the file: nothing is left out and nothing is read twice.
  pub addprocinfo_loop-lines :
      (fuel : ℕ) (table : ConninodeTable) (s : Text)
      → length s ≤ fuel
      → (addprocinfo_loop ntop undefined local_addresses fuel table s
          ≡ add_lines table (lines fuel s))
        × (joined (lines fuel s) ≡ s)
  unfolding addprocinfo_loop add_lines lines joined
  addprocinfo_loop-lines zero table [] h = (refl, refl)
  addprocinfo_loop-lines zero table (c ∷ s) h = absurd (omega arith)
  addprocinfo_loop-lines (suc fuel) table [] h = (refl, refl)
  addprocinfo_loop-lines (suc fuel) table (c ∷ s) h =
      let (same, whole) =
        addprocinfo_loop-lines fuel
          (addtoconninode ntop undefined local_addresses table (fgets buffer_room (c ∷ s)).0)
          (fgets buffer_room (c ∷ s)).1 (fits fuel c s (omega arith)) in
      (same, rw whole (fgets-append buffer_room (c ∷ s)))
